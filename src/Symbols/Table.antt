-- ===== src/Symbols/Table.antt =====
-- crates/cobol-sema/src/symbol_table.rs: the operations of the symbol table.
use rust_cobol.Prelude.{
  ℕ, zero, suc, Option, none, some, List, [], ◌∷◌, ◌++◌, if◌then◌else◌, length, get_elem?, set,
}
use rust_cobol.Prelude.Text.{Text, codes, text_eq, uppercase}
use rust_cobol.Symbols.Types.{ScopeKind, Symbol, Scope, SymbolTable}

abbrev global_name : Text
global_name = codes "<global>"

unfoldable pub new : SymbolTable
new = record {
  scopes =
      record { name = global_name; kind = ScopeKind.program; symbols = []; parent = none } ∷ [];
  current_scope = 0;
}

unfoldable pub push_scope : SymbolTable → Text → ScopeKind → SymbolTable
push_scope t name kind = record {
  scopes =
      t.scopes
      ++ record { name = name; kind = kind; symbols = []; parent = some t.current_scope } ∷ [];
  current_scope = length t.scopes;
}

-- `self.scopes[i].parent`; the source panics where `i` is out of range, which no table reaches.
unfoldable pub parent_of : List Scope → ℕ → Option ℕ
parent_of scopes i = elim (get_elem? scopes i) [ none ↦ none | some s ↦ s.parent ]

unfoldable pub pop_scope : SymbolTable → SymbolTable
pop_scope t = elim (parent_of t.scopes t.current_scope) [
  | none ↦ t
  | some parent ↦ record t { current_scope = parent }
]

-- The symbols of a key, in the order of their definition; `[]` where the key is missing.
unfoldable pub entries : Text → List (Text × List Symbol) → List Symbol
entries key [] = []
entries key ((k, syms) ∷ m) = if text_eq k key then syms else entries key m

-- `entry(key).or_default().push(symbol)`
unfoldable pub push_entry : Text → Symbol → List (Text × List Symbol) → List (Text × List Symbol)
push_entry key symbol [] = (key, symbol ∷ []) ∷ []
push_entry key symbol ((k, syms) ∷ m) =
    if text_eq k key then (k, syms ++ symbol ∷ []) ∷ m else (k, syms) ∷ push_entry key symbol m

unfoldable pub define_in : Scope → Symbol → Scope
define_in scope symbol = record scope {
  symbols = push_entry (uppercase symbol.name) symbol scope.symbols;
}

unfoldable pub define : SymbolTable → Symbol → SymbolTable
define t symbol = elim (get_elem? t.scopes t.current_scope) [
  | none ↦ t
  | some scope ↦ record t { scopes = set t.scopes t.current_scope (define_in scope symbol) }
]

abbrev pub first : List Symbol → Option Symbol
first [] = none
first (s ∷ ss) = some s

abbrev pub or_else : Option Symbol → Option Symbol → Option Symbol
or_else none o = o
or_else (some s) o = some s

-- The symbols of a key in one scope.
unfoldable pub entries_at : List Scope → Text → ℕ → List Symbol
entries_at scopes key i = elim (get_elem? scopes i) [ none ↦ [] | some s ↦ entries key s.symbols ]

-- The loop of `lookup`, from a scope up to the root.
unfoldable pub lookup_from : ℕ → List Scope → Text → ℕ → Option Symbol
lookup_from zero scopes key i = none
lookup_from (suc fuel) scopes key i = elim (first (entries_at scopes key i)) [
  | some symbol ↦ some symbol
  | none ↦ elim (parent_of scopes i) [
    | none ↦ none
    | some parent ↦ lookup_from fuel scopes key parent
  ]
]

-- A parent comes before its scope, so a round for each scope is enough (`lookup_from-fuel`).
unfoldable pub lookup : SymbolTable → Text → Option Symbol
lookup t name = lookup_from (length t.scopes) t.scopes (uppercase name) t.current_scope
