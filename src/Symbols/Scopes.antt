-- ===== src/Symbols/Scopes.antt =====
-- crates/cobol-sema/src/symbol_table.rs: the scopes of every table form a tree, so that the walk up
-- to the root ends.
use rust_cobol.Prelude.{
  ℕ, zero, suc, ◌<◌, ◌≡◌, refl, inl, inr, Option, none, some, List, [], ◌∷◌, ◌++◌, arith, ◌==◌,
  if◌then◌else◌, Option-cases, length, get_elem?, set, length-append, length-set,
  get_elem?-append_last,
}
use rust_cobol.Prelude.Text.{Text}
use rust_cobol.Symbols.Types.{ScopeKind, Symbol, Scope, SymbolTable}
use rust_cobol.Symbols.Table

abbrev pub BelowIndex : Option ℕ → ℕ → Type 0
BelowIndex none i = Unit {0}
BelowIndex (some p) i = p < i

-- The current scope exists, and a scope's parent stands before it.
pub record IsTree (t : SymbolTable) : Type 0 where
  pub current : t.current_scope < length t.scopes
  pub parents : (i : ℕ) → BelowIndex (Table.parent_of t.scopes i) i

new-IsTree : IsTree Table.new
unfolding Table.new Table.parent_of
new-IsTree = record { current = omega arith; parents = no_parent }
  where
    no_parent : (i : ℕ) → BelowIndex (Table.parent_of Table.new.scopes i) i
    no_parent zero = tt
    no_parent (suc i) = tt

-- The parent of a scope in a table with one more scope.
pub parent_of-append :
    (scopes : List Scope) (s : Scope) (i : ℕ)
    → Table.parent_of (scopes ++ s ∷ []) i
      ≡ (if i == length scopes then s.parent else Table.parent_of scopes i)
unfolding Table.parent_of
parent_of-append scopes s i = ground (arith, get_elem?-append_last scopes s i)

push_scope-IsTree :
    (t : SymbolTable) (name : Text) (kind : ScopeKind)
    → IsTree t
    → IsTree (Table.push_scope t name kind)
unfolding Table.push_scope
push_scope-IsTree t name kind h = record {
  current = omega (arith, length-append t.scopes (new_scope ∷ []));
  parents = λ i. ground (arith, parent_of-append t.scopes new_scope i, h.parents i, h.current);
}
  where
    new_scope : Scope
    new_scope = record { name = name; kind = kind; symbols = []; parent = some t.current_scope }

pop_scope-IsTree : (t : SymbolTable) → IsTree t → IsTree (Table.pop_scope t)
unfolding Table.pop_scope
pop_scope-IsTree t h = elim (Option-cases (Table.parent_of t.scopes t.current_scope)) [
  | inl root ↦ rw (root, Table.pop_scope) h
  | inr (p, e) ↦
      rw (e, Table.pop_scope)
        (record { current = below p e (h.parents t.current_scope); parents = h.parents })
]
  where
    below :
        (p : ℕ)
        → Table.parent_of t.scopes t.current_scope ≡ some p
        → BelowIndex (Table.parent_of t.scopes t.current_scope) t.current_scope
        → p < length t.scopes
    below p e b = omega (arith, rw e at b, h.current)

-- Writing a scope whose parent is the same keeps every parent.
pub parent_of-set :
    (scopes : List Scope) (k : ℕ) (s s' : Scope) (i : ℕ)
    → get_elem? scopes k ≡ some s
    → s'.parent ≡ s.parent
    → Table.parent_of (set scopes k s') i ≡ Table.parent_of scopes i
unfolding Table.parent_of
parent_of-set [] k s s' i h e = refl
parent_of-set (x ∷ xs) zero s s' zero h e = ground arith
parent_of-set (x ∷ xs) zero s s' (suc i) h e = refl
parent_of-set (x ∷ xs) (suc k) s s' zero h e = refl
parent_of-set (x ∷ xs) (suc k) s s' (suc i) h e = parent_of-set xs k s s' i h e

define-IsTree : (t : SymbolTable) (symbol : Symbol) → IsTree t → IsTree (Table.define t symbol)
unfolding Table.define Table.define_in
define-IsTree t symbol h = elim (Option-cases (get_elem? t.scopes t.current_scope)) [
  | inl missing ↦ rw (missing, Table.define) h
  | inr (s, e) ↦
      rw (e, Table.define)
        (record {
          current =
              omega
                (arith, length-set t.scopes t.current_scope (Table.define_in s symbol), h.current);
          parents = λ i.
              rw (parent_of-set t.scopes t.current_scope s (Table.define_in s symbol) i e refl)
                (h.parents i);
        })
]

-- The calls that change a table.
pub data Op : Type 0 where
  push_scope : Text → ScopeKind → Op
  pop_scope : Op
  define : Symbol → Op

unfoldable pub apply : Op → SymbolTable → SymbolTable
apply (push_scope name kind) t = Table.push_scope t name kind
apply pop_scope t = Table.pop_scope t
apply (define symbol) t = Table.define t symbol

unfoldable pub run : List Op → SymbolTable → SymbolTable
run [] t = t
run (op ∷ ops) t = run ops (apply op t)

apply-IsTree : (op : Op) (t : SymbolTable) → IsTree t → IsTree (apply op t)
unfolding apply
apply-IsTree (push_scope name kind) t h = push_scope-IsTree t name kind h
apply-IsTree pop_scope t h = pop_scope-IsTree t h
apply-IsTree (define symbol) t h = define-IsTree t symbol h

run-IsTree_from : (ops : List Op) (t : SymbolTable) → IsTree t → IsTree (run ops t)
unfolding run
run-IsTree_from [] t h = h
run-IsTree_from (op ∷ ops) t h = run-IsTree_from ops (apply op t) (apply-IsTree op t h)

-- Every table that the operations build from the empty one is a tree: its current scope exists, and
-- every parent stands before its scope, so no walk up to the root leaves the table or goes round.
pub run-IsTree : (ops : List Op) → IsTree (run ops Table.new)
run-IsTree ops = run-IsTree_from ops Table.new new-IsTree
