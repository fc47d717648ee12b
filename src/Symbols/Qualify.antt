-- ===== src/Symbols/Qualify.antt =====
-- crates/cobol-sema/src/symbol_table.rs: names qualified with OF and IN.
pub mod Greedy
use rust_cobol.Prelude.{
  ℕ, zero, suc, ◌+◌, ◌≤◌, ◌<◌, ◌≡◌, refl, sym, ap, ◌∙◌, ◌↔◌, inl, inr, Bool, true, false, ◌&&◌,
  Option, none, some, List, [], ◌∷◌, ◌++◌, map, arith, ◌==◌, if◌then◌else◌, Bool-cases,
  Option-cases, length, drop,
}
use rust_cobol.Prelude.Text.{Text, text_eq, to_ascii_lowercase, uppercase}
use rust_cobol.Common.Span.{Span}
use rust_cobol.Symbols.Types.{Symbol, Scope, SymbolTable}
use rust_cobol.Symbols.Table.{entries, first, or_else, lookup}

-- `==` on spans, which the source derives.
unfoldable pub span_eq : Span → Span → Bool
span_eq a b = a.start == b.start && (a.end == b.end && a.file_id == b.file_id)

unfoldable pub eq_ignore_ascii_case : Text → Text → Bool
eq_ignore_ascii_case a b = text_eq (map to_ascii_lowercase a) (map to_ascii_lowercase b)

-- The symbols of a key in every scope, in the scopes' order.
unfoldable pub all_symbols : Text → List Scope → List Symbol
all_symbols key [] = []
all_symbols key (scope ∷ scopes) = entries key scope.symbols ++ all_symbols key scopes

unfoldable pub find_all_symbols : SymbolTable → Text → List Symbol
find_all_symbols t name = all_symbols (uppercase name) t.scopes

unfoldable pub find_symbol_anywhere : SymbolTable → Text → Option Symbol
find_symbol_anywhere t name = first (find_all_symbols t name)

abbrev pub last : List Symbol → Option Symbol
last [] = none
last (s ∷ ss) = or_else (last ss) (some s)

unfoldable pub find_last_symbol : SymbolTable → Text → Option Symbol
find_last_symbol t name = last (find_all_symbols t name)

-- `Iterator::find`
unfoldable pub find : (Symbol → Bool) → List Symbol → Option Symbol
find p [] = none
find p (s ∷ ss) = if p s then some s else find p ss

unfoldable pub find_symbol_by_name_and_span : SymbolTable → Text → Span → Option Symbol
find_symbol_by_name_and_span t name span = find (λ s. span_eq s.span span) (find_all_symbols t name)

unfoldable pub by_span : SymbolTable → Text → Option Span → Option Symbol
by_span t parent_name none = none
by_span t parent_name (some ps) = find_symbol_by_name_and_span t parent_name ps

-- The parent of a symbol: by its span, else by its name alone.
unfoldable pub parent_symbol : SymbolTable → Symbol → Option Symbol
parent_symbol t current = elim current.parent_name [
  | none ↦ none
  | some pn ↦ or_else (by_span t pn current.parent_span) (find_symbol_anywhere t pn)
]

-- The loop of `build_ancestor_chain`, with the rounds left.
unfoldable pub ancestors_within : ℕ → SymbolTable → Symbol → List Symbol
ancestors_within zero t current = []
ancestors_within (suc limit) t current = elim (parent_symbol t current) [
  | none ↦ []
  | some p ↦ p ∷ ancestors_within limit t p
]

unfoldable pub build_ancestor_chain : SymbolTable → Symbol → List Symbol
build_ancestor_chain t symbol = ancestors_within 50 t symbol

abbrev next : Option ℕ → Option ℕ
next none = none
next (some n) = some (n + 1)

-- `Iterator::position`, of a name.
unfoldable pub position : Text → List Symbol → Option ℕ
position qualifier [] = none
position qualifier (a ∷ ancestors) =
    if eq_ignore_ascii_case a.name qualifier then some 0 else next (position qualifier ancestors)

-- The loop of `matches_qualifiers`.
unfoldable pub matches_from : ℕ → List Symbol → List Text → Bool
matches_from search_from ancestors [] = true
matches_from search_from ancestors (qualifier ∷ qualifiers) =
    elim (position qualifier (drop search_from ancestors)) [
      | none ↦ false
      | some n ↦ matches_from (search_from + (n + 1)) ancestors qualifiers
    ]

unfoldable pub matches_qualifiers : SymbolTable → List Text → Symbol → Bool
matches_qualifiers t qualifiers symbol = matches_from 0 (build_ancestor_chain t symbol) qualifiers

unfoldable pub lookup_qualified : SymbolTable → Text → List Text → Option Symbol
lookup_qualified t name [] = lookup t name
lookup_qualified t name (q ∷ qs) = find (matches_qualifiers t (q ∷ qs)) (find_all_symbols t name)

-- The qualifiers name ancestors, from the inside out, with others between them.
pub data Qualifies : List Symbol → List Text → Type 0 where
  done : (ancestors : List Symbol) → Qualifies ancestors []
  named :
      (a : Symbol) (ancestors : List Symbol) (q : Text) (qs : List Text)
      → eq_ignore_ascii_case a.name q ≡ true
      → Qualifies ancestors qs
      → Qualifies (a ∷ ancestors) (q ∷ qs)
  between :
      (a : Symbol) (ancestors : List Symbol) (qs : List Text)
      → Qualifies ancestors qs
      → Qualifies (a ∷ ancestors) qs
