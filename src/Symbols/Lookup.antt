-- ===== src/Symbols/Lookup.antt =====
-- crates/cobol-sema/src/symbol_table.rs: what `lookup` finds.
use rust_cobol.Prelude.{
  ℕ, zero, suc, ◌≤◌, ◌<◌, ◌≡◌, refl, sym, ◌∙◌, inl, inr, true, false, ◌&&◌, Option, none, some,
  List, [], ◌∷◌, ◌++◌, arith, ◌==◌, if◌then◌else◌, Bool-cases, Option-cases, length, get_elem?, set,
  length-set,
}
use rust_cobol.Prelude.Text.{Text, text_eq, uppercase, text_eq_refl, eq_of_text_eq}
use rust_cobol.Symbols.Types.{Symbol, Scope, SymbolTable}
use rust_cobol.Symbols.Table
use rust_cobol.Symbols.Table.{
  entries, push_entry, entries_at, parent_of, lookup_from, first, or_else,
}
use rust_cobol.Symbols.Scopes.{IsTree, BelowIndex, parent_of-set}

entries-push_entry :
    (k : Text) (symbol : Symbol) (m : List (Text × List Symbol)) (key : Text)
    → entries key (push_entry k symbol m)
      ≡ (if text_eq k key then entries k m ++ symbol ∷ [] else entries key m)
unfolding entries push_entry
entries-push_entry k symbol [] key = ground (arith, text_eq_refl k)
entries-push_entry k symbol ((j, syms) ∷ m) key = ground (
  arith,
  eq_of_text_eq j k,
  eq_of_text_eq k key,
  text_eq_refl k,
  entries-push_entry k symbol m key,
)

-- One round of the walk: found, at the root, or on to the parent.
module _ (f : ℕ) (scopes : List Scope) (key : Text) (i : ℕ) where
  lookup_from-found :
      {symbol : Symbol}
      → first (entries_at scopes key i) ≡ some symbol
      → lookup_from (suc f) scopes key i ≡ some symbol
  unfolding lookup_from
  lookup_from-found e = rw (e, lookup_from)

  lookup_from-root :
      first (entries_at scopes key i) ≡ none
      → parent_of scopes i ≡ none
      → lookup_from (suc f) scopes key i ≡ none
  unfolding lookup_from
  lookup_from-root e r = rw (e, r, lookup_from)

  lookup_from-up :
      {p : ℕ}
      → first (entries_at scopes key i) ≡ none
      → parent_of scopes i ≡ some p
      → lookup_from (suc f) scopes key i ≡ lookup_from f scopes key p
  unfolding lookup_from
  lookup_from-up e r = rw (e, r, lookup_from)

below_of : (o : Option ℕ) (p i : ℕ) → o ≡ some p → BelowIndex o i → p < i
below_of none p i e b = cc
below_of (some q) p i e b = ground (arith, b)

-- Two tables that agree on every scope up to `i`, on what stands under the key and on the parent,
-- agree on the walk from `i`, each with fuel for it.
walk_eq :
    (f g i : ℕ) (scopes scopes' : List Scope) (key : Text)
    → ((j : ℕ) → BelowIndex (parent_of scopes j) j)
    → ((j : ℕ) → j ≤ i → first (entries_at scopes' key j) ≡ first (entries_at scopes key j))
    → ((j : ℕ) → j ≤ i → parent_of scopes' j ≡ parent_of scopes j)
    → i < f
    → i < g
    → lookup_from f scopes' key i ≡ lookup_from g scopes key i
walk_eq zero g i scopes scopes' key h same up p q = absurd (omega arith)
walk_eq (suc f) zero i scopes scopes' key h same up p q = absurd (omega arith)
walk_eq (suc f) (suc g) i scopes scopes' key h same up p q =
    elim (Option-cases (first (entries_at scopes key i))) [
      | inr (symbol, e) ↦
          lookup_from-found f scopes' key i (same i (omega arith) ∙ e)
          ∙ sym (lookup_from-found g scopes key i e)
      | inl missing ↦ elim (Option-cases (parent_of scopes i)) [
        | inl root ↦
            lookup_from-root f scopes' key i (same i (omega arith) ∙ missing)
              (up i (omega arith) ∙ root)
            ∙ sym (lookup_from-root g scopes key i missing root)
        | inr (j, e) ↦
            let lower : j < i = below_of (parent_of scopes i) j i e (h i) in
            lookup_from-up f scopes' key i (same i (omega arith) ∙ missing) (up i (omega arith) ∙ e)
            ∙ walk_eq f g j scopes scopes' key h (λ k b. same k (omega arith))
                (λ k b. up k (omega arith)) (omega arith) (omega arith)
            ∙ sym (lookup_from-up g scopes key i missing e)
      ]
    ]

entries_at-define :
    (scopes : List Scope) (c : ℕ) (scope : Scope) (symbol : Symbol) (key : Text) (j : ℕ)
    → get_elem? scopes c ≡ some scope
    → entries_at (set scopes c (Table.define_in scope symbol)) key j ≡ (
        if j == c && text_eq (uppercase symbol.name) key
        then entries_at scopes (uppercase symbol.name) c ++ symbol ∷ []
        else entries_at scopes key j)
unfolding entries_at Table.define_in
entries_at-define [] c scope symbol key j e = cc
entries_at-define (x ∷ xs) zero scope symbol key zero e =
    ground (arith, e, entries-push_entry (uppercase symbol.name) symbol scope.symbols key)
entries_at-define (x ∷ xs) zero scope symbol key (suc j) e = ground arith
entries_at-define (x ∷ xs) (suc c) scope symbol key zero e = ground arith
entries_at-define (x ∷ xs) (suc c) scope symbol key (suc j) e =
    ground (arith, entries_at-define xs c scope symbol key j e)

length-get_elem?-none : {A : Type 0} (xs : List A) (k : ℕ) → get_elem? xs k ≡ none → length xs ≤ k
length-get_elem?-none [] k e = omega arith
length-get_elem?-none (x ∷ xs) zero e = absurd (cc (e))
length-get_elem?-none (x ∷ xs) (suc k) e = omega (arith, length-get_elem?-none xs k e)

first-append : (l : List Symbol) (s : Symbol) → first (l ++ s ∷ []) ≡ or_else (first l) (some s)
first-append [] s = refl
first-append (x ∷ xs) s = refl

lookup_from-first :
    (f : ℕ) (scopes : List Scope) (key : Text) (i : ℕ) (o : Option Symbol) (s : Symbol)
    → first (entries_at scopes key i) ≡ or_else o (some s)
    → lookup_from (suc f) scopes key i ≡ or_else o (some s)
lookup_from-first f scopes key i none s e = lookup_from-found f scopes key i e
lookup_from-first f scopes key i (some x) s e = lookup_from-found f scopes key i e

-- The walk after a definition, where the current scope is `scope`.
module _ (t : SymbolTable) (symbol : Symbol) (name : Text) (scope : Scope) (h : IsTree t)
    (e : get_elem? t.scopes t.current_scope ≡ some scope) where
  written : List Scope
  written = set t.scopes t.current_scope (Table.define_in scope symbol)

  lookup-define_same :
      text_eq (uppercase symbol.name) (uppercase name) ≡ true
      → (n : ℕ) → n ≡ length written
      → lookup_from n written (uppercase name) t.current_scope
        ≡ or_else (first (entries_at t.scopes (uppercase name) t.current_scope)) (some symbol)
  unfolding written
  lookup-define_same same zero l = absurd (
      omega
        (arith, l, h.current, length-set t.scopes t.current_scope (Table.define_in scope symbol)))
  lookup-define_same same (suc n) l =
      lookup_from-first n written (uppercase name) t.current_scope
        (first (entries_at t.scopes (uppercase name) t.current_scope)) symbol
        (ground (
          arith,
          same,
          eq_of_text_eq (uppercase symbol.name) (uppercase name),
          entries_at-define t.scopes t.current_scope scope symbol (uppercase name) t.current_scope
              e,
          first-append (entries_at t.scopes (uppercase name) t.current_scope) symbol,
        ))

  lookup-define_other :
      text_eq (uppercase symbol.name) (uppercase name) ≡ false
      → lookup_from (length written) written (uppercase name) t.current_scope ≡ Table.lookup t name
  unfolding written Table.lookup Table.define_in
  lookup-define_other other =
      walk_eq (length written) (length t.scopes) t.current_scope t.scopes written (uppercase name)
        h.parents
        (λ j b. ground (
          arith,
          other,
          entries_at-define t.scopes t.current_scope scope symbol (uppercase name) j e,
        ))
        (λ j b.
          parent_of-set t.scopes t.current_scope scope (Table.define_in scope symbol) j e refl)
        (omega
          (arith, h.current, length-set t.scopes t.current_scope (Table.define_in scope symbol)))
        h.current

  lookup-define_at : Table.lookup (Table.define t symbol) name ≡ (
      if text_eq (uppercase symbol.name) (uppercase name)
      then or_else (first (entries_at t.scopes (uppercase name) t.current_scope)) (some symbol)
      else Table.lookup t name)
  unfolding Table.define Table.lookup written
  lookup-define_at =
      rw (e, Table.define)
        (elim (Bool-cases (text_eq (uppercase symbol.name) (uppercase name))) [
          | inl same ↦ rw same (lookup-define_same same (length written) refl)
          | inr other ↦ rw other (lookup-define_other other)
        ])

-- A definition is found by every name that differs from its own in case only, unless the current
-- scope had that name before, when the earlier symbol is found; any other name is looked up as before.
pub lookup-define :
    (t : SymbolTable) (symbol : Symbol) (name : Text)
    → IsTree t
    → Table.lookup (Table.define t symbol) name ≡ (
        if text_eq (uppercase symbol.name) (uppercase name)
        then or_else (first (entries_at t.scopes (uppercase name) t.current_scope)) (some symbol)
        else Table.lookup t name)
lookup-define t symbol name h = elim (Option-cases (get_elem? t.scopes t.current_scope)) [
  | inl missing ↦
      absurd (omega (arith, h.current, length-get_elem?-none t.scopes t.current_scope missing))
  | inr (scope, e) ↦ lookup-define_at t symbol name scope h e
]
