-- ===== src/Symbols/Tests.antt =====
-- crates/cobol-sema/src/symbol_table.rs: tests and instances at concrete inputs.
use rust_cobol.Prelude.{
  ℕ, ◌+◌, ◌≡◌, refl, ◌↔◌, true, false, Option, none, some, List, [], ◌∷◌, if◌then◌else◌, length,
}
use rust_cobol.Prelude.Text.{Text, codes, text_eq, uppercase}
use rust_cobol.Common.Span.{Span}
use rust_cobol.Symbols.Types.{ScopeKind, Symbol, SymbolKind}
use rust_cobol.Symbols.Table
use rust_cobol.Symbols.Table.{entries_at, first, or_else}
use rust_cobol.Symbols.Scopes.{Op, run, apply, IsTree, run-IsTree}
use rust_cobol.Symbols.Lookup.{lookup-define}
use rust_cobol.Symbols.Qualify.{
  matches_qualifiers, build_ancestor_chain, ancestors_within, find_all_symbols,
  find_symbol_anywhere, parent_symbol, by_span, eq_ignore_ascii_case, matches_from, position,
  all_symbols, Qualifies,
}
use rust_cobol.Symbols.Qualify.Greedy.{matches_qualifiers-Qualifies}

abbrev span_at : ℕ → Span
span_at n = record { start = n; end = n + 1; file_id = 0 }

abbrev item : Text → ℕ → Option Text → Symbol
item name at_offset parent_name = record {
  name = name;
  kind = SymbolKind.data_item 5 false;
  data_type = none;
  span = span_at at_offset;
  parent_name = parent_name;
  parent_span = none;
}

abbrev ops : List Op
ops =
    Op.define (item (codes "Outer") 0 none)
    ∷ Op.push_scope (codes "main") ScopeKind.section
    ∷ Op.define (item (codes "Inner") 1 (some (codes "OUTER")))
    ∷ Op.define (item (codes "Field") 2 (some (codes "Inner")))
    ∷ []

run-IsTree_example : IsTree (run ops Table.new)
run-IsTree_example = run-IsTree ops

lookup-define_example :
    Table.lookup (Table.define (run ops Table.new) (item (codes "Total") 3 none)) (codes "total")
    ≡ (if text_eq (uppercase (codes "Total")) (uppercase (codes "total"))
        then or_else
            (first (
              entries_at
                (run ops Table.new).scopes
                (uppercase (codes "total"))
                (run ops Table.new).current_scope))
            (some (item (codes "Total") 3 none))
        else Table.lookup (run ops Table.new) (codes "total"))
lookup-define_example =
    lookup-define (run ops Table.new) (item (codes "Total") 3 none) (codes "total") (run-IsTree ops)

-- FIELD OF OUTER, over INNER.
field_of_outer :
    matches_qualifiers
      (run ops Table.new)
      (codes "outer" ∷ [])
      (item (codes "Field") 2 (some (codes "Inner")))
    ≡ true
unfolding matches_qualifiers build_ancestor_chain ancestors_within parent_symbol by_span
    find_symbol_anywhere find_all_symbols all_symbols matches_from position eq_ignore_ascii_case run
    apply Table.new Table.define Table.define_in Table.push_scope Table.push_entry Table.entries
field_of_outer = refl

matches_qualifiers-Qualifies_example :
    (matches_qualifiers
        (run ops Table.new)
        (codes "outer" ∷ [])
        (item (codes "Field") 2 (some (codes "Inner")))
      ≡ true)
    ↔ Qualifies
        (build_ancestor_chain (run ops Table.new) (item (codes "Field") 2 (some (codes "Inner"))))
        (codes "outer" ∷ [])
matches_qualifiers-Qualifies_example =
    matches_qualifiers-Qualifies (run ops Table.new) (codes "outer" ∷ [])
      (item (codes "Field") 2 (some (codes "Inner")))

two_ancestors :
    length
      (build_ancestor_chain (run ops Table.new) (item (codes "Field") 2 (some (codes "Inner"))))
    ≡ 2
unfolding build_ancestor_chain ancestors_within parent_symbol by_span find_symbol_anywhere
    find_all_symbols all_symbols run apply Table.new Table.define Table.define_in Table.push_scope
    Table.push_entry Table.entries
two_ancestors = refl
