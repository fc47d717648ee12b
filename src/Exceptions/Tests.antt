-- ===== src/Exceptions/Tests.antt =====
-- crates/cobol-runtime/src/exception.rs: tests and instances at concrete inputs.
use rust_cobol.Prelude.{◌≡◌, refl, some, List, [], ◌∷◌, arith}
use rust_cobol.Prelude.Text.{codes}
use rust_cobol.Exceptions.Handlers.{ExceptionState}
use rust_cobol.Exceptions.Nesting.{
  Call, run_calls, trace, ideal_run, ideal_trace, within_depth, IsNested, run_calls-ideal_run,
  run_calls-IsNested, push, pop, clear, raise, left, raised, done, cleared,
}

abbrev one_handler : ExceptionState
one_handler = record { code = 0; handler_stack = 4096 ∷ [] }

-- A block whose exception reaches it, around a block that ends without one.
abbrev two_blocks : List Call
two_blocks = push 1 ∷ push 2 ∷ clear ∷ pop ∷ raise (some (codes "EC-SIZE-OVERFLOW")) ∷ []

run_calls-ideal_run_example :
    (run_calls two_blocks one_handler ≡ ideal_run two_blocks one_handler)
    × (trace two_blocks one_handler ≡ ideal_trace two_blocks one_handler)
unfolding within_depth
run_calls-ideal_run_example = run_calls-ideal_run two_blocks one_handler refl

two_blocks-IsNested : IsNested 2 two_blocks
two_blocks-IsNested =
    raised 1 1 (some (codes "EC-SIZE-OVERFLOW")) (push 2 ∷ clear ∷ pop ∷ []) []
      (left 0 2 (clear ∷ []) [] (cleared 0 [] (done 0)) (done 1)) (done 2)

run_calls-IsNested_example : (run_calls two_blocks one_handler).handler_stack ≡ 4096 ∷ []
run_calls-IsNested_example =
    run_calls-IsNested 2 two_blocks one_handler two_blocks-IsNested (omega arith)
