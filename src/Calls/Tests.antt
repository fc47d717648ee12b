-- ===== src/Calls/Tests.antt =====
-- crates/cobol-runtime/src/program.rs: tests and instances at concrete inputs.
use rust_cobol.Prelude.{◌≡◌, [], ◌∷◌}
use rust_cobol.Calls.Program.{
  Program, ends, goes_back, calls, run_program, reaches_goback, ideal, run_program-ideal,
}

-- A program that calls one which calls another and goes back, and then ends.
abbrev nested : Program
nested = calls 7 (calls 8 goes_back goes_back) ends

run_program-ideal_example : run_program nested (1 ∷ []) ≡ ideal (reaches_goback nested) (1 ∷ [])
run_program-ideal_example = run_program-ideal nested (1 ∷ [])
