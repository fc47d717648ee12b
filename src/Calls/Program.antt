-- ===== src/Calls/Program.antt =====
-- crates/cobol-runtime/src/program.rs: the stack of CALL and GOBACK, and programs that call.
use rust_cobol.Prelude.{
  ℕ, ◌≡◌, refl, ap, ◌∙◌, Bool, true, false, List, [], ◌∷◌, arith, ◌==◌, if◌then◌else◌,
}

-- What GOBACK does: jump to the place of a call, or end the process.
pub data Leaving : Type 0 where
  longjmp : ℕ → Leaving
  exit : Leaving

unfoldable pub cobol_call_enter : ℕ → List ℕ → List ℕ
cobol_call_enter jmp_buf_ptr stack = jmp_buf_ptr ∷ stack

unfoldable pub cobol_call_leave : List ℕ → List ℕ
cobol_call_leave [] = []
cobol_call_leave (p ∷ stack) = stack

unfoldable pub cobol_goback : List ℕ → Leaving × List ℕ
cobol_goback [] = (exit, [])
cobol_goback (jmp_buf_addr ∷ stack) = (longjmp jmp_buf_addr, stack)

-- A program that ends by itself, by GOBACK, or that calls another, at a place with its own jump
-- buffer, and goes on.
pub data Program : Type 0 where
  ends goes_back : Program
  calls : ℕ → Program → Program → Program

-- How a program comes to its end.
pub data Ending : Type 0 where
  returns : Ending
  leaves : Leaving → Ending

abbrev from_goback : Leaving × List ℕ → Ending × List ℕ
from_goback (l, stack) = (leaves l, stack)

-- Behind a call: after a normal return the stack is popped; a jump to this call goes on here, any
-- other, or the end of the process, leaves the caller too.
abbrev after_call : ℕ → (List ℕ → Ending × List ℕ) → Ending × List ℕ → Ending × List ℕ
after_call buf rest (returns, stack) = rest (cobol_call_leave stack)
after_call buf rest (leaves exit, stack) = (leaves exit, stack)
after_call buf rest (leaves (longjmp target), stack) =
    if target == buf then rest stack else (leaves (longjmp target), stack)

-- The code that is emitted for CALL: `if (setjmp(_jbuf) == 0) { enter; call; leave; }`.
unfoldable pub run_program : Program → List ℕ → Ending × List ℕ
run_program ends stack = (returns, stack)
run_program goes_back stack = from_goback (cobol_goback stack)
run_program (calls buf callee rest) stack =
    after_call buf (run_program rest) (run_program callee (cobol_call_enter buf stack))

-- Whether the program itself, not one that it calls, reaches GOBACK.
unfoldable pub reaches_goback : Program → Bool
reaches_goback ends = false
reaches_goback goes_back = true
reaches_goback (calls buf callee rest) = reaches_goback rest

-- How a program should end: by a return with the stack as it was, or by the GOBACK of that stack.
abbrev pub ideal : Bool → List ℕ → Ending × List ℕ
ideal false stack = (returns, stack)
ideal true [] = (leaves exit, [])
ideal true (buf ∷ stack) = (leaves (longjmp buf), stack)

-- A GOBACK leaves its own program and no other: at whatever depth it is called, a program returns
-- with the stack as it found it, or, where it reaches GOBACK itself, jumps to the place of its own
-- call, which is taken off the stack, and the main program ends the process. What the programs
-- that it calls do makes no difference.
pub run_program-ideal :
    (p : Program) (stack : List ℕ) → run_program p stack ≡ ideal (reaches_goback p) stack
unfolding run_program reaches_goback cobol_goback cobol_call_enter cobol_call_leave
run_program-ideal ends stack = refl
run_program-ideal goes_back [] = refl
run_program-ideal goes_back (buf ∷ stack) = refl
run_program-ideal (calls buf callee rest) stack =
    ap (after_call buf (run_program rest)) (run_program-ideal callee (cobol_call_enter buf stack))
    ∙ go (reaches_goback callee)
    ∙ run_program-ideal rest stack
  where
    go :
        (b : Bool)
        → after_call buf (run_program rest) (ideal b (cobol_call_enter buf stack))
          ≡ run_program rest stack
    go false = refl
    go true = let same : (buf == buf) ≡ true = ground arith in rw same refl
