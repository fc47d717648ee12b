-- ===== src/Exceptions/Nesting.antt =====
-- crates/cobol-runtime/src/exception.rs: the bounded stack of handlers against an unbounded one,
-- and the blocks that the generated code nests.
use rust_cobol.Prelude.{
  ℕ, suc, ◌+◌, ◌-◌, ◌≤◌, ◌<◌, ◌≡◌, refl, ap, ◌∙◌, Bool, ◌&&◌, Option, none, some, List, [], ◌∷◌,
  ◌++◌, arith, ltb, length, true, false, drop, if◌then◌else◌,
}
use rust_cobol.Prelude.Text.{Text, codes, text_eq}
use rust_cobol.Exceptions.Handlers.{
  ExceptionState, ExceptionCode, Control, abort, longjmp, as_i32, from_name, pop_list, raise_code,
  control_of, cobol_raise, cobol_resume, cobol_exception_push, cobol_exception_pop,
  cobol_exception_clear, max_exception_depth,
}

-- The calls of the generated code.
pub data Call : Type 0 where
  push : ℕ → Call
  pop clear : Call
  raise resume : Option Text → Call

abbrev first : {A B : Type 0} → A × B → A
first (a, b) = a

abbrev second : {A B : Type 0} → A × B → B
second (a, b) = b

-- The state after a call.
unfoldable pub after : Call → ExceptionState → ExceptionState
after (push jmp_buf_ptr) s = cobol_exception_push jmp_buf_ptr s
after pop s = cobol_exception_pop s
after clear s = cobol_exception_clear s
after (raise n) s = second (cobol_raise n s)
after (resume target) s = cobol_resume target s

-- The jump that a call makes.
unfoldable pub jumps : Call → ExceptionState → List Control
jumps (raise n) s = first (cobol_raise n s) ∷ []
jumps _ s = []

unfoldable pub run_calls : List Call → ExceptionState → ExceptionState
run_calls [] s = s
run_calls (c ∷ cs) s = run_calls cs (after c s)

unfoldable pub trace : List Call → ExceptionState → List Control
trace [] s = []
trace (c ∷ cs) s = jumps c s ++ trace cs (after c s)

-- The specification. The numbers of the exceptions by name; any other is a user exception.
abbrev exception_numbers : List (Text × ℕ)
exception_numbers =
    (codes "EC-SIZE-OVERFLOW", 1)
    ∷ (codes "EC-SIZE-TRUNCATION", 2)
    ∷ (codes "EC-SIZE-ZERO-DIVIDE", 3)
    ∷ (codes "EC-PROGRAM-NOT-FOUND", 10)
    ∷ (codes "EC-RANGE-INVALID", 20)
    ∷ (codes "EC-DATA-INCOMPATIBLE", 30)
    ∷ (codes "EC-FLOW-GLOBAL-GOBACK", 40)
    ∷ (codes "EC-I-O-AT-END", 50)
    ∷ (codes "EC-I-O-INVALID-KEY", 51)
    ∷ (codes "EC-I-O-PERMANENT-ERROR", 52)
    ∷ (codes "EC-OO-NULL", 60)
    ∷ (codes "EC-OO-CONFORMANCE", 61)
    ∷ (codes "EC-OO-RESOURCE", 62)
    ∷ []

abbrev number_in : List (Text × ℕ) → Text → ℕ
number_in [] name = 100
number_in ((known, number) ∷ numbers) name =
    if text_eq name known then number else number_in numbers name

abbrev number_of : Option Text → ℕ
number_of none = 100
number_of (some name) = number_in exception_numbers name

-- Handlers are kept without a bound; an exception takes the last one off and leaves its number.
unfoldable pub ideal_after : Call → ExceptionState → ExceptionState
ideal_after (push jmp_buf_ptr) s = record {
  code = s.code;
  handler_stack = jmp_buf_ptr ∷ s.handler_stack;
}
ideal_after pop s = record { code = s.code; handler_stack = drop 1 s.handler_stack }
ideal_after clear s = record { code = 0; handler_stack = s.handler_stack }
ideal_after (resume target) s = record { code = 0; handler_stack = s.handler_stack }
ideal_after (raise n) s = record { code = number_of n; handler_stack = drop 1 s.handler_stack }

-- A raise goes to the last handler with the number of the exception, or ends the process.
abbrev ideal_control : ℕ → List ℕ → Control
ideal_control number [] = abort
ideal_control number (addr ∷ stack) = longjmp addr number

unfoldable pub ideal_jumps : Call → ExceptionState → List Control
ideal_jumps (raise n) s = ideal_control (number_of n) s.handler_stack ∷ []
ideal_jumps _ s = []

unfoldable pub ideal_run : List Call → ExceptionState → ExceptionState
ideal_run [] s = s
ideal_run (c ∷ cs) s = ideal_run cs (ideal_after c s)

unfoldable pub ideal_trace : List Call → ExceptionState → List Control
ideal_trace [] s = []
ideal_trace (c ∷ cs) s = ideal_jumps c s ++ ideal_trace cs (ideal_after c s)

number_step :
    (b : Bool) (x y : ExceptionCode) (k r : ℕ)
    → as_i32 x ≡ k
    → as_i32 y ≡ r
    → as_i32 (if b then x else y) ≡ (if b then k else r)
number_step true x y k r p q = p
number_step false x y k r p q = q

from_name-number_in : (name : Text) → as_i32 (from_name name) ≡ number_in exception_numbers name
unfolding from_name as_i32
from_name-number_in name = ground arith

raise_code-number_of : (n : Option Text) → as_i32 (raise_code n) ≡ number_of n
unfolding raise_code
raise_code-number_of none = unfold from_name as_i32 in refl
raise_code-number_of (some name) = from_name-number_in name

-- No push finds the stack full, where `depth` handlers stand on it at the start.
unfoldable pub within_depth : List Call → ℕ → Bool
within_depth [] depth = true
within_depth (push jmp_buf_ptr ∷ cs) depth =
    ltb depth max_exception_depth && within_depth cs (suc depth)
within_depth (pop ∷ cs) depth = within_depth cs (depth - 1)
within_depth (raise n ∷ cs) depth = within_depth cs (depth - 1)
within_depth (clear ∷ cs) depth = within_depth cs depth
within_depth (resume target ∷ cs) depth = within_depth cs depth

length-pop_list : (xs : List ℕ) → length (pop_list xs) ≡ length xs - 1
length-pop_list [] = refl
length-pop_list (x ∷ xs) = omega arith

drop-pop_list : (xs : List ℕ) → pop_list xs ≡ drop 1 xs
drop-pop_list [] = refl
drop-pop_list (x ∷ xs) = refl

raise_after : (n : Option Text) (s : ExceptionState) → after (raise n) s ≡ ideal_after (raise n) s
unfolding after ideal_after cobol_raise
raise_after n s =
    λ i. record { code = raise_code-number_of n i; handler_stack = drop-pop_list s.handler_stack i }

control_of-ideal_control :
    (n : Option Text) (stack : List ℕ)
    → control_of (raise_code n) stack ≡ ideal_control (number_of n) stack
control_of-ideal_control n [] = refl
control_of-ideal_control n (addr ∷ stack) = ap (longjmp addr) (raise_code-number_of n)

same_jumps : (c : Call) (s : ExceptionState) → jumps c s ≡ ideal_jumps c s
unfolding jumps ideal_jumps cobol_raise
same_jumps (push p) s = refl
same_jumps pop s = refl
same_jumps clear s = refl
same_jumps (raise n) s = ap (λ c. c ∷ []) (control_of-ideal_control n s.handler_stack)
same_jumps (resume target) s = refl

step_within :
    (c : Call) (cs : List Call) (s : ExceptionState)
    → within_depth (c ∷ cs) (length s.handler_stack) ≡ true
    → (after c s ≡ ideal_after c s) × (within_depth cs (length (after c s).handler_stack) ≡ true)
unfolding within_depth after ideal_after cobol_exception_push cobol_exception_pop
    cobol_exception_clear cobol_raise cobol_resume
step_within (push p) cs s w = ground arith
step_within pop cs s w = (
  ap (λ x. record { code = s.code; handler_stack = x }) (drop-pop_list s.handler_stack),
  rw (length-pop_list s.handler_stack) w,
)
step_within clear cs s w = (refl, w)
step_within (raise n) cs s w = (raise_after n s, rw (length-pop_list s.handler_stack) w)
step_within (resume none) cs s w = (refl, w)
step_within (resume (some t)) cs s w = (refl, w)

-- While no push finds the stack of 64 handlers full, the runtime makes the jumps and reaches the
-- state of the specification: handlers on a stack without a bound, a raise that goes to the last of
-- them with the number of its exception, and ends the process where there is none, and a code that a
-- raise sets and CLEAR and RESUME make 0.
pub run_calls-ideal_run :
    (cs : List Call) (s : ExceptionState)
    → within_depth cs (length s.handler_stack) ≡ true
    → (run_calls cs s ≡ ideal_run cs s) × (trace cs s ≡ ideal_trace cs s)
unfolding run_calls ideal_run trace ideal_trace
run_calls-ideal_run [] s w = (refl, refl)
run_calls-ideal_run (c ∷ cs) s w =
    let (e, w') = step_within c cs s w in
    let (r, t) = run_calls-ideal_run cs (after c s) w' in
    (
      r ∙ ap (λ x. ideal_run cs x) e,
      ap (λ x. x ++ trace cs (after c s)) (same_jumps c s)
          ∙ ap (λ x. ideal_jumps c s ++ x) (t ∙ ap (λ x. ideal_trace cs x) e),
    )

-- Blocks of generated code, nested at most `depth` deep: a block registers its handler, and ends by
-- removing it or by an exception that reaches it.
pub data IsNested : (depth : ℕ) → List Call → Type 0 where
  done : (depth : ℕ) → IsNested depth []
  cleared : (depth : ℕ) (cs : List Call) → IsNested depth cs → IsNested depth (clear ∷ cs)
  resumed :
      (depth : ℕ) (target : Option Text) (cs : List Call)
      → IsNested depth cs
      → IsNested depth (resume target ∷ cs)
  left :
      (depth p : ℕ) (body cs : List Call)
      → IsNested depth body
      → IsNested (suc depth) cs
      → IsNested (suc depth) (push p ∷ (body ++ pop ∷ cs))
  raised :
      (depth p : ℕ) (n : Option Text) (body cs : List Call)
      → IsNested depth body
      → IsNested (suc depth) cs
      → IsNested (suc depth) (push p ∷ (body ++ raise n ∷ cs))

run_calls-append :
    (a b : List Call) (s : ExceptionState) → run_calls (a ++ b) s ≡ run_calls b (run_calls a s)
unfolding run_calls
run_calls-append [] b s = refl
run_calls-append (c ∷ a) b s = run_calls-append a b (after c s)

-- A block that `c` ends, which takes the handler off, leaves the handlers as it found them.
close_block :
    (p : ℕ) (body cs : List Call) (c : Call) (s : ExceptionState)
    → length s.handler_stack < max_exception_depth
    → ((x : ExceptionState) → (after c x).handler_stack ≡ pop_list x.handler_stack)
    → (run_calls body (record s { handler_stack = p ∷ s.handler_stack })).handler_stack
      ≡ p ∷ s.handler_stack
    → ((x : ExceptionState)
        → x.handler_stack ≡ s.handler_stack
        → (run_calls cs x).handler_stack ≡ x.handler_stack)
    → (run_calls (push p ∷ (body ++ c ∷ cs)) s).handler_stack ≡ s.handler_stack
unfolding run_calls after cobol_exception_push
close_block p body cs c s room closes inside rest =
    let entered : ExceptionState = record s { handler_stack = p ∷ s.handler_stack } in
    let pushed : cobol_exception_push p s ≡ entered = ground (arith, room) in
    let closed : (after c (run_calls body entered)).handler_stack ≡ s.handler_stack =
      closes (run_calls body entered) ∙ ap pop_list inside in
    ap (λ x. (run_calls (body ++ c ∷ cs) x).handler_stack) pushed
    ∙ ap (λ x. x.handler_stack) (run_calls-append body (c ∷ cs) entered)
    ∙ rest (after c (run_calls body entered)) closed
    ∙ closed

-- Blocks nested at most as deep as the stack has room leave the handlers as they found them.
pub run_calls-IsNested :
    (depth : ℕ) (cs : List Call) (s : ExceptionState)
    → IsNested depth cs
    → depth + length s.handler_stack ≤ max_exception_depth
    → (run_calls cs s).handler_stack ≡ s.handler_stack
unfolding run_calls after cobol_exception_push cobol_exception_pop cobol_exception_clear cobol_raise
    cobol_resume
run_calls-IsNested depth [] s (done _) h = refl
run_calls-IsNested depth (clear ∷ cs) s (cleared _ _ n) h =
    run_calls-IsNested depth cs (after clear s) n h
run_calls-IsNested depth (resume none ∷ cs) s (resumed _ _ _ n) h =
    run_calls-IsNested depth cs (after (resume none) s) n h
run_calls-IsNested depth (resume (some t) ∷ cs) s (resumed _ _ _ n) h =
    run_calls-IsNested depth cs (after (resume (some t)) s) n h
run_calls-IsNested (suc depth) (_ ∷ _) s (left _ p body cs inner rest) h =
    close_block p body cs pop s (omega arith) (λ x. refl)
      (run_calls-IsNested depth body (record s { handler_stack = p ∷ s.handler_stack }) inner
        (omega arith))
      (λ x e. run_calls-IsNested (suc depth) cs x rest (omega (arith, ap length e)))
run_calls-IsNested (suc depth) (_ ∷ _) s (raised _ p n body cs inner rest) h =
    close_block p body cs (raise n) s (omega arith) (λ x. refl)
      (run_calls-IsNested depth body (record s { handler_stack = p ∷ s.handler_stack }) inner
        (omega arith))
      (λ x e. run_calls-IsNested (suc depth) cs x rest (omega (arith, ap length e)))
