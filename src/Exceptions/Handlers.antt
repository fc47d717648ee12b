-- ===== src/Exceptions/Handlers.antt =====
-- crates/cobol-runtime/src/exception.rs: RAISE, RESUME and the stack of exception handlers.
use rust_cobol.Prelude.{
  ℕ, ◌≡◌, refl, Option, none, some, List, [], ◌∷◌, ltb, ◌==◌, if◌then◌else◌, length,
}
use rust_cobol.Prelude.Text.{Text, codes, text_eq}

-- The classes of COBOL 2002's exceptions.
pub data ExceptionCode : Type 0 where
  no_exception ec_size_overflow ec_size_truncation ec_size_zero_divide ec_program_not_found
        ec_range_invalid ec_data_incompatible ec_flow_global_goback ec_io_at_end ec_io_invalid_key
        ec_io_permanent_error ec_oo_null ec_oo_conformance ec_oo_resource ec_user_exception :
      ExceptionCode

-- `code as i32`
unfoldable pub as_i32 : ExceptionCode → ℕ
as_i32 no_exception = 0
as_i32 ec_size_overflow = 1
as_i32 ec_size_truncation = 2
as_i32 ec_size_zero_divide = 3
as_i32 ec_program_not_found = 10
as_i32 ec_range_invalid = 20
as_i32 ec_data_incompatible = 30
as_i32 ec_flow_global_goback = 40
as_i32 ec_io_at_end = 50
as_i32 ec_io_invalid_key = 51
as_i32 ec_io_permanent_error = 52
as_i32 ec_oo_null = 60
as_i32 ec_oo_conformance = 61
as_i32 ec_oo_resource = 62
as_i32 ec_user_exception = 100

unfoldable pub from_name : Text → ExceptionCode
from_name name =
    if text_eq name (codes "EC-SIZE-OVERFLOW")
    then ec_size_overflow
    else if text_eq name (codes "EC-SIZE-TRUNCATION")
    then ec_size_truncation
    else if text_eq name (codes "EC-SIZE-ZERO-DIVIDE")
    then ec_size_zero_divide
    else if text_eq name (codes "EC-PROGRAM-NOT-FOUND")
    then ec_program_not_found
    else if text_eq name (codes "EC-RANGE-INVALID")
    then ec_range_invalid
    else if text_eq name (codes "EC-DATA-INCOMPATIBLE")
    then ec_data_incompatible
    else if text_eq name (codes "EC-FLOW-GLOBAL-GOBACK")
    then ec_flow_global_goback
    else if text_eq name (codes "EC-I-O-AT-END")
    then ec_io_at_end
    else if text_eq name (codes "EC-I-O-INVALID-KEY")
    then ec_io_invalid_key
    else if text_eq name (codes "EC-I-O-PERMANENT-ERROR")
    then ec_io_permanent_error
    else if text_eq name (codes "EC-OO-NULL")
    then ec_oo_null
    else if text_eq name (codes "EC-OO-CONFORMANCE")
    then ec_oo_conformance
    else if text_eq name (codes "EC-OO-RESOURCE")
    then ec_oo_resource
    else ec_user_exception

unfoldable pub name : ExceptionCode → Text
name no_exception = codes "EC-NONE"
name ec_size_overflow = codes "EC-SIZE-OVERFLOW"
name ec_size_truncation = codes "EC-SIZE-TRUNCATION"
name ec_size_zero_divide = codes "EC-SIZE-ZERO-DIVIDE"
name ec_program_not_found = codes "EC-PROGRAM-NOT-FOUND"
name ec_range_invalid = codes "EC-RANGE-INVALID"
name ec_data_incompatible = codes "EC-DATA-INCOMPATIBLE"
name ec_flow_global_goback = codes "EC-FLOW-GLOBAL-GOBACK"
name ec_io_at_end = codes "EC-I-O-AT-END"
name ec_io_invalid_key = codes "EC-I-O-INVALID-KEY"
name ec_io_permanent_error = codes "EC-I-O-PERMANENT-ERROR"
name ec_oo_null = codes "EC-OO-NULL"
name ec_oo_conformance = codes "EC-OO-CONFORMANCE"
name ec_oo_resource = codes "EC-OO-RESOURCE"
name ec_user_exception = codes "EC-USER-EXCEPTION"

-- The name of an exception is read back as its code, but for the code of no exception, whose name
-- is read as a user exception.
pub from_name-name :
    (code : ExceptionCode)
    → from_name (name code) ≡ (if as_i32 code == 0 then ec_user_exception else code)
unfolding from_name name as_i32
from_name-name no_exception = refl
from_name-name ec_size_overflow = refl
from_name-name ec_size_truncation = refl
from_name-name ec_size_zero_divide = refl
from_name-name ec_program_not_found = refl
from_name-name ec_range_invalid = refl
from_name-name ec_data_incompatible = refl
from_name-name ec_flow_global_goback = refl
from_name-name ec_io_at_end = refl
from_name-name ec_io_invalid_key = refl
from_name-name ec_io_permanent_error = refl
from_name-name ec_oo_null = refl
from_name-name ec_oo_conformance = refl
from_name-name ec_oo_resource = refl
from_name-name ec_user_exception = refl

-- The global state; the last handler pushed is the first of the list.
pub record ExceptionState : Type 0 where
  pub code : ℕ
  pub handler_stack : List ℕ

abbrev pub max_exception_depth : ℕ
max_exception_depth = 64

-- How `cobol_raise` ends: a longjmp to a handler with a value, or the end of the process.
pub data Control : Type 0 where
  longjmp : (env value : ℕ) → Control
  abort : Control

abbrev pub pop_list : List ℕ → List ℕ
pop_list [] = []
pop_list (x ∷ xs) = xs

-- The name is `none` where the pointer is null or does not hold UTF-8.
unfoldable pub raise_code : Option Text → ExceptionCode
raise_code none = from_name (codes "EC-USER-EXCEPTION")
raise_code (some exception_name) = from_name exception_name

abbrev pub control_of : ExceptionCode → List ℕ → Control
control_of c [] = abort
control_of c (addr ∷ rest) = longjmp addr (as_i32 c)

unfoldable pub cobol_raise : Option Text → ExceptionState → Control × ExceptionState
cobol_raise exception_name state = (
  control_of (raise_code exception_name) state.handler_stack,
  record {
    code = as_i32 (raise_code exception_name);
    handler_stack = pop_list state.handler_stack;
  },
)

-- The code is cleared whether there is a target or not.
unfoldable pub cobol_resume : Option Text → ExceptionState → ExceptionState
cobol_resume none state = record state { code = 0 }
cobol_resume (some target) state = record state { code = 0 }

unfoldable pub cobol_exception_push : ℕ → ExceptionState → ExceptionState
cobol_exception_push jmp_buf_ptr state =
    if ltb (length state.handler_stack) max_exception_depth
    then record state { handler_stack = jmp_buf_ptr ∷ state.handler_stack }
    else state

unfoldable pub cobol_exception_pop : ExceptionState → ExceptionState
cobol_exception_pop state = record state { handler_stack = pop_list state.handler_stack }

unfoldable pub cobol_exception_code : ExceptionState → ℕ
cobol_exception_code state = state.code

unfoldable pub cobol_exception_clear : ExceptionState → ExceptionState
cobol_exception_clear state = record state { code = 0 }
