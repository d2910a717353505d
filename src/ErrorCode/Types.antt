-- ===== src/ErrorCode/Types.antt =====
-- Go errors as the program sees them: its own three wrappers, and the errors of other packages.
use fancy_go.Base.{◌∙◌, ◌≡◌, ◌++◌, Bool, true, Option, none, some, Bytes, codes}
use fancy_go.Base.Dict.{Dict}
use fancy_go.Base.Int.{ℤ}

-- What the program uses of github.com/pkg/errors and of errors that other packages return, with
-- the documented behaviour of `New` and `WithMessage`. `Frame` is a stack frame, `Value` is
-- `interface{}`.
pub record Errors : Type 1 where
  pub Foreign : Type 0
  pub Frame : Type 0
  pub Value : Type 0
  -- `Error()`, of an error with no cause and of one whose cause prints as the second argument.
  pub leaf_text : Foreign → Bytes
  pub outer_text : Foreign → Bytes → Bytes
  -- `Code() int` and `Retryable() bool`, where the error has such a method.
  pub code_method : Foreign → Option ℤ
  pub retry_method : Foreign → Option Bool
  -- Whether an error with a cause has an `Unwrap` method.
  pub unwraps : Foreign → Bool
  pub new : Bytes → Foreign
  pub with_message : Bytes → Foreign
  -- The stack that `Wrap` of pkg/errors puts around a message.
  pub stack_layer : Foreign
  pub outer_text-stack_layer : (t : Bytes) → outer_text stack_layer t ≡ t
  pub code-stack_layer : code_method stack_layer ≡ none
  pub leaf_text-new : (s : Bytes) → leaf_text (new s) ≡ s
  pub code-new : (s : Bytes) → code_method (new s) ≡ none
  pub retry-new : (s : Bytes) → retry_method (new s) ≡ none
  pub outer_text-with_message :
      (s t : Bytes) → outer_text (with_message s) t ≡ s ++ (codes ": " ++ t)
  pub code-with_message : (s : Bytes) → code_method (with_message s) ≡ none
  pub retry-with_message : (s : Bytes) → retry_method (with_message s) ≡ none
  pub unwraps-with_message : (s : Bytes) → unwraps (with_message s) ≡ true

-- A non-nil `error`. `leaf` has no `Cause` method, `caused` has one.
pub data Err (lib : Errors) : Type 0 where
  with_code : ℤ → Dict lib.Value → Err lib → Err lib
  with_stack : lib.Frame → Err lib → Err lib
  retryable : Bool → Err lib → Err lib
  leaf : lib.Foreign → Err lib
  caused : lib.Foreign → Err lib → Err lib

module _ {lib : Errors} where
  -- `Error()`: the program's wrappers promote that of the error inside.
  unfoldable pub error_text : Err lib → Bytes
  error_text (with_code c x e) = error_text e
  error_text (with_stack f e) = error_text e
  error_text (retryable b e) = error_text e
  error_text (leaf f) = lib.leaf_text f
  error_text (caused f e) = lib.outer_text f (error_text e)

  -- `err.(interface{ Code() int })`
  unfoldable pub code_of : Err lib → Option ℤ
  code_of (with_code c x e) = some c
  code_of (with_stack f e) = none
  code_of (retryable b e) = none
  code_of (leaf f) = lib.code_method f
  code_of (caused f e) = lib.code_method f

  -- `err.(interface{ Cause() error })`
  unfoldable pub cause_of : Err lib → Option (Err lib)
  cause_of (with_code c x e) = some e
  cause_of (with_stack f e) = some e
  cause_of (retryable b e) = none
  cause_of (leaf f) = none
  cause_of (caused f e) = some e

  -- `errors.Wrap` of pkg/errors.
  unfoldable pub pkg_wrap : Err lib → Bytes → Err lib
  pkg_wrap e s = caused lib.stack_layer (caused (lib.with_message s) e)

  pub error_text-pkg_wrap :
      (e : Err lib) (s : Bytes) → error_text (pkg_wrap e s) ≡ s ++ (codes ": " ++ error_text e)
  unfolding error_text pkg_wrap
  error_text-pkg_wrap e s =
      lib.outer_text-stack_layer _ ∙ lib.outer_text-with_message s (error_text e)
