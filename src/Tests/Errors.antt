-- ===== src/Tests/Errors.antt =====
-- error-code and utils/err_util at concrete inputs.
use fancy_go.Base.{◌≡◌, refl, true, false, Option, [], ◌∷◌, ◌++◌, none, some, Bytes, codes}
use fancy_go.Base.Dict.{lookup}
use fancy_go.Base.Int.{ℤ, pos, negsuc, eq_int}
use fancy_go.ErrorCode.Types.{
  Errors, Err, with_code, with_stack, retryable, leaf, caused, error_text,
}
use fancy_go.ErrorCode.Code.{get_code, get_code_loop, chain, first_code, get_code-chain}
use fancy_go.ErrorCode.Wrap.{WithCode, as_error, wrap}
use fancy_go.ErrorCode.Preserve.{last_of, wrap_lem}
use fancy_go.ErrorCode.Registry.{message_of, define, define_all}
use fancy_go.ErrorCode.Retry.{is_retryable, find_retryable}

-- Errors of other packages: a text, or the layer that adds none. Values are numbers.
abbrev plain_leaf : Option Bytes → Bytes
plain_leaf none = []
plain_leaf (some s) = s

abbrev plain_text : Option Bytes → Bytes → Bytes
plain_text none t = t
plain_text (some s) t = s ++ (codes ": " ++ t)

abbrev pub plain_errors : Errors
plain_errors = record {
  Foreign = Option Bytes;
  Frame = Bytes;
  Value = ℤ;
  leaf_text = plain_leaf;
  outer_text = plain_text;
  code_method = λ s. none;
  retry_method = λ s. none;
  unwraps = λ s. true;
  new = λ s. some s;
  with_message = λ s. some s;
  stack_layer = none;
  outer_text-stack_layer = λ t. refl;
  code-stack_layer = refl;
  leaf_text-new = λ s. refl;
  code-new = λ s. refl;
  retry-new = λ s. refl;
  outer_text-with_message = λ s t. refl;
  code-with_message = λ s. refl;
  retry-with_message = λ s. refl;
  unwraps-with_message = λ s. refl;
}

abbrev pub here : Bytes
here = codes "here"

abbrev pub timeout : Err plain_errors
timeout = leaf (some (codes "timeout"))

abbrev not_found : WithCode plain_errors
not_found = record {
  code = pos 404;
  extra = [];
  error = with_stack here (leaf (some (codes "not found")));
}

abbrev coded_timeout : Err plain_errors
coded_timeout =
    caused (some (codes "call")) (with_code (negsuc 0) [] (with_code (pos 504) [] timeout))

get_code-chain_example : get_code (some coded_timeout) ≡ first_code (chain coded_timeout)
get_code-chain_example = get_code-chain coded_timeout

coded_timeout_code : get_code (some coded_timeout) ≡ pos 504
unfolding get_code get_code_loop eq_int
coded_timeout_code = refl

wrap_lem_example :
    (n : WithCode plain_errors) × (wrap here
        (some coded_timeout)
        (codes "job")
        (((codes "k", pos 1) ∷ []) ∷ [])
      ≡ some n)
    × (n.code ≡ get_code (some coded_timeout))
    × (get_code (some (as_error n)) ≡ get_code (some coded_timeout))
    × (error_text (as_error n) ≡ codes "job" ++ (codes ": " ++ error_text coded_timeout))
    × ((j : Bytes) → lookup j n.extra ≡ last_of j (((codes "k", pos 1) ∷ []) ∷ []))
wrap_lem_example = wrap_lem here coded_timeout (codes "job") (((codes "k", pos 1) ∷ []) ∷ [])

-- A code that is defined twice.
twice_panics :
    define_all plain_errors here [] ((pos 1, codes "one") ∷ (pos 1, codes "two") ∷ []) ≡ none
unfolding define_all define message_of eq_int
twice_panics = refl

duplicate :
    define_all plain_errors here [] ((pos 1, codes "one") ∷ (pos 1, codes "uno") ∷ []) ≡ none
unfolding define_all define message_of eq_int
duplicate = refl

retryable_inside :
    is_retryable {lib = plain_errors}
      (some (caused (some (codes "job")) (with_code (pos 5) [] (retryable true timeout))))
      false
    ≡ true
unfolding is_retryable find_retryable
retryable_inside = refl
