-- ===== src/ErrorCode/Retry.antt =====
-- utils/err_util/err_util.go: errors that say whether the failed action may be repeated.
use mathlib.Core.Path.{ap₂}
use fancy_go.Base.Dict.{Dict}
use fancy_go.Base.Int.{ℤ}
use fancy_go.Base.{
  ◌≡◌, refl, ◌∙◌, Bool, true, false, Option, none, some, arith, Bytes, if◌then◌else◌, List, ◌++◌,
  codes,
}
use fancy_go.ErrorCode.Types.{
  Errors, Err, with_code, with_stack, retryable, leaf, caused, error_text,
}
use fancy_go.ErrorCode.Code.{no_code, get_code, get_code_loop}
use fancy_go.ErrorCode.Wrap.{WithCode, as_error, wrap, from, to_response}
use fancy_go.ErrorCode.Preserve.{wrap_lem}

module _ {lib : Errors} where
  -- `errors.As(err, &r)` for `Retryable`: the first error on the `Unwrap` chain with the method.
  unfoldable pub find_retryable : Err lib → Option Bool
  find_retryable (with_code c x e) = find_retryable e
  find_retryable (with_stack f e) = find_retryable e
  find_retryable (retryable b e) = some b
  find_retryable (leaf f) = lib.retry_method f
  find_retryable (caused f e) =
      let inner = find_retryable e in
      elim (lib.retry_method f) [ some b ↦ some b | none ↦ if lib.unwraps f then inner else none ]

  unfoldable pub is_retryable : Option (Err lib) → Bool → Bool
  unfolding find_retryable
  is_retryable none def = def
  is_retryable (some e) def = elim (find_retryable e) [ none ↦ def | some b ↦ b ]

  unfoldable pub set_retryable : Option (Err lib) → Bool → Option (Err lib)
  set_retryable none on = none
  set_retryable (some e) on = some (retryable on e)

  -- The mark is read back, also through any number of the program's wrappers and messages put
  -- around it.
  pub data Around (inner : Err lib) : Err lib → Type 0 where
    bare : Around inner inner
    coded :
        {e : Err lib} (c : ℤ) (x : Dict lib.Value) → Around inner e → Around inner (with_code c x e)
    stacked : {e : Err lib} (f : lib.Frame) → Around inner e → Around inner (with_stack f e)
    annotated :
        {e : Err lib} (s : Bytes) → Around inner e → Around inner (caused (lib.with_message s) e)

  find_retryable-Around :
      (e : Err lib) (on : Bool) {w : Err lib}
      → Around (retryable on e) w
      → find_retryable w ≡ some on
  unfolding find_retryable
  find_retryable-Around e on bare = refl
  find_retryable-Around e on (coded c x a) = find_retryable-Around e on a
  find_retryable-Around e on (stacked f a) = find_retryable-Around e on a
  find_retryable-Around e on (annotated s a) =
      ground
        (arith, lib.retry-with_message s, lib.unwraps-with_message s, find_retryable-Around e on a)

  -- IsRetryable reads the mark that SetRetryable put on an error, also through any number of
  -- coded errors, stack wrappers and pkg/errors messages around it, whatever the default.
  is_retryable-set :
      (e : Err lib) (on def : Bool) {w : Err lib}
      → Around (retryable on e) w
      → is_retryable (some w) def ≡ on
  unfolding is_retryable
  is_retryable-set e on def a = ground (arith, find_retryable-Around e on a)

  get_code-retryable : (e : Err lib) (on : Bool) → get_code (some (retryable on e)) ≡ no_code
  unfolding get_code get_code_loop
  get_code-retryable e on = refl

  to_response-coded :
      (n : WithCode lib) (detail : Bool)
      → to_response (some (as_error n)) detail ≡ (n.code, error_text (as_error n))
  unfolding to_response from
  to_response-coded n true = refl
  to_response-coded n false = refl

  -- The response to an error that was marked by SetRetryable and then wrapped has the code -1 and
  -- the full text, whatever code the error had before it was marked.
  to_response-set_retryable :
      (caller : lib.Frame) (e : Err lib) (on detail : Bool) (s : Bytes)
      (maps : List (Dict lib.Value))
      → (n : WithCode lib) × (wrap caller (set_retryable (some e) on) s maps ≡ some n)
        × (to_response (some (as_error n)) detail ≡ (no_code, s ++ (codes ": " ++ error_text e)))
  unfolding set_retryable error_text
  to_response-set_retryable caller e on detail s maps =
      let (n, made, code, _, text, _) = wrap_lem caller (retryable on e) s maps in
      (
        n,
        made,
        to_response-coded n detail
            ∙ ap₂ (λ (c : ℤ) (t : Bytes). (c, t)) (code ∙ get_code-retryable e on) text,
      )
