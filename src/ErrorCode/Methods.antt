-- ===== src/ErrorCode/Methods.antt =====
-- The methods `Wrap`, `WrapWith` and `CodeEqual` of a `withCode`, and `ToResponse`.
use fancy_go.Base.{
  ◌≡◌, ◌≢◌, refl, sym, ap, ◌∙◌, Bool, true, false, ◌++◌, some, arith, if◌then◌else◌, Bytes, codes,
}
use fancy_go.Base.Dict.{Dict, lookup}
use fancy_go.Base.Int.{ℤ, eq_int, eq_int_iff}
use fancy_go.ErrorCode.Types.{
  Errors, Err, with_code, with_stack, retryable, leaf, caused, error_text, code_of,
}
use fancy_go.ErrorCode.Code.{no_code, chosen, get_code, get_code_loop}
use fancy_go.ErrorCode.Wrap.{
  WithCode, as_error, code_equal, wrap_method, wrap_with, from, to_response,
}
use fancy_go.ErrorCode.Preserve.{lookup-copy_extra, get_code-as_error, get_code-with_message}

if_same {ℓ} : {A : Type ℓ} (b : Bool) (x : A) → (if b then x else x) ≡ x
if_same true x = refl
if_same false x = refl

-- The code of an error with code `d` behind a `withCode` with code `c`.
abbrev shown : ℤ → ℤ → ℤ
shown c d = if eq_int c no_code then d else c

module _ {lib : Errors} where
  get_code-annotated :
      (s : Bytes) (err : Err lib)
      → get_code (some (caused (lib.with_message s) err)) ≡ get_code (some err)
  unfolding get_code get_code_loop
  get_code-annotated s err = rw (lib.code-with_message s)

  -- The method Wrap of a coded error gives an error with the receiver's code and extra data,
  -- whose text is the receiver's, a colon and the wrapped error's; GetCode finds the receiver's
  -- code in it, but if that is -1, the code of the wrapped error.
  wrap_method_lem :
      (caller : lib.Frame) (n : WithCode lib) (err : Err lib)
      → (m : WithCode lib) × (wrap_method caller n (some err) ≡ some m)
        × (m.code ≡ n.code)
        × (get_code (some (as_error m))
            ≡ (if eq_int n.code no_code then get_code (some err) else n.code))
        × (error_text (as_error m) ≡ error_text (as_error n) ++ (codes ": " ++ error_text err))
        × ((j : Bytes) → lookup j m.extra ≡ lookup j n.extra)
  unfolding wrap_method error_text
  wrap_method_lem caller n err = (
    _,
    refl,
    refl,
    get_code-as_error _
        ∙ ap (shown n.code) (get_code-with_message caller err (error_text (as_error n))),
    lib.outer_text-with_message (error_text n.error) (error_text err),
    λ j. lookup-copy_extra j n.extra,
  )

  pub wrap_with_lem :
      (caller : lib.Frame) (n : WithCode lib) (err : Err lib) (s : Bytes)
      → (m : WithCode lib) × (wrap_with caller n (some err) s ≡ some m)
        × (m.code ≡ n.code)
        × (get_code (some (as_error m))
            ≡ (if eq_int n.code no_code then get_code (some err) else n.code))
        × (error_text (as_error m)
            ≡ s ++ (codes ": " ++ (error_text (as_error n) ++ (codes ": " ++ error_text err))))
        × ((j : Bytes) → lookup j m.extra ≡ lookup j n.extra)
  unfolding wrap_with error_text
  wrap_with_lem caller n err s = (
    _,
    refl,
    refl,
    get_code-as_error _
        ∙ ap (shown n.code) (
            get_code-with_message caller (caused (lib.with_message (error_text (as_error n))) err) s
            ∙ get_code-annotated (error_text (as_error n)) err),
    lib.outer_text-with_message s _
        ∙ ap (λ (t : Bytes). s ++ (codes ": " ++ t))
            (lib.outer_text-with_message (error_text n.error) (error_text err)),
    λ j. lookup-copy_extra j n.extra,
  )

  -- A coded error whose code is not -1 recognises, by CodeEqual, every error that its method Wrap
  -- made.
  code_equal-wrap :
      (caller : lib.Frame) (n : WithCode lib) (err : Err lib)
      → n.code ≢ no_code
      → (m : WithCode lib) × (wrap_method caller n (some err) ≡ some m)
        × (code_equal n (some (as_error m)) ≡ true)
  unfolding code_equal
  code_equal-wrap caller n err h =
      let (m, made, _, code, _, _) = wrap_method_lem caller n err in
      (
        m,
        made,
        ground (
          arith,
          code,
          h,
          eq_int_iff n.code no_code,
          eq_int_iff (get_code (some (as_error m))) n.code,
        ),
      )

  outermost :
      (c : ℤ) (x : Dict lib.Value) (e : Err lib)
      → code_of (with_code c x e) ≢ some no_code
      → get_code (some (with_code c x e)) ≡ c
  unfolding get_code get_code_loop chosen code_of
  outermost c x e h = ground (arith, eq_int_iff c no_code)

  -- ToResponse of an error that is not itself coded with -1 gives the code that GetCode finds and
  -- the error's text, with or without detail.
  to_response_lem :
      (e : Err lib) (detail : Bool)
      → code_of e ≢ some no_code
      → to_response (some e) detail ≡ (get_code (some e), error_text e)
  unfolding to_response from
  to_response_lem (with_code c x e) detail h =
      if_same detail _ ∙ ap (λ (k : ℤ). (k, error_text (with_code c x e))) (sym (outermost c x e h))
  to_response_lem (with_stack f e) detail h = if_same detail _
  to_response_lem (retryable b e) detail h = if_same detail _
  to_response_lem (leaf f) detail h = if_same detail _
  to_response_lem (caused f e) detail h = if_same detail _
