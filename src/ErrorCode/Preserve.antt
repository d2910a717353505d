-- ===== src/ErrorCode/Preserve.antt =====
-- What wrapping keeps: the code, the text and the extra data.
use fancy_go.Base.{
  ◌≡◌, refl, ap, ◌∙◌, List, [], ◌∷◌, ◌++◌, Option, none, some, arith, if◌then◌else◌, Bytes, codes,
  eq_bytes,
}
use fancy_go.Base.Dict.{
  Dict, first_of, first_of-none, first_of_assoc, lookup, lookup-insert, lookup-nil, lookup-cons,
}
use fancy_go.Base.Int.{ℤ, eq_int, eq_int_iff}
use fancy_go.ErrorCode.Types.{
  Errors, Err, with_code, with_stack, retryable, leaf, caused, error_text,
}
use fancy_go.ErrorCode.Code.{no_code, get_code, get_code_loop}
use fancy_go.ErrorCode.Wrap.{
  put_all, copy_extra, WithCode, as_error, with_extra, with_extra_map, from, add_maps, wrap,
}

module _ {V : Type 0} where
  pub lookup-put_all :
      (j : Bytes) (extra data' : Dict V)
      → lookup j (put_all extra data') ≡ first_of (lookup j data') (lookup j extra)
  unfolding put_all
  lookup-put_all j extra [] = rw lookup-nil
  lookup-put_all j extra ((k, v) ∷ data') =
      lookup-insert k j v (put_all extra data')
      ∙ ground (arith, lookup-put_all j extra data', lookup-cons j k v data')

  pub lookup-copy_extra : (j : Bytes) (m : Dict V) → lookup j (copy_extra m) ≡ lookup j m
  unfolding copy_extra
  lookup-copy_extra j m = lookup-put_all j [] m ∙ rw lookup-nil (first_of-none (lookup j m))

  -- The first of the maps given last that has the key.
  unfoldable pub last_of : Bytes → List (Dict V) → Option V
  last_of j [] = none
  last_of j (e ∷ es) = first_of (last_of j es) (lookup j e)

module _ {lib : Errors} where
  -- The extra data is the old with one entry set.
  pub lookup-with_extra :
      (n : WithCode lib) (k j : Bytes) (v : lib.Value)
      → lookup j (with_extra n k v).extra ≡ (if eq_bytes k j then some v else lookup j n.extra)
  unfolding with_extra
  lookup-with_extra n k j v = rw (lookup-insert, lookup-copy_extra)

  pub lookup-with_extra_map :
      (n : WithCode lib) (data' : Dict lib.Value) (j : Bytes)
      → lookup j (with_extra_map n data').extra ≡ first_of (lookup j data') (lookup j n.extra)
  unfolding with_extra_map
  lookup-with_extra_map n data' j = rw (lookup-put_all, lookup-copy_extra)

  -- The code that `GetCode` finds in a `withCode`.
  pub get_code-as_error :
      (n : WithCode lib)
      → get_code (some (as_error n))
        ≡ (if eq_int n.code no_code then get_code (some n.error) else n.code)
  unfolding get_code get_code_loop
  get_code-as_error n = ground arith

  -- An error put under its own code.
  labelled :
      (e : Err lib) → get_code (some (with_code (get_code (some e)) [] e)) ≡ get_code (some e)
  labelled e =
      get_code-as_error (record { code = get_code (some e); extra = []; error = e })
      ∙ ground (arith, eq_int_iff (get_code (some e)) no_code)

  pub get_code-from :
      (e : Err lib)
      → (n : WithCode lib) × (from (some e) ≡ some n)
        × (get_code (some (as_error n)) ≡ get_code (some e))
        × (error_text (as_error n) ≡ error_text e)
  unfolding from error_text
  get_code-from (with_code c x e) = (record { code = c; extra = x; error = e }, refl, refl, refl)
  get_code-from (with_stack f e) = (_, refl, labelled (with_stack f e), refl)
  get_code-from (retryable b e) = (_, refl, labelled (retryable b e), refl)
  get_code-from (leaf f) = (_, refl, labelled (leaf f), refl)
  get_code-from (caused f e) = (_, refl, labelled (caused f e), refl)

  pub coded :
      (n : WithCode lib) (c : ℤ)
      → n.code ≡ c
      → get_code (some n.error) ≡ c
      → get_code (some (as_error n)) ≡ c
  coded n c h k = get_code-as_error n ∙ ground (arith, h, k)

  pub get_code-with_message :
      (caller : lib.Frame) (err : Err lib) (s : Bytes)
      → get_code (some (with_stack caller (caused (lib.with_message s) err))) ≡ get_code (some err)
  unfolding get_code get_code_loop
  get_code-with_message caller err s = rw (lib.code-with_message s)

  add_maps_keep :
      (n : WithCode lib) (es : List (Dict lib.Value))
      → ((add_maps n es).code ≡ n.code) × ((add_maps n es).error ≡ n.error)
  unfolding add_maps with_extra_map
  add_maps_keep n [] = (refl, refl)
  add_maps_keep n (e ∷ es) = add_maps_keep (with_extra_map n e) es

  lookup-add_maps :
      (n : WithCode lib) (es : List (Dict lib.Value)) (j : Bytes)
      → lookup j (add_maps n es).extra ≡ first_of (last_of j es) (lookup j n.extra)
  unfolding add_maps last_of
  lookup-add_maps n [] j = refl
  lookup-add_maps n (e ∷ es) j =
      lookup-add_maps (with_extra_map n e) es j
      ∙ ap (first_of (last_of j es)) (lookup-with_extra_map n e j)
      ∙ first_of_assoc (last_of j es) (lookup j e) (lookup j n.extra)

  -- Wrap of an error always succeeds; the result has the code that GetCode finds in the error,
  -- and GetCode finds the same in the result; its text is the given text, a colon and the error's
  -- text; a key of its extra data has its value in the last of the given maps that has the key.
  pub wrap_lem :
      (caller : lib.Frame) (err : Err lib) (s : Bytes) (maps : List (Dict lib.Value))
      → (n : WithCode lib) × (wrap caller (some err) s maps ≡ some n)
        × (n.code ≡ get_code (some err))
        × (get_code (some (as_error n)) ≡ get_code (some err))
        × (error_text (as_error n) ≡ s ++ (codes ": " ++ error_text err))
        × ((j : Bytes) → lookup j n.extra ≡ last_of j maps)
  unfolding wrap from error_text
  wrap_lem caller err s maps =
      let inner : Err lib = with_stack caller (caused (lib.with_message s) err) in
      let start : WithCode lib = record {
        code = get_code (some inner);
        extra = [];
        error = inner;
      } in
      let n = add_maps start maps in
      let (same_code, same_error) = add_maps_keep start maps in
      let code : get_code (some inner) ≡ get_code (some err) = get_code-with_message caller err s in
      (
        n,
        refl,
        same_code ∙ code,
        coded n (get_code (some err)) (same_code ∙ code)
            (ap (λ (e : Err lib). get_code (some e)) same_error ∙ code),
        ap error_text same_error ∙ lib.outer_text-with_message s (error_text err),
        λ j. lookup-add_maps start maps j ∙ rw lookup-nil (first_of-none (last_of j maps)),
      )
