-- ===== src/ErrorCode/Log.antt =====
-- error-code/log-error.go: `ToLog`, the text, the stack and the extra data of an error.
use fancy_go.Base.{
  ℕ, ◌+◌, ◌≡◌, ◌≢◌, refl, sym, ap, ◌∙◌, ◌||◌, List, [], ◌∷◌, ◌++◌, Option, none, some, arith, Bytes,
  codes, eq_bytes_iff, ◌==◌, Option-cases, inl, inr, length, length-append,
}
use fancy_go.Base.Dict.{
  Dict, lookup, insert, lookup-insert, lookup-nil, first_of, first_of-none, first_of_assoc,
}
use fancy_go.Base.Split.{Free}
use fancy_go.Base.Strings.{replace_first, trim_right}
use fancy_go.Framing.Decimal.{format}
use fancy_go.ErrorCode.Types.{
  Errors, Err, with_code, with_stack, retryable, leaf, caused, error_text, cause_of,
}
use fancy_go.ErrorCode.Code.{chain}

-- What `ToLog` asks of frames and of the errors of other packages: the function and the line of a
-- frame, the frame on top of the stack of an error that has one, and its extra data.
pub record Traces (lib : Errors) : Type 0 where
  pub position : lib.Frame → Bytes × ℕ
  pub top_frame : lib.Foreign → Option lib.Frame
  pub foreign_extra : lib.Foreign → Option (Dict lib.Value)

module _ {lib : Errors} (traces : Traces lib) where
  open traces use {position, top_frame, foreign_extra}

  -- The text of a layer with a stack: without that of the cause of its cause.
  unfoldable pub own_text : Err lib → Err lib → Bytes
  unfolding replace_first trim_right
  own_text err cause = elim (cause_of cause) [
    | none ↦ error_text err
    | some c ↦
        trim_right (λ b. b == b':' || b == 32) (replace_first (error_text c) [] (error_text err))
  ]

  unfoldable pub stack_line : lib.Frame → Bytes → Bytes
  unfolding replace_first
  stack_line frame msg =
      let (name, line) = position frame in
      b'['
      ∷ (replace_first (codes "github.com/1second/") [] name
          ++ b':' ∷ (format line ++ (codes "] " ++ msg)))

  -- The extra data of an error, where it has such a method.
  unfoldable pub extra_of : Err lib → Dict lib.Value
  extra_of (with_code c x e) = x
  extra_of (with_stack f e) = []
  extra_of (retryable b e) = []
  extra_of (leaf f) = elim (foreign_extra f) [ none ↦ [] | some x ↦ x ]
  extra_of (caused f e) = elim (foreign_extra f) [ none ↦ [] | some x ↦ x ]

  -- The loop over the extra data of the error numbered `idx`.
  unfoldable pub add_extra : ℕ → Dict lib.Value → Dict lib.Value → Dict lib.Value
  add_extra idx extra_data [] = extra_data
  add_extra idx extra_data ((k, v) ∷ more) = elim (lookup k extra_data) [
    | some old ↦ add_extra idx (insert (k ++ b'.' ∷ format idx) v extra_data) more
    | none ↦ add_extra idx (insert k v extra_data) more
  ]

  -- The loop of `ToLog`, from an error on.
  unfoldable pub to_log_from :
      ℕ → Err lib → List Bytes → Dict lib.Value → List Bytes × Dict lib.Value
  unfolding own_text stack_line extra_of add_extra
  to_log_from idx (with_code c x e) stack extra_data =
      to_log_from (idx + 1) e stack (add_extra idx extra_data x)
  to_log_from idx (with_stack f e) stack extra_data =
      to_log_from (idx + 1) e (stack ++ stack_line f (own_text (with_stack f e) e) ∷ []) extra_data
  to_log_from idx (retryable b e) stack extra_data = (stack, extra_data)
  to_log_from idx (leaf f) stack extra_data = (stack, add_extra idx extra_data (extra_of (leaf f)))
  to_log_from idx (caused f e) stack extra_data =
      to_log_from (idx + 1) e
        (elim (top_frame f) [
          | none ↦ stack
          | some frame ↦ stack ++ stack_line frame (own_text (caused f e) e) ∷ []
        ])
        (add_extra idx extra_data (extra_of (caused f e)))

  unfoldable pub to_log : Option (Err lib) → Bytes × List Bytes × Dict lib.Value
  unfolding to_log_from
  to_log none = ([], [], [])
  to_log (some err) =
      let (stack, extra_data) = to_log_from 1 err [] [] in (error_text err, stack, extra_data)

  -- The value of a key in the first of the errors whose extra data has it.
  unfoldable pub first_extra : Bytes → List (Err lib) → Option lib.Value
  unfolding extra_of
  first_extra j [] = none
  first_extra j (e ∷ es) = first_of (lookup j (extra_of e)) (first_extra j es)

  -- A key with a dot is not one without.
  dotted-ne : (k s j : Bytes) → Free b'.' j → k ++ b'.' ∷ s ≢ j
  dotted-ne [] s [] h e = cc
  dotted-ne [] s (c ∷ j) h e = ground (arith, h.0)
  dotted-ne (b ∷ k) s [] h e = cc
  dotted-ne (b ∷ k) s (c ∷ j) h e = dotted-ne k s j h.1 (ground arith)

  lookup-add_extra :
      (idx : ℕ) (j : Bytes) (acc m : Dict lib.Value)
      → Free b'.' j
      → lookup j (add_extra idx acc m) ≡ first_of (lookup j acc) (lookup j m)
  unfolding add_extra lookup
  lookup-add_extra idx j acc [] h = sym (first_of-none (lookup j acc))
  lookup-add_extra idx j acc ((k, v) ∷ m) h = elim (Option-cases (lookup k acc)) [
    | inl new ↦ ground (
      arith,
      new,
      lookup-add_extra idx j (insert k v acc) m h,
      lookup-insert k j v acc,
      eq_bytes_iff k j,
    )
    | inr (w, old) ↦ ground (
      arith,
      old,
      lookup-add_extra idx j (insert (k ++ b'.' ∷ format idx) v acc) m h,
      lookup-insert (k ++ b'.' ∷ format idx) j v acc,
      eq_bytes_iff (k ++ b'.' ∷ format idx) j,
      dotted-ne k (format idx) j h,
      eq_bytes_iff k j,
    )
  ]

  lookup-to_log_from :
      (idx : ℕ) (e : Err lib) (stack : List Bytes) (acc : Dict lib.Value) (j : Bytes)
      → Free b'.' j
      → lookup j (to_log_from idx e stack acc).1 ≡ first_of (lookup j acc) (first_extra j (chain e))
  unfolding to_log_from first_extra chain lookup
  lookup-to_log_from idx (with_code c x e) stack acc j h =
      lookup-to_log_from (idx + 1) e stack (add_extra idx acc x) j h
      ∙ (ap (λ (o : Option lib.Value). first_of o (first_extra j (chain e)))
            (lookup-add_extra idx j acc x h)
          ∙ sym (first_of_assoc (lookup j acc) (lookup j x) (first_extra j (chain e))))
  lookup-to_log_from idx (with_stack f e) stack acc j h = lookup-to_log_from (idx + 1) e _ acc j h
  lookup-to_log_from idx (retryable b e) stack acc j h = sym (first_of-none (lookup j acc))
  lookup-to_log_from idx (leaf f) stack acc j h =
      lookup-add_extra idx j acc (extra_of (leaf f)) h
      ∙ ap (first_of (lookup j acc)) (sym (first_of-none (lookup j (extra_of (leaf f)))))
  lookup-to_log_from idx (caused f e) stack acc j h =
      lookup-to_log_from (idx + 1) e _ (add_extra idx acc (extra_of (caused f e))) j h
      ∙ (ap (λ (o : Option lib.Value). first_of o (first_extra j (chain e)))
            (lookup-add_extra idx j acc (extra_of (caused f e)) h)
          ∙ sym (
              first_of_assoc (lookup j acc) (lookup j (extra_of (caused f e)))
                (first_extra j (chain e))))

  -- The layers that have a stack.
  unfoldable pub traced : List (Err lib) → ℕ
  traced [] = 0
  traced (with_stack f e ∷ es) = 1 + traced es
  traced (caused f e ∷ es) = (elim (top_frame f) [ none ↦ 0 | some t ↦ 1 ]) + traced es
  traced (with_code c x e ∷ es) = traced es
  traced (retryable b e ∷ es) = traced es
  traced (leaf f ∷ es) = traced es

  length-to_log_from :
      (idx : ℕ) (e : Err lib) (stack : List Bytes) (acc : Dict lib.Value)
      → length (to_log_from idx e stack acc).0 ≡ length stack + traced (chain e)
  unfolding to_log_from traced chain
  length-to_log_from idx (with_code c x e) stack acc =
      length-to_log_from (idx + 1) e stack (add_extra idx acc x)
  length-to_log_from idx (with_stack f e) stack acc = omega (
    arith,
    length-to_log_from (idx + 1) e (stack ++ stack_line f (own_text (with_stack f e) e) ∷ []) acc,
    length-append {0} stack (stack_line f (own_text (with_stack f e) e) ∷ []),
  )
  length-to_log_from idx (retryable b e) stack acc = omega arith
  length-to_log_from idx (leaf f) stack acc = omega arith
  length-to_log_from idx (caused f e) stack acc = elim (Option-cases (top_frame f)) [
    | inl bare ↦ ground (
      arith,
      bare,
      length-to_log_from (idx + 1) e stack (add_extra idx acc (extra_of (caused f e))),
    )
    | inr (t, there) ↦ ground (
      arith,
      there,
      length-to_log_from (idx + 1) e (stack ++ stack_line t (own_text (caused f e) e) ∷ [])
          (add_extra idx acc (extra_of (caused f e))),
      length-append stack (stack_line t (own_text (caused f e) e) ∷ []),
    )
  ]

  -- ToLog of an error gives its text, one line for each of the layers down its causes that has a
  -- stack, and for a key without a dot the value that the outermost error with that key in its
  -- extra data gives, or none if no error has it.
  pub to_log_lem :
      (e : Err lib) (j : Bytes)
      → Free b'.' j
      → ((to_log (some e)).0 ≡ error_text e)
        × (length (to_log (some e)).1 ≡ traced (chain e))
        × (lookup j (to_log (some e)).2 ≡ first_extra j (chain e))
  unfolding to_log
  to_log_lem e j h = (
    refl,
    omega (arith, length-to_log_from 1 e [] []),
    lookup-to_log_from 1 e [] [] j h ∙ rw lookup-nil refl,
  )
