-- ===== src/Framing/Writer.antt =====
-- `WriteCtx` of `lengthPrefixedChannel`: a frame is written in segments of at most 1024 bytes.
use Prim.Native.Nat.{min}
use native.Mathlib.Nat.{zero-add, add-zero, suc-add}
use fancy_go.Base.{
  ℕ, zero, suc, ◌+◌, ◌≤◌, ◌<◌, ◌≡◌, refl, ap, Option-cases, inl, inr, true, false, [], ◌∷◌, ◌++◌,
  Option, none, some, arith, Bytes, ltb, if◌then◌else◌, length, take, drop, length-take,
  length-drop, append_assoc, ◌∙◌, Bool-cases, ltb→lt,
}
use fancy_go.Framing.Split.{is_empty}
use fancy_go.Framing.Frame.{frame}

abbrev pub segment_size : ℕ
segment_size = 1024

-- An `io.Writer` with its state: the state behind a call, the count and the error.
abbrev pub Write : Type 0 → Type 0 → Type 0
Write S E = S → Bytes → S × ℕ × Option E

-- The segment that is written next.
unfoldable pub segment : Bytes → Bytes
segment bin = if ltb segment_size (length bin) then take segment_size bin else bin

take-take : (n m : ℕ) (xs : Bytes) → n ≤ m → take n (take m xs) ≡ take n xs
take-take zero m xs h = refl
take-take (suc n) zero xs h = absurd (omega arith)
take-take (suc n) (suc m) [] h = refl
take-take (suc n) (suc m) (x ∷ xs) h = rw (take-take n m xs (omega arith))

take-add : (n k : ℕ) (xs : Bytes) → take n xs ++ take k (drop n xs) ≡ take (n + k) xs
take-add zero k xs = rw zero-add
take-add (suc n) zero [] = rw add-zero
take-add (suc n) (suc k) [] = rw suc-add
take-add (suc n) k (x ∷ xs) = rw (suc-add, take-add n k xs)

pub length-segment : (bin : Bytes) → length (segment bin) ≡ min segment_size (length bin)
unfolding segment
length-segment bin = elim (Bool-cases (ltb segment_size (length bin))) [
  | inl long ↦
      rw long (omega (arith, length-take segment_size bin, ltb→lt segment_size (length bin) long))
  | inr short ↦ rw short (ground arith)
]

pub take-segment :
    (bin : Bytes) (n : ℕ) → n ≤ length (segment bin) → take n (segment bin) ≡ take n bin
unfolding segment
take-segment bin n h = elim (Bool-cases (ltb segment_size (length bin))) [
  | inl long ↦ rw long (take-take n segment_size bin (omega (arith, length-segment bin)))
  | inr short ↦ rw short
]

module _ {S E : Type 0} (write : Write S E) where
  -- `for len(bin) > 0`, and the write of the empty slice behind it; `none` means that the fuel ran
  -- out.
  unfoldable pub write_loop : ℕ → S → Bytes → Option (S × Option E)
  unfolding is_empty
  write_loop zero st bin = none
  write_loop (suc fuel) st bin = elim (is_empty bin) [
    | true ↦ let (st', n, e) = write st bin in some (st', e)
    | false ↦
        let (st', n, e) = write st (segment bin) in
        elim e [ some err ↦ some (st', some err) | none ↦ write_loop fuel st' (drop n bin) ]
  ]

  -- Writes the message that `json_util.ToBin` printed.
  unfoldable pub write_ctx : S → Bytes → Option (S × Option E)
  unfolding write_loop
  write_ctx st bin = write_loop (length (frame bin) + 1) st (frame bin)

  -- The contract of `io.Writer`, for a writer that appends to `sent`.
  pub record IsWriter (sent : S → Bytes) : Type 0 where
    pub appends : (st : S) (p : Bytes) → sent (write st p).0 ≡ sent st ++ take (write st p).1 p
    pub bounded : (st : S) (p : Bytes) → (write st p).1 ≤ length p
    pub short_is_error : (st : S) (p : Bytes) → (write st p).2 ≡ none → (write st p).1 ≡ length p

  module _ {sent : S → Bytes} (w : IsWriter sent) where
    -- What a call that had to write `bin` leaves: all of it, or an error and a part of it.
    abbrev pub Wrote : S → Bytes → S × Option E → Type 0
    Wrote st bin r =
        (k : ℕ) × (sent r.0 ≡ sent st ++ take k bin)
        × (k ≤ length bin)
        × (r.1 ≡ none → k ≡ length bin)

    -- What one segment leaves to be written.
    abbrev rest_of : S → Bytes → Bytes
    rest_of st bin = drop (write st (segment bin)).1 bin

    rest_shorter :
        (st : S) (b : ℕ) (bin : Bytes)
        → (write st (segment (b ∷ bin))).2 ≡ none
        → length (rest_of st (b ∷ bin)) < length (b ∷ bin)
    rest_shorter st b bin clean =
        let n = (write st (segment (b ∷ bin))).1 in
        omega (
          arith,
          w.short_is_error st (segment (b ∷ bin)) clean,
          length-segment (b ∷ bin),
          length-drop n (b ∷ bin),
        )

    cons_clean :
        (fuel : ℕ) (st : S) (b : ℕ) (bin : Bytes)
        → (write st (segment (b ∷ bin))).2 ≡ none
        → (r : S × Option E) × (write_loop fuel
              (write st (segment (b ∷ bin))).0
              (rest_of st (b ∷ bin))
            ≡ some r)
          × Wrote (write st (segment (b ∷ bin))).0 (rest_of st (b ∷ bin)) r
        → (r : S × Option E) × (write_loop (suc fuel) st (b ∷ bin) ≡ some r) × Wrote st (b ∷ bin) r
    unfolding write_loop
    cons_clean fuel st b bin clean (r, ran, (k, out, le, all)) =
        let n = (write st (segment (b ∷ bin))).1 in
        let part = w.bounded st (segment (b ∷ bin)) in
        let bytes : sent r.0 ≡ sent st ++ take (n + k) (b ∷ bin) =
          out
          ∙ ap (λ (x : Bytes). x ++ take k (rest_of st (b ∷ bin)))
              (w.appends st (segment (b ∷ bin))
                ∙ ap (λ (x : Bytes). sent st ++ x) (take-segment (b ∷ bin) n part))
          ∙ append_assoc (sent st) (take n (b ∷ bin)) (take k (rest_of st (b ∷ bin)))
          ∙ ap (λ (x : Bytes). sent st ++ x) (take-add n k (b ∷ bin)) in
        (
          r,
          rw clean ran,
          (
            n + k,
            bytes,
            omega (arith, length-drop n (b ∷ bin), length-segment (b ∷ bin)),
            λ e. omega (arith, all e, length-drop n (b ∷ bin), length-segment (b ∷ bin)),
          ),
        )

    cons_broken :
        (fuel : ℕ) (st : S) (b : ℕ) (bin : Bytes) (err : E)
        → (write st (segment (b ∷ bin))).2 ≡ some err
        → (r : S × Option E) × (write_loop (suc fuel) st (b ∷ bin) ≡ some r) × Wrote st (b ∷ bin) r
    unfolding write_loop
    cons_broken fuel st b bin err broken =
        let n = (write st (segment (b ∷ bin))).1 in
        let part = w.bounded st (segment (b ∷ bin)) in
        (
          ((write st (segment (b ∷ bin))).0, some err),
          rw broken,
          (
            n,
            w.appends st (segment (b ∷ bin))
                ∙ ap (λ (x : Bytes). sent st ++ x) (take-segment (b ∷ bin) n part),
            omega (arith, length-segment (b ∷ bin)),
            λ e. cc,
          ),
        )

    -- With a round of fuel for each byte the loop ends.
    write_loop_lem :
        (fuel : ℕ) (st : S) (bin : Bytes)
        → length bin < fuel
        → (r : S × Option E) × (write_loop fuel st bin ≡ some r) × Wrote st bin r
    unfolding write_loop
    write_loop_lem zero st bin h = absurd (omega arith)
    write_loop_lem (suc fuel) st [] h = (
      ((write st []).0, (write st []).2),
      refl,
      ((write st []).1, w.appends st [], w.bounded st [], w.short_is_error st []),
    )
    write_loop_lem (suc fuel) st (b ∷ bin) h =
        elim (Option-cases (write st (segment (b ∷ bin))).2) [
          | inl clean ↦ cons_clean fuel st b bin clean (
              write_loop_lem fuel (write st (segment (b ∷ bin))).0 (rest_of st (b ∷ bin))
                (omega (arith, rest_shorter st b bin clean)))
          | inr (err, broken) ↦ cons_broken fuel st b bin err broken
        ]

    -- Over every io.Writer that keeps its contract, WriteCtx returns; if it returns no error the
    -- whole frame of the payload has been appended to what was sent before, and if it returns
    -- one, a part of the frame has.
    pub write_ctx_lem :
        (st : S) (bin : Bytes)
        → (r : S × Option E) × (write_ctx st bin ≡ some r) × Wrote st (frame bin) r
    unfolding write_ctx
    write_ctx_lem st bin = write_loop_lem (length (frame bin) + 1) st (frame bin) (omega arith)
