-- ===== src/Framing/Frame.antt =====
-- The frame of a payload, and what `SplitJson` makes of it and of a part of it.
use fancy_go.Base.{
  ℕ, ◌+◌, ◌≤◌, ◌<◌, ◌≡◌, ◌≢◌, refl, sym, ap, inl, inr, ◌⊎◌, Bool, true, false, [], ◌∷◌, ◌++◌, none,
  some, arith, Bytes, length, drop, All, append_assoc, append-nil, ◌∙◌, subst, length-append,
  take-length-append, drop-length-append, le→ltb, lt→ltb,
}
use fancy_go.Framing.Decimal.{
  is_digit, parse_int, format, format-IsDigits, format-ne-nil, length-format, parse_int-format,
  IsDigits,
}
use fancy_go.Framing.Split.{
  is_space, run, is_empty, closed_by_comma, find_submatch, more, token, split_body, split_json,
  max_length,
}

unfoldable pub header : Bytes → Bytes
header p = format (length p) ++ b',' ∷ []

unfoldable pub frame : Bytes → Bytes
unfolding header
frame p = header p ++ p

run-append :
    (p : ℕ → Bool) (xs : Bytes) (c : ℕ) (s : Bytes)
    → All (λ x. p x ≡ true) xs
    → p c ≡ false
    → run p (xs ++ c ∷ s) ≡ xs
unfolding run
run-append p [] c s h e = ground arith
run-append p (x ∷ xs) c s h e = ground (arith, run-append p xs c s)

run-All : (p : ℕ → Bool) (xs : Bytes) → All (λ x. p x ≡ true) xs → run p xs ≡ xs
unfolding run
run-All p [] h = refl
run-All p (x ∷ xs) h = ground (arith, run-All p xs)

-- A text that begins with a digit begins with no white space.
run-space-digit : (x : ℕ) (xs : Bytes) → is_digit x ≡ true → run is_space (x ∷ xs) ≡ []
unfolding run is_space is_digit
run-space-digit x xs h = ground arith

run-space-digits : (xs s : Bytes) → xs ≢ [] → IsDigits xs → run is_space (xs ++ s) ≡ []
run-space-digits [] s ne h = absurd (ne refl)
run-space-digits (x ∷ xs) s ne h = run-space-digit x (xs ++ s) h.0

is_empty-ne : (xs : Bytes) → xs ≢ [] → is_empty xs ≡ false
unfolding is_empty
is_empty-ne [] ne = absurd (ne refl)
is_empty-ne (x ∷ xs) ne = refl

pub find_submatch-digits :
    (ds s : Bytes)
    → ds ≢ []
    → IsDigits ds
    → find_submatch (ds ++ b',' ∷ s) ≡ some (ds ++ b',' ∷ [], ds)
unfolding find_submatch is_digit closed_by_comma
find_submatch-digits ds s ne h = rw (
  run-space-digits ds (b',' ∷ s) ne h,
  run-append is_digit ds b',' s h refl,
  is_empty-ne ds ne,
  drop-length-append ds (b',' ∷ s),
)

drop_all : (xs : Bytes) → drop (length xs) xs ≡ []
drop_all [] = refl
drop_all (x ∷ xs) = drop_all xs

find_submatch-open : (ds : Bytes) → IsDigits ds → find_submatch ds ≡ none
unfolding find_submatch run is_empty closed_by_comma
find_submatch-open [] h = refl
find_submatch-open (d ∷ ds) h =
    rw (
      run-space-digit d ds h.0,
      run-All is_digit (d ∷ ds) h,
      drop_all ds,
      closed_by_comma,
      is_empty,
    )

split_body-exact :
    (whole p rest : Bytes)
    → length p ≤ max_length
    → split_body ((whole ++ p) ++ rest) whole (length p) ≡ token (length whole + length p) p
unfolding split_body
split_body-exact whole p rest h = rw (
  append_assoc whole p rest,
  drop-length-append whole (p ++ rest),
  take-length-append p rest,
  length-append p rest,
  le→ltb _ _ h,
  le→ltb (length p + length rest) (length p) (omega arith),
)

header-split : (p rest : Bytes) → frame p ++ rest ≡ format (length p) ++ b',' ∷ (p ++ rest)
unfolding frame header
header-split p rest = simp append_assoc

is_empty-append : (xs ys : Bytes) → xs ≢ [] → is_empty (xs ++ ys) ≡ false
is_empty-append [] ys ne = absurd (ne refl)
is_empty-append (x ∷ xs) ys ne = unfold is_empty in refl

split_json-found :
    (d w ds : Bytes) (n : ℕ) (at_eof : Bool)
    → is_empty d ≡ false
    → find_submatch d ≡ some (w, ds)
    → parse_int ds ≡ some n
    → split_json d at_eof ≡ split_body d w n
unfolding split_json
split_json-found d w ds n at_eof e f g = ground arith

split_json-missing :
    (d : Bytes) → find_submatch d ≡ none → length d ≤ 10 → split_json d false ≡ more
unfolding split_json
split_json-missing d f h = ground arith

pub frame-ne-nil : (p s : Bytes) → is_empty (frame p ++ s) ≡ false
unfolding frame header
frame-ne-nil p s =
    simp append_assoc (is_empty-append (format (length p)) _ (format-ne-nil (length p)))

frame-digits : (p : Bytes) → frame p ≡ format (length p) ++ b',' ∷ p
unfolding frame header
frame-digits p = append_assoc (format (length p)) (b',' ∷ []) p

header-comma : (p q : Bytes) → format (length p) ++ b',' ∷ q ≡ header p ++ q
unfolding header
header-comma p q = sym (append_assoc (format (length p)) (b',' ∷ []) q)

-- A whole frame at the head of the buffer is cut off, whatever follows it.
pub split_json-frame :
    (p rest : Bytes) (at_eof : Bool)
    → length p ≤ max_length
    → split_json (frame p ++ rest) at_eof ≡ token (length (frame p)) p
split_json-frame p rest at_eof h =
    split_json-found (frame p ++ rest) (header p) (format (length p)) (length p) at_eof
      (frame-ne-nil p rest)
      (unfold header in
        rw (header-split p rest)
          (find_submatch-digits _ _ (format-ne-nil (length p)) (format-IsDigits (length p))))
      (parse_int-format (length p) (omega arith))
    ∙ unfold frame in rw (split_body-exact (header p) p rest h, length-append (header p) p)

length-digits : (p : Bytes) → length p ≤ max_length → length (format (length p)) ≤ 7
length-digits p h = length-format 6 (length p) (omega arith)

-- Two ways to cut a text, and which cut lies further to the right.
pub append-cases :
    (xs ys qs rs : Bytes)
    → xs ++ ys ≡ qs ++ rs
    → ((zs : Bytes) × (xs ≡ qs ++ zs) × (rs ≡ zs ++ ys))
      ⊎ ((zs : Bytes) × (qs ≡ xs ++ zs) × (ys ≡ zs ++ rs))
append-cases [] ys qs rs e = inr (qs, refl, e)
append-cases (x ∷ xs) ys [] rs e = inl (x ∷ xs, refl, sym e)
append-cases (x ∷ xs) ys (q ∷ qs) rs e = elim (append-cases xs ys qs rs (cc)) [
  | inl (zs, f, g) ↦ inl (zs, cc, g)
  | inr (zs, f, g) ↦ inr (zs, cc, g)
]

All-take : (xs ys : Bytes) → IsDigits (xs ++ ys) → IsDigits xs
All-take [] ys h = tt
All-take (x ∷ xs) ys h = (h.0, All-take xs ys h.1)

pub length-pos : (r : Bytes) → r ≢ [] → 0 < length r
length-pos [] ne = absurd (ne refl)
length-pos (x ∷ r) ne = omega arith

pub length-parts : (p q r : Bytes) → p ≡ q ++ r → r ≢ [] → length q < length p
length-parts p q r e ne = rw e (omega (arith, length-append q r, length-pos r ne))

split_body-short :
    (p q r : Bytes)
    → length p ≤ max_length
    → p ≡ q ++ r
    → r ≢ []
    → split_body (format (length p) ++ b',' ∷ q) (header p) (length p) ≡ more
unfolding split_body
split_body-short p q r h e ne =
    let cut : drop (length (header p)) (format (length p) ++ b',' ∷ q) ≡ q =
      rw (header-comma p q) (drop-length-append (header p) q) in
    rw (cut, le→ltb _ _ h, lt→ltb (length q) (length p) (length-parts p q r e ne))

-- The header with a part of the payload behind it: the length is known, and bytes are missing.
split_json-header :
    (p q r : Bytes)
    → length p ≤ max_length
    → p ≡ q ++ r
    → r ≢ []
    → split_json (format (length p) ++ b',' ∷ q) false ≡ more
split_json-header p q r h e ne =
    split_json-found (format (length p) ++ b',' ∷ q) (header p) (format (length p)) (length p) false
      (is_empty-append _ _ (format-ne-nil (length p)))
      (unfold header in
        find_submatch-digits _ q (format-ne-nil (length p)) (format-IsDigits (length p)))
      (parse_int-format (length p) (omega arith))
    ∙ split_body-short p q r h e ne

-- A part of a frame is waited for.
pub split_json-part :
    (p q r : Bytes) → length p ≤ max_length → frame p ≡ q ++ r → r ≢ [] → split_json q false ≡ more
split_json-part p q r h e ne =
    let all_digits = format-IsDigits (length p) in
    let few = length-digits p h in
    elim (append-cases (format (length p)) (b',' ∷ p) q r (sym (frame-digits p) ∙ e)) [
      | inl (zs, f, _) ↦
          split_json-missing q (find_submatch-open q (All-take q zs (subst IsDigits f all_digits)))
            (omega (arith, length-append q zs, ap length f))
      | inr ([], f, g) ↦
          rw (f, append-nil) (split_json-missing _ (find_submatch-open _ all_digits) (omega arith))
      | inr (z ∷ zs, f, g) ↦
          let comma : z ≡ b',' = cc in
          let tail : p ≡ zs ++ r = cc in rw (f, comma) (split_json-header p zs r h tail ne)
    ]
