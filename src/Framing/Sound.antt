-- ===== src/Framing/Sound.antt =====
-- What a token of `SplitJson` is cut from: white space, a decimal length, a comma, and as many
-- bytes.
use fancy_go.Base.{
  ℕ, ◌+◌, ◌≤◌, ◌≡◌, ◌≢◌, refl, sym, ap, subst, ◌∙◌, inl, inr, Bool, true, false, ◌&&◌, not, [], ◌∷◌,
  ◌++◌, some, arith, Bytes, length, drop, All, append_assoc, Bool-cases, Option-cases,
  take-append-drop, drop-length-append, length-take,
}
use fancy_go.Framing.Decimal.{is_digit, IsDigits, value, parse_int}
use fancy_go.Framing.Split.{
  is_space, run, is_empty, closed_by_comma, find_submatch, token, split_body, split_json,
  max_length,
}

-- `d` begins with a frame for `t`, and `rest` follows it.
pub record IsFrame (d t : Bytes) (advance : ℕ) : Type 0 where
  pub spaces : Bytes
  pub digits : Bytes
  pub rest : Bytes
  pub all_spaces : All (λ c. is_space c ≡ true) spaces
  pub all_digits : IsDigits digits
  pub some_digits : digits ≢ []
  pub counted : value 0 digits ≡ length t
  pub bounded : length t ≤ max_length
  pub cut : d ≡ (spaces ++ (digits ++ b',' ∷ [])) ++ (t ++ rest)
  pub advanced : advance ≡ length (spaces ++ (digits ++ b',' ∷ [])) + length t

run-prefix : (p : ℕ → Bool) (s : Bytes) → run p s ++ drop (length (run p s)) s ≡ s
unfolding run
run-prefix p [] = refl
run-prefix p (c ∷ s) = elim (Bool-cases (p c)) [
  | inl good ↦ rw (good, run-prefix p s)
  | inr bad ↦ rw bad
]

run-All : (p : ℕ → Bool) (s : Bytes) → All (λ c. p c ≡ true) (run p s)
unfolding run
run-All p [] = tt
run-All p (c ∷ s) = elim (Bool-cases (p c)) [
  | inl good ↦ rw good (good, run-All p s)
  | inr bad ↦ rw bad tt
]

comma_first : (s : Bytes) → closed_by_comma s ≡ true → s ≡ b',' ∷ drop 1 s
unfolding closed_by_comma
comma_first [] h = cc
comma_first (c ∷ s) h = ground arith

not_empty : (s : Bytes) → is_empty s ≡ false → s ≢ []
unfolding is_empty
not_empty [] h = cc
not_empty (c ∷ s) h = cc

regroup : (sp ds r : Bytes) → sp ++ (ds ++ b',' ∷ r) ≡ (sp ++ (ds ++ b',' ∷ [])) ++ r
regroup sp ds r = simp append_assoc

pieces :
    (d sp after digits behind w : Bytes)
    → d ≡ sp ++ after
    → after ≡ digits ++ behind
    → behind ≡ b',' ∷ drop 1 behind
    → w ≡ sp ++ (digits ++ b',' ∷ [])
    → d ≡ w ++ drop 1 behind
pieces d sp after digits behind w e f g h =
    e
    ∙ ap (λ (x : Bytes). sp ++ x) (f ∙ ap (λ (x : Bytes). digits ++ x) g)
    ∙ regroup sp digits (drop 1 behind)
    ∙ ap (λ (x : Bytes). x ++ drop 1 behind) (sym h)

-- The match of the pattern: the parts, and what stands behind them.
find_submatch_sound :
    (d w ds : Bytes)
    → find_submatch d ≡ some (w, ds)
    → (sp : Bytes) × (r : Bytes) × (w ≡ sp ++ (ds ++ b',' ∷ []))
      × (d ≡ w ++ r)
      × All (λ c. is_space c ≡ true) sp
      × IsDigits ds
      × (ds ≢ [])
unfolding find_submatch
find_submatch_sound d w ds h =
    let sp = run is_space d in
    let after = drop (length sp) d in
    let digits = run is_digit after in
    let behind = drop (length digits) after in
    let guard : (not (is_empty digits) && closed_by_comma behind) ≡ true = ground arith in
    let same : ds ≡ digits = ground arith in
    let comma : behind ≡ b',' ∷ drop 1 behind = comma_first behind (ground arith) in
    (
      sp,
      drop 1 behind,
      ground arith,
      pieces d sp after digits behind w (sym (run-prefix is_space d))
          (sym (run-prefix is_digit after)) comma (ground arith),
      run-All is_space d,
      rw same (run-All is_digit after),
      not_empty ds (rw same (ground arith)),
    )

split_body_sound :
    (w r t : Bytes) (n advance : ℕ)
    → split_body (w ++ r) w n ≡ token advance t
    → (length t ≡ n) × (n ≤ max_length) × (advance ≡ length w + n) × (r ≡ t ++ drop n r)
unfolding split_body
split_body_sound w r t n advance h =
    let body = drop-length-append w r in
    (
      ground (arith, body, length-take n r),
      ground (arith, body),
      ground (arith, body),
      ground (arith, body, take-append-drop n r),
    )

value-parse : (ds : Bytes) (n : ℕ) → parse_int ds ≡ some n → value 0 ds ≡ n
unfolding parse_int
value-parse ds n h = ground arith

-- The branch that returns a token.
token-inv :
    (d : Bytes) (at_eof : Bool) {advance : ℕ} {t : Bytes}
    → split_json d at_eof ≡ token advance t
    → (w : Bytes) × (ds : Bytes) × (n : ℕ) × (find_submatch d ≡ some (w, ds))
      × (parse_int ds ≡ some n)
      × (split_body d w n ≡ token advance t)
unfolding split_json
token-inv d at_eof {advance} {t} h = elim (Option-cases (find_submatch d)) [
  | inl missing ↦ absurd (ground (arith, missing))
  | inr ((w, ds), found) ↦ elim (Option-cases (parse_int ds)) [
    | inl range ↦ absurd (ground (arith, found, range))
    | inr (n, parsed) ↦ (w, ds, n, found, parsed, ground (arith, found, parsed))
  ]
]

-- Whatever buffer and end flag SplitJson is called with, a token that it returns is cut out of
-- the buffer behind white space, one or more decimal digits that spell its length, and a comma;
-- it is at most 2 MiB long, and the advance covers exactly these parts, so it never passes the
-- end of the buffer.
pub split_json_sound :
    (d : Bytes) (at_eof : Bool) {advance : ℕ} {t : Bytes}
    → split_json d at_eof ≡ token advance t
    → IsFrame d t advance
split_json_sound d at_eof {advance} {t} h =
    let (w, ds, n, found, parsed, body) = token-inv d at_eof h in
    let (sp, r, shape, cut, spaces, digits, ne) = find_submatch_sound d w ds found in
    let (size, small, adv, rest) =
      split_body_sound w r t n advance
        (subst (λ (x : Bytes). split_body x w n ≡ token advance t) cut body) in
    record {
      spaces = sp;
      digits = ds;
      rest = drop n r;
      all_spaces = spaces;
      all_digits = digits;
      some_digits = ne;
      counted = value-parse ds n parsed ∙ sym size;
      bounded = omega arith;
      cut = cut ∙ ap (λ (x : Bytes). w ++ x) rest ∙ ap (λ (x : Bytes). x ++ (t ++ drop n r)) shape;
      advanced =
          adv
          ∙ ap (λ (x : Bytes). length x + n) shape
          ∙ ap (λ (k : ℕ). length (sp ++ (ds ++ b',' ∷ [])) + k) (sym size);
    }
