-- ===== src/Framing/End.antt =====
-- The end of the stream: what `Scan` makes of it when no whole frame is left.
use fancy_go.Base.{
  ℕ, zero, suc, ◌≤◌, ◌<◌, ◌≡◌, ◌≢◌, refl, sym, ap, subst, ◌∙◌, inl, inr, true, false, List, [], ◌∷◌,
  ◌++◌, Option, none, some, arith, Bytes, length, append-nil, append_assoc, Bool-cases,
}
use mathlib.Core.List.{cons-ne-nil}
use native.Mathlib.Nat.{le_refl}
use fancy_go.Framing.Split.{more, fail, final_token, split_json, is_empty, max_length}
use fancy_go.Framing.Frame.{frame, split_json-part, length-parts}
use fancy_go.Framing.Scanner.{
  Scanner, eof, max_token_size, fill, try_split, scan_loop, budget, scan, scanner_err,
}
use fancy_go.Framing.Stream.{
  joined, stream, IsLive, Fits, fill-stream, fill-IsLive, fill-budget, try_split-part,
  scan_loop-wait, scan-live, length-le-frame,
}

-- The call ends with no token, and `Err` reports nothing.
abbrev pub EndsSilently : Option (Scanner × Option Bytes) → Type 0
EndsSilently r = (s' : Scanner) × (r ≡ some (s', none)) × (scanner_err s' ≡ none)

split_json-eof : (d : Bytes) → is_empty d ≡ false → split_json d true ≡ split_json d false
unfolding split_json
split_json-eof d h = rw h

split_json-final : (d : Bytes) → is_empty d ≡ true → split_json d true ≡ fail final_token
unfolding split_json
split_json-final d h = rw h

-- The connection has ended and the buffer holds a part of a frame.
scan_loop-ended :
    (fuel : ℕ) (s : Scanner) (p r : Bytes)
    → s.err ≡ some eof
    → length p ≤ max_length
    → frame p ≡ s.pending ++ r
    → r ≢ []
    → EndsSilently (scan_loop (suc fuel) s)
unfolding scan_loop try_split scanner_err
scan_loop-ended fuel s p r e h f ne = elim (Bool-cases (is_empty s.pending)) [
  | inl nothing ↦
      let final = split_json-final s.pending nothing in
      (record s { done = true }, ground (arith, final), ground arith)
  | inr part ↦
      let cut : split_json s.pending true ≡ more =
        split_json-eof s.pending part ∙ split_json-part p s.pending r h f ne in
      (record s { pending = [] }, ground (arith, cut), ground arith)
]

fill-end : (s : Scanner) → IsLive s → fill s [] ≡ record s { err = some eof }
unfolding fill
fill-end s live = ground arith

budget-two : (ps : List Bytes) → 2 ≤ budget ps
unfolding budget
budget-two [] = omega arith
budget-two (p ∷ ps) = omega (arith, budget-two ps)

append-ne-nil : (xs r : Bytes) → r ≢ [] → xs ++ r ≢ []
append-ne-nil [] r ne = ne
append-ne-nil (x ∷ xs) r ne = cons-ne-nil x (xs ++ r)

-- A round on a part of a frame reads on.
round :
    (fuel : ℕ) (s : Scanner) (p r : Bytes)
    → IsLive s
    → length p ≤ max_length
    → Fits p
    → frame p ≡ stream s ++ r
    → r ≢ []
    → (scan_loop (suc fuel) s ≡ scan_loop fuel (fill s s.reads))
      × (length s.pending < max_token_size)
round fuel s p r live h fit f ne =
    let more_to_come = append-ne-nil (joined s.reads) r ne in
    let parts : frame p ≡ s.pending ++ (joined s.reads ++ r) =
      f ∙ append_assoc s.pending (joined s.reads) r in
    let short : length s.pending < max_token_size =
      omega (arith, length-parts (frame p) s.pending _ parts more_to_come) in
    (scan_loop-wait fuel s live (try_split-part s p _ live h parts more_to_come) short, short)

scan_loop-truncated :
    (fuel : ℕ) (s : Scanner) (reads : List Bytes) (p r : Bytes)
    → s.reads ≡ reads
    → IsLive s
    → budget reads ≤ fuel
    → length p ≤ max_length
    → Fits p
    → frame p ≡ stream s ++ r
    → r ≢ []
    → EndsSilently (scan_loop fuel s)
scan_loop-truncated zero s reads p r same live b h fit f ne =
    absurd (omega (arith, budget-two reads))
scan_loop-truncated (suc zero) s reads p r same live b h fit f ne =
    absurd (omega (arith, budget-two reads))
scan_loop-truncated (suc (suc fuel)) s [] p r same live b h fit f ne =
    let all : frame p ≡ s.pending ++ r =
      f
      ∙ ap (λ (x : List Bytes). (s.pending ++ joined x) ++ r) same
      ∙ ap (λ (x : Bytes). x ++ r) (append-nil s.pending) in
    subst EndsSilently
      (sym (
        (round (suc fuel) s p r live h fit f ne).0
        ∙ ap (λ (x : List Bytes). scan_loop (suc fuel) (fill s x)) same
        ∙ ap (scan_loop (suc fuel)) (fill-end s live)))
      (scan_loop-ended fuel (record s { err = some eof }) p r refl h all ne)
scan_loop-truncated (suc (suc fuel)) s (piece ∷ later) p r same live b h fit f ne =
    let (step, short) = round (suc fuel) s p r live h fit f ne in
    let s' = fill s (piece ∷ later) in
    subst EndsSilently (sym (step ∙ ap (λ (x : List Bytes). scan_loop (suc fuel) (fill s x)) same))
      (scan_loop-truncated (suc fuel) s' s'.reads p r refl (fill-IsLive s piece later live)
        (omega (arith, fill-budget s piece later short)) h fit
        (f ∙ ap (λ (x : Bytes). x ++ r) (sym (fill-stream s piece later same))) ne)

-- A stream that ends inside a frame, or before one, ends the scan with no token and no error.
pub scan-truncated :
    (s : Scanner) (p r : Bytes)
    → IsLive s
    → Fits p
    → frame p ≡ stream s ++ r
    → r ≢ []
    → EndsSilently (scan s)
scan-truncated s p r live fit f ne = subst EndsSilently (sym (scan-live s live)) (
    scan_loop-truncated (budget s.reads) s s.reads p r refl live (le_refl _)
      (omega (arith, length-le-frame p)) fit f ne)
