-- ===== src/Framing/Stream.antt =====
-- Reading a stream of frames: whatever the pieces in which the bytes arrive, the scanner hands out
-- the payloads in order.
use mathlib.Core.List.{cons-ne-nil}
use native.Mathlib.Nat.{le_refl}
use fancy_go.Base.{
  ℕ, zero, suc, ◌-◌, ◌≤◌, ◌<◌, ◌≡◌, ◌≢◌, refl, sym, ap, subst, inl, inr, false, List, [], ◌∷◌, ◌++◌,
  Option, none, some, arith, Bytes, leb, length, take, drop, ◌∙◌, append_assoc, append-nil,
  length-append, take-append-drop, drop-length-append, length-drop, Bool-cases,
}
use fancy_go.Framing.Split.{token, split_json, is_empty, max_length}
use fancy_go.Framing.Frame.{
  frame, split_json-frame, split_json-part, append-cases, frame-ne-nil, length-parts, header,
}
use fancy_go.Framing.Scanner.{
  Scanner, max_token_size, fill, failed, offer, try_split, scan_loop, budget, scan,
}

abbrev pub joined : List Bytes → Bytes
joined [] = []
joined (p ∷ ps) = p ++ joined ps

-- The bytes that the scanner has yet to cut.
abbrev pub stream : Scanner → Bytes
stream s = s.pending ++ joined s.reads

-- The scanner has met no end and no error.
pub record IsLive (s : Scanner) : Type 0 where
  pub no_error : s.err ≡ none
  pub not_done : s.done ≡ false

pub take_all : (n : ℕ) (xs : Bytes) → length xs ≤ n → take n xs ≡ xs
take_all zero [] h = refl
take_all zero (x ∷ xs) h = absurd (omega arith)
take_all (suc n) [] h = refl
take_all (suc n) (x ∷ xs) h = rw (take_all n xs (omega arith))

regroup : (n : ℕ) (a p j : Bytes) → (a ++ take n p) ++ (drop n p ++ j) ≡ a ++ (p ++ j)
regroup n a p j =
    append_assoc a (take n p) (drop n p ++ j)
    ∙ ap (λ (x : Bytes). a ++ x) (sym (append_assoc (take n p) (drop n p) j))
    ∙ ap (λ (x : Bytes). a ++ (x ++ j)) (take-append-drop n p)

pub fill-stream :
    (s : Scanner) (piece : Bytes) (later : List Bytes)
    → s.reads ≡ piece ∷ later
    → stream (fill s (piece ∷ later)) ≡ stream s
unfolding fill
fill-stream s piece later e =
    let free = max_token_size - length s.pending in
    elim (Bool-cases (leb (length piece) free)) [
      | inl fits ↦
          rw (fits, e, take_all free piece (ground arith))
            (append_assoc s.pending piece (joined later))
      | inr cut ↦ rw (cut, e) (regroup free s.pending piece (joined later))
    ]

pub fill-IsLive :
    (s : Scanner) (piece : Bytes) (later : List Bytes) → IsLive s → IsLive (fill s (piece ∷ later))
unfolding fill
fill-IsLive s piece later h = ground arith

pub fill-budget :
    (s : Scanner) (piece : Bytes) (later : List Bytes)
    → length s.pending < max_token_size
    → budget (fill s (piece ∷ later)).reads < budget (piece ∷ later)
unfolding fill budget
fill-budget s piece later h =
    let free = max_token_size - length s.pending in
    elim (Bool-cases (leb (length piece) free)) [
      | inl fits ↦ rw fits (omega arith)
      | inr cut ↦ rw cut (ground (arith, length-drop free piece))
    ]

failed-IsLive : (s : Scanner) → IsLive s → failed s ≡ false
unfolding failed
failed-IsLive s live = ground arith

-- An empty buffer or a part of a frame gives no token.
pub try_split-part :
    (s : Scanner) (p r : Bytes)
    → IsLive s
    → length p ≤ max_length
    → frame p ≡ s.pending ++ r
    → r ≢ []
    → try_split s ≡ none
unfolding try_split
try_split-part s p r live h e ne = ground (arith, split_json-part p s.pending r h e ne)

try_split-frame :
    (s : Scanner) (p rest : Bytes)
    → IsLive s
    → length p ≤ max_length
    → s.pending ≡ frame p ++ rest
    → try_split s ≡ some (record s { pending = rest }, some p)
unfolding try_split
try_split-frame s p rest live h e =
    let cut : split_json s.pending false ≡ token (length (frame p)) p =
      rw e (split_json-frame p rest false h) in
    let filled : is_empty s.pending ≡ false = rw e (frame-ne-nil p rest) in
    let left : drop (length (frame p)) s.pending ≡ rest =
      rw e (drop-length-append (frame p) rest) in
    rw (filled, failed-IsLive s live, cut, offer, left)

budget-pos : (ps : List Bytes) → 0 < budget ps
unfolding budget
budget-pos [] = omega arith
budget-pos (p ∷ ps) = omega arith

-- A round that waits for more.
pub scan_loop-wait :
    (fuel : ℕ) (s : Scanner)
    → IsLive s
    → try_split s ≡ none
    → length s.pending < max_token_size
    → scan_loop (suc fuel) s ≡ scan_loop fuel (fill s s.reads)
unfolding scan_loop
scan_loop-wait fuel s live t h = ground (arith, t, failed-IsLive s live)

scan_loop-token :
    (fuel : ℕ) (s : Scanner) (r : Scanner × Option Bytes)
    → try_split s ≡ some r
    → scan_loop (suc fuel) s ≡ some r
unfolding scan_loop
scan_loop-token fuel s r t = rw (scan_loop, t)

-- What a call of `Scan` leaves when it hands out `p` from a stream that goes on with `rest`.
abbrev pub Delivers : Option (Scanner × Option Bytes) → Bytes → Bytes → Type 0
Delivers r p rest = (s' : Scanner) × (r ≡ some (s', some p)) × IsLive s' × (stream s' ≡ rest)

scan_loop-cut :
    (fuel : ℕ) (s : Scanner) (p zs : Bytes)
    → IsLive s
    → length p ≤ max_length
    → s.pending ≡ frame p ++ zs
    → Delivers (scan_loop (suc fuel) s) p (zs ++ joined s.reads)
scan_loop-cut fuel s p zs live h e = (
  record s { pending = zs },
  scan_loop-token fuel s _ (try_split-frame s p zs live h e),
  record { no_error = live.no_error; not_done = live.not_done },
  refl,
)

not-nil-append : (zs rest : Bytes) → zs ≢ [] → ¬ ([] ≡ zs ++ rest)
not-nil-append [] rest ne e = ne refl
not-nil-append (z ∷ zs) rest ne e = cc

-- The buffer holds a part of the frame: the call reads on, and `next` is the loop on the new state.
wait-frame :
    (fuel : ℕ) (s : Scanner) (reads : List Bytes) (p rest zs : Bytes)
    → s.reads ≡ reads
    → IsLive s
    → length p ≤ max_length
    → length (frame p) ≤ max_token_size
    → frame p ≡ s.pending ++ zs
    → zs ≢ []
    → joined reads ≡ zs ++ rest
    → budget reads ≤ suc fuel
    → ((s' : Scanner)
        → IsLive s'
        → budget s'.reads ≤ fuel
        → stream s' ≡ frame p ++ rest
        → Delivers (scan_loop fuel s') p rest)
    → Delivers (scan_loop (suc fuel) s) p rest
wait-frame fuel s [] p rest zs same live h fit f ne g b next = absurd (not-nil-append zs rest ne g)
wait-frame fuel s (piece ∷ later) p rest zs same live h fit f ne g b next =
    let short : length s.pending < max_token_size =
      omega (arith, length-parts (frame p) s.pending zs f ne) in
    let whole : stream s ≡ frame p ++ rest =
      ap (λ (x : List Bytes). s.pending ++ joined x) same
      ∙ ap (λ (x : Bytes). s.pending ++ x) g
      ∙ sym (append_assoc s.pending zs rest)
      ∙ ap (λ (x : Bytes). x ++ rest) (sym f) in
    let later_round : Delivers (scan_loop fuel (fill s (piece ∷ later))) p rest =
      next (fill s (piece ∷ later)) (fill-IsLive s piece later live)
        (omega (arith, fill-budget s piece later short)) (fill-stream s piece later same ∙ whole) in
    subst (λ (r : Option (Scanner × Option Bytes)). Delivers r p rest)
      (sym (
        scan_loop-wait fuel s live (try_split-part s p zs live h f ne) short
        ∙ ap (λ (x : List Bytes). scan_loop fuel (fill s x)) same))
      later_round

-- The next frame of the stream is handed out, whole, and taken off the stream.
scan_loop-frame :
    (fuel : ℕ) (s : Scanner) (p rest : Bytes)
    → IsLive s
    → budget s.reads ≤ fuel
    → length p ≤ max_length
    → length (frame p) ≤ max_token_size
    → stream s ≡ frame p ++ rest
    → Delivers (scan_loop fuel s) p rest
scan_loop-frame zero s p rest live b h fit e = absurd (omega (arith, budget-pos s.reads))
scan_loop-frame (suc fuel) s p rest live b h fit e =
    elim (append-cases (frame p) rest s.pending (joined s.reads) (sym e)) [
      | inl ([], f, g) ↦ subst (Delivers (scan_loop (suc fuel) s) p) g (
          scan_loop-cut fuel s p [] live h
            (sym (f ∙ append-nil s.pending) ∙ sym (append-nil (frame p))))
      | inl (z ∷ zs, f, g) ↦
          wait-frame fuel s s.reads p rest (z ∷ zs) refl live h fit f (cons-ne-nil z zs) g b
            (λ s' l' b' e'. scan_loop-frame fuel s' p rest l' b' h fit e')
      | inr (zs, f, g) ↦
          subst (Delivers (scan_loop (suc fuel) s) p) (sym g) (scan_loop-cut fuel s p zs live h f)
    ]

-- A payload that fits the scanner's buffer together with its header.
abbrev pub Fits : Bytes → Type 0
Fits p = length (frame p) ≤ max_token_size

pub length-le-frame : (p : Bytes) → length p ≤ length (frame p)
unfolding frame
length-le-frame p = omega (arith, length-append (header p) p)

pub scan-live : (s : Scanner) → IsLive s → scan s ≡ scan_loop (budget s.reads) s
unfolding scan
scan-live s live = ground arith

-- `Scan` on a stream that begins with a frame hands out its payload and leaves the rest.
pub scan-frame :
    (s : Scanner) (p rest : Bytes)
    → IsLive s
    → Fits p
    → stream s ≡ frame p ++ rest
    → Delivers (scan s) p rest
scan-frame s p rest live fit e =
    subst (λ (r : Option (Scanner × Option Bytes)). Delivers r p rest) (sym (scan-live s live))
      (scan_loop-frame (budget s.reads) s p rest live (le_refl _) (omega (arith, length-le-frame p))
        fit e)
