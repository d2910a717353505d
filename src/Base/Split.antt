-- ===== src/Base/Split.antt =====
-- `strings.Split` at a separator of one byte, and `strings.Join`.
use fancy_go.Base.Tests.{◌==◌}
use fancy_go.Base.Text.{Bytes}
use fancy_go.Base.Lists.{All}
use Prim.Native.Nat.{ℕ}
use mathlib.Core.Path.{◌≡◌, ap, ◌∙◌}
use mathlib.Core.Logic.{◌≢◌}
use mathlib.Core.Bool.{true, false}
use mathlib.Core.List.{List, [], ◌∷◌, ◌++◌, append_assoc, append-nil}
use native.Mathlib.Omega.{arith}

-- The parts of a text, the first of them begun already.
unfoldable pub split_from : ℕ → Bytes → Bytes → List Bytes
split_from sep cur [] = cur ∷ []
split_from sep cur (c ∷ s) = elim (c == sep) [
  | true ↦ cur ∷ split_from sep [] s
  | false ↦ split_from sep (cur ++ c ∷ []) s
]

unfoldable pub split_at : ℕ → Bytes → List Bytes
unfolding split_from
split_at sep = split_from sep []

unfoldable pub join_by : ℕ → List Bytes → Bytes
join_by sep [] = []
join_by sep (p ∷ []) = p
join_by sep (p ∷ q ∷ ps) = p ++ sep ∷ join_by sep (q ∷ ps)

abbrev pub Free : ℕ → Bytes → Type 0
Free sep = All (λ c. c ≢ sep)

split_from-Free : (sep : ℕ) (cur p : Bytes) → Free sep p → split_from sep cur p ≡ (cur ++ p) ∷ []
unfolding split_from
split_from-Free sep cur [] h = rw append-nil
split_from-Free sep cur (c ∷ p) h =
    ground (arith, h.0, split_from-Free sep (cur ++ c ∷ []) p h.1, append_assoc cur (c ∷ []) p)

split_from-append :
    (sep : ℕ) (cur p s : Bytes)
    → Free sep p
    → split_from sep cur (p ++ sep ∷ s) ≡ (cur ++ p) ∷ split_from sep [] s
unfolding split_from
split_from-append sep cur [] s h = ground (arith, append-nil cur)
split_from-append sep cur (c ∷ p) s h =
    ground (arith, h.0, split_from-append sep (cur ++ c ∷ []) p s h.1, append_assoc cur (c ∷ []) p)

pub split_at-append :
    (sep : ℕ) (p s : Bytes) → Free sep p → split_at sep (p ++ sep ∷ s) ≡ p ∷ split_at sep s
unfolding split_at
split_at-append sep p s h = split_from-append sep [] p s h

pub split_at-Free : (sep : ℕ) (p : Bytes) → Free sep p → split_at sep p ≡ p ∷ []
unfolding split_at
split_at-Free sep p h = split_from-Free sep [] p h

-- Parts without the separator are found again.
pub split_at-join_by :
    (sep : ℕ) (p : Bytes) (ps : List Bytes)
    → All (Free sep) (p ∷ ps)
    → split_at sep (join_by sep (p ∷ ps)) ≡ p ∷ ps
unfolding join_by
split_at-join_by sep p [] h = split_at-Free sep p h.0
split_at-join_by sep p (q ∷ ps) h =
    split_at-append sep p (join_by sep (q ∷ ps)) h.0
    ∙ ap (λ (l : List Bytes). p ∷ l) (split_at-join_by sep q ps h.1)
