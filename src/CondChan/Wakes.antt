-- ===== src/CondChan/Wakes.antt =====
-- Which receives a broadcast of a condition wakes.
use fancy_go.Base.{
  ℕ, ◌≡◌, refl, Bool, true, false, ◌⊎◌, inl, inr, List, [], ◌∷◌, ◌++◌, some, arith, ◌==◌,
  if◌then◌else◌, Bool-cases,
}
use fancy_go.CondChan.{
  Cond, new_cond, wait, take_first, signal, waiting_at, close_channel, broadcast, receive, Use,
  signals, broadcasts, receives, use_all,
}

-- Whether a receiver is in a list of receivers.
unfoldable pub has : ℕ → List ℕ → Bool
has who [] = false
has who (x ∷ l) = if x == who then true else has who l

-- Whether a receiver waits at a channel.
unfoldable waits : ℕ → ℕ → List (ℕ × ℕ) → Bool
waits ch who [] = false
waits ch who ((at, x) ∷ l) =
    let later = waits ch who l in if at == ch then (if x == who then true else later) else later

waits-take_first :
    (ch who : ℕ) (l : List (ℕ × ℕ))
    → waits ch who l ≡ true
    → (x : ℕ) × (rest : List (ℕ × ℕ)) × (take_first ch l ≡ some (x, rest))
      × ((x ≡ who) ⊎ (waits ch who rest ≡ true))
unfolding waits take_first
waits-take_first ch who [] h = absurd (cc)
waits-take_first ch who ((at, x) ∷ l) h = elim (Bool-cases (at == ch)) [
  | inl here ↦ (x, l, ground (arith, here), ground (arith, here))
  | inr there ↦
      let (first, rest, taken, which) = waits-take_first ch who l (ground (arith, there)) in
      (first, (at, x) ∷ rest, ground (arith, there, taken), ground (arith, there, which))
]

waits-waiting_at :
    (ch who : ℕ) (l : List (ℕ × ℕ)) → waits ch who l ≡ true → has who (waiting_at ch l) ≡ true
unfolding waits has waiting_at
waits-waiting_at ch who [] h = absurd (cc)
waits-waiting_at ch who ((at, x) ∷ l) h = ground (arith, waits-waiting_at ch who l)

has-append_left : (who : ℕ) (l m : List ℕ) → has who l ≡ true → has who (l ++ m) ≡ true
unfolding has
has-append_left who [] m h = absurd (cc)
has-append_left who (x ∷ l) m h = ground (arith, has-append_left who l m)

has-append_right : (who : ℕ) (l m : List ℕ) → has who m ≡ true → has who (l ++ m) ≡ true
unfolding has
has-append_right who [] m h = h
has-append_right who (x ∷ l) m h = ground (arith, has-append_right who l m h)

waits-append_left :
    (ch who : ℕ) (l m : List (ℕ × ℕ)) → waits ch who l ≡ true → waits ch who (l ++ m) ≡ true
unfolding waits
waits-append_left ch who [] m h = absurd (cc)
waits-append_left ch who ((at, x) ∷ l) m h = ground (arith, waits-append_left ch who l m)

waits-append_last : (ch who : ℕ) (l : List (ℕ × ℕ)) → waits ch who (l ++ (ch, who) ∷ []) ≡ true
unfolding waits
waits-append_last ch who [] = ground arith
waits-append_last ch who ((at, x) ∷ l) = ground (arith, waits-append_last ch who l)

-- A receive has returned, or waits for the next broadcast.
abbrev Kept : ℕ → Cond → Type 0
Kept who c = (has who c.woken ≡ true) ⊎ (waits c.current who c.blocked ≡ true)

receive-Kept : (who : ℕ) (c : Cond) → Kept who (receive (wait c) who c)
unfolding receive wait has
receive-Kept who c = ground (arith, waits-append_last c.current who c.blocked)

signal_keeps : (who : ℕ) (c : Cond) → Kept who c → Kept who (signal c)
unfolding signal has
signal_keeps who c (inl w) = inl (ground (arith, w))
signal_keeps who c (inr w) =
    let (x, rest, taken, which) = waits-take_first c.current who c.blocked w in
    ground (arith, taken, which)

broadcast_keeps : (who : ℕ) (c : Cond) → Kept who c → has who (broadcast c).woken ≡ true
unfolding broadcast close_channel
broadcast_keeps who c (inl w) = has-append_right who (waiting_at c.current c.blocked) c.woken w
broadcast_keeps who c (inr w) =
    has-append_left who (waiting_at c.current c.blocked) c.woken
      (waits-waiting_at c.current who c.blocked w)

receive_keeps : (who ch other : ℕ) (c : Cond) → Kept who c → Kept who (receive ch other c)
unfolding receive has
receive_keeps who ch other c k =
    ground (arith, k, waits-append_left c.current who c.blocked ((ch, other) ∷ []))

use_all-Kept : (who : ℕ) (us : List Use) (c : Cond) → Kept who c → Kept who (use_all us c)
unfolding use_all
use_all-Kept who [] c k = k
use_all-Kept who (signals ∷ us) c k = use_all-Kept who us (signal c) (signal_keeps who c k)
use_all-Kept who (broadcasts ∷ us) c k =
    use_all-Kept who us (broadcast c) (inl (broadcast_keeps who c k))
use_all-Kept who (receives ch other ∷ us) c k =
    use_all-Kept who us (receive ch other c) (receive_keeps who ch other c k)

-- What has returned stays so, and what is closed.
use_all-woken :
    (who : ℕ) (us : List Use) (c : Cond)
    → has who c.woken ≡ true
    → has who (use_all us c).woken ≡ true
unfolding use_all signal broadcast close_channel receive has
use_all-woken who [] c w = w
use_all-woken who (signals ∷ us) c w = use_all-woken who us (signal c) (ground (arith, w))
use_all-woken who (broadcasts ∷ us) c w =
    use_all-woken who us (broadcast c)
      (has-append_right who (waiting_at c.current c.blocked) c.woken w)
use_all-woken who (receives ch other ∷ us) c w =
    use_all-woken who us (receive ch other c) (ground (arith, w))

use_all-closed :
    (ch : ℕ) (us : List Use) (c : Cond) → c.closed ch ≡ true → (use_all us c).closed ch ≡ true
unfolding use_all signal broadcast close_channel receive
use_all-closed ch [] c h = h
use_all-closed ch (signals ∷ us) c h = use_all-closed ch us (signal c) (ground (arith, h))
use_all-closed ch (broadcasts ∷ us) c h = use_all-closed ch us (broadcast c) (ground (arith, h))
use_all-closed ch (receives at who ∷ us) c h =
    use_all-closed ch us (receive at who c) (ground (arith, h))

-- A channel that was the current one still is, or is closed.
abbrev Handed : ℕ → Cond → Type 0
Handed ch c = (c.closed ch ≡ true) ⊎ (ch ≡ c.current)

use_all-Handed : (ch : ℕ) (us : List Use) (c : Cond) → Handed ch c → Handed ch (use_all us c)
unfolding use_all signal broadcast close_channel receive
use_all-Handed ch [] c h = h
use_all-Handed ch (signals ∷ us) c h = use_all-Handed ch us (signal c) (ground (arith, h))
use_all-Handed ch (broadcasts ∷ us) c h = use_all-Handed ch us (broadcast c) (ground (arith, h))
use_all-Handed ch (receives at who ∷ us) c h =
    use_all-Handed ch us (receive at who c) (ground (arith, h))

receive-closed :
    (ch who : ℕ) (c : Cond) → c.closed ch ≡ true → (receive ch who c).woken ≡ who ∷ c.woken
unfolding receive
receive-closed ch who c h = ground (arith, h)

broadcast-closed : (ch : ℕ) (c : Cond) → Handed ch c → (broadcast c).closed ch ≡ true
unfolding broadcast close_channel
broadcast-closed ch c h = ground (arith, h)

-- Whatever uses of a new condition come before, between and after: if a receiver receives from
-- the channel that Wait returns, and a broadcast comes later, then its receive has returned after
-- it, whether it was waiting by then or not; and a receive from the same channel after the
-- broadcast returns at once.
pub broadcast_wakes :
    (before between after : List Use) (who late : ℕ)
    → let c = use_all before new_cond in
      let d = use_all between (receive (wait c) who c) in
      let e = use_all after (broadcast d) in
      (has who e.woken ≡ true) × ((receive (wait c) late e).woken ≡ late ∷ e.woken)
unfolding wait use_all
broadcast_wakes before between after who late =
    let c = use_all before new_cond in
    let d = use_all between (receive (wait c) who c) in
    let handed = use_all-Handed (wait c) (receives (wait c) who ∷ between) c (inr refl) in
    (
      use_all-woken who after (broadcast d) (
          broadcast_keeps who d
            (use_all-Kept who between (receive (wait c) who c) (receive-Kept who c))),
      receive-closed (wait c) late (use_all after (broadcast d))
          (use_all-closed (wait c) after (broadcast d) (broadcast-closed (wait c) d handed)),
    )
