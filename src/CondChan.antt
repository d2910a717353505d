-- ===== src/CondChan.antt =====
-- cond-chan/cond-chan.go: a condition whose waiters select on a channel.
pub mod Wakes
use fancy_go.Base.{
  set_at, ℕ, ◌+◌, ◌-◌, Bool, true, false, ◌&&◌, List, [], ◌∷◌, ◌++◌, Option, none, some, ltb, ◌==◌,
  if◌then◌else◌,
}

-- `cond`: its channels are numbered as they are made, and `current` is that of the field `ch`.
-- `capacity` is that of the current channel, and `buffered` how many values it holds. `closed` says
-- which channels are closed. `blocked` are the receives that wait, each with its channel and the
-- name of the receiver, the oldest first; `woken` are those that have returned.
pub record Cond : Type 0 where
  pub current : ℕ
  pub capacity : ℕ
  pub buffered : ℕ
  pub closed : ℕ → Bool
  pub blocked : List (ℕ × ℕ)
  pub woken : List ℕ

-- `NewCond`
abbrev pub new_cond : Cond
new_cond = record {
  current = 0;
  capacity = 1;
  buffered = 0;
  closed = λ ch. false;
  blocked = [];
  woken = [];
}

-- `Wait`
unfoldable pub wait : Cond → ℕ
wait c = c.current

-- The oldest receive that waits at a channel, and the others.
unfoldable pub take_first : ℕ → List (ℕ × ℕ) → Option (ℕ × List (ℕ × ℕ))
take_first ch [] = none
take_first ch ((at, who) ∷ rest) =
    let later = take_first ch rest in
    if at == ch
    then some (who, rest)
    else elim later [ none ↦ none | some (first, others) ↦ some (first, (at, who) ∷ others) ]

-- `Signal`: a send that does not wait, to a receive at the current channel or into its buffer.
unfoldable pub signal : Cond → Cond
unfolding take_first
signal c = elim (take_first c.current c.blocked) [
  | some (who, rest) ↦ record c { blocked = rest; woken = who ∷ c.woken }
  | none ↦ if ltb c.buffered c.capacity then record c { buffered = c.buffered + 1 } else c
]

-- The receives that wait at a channel, and those that wait elsewhere.
unfoldable pub waiting_at : ℕ → List (ℕ × ℕ) → List ℕ
waiting_at ch [] = []
waiting_at ch ((at, who) ∷ rest) =
    let others = waiting_at ch rest in if at == ch then who ∷ others else others

unfoldable pub waiting_elsewhere : ℕ → List (ℕ × ℕ) → List (ℕ × ℕ)
waiting_elsewhere ch [] = []
waiting_elsewhere ch ((at, who) ∷ rest) =
    let others = waiting_elsewhere ch rest in if at == ch then others else (at, who) ∷ others

-- `close` of a channel: every receive that waits at it returns.
unfoldable pub close_channel : ℕ → Cond → Cond
unfolding waiting_at waiting_elsewhere
close_channel ch c = record c {
  closed = set_at ch true c.closed;
  blocked = waiting_elsewhere ch c.blocked;
  woken = waiting_at ch c.blocked ++ c.woken;
}

-- `Broadcast`
unfoldable pub broadcast : Cond → Cond
unfolding close_channel
broadcast c = record (close_channel c.current c) {
  current = c.current + 1;
  capacity = 0;
  buffered = 0;
}

-- A receive from a channel that `Wait` has returned: at once if that is closed or holds a value.
unfoldable pub receive : ℕ → ℕ → Cond → Cond
receive ch who c =
    if c.closed ch
    then record c { woken = who ∷ c.woken }
    else if ch == c.current && ltb 0 c.buffered
    then record c { buffered = c.buffered - 1; woken = who ∷ c.woken }
    else record c { blocked = c.blocked ++ (ch, who) ∷ [] }

-- What the users of a condition do; a receive is from a channel, by a receiver.
pub data Use : Type 0 where
  signals : Use
  broadcasts : Use
  receives : ℕ → ℕ → Use

unfoldable pub use_all : List Use → Cond → Cond
unfolding signal broadcast receive
use_all [] c = c
use_all (signals ∷ us) c = use_all us (signal c)
use_all (broadcasts ∷ us) c = use_all us (broadcast c)
use_all (receives ch who ∷ us) c = use_all us (receive ch who c)
