-- ===== src/Websocket/Reconnect.antt =====
-- `autoReconnectChannel`: one inner channel at a time, made again when it has broken. Each step is
-- what a thread does between taking the mutex and releasing it.
pub mod Invariant
pub mod Safety
use fancy_go.Base.{
  set_at, ℕ, ◌+◌, Bool, true, false, not, List, [], ◌∷◌, Option, none, some, ◌==◌, if◌then◌else◌,
}
use fancy_go.CondChan.{Cond, new_cond, wait, broadcast}

-- The signal that comes with an inner channel: its own, or a channel of `brokenSignal`.
pub data Signal : Type 0 where
  own : ℕ → Signal
  broken : ℕ → Signal

-- Where a call of `getInner` stands: not called, in `createFn`, waiting at a channel of
-- `createSignal`, returned with a signal and an inner channel, or with an error.
pub data Pc : Type 0 where
  idle : Pc
  creating : Pc
  waiting : ℕ → Pc
  got : Signal → ℕ → Pc
  failed : Pc

-- Inner channels are numbered as they are made. `shut` is whether one is closed, `made` how many
-- there are.
pub record Reconnect : Type 0 where
  pub inner : Option ℕ
  pub is_creating : Bool
  pub closed : Bool
  pub create_signal : Cond
  pub broken_signal : Cond
  pub shut : ℕ → Bool
  pub made : ℕ
  pub pc : ℕ → Pc

-- `NewAutoReconnectChannel`
abbrev pub new_reconnect : Reconnect
new_reconnect = record {
  inner = none;
  is_creating = false;
  closed = false;
  create_signal = new_cond;
  broken_signal = new_cond;
  shut = λ k. false;
  made = 0;
  pc = λ i. idle;
}

-- The end of a turn of the loop, without an inner channel that is open.
unfoldable pub wait_or_create : ℕ → Reconnect → Reconnect
unfolding wait
wait_or_create i c =
    if c.is_creating
    then record c { pc = set_at i (waiting (wait c.create_signal)) c.pc }
    else record c { is_creating = true; pc = set_at i creating c.pc }

-- `Close`
unfoldable pub close : Reconnect → Reconnect
close c = if c.closed then c else record c {
  closed = true;
  shut = elim c.inner [ none ↦ c.shut | some k ↦ set_at k true c.shut ];
}

-- The steps: a call of `getInner`; the return of `createFn`; a waiting call sees that its channel is
-- closed, or that its context is done; an inner channel breaks; `Close`.
pub data Event : Type 0 where
  call : ℕ → Event
  create : ℕ → Bool → Event
  wake : ℕ → Event
  give_up : ℕ → Event
  shutting : ℕ → Event
  closing : Event

-- `has_own` is whether an inner channel is a `ChannelWithBrokenSignal`.
module _ (has_own : ℕ → Bool) where
  unfoldable pub signal_of : Reconnect → ℕ → Signal
  unfolding wait
  signal_of c k = if has_own k then own k else broken (wait c.broken_signal)

  -- The return of an inner channel.
  unfoldable pub give : ℕ → ℕ → Reconnect → Reconnect
  unfolding signal_of
  give i k c = record c { pc = set_at i (got (signal_of c k) k) c.pc }

  -- A turn of the loop of `getInner`, from its first line.
  unfoldable pub loop : ℕ → Reconnect → Reconnect
  unfolding give wait_or_create
  loop i c = elim c.inner [
    | none ↦ wait_or_create i c
    | some k ↦ if c.shut k then wait_or_create i c else give i k c
  ]

  -- `getInner` up to the loop: an inner channel that has broken is dropped, and that is signalled.
  unfoldable pub enter : ℕ → Reconnect → Reconnect
  unfolding loop broadcast
  enter i c = elim c.inner [
    | none ↦ loop i (record c { closed = false })
    | some k ↦
        if c.shut k
        then loop i
            (record c { inner = none; broken_signal = broadcast c.broken_signal; closed = false })
        else give i k (record c { closed = false })
  ]

  -- The return of `createFn`, with a new channel or an error.
  unfoldable pub created : Bool → ℕ → Reconnect → Reconnect
  unfolding give broadcast
  created true i c = give i c.made (record c {
    is_creating = false;
    create_signal = broadcast c.create_signal;
    inner = some c.made;
    made = c.made + 1;
  })
  created false i c = record c {
    is_creating = false;
    create_signal = broadcast c.create_signal;
    pc = set_at i failed c.pc;
  }

  -- `none` for a step that is not possible. A thread whose call has returned may call again.
  unfoldable pub step : Event → Reconnect → Option Reconnect
  unfolding enter loop created close
  step (call i) c = elim (c.pc i) [
    | idle ↦ some (enter i c)
    | creating ↦ none
    | waiting g ↦ none
    | got s k ↦ some (enter i c)
    | failed ↦ some (enter i c)
  ]
  step (create i ok) c = elim (c.pc i) [
    | idle ↦ none
    | creating ↦ some (created ok i c)
    | waiting g ↦ none
    | got s k ↦ none
    | failed ↦ none
  ]
  step (wake i) c = elim (c.pc i) [
    | idle ↦ none
    | creating ↦ none
    | waiting g ↦ if c.create_signal.closed g then some (loop i c) else none
    | got s k ↦ none
    | failed ↦ none
  ]
  step (give_up i) c = elim (c.pc i) [
    | idle ↦ none
    | creating ↦ none
    | waiting g ↦ some (record c { pc = set_at i failed c.pc })
    | got s k ↦ none
    | failed ↦ none
  ]
  step (shutting k) c = some (record c { shut = set_at k true c.shut })
  step closing c = some (close c)

  unfoldable pub run : List Event → Reconnect → Option Reconnect
  run [] c = some c
  run (e ∷ es) c = elim (step e c) [ none ↦ none | some c' ↦ run es c' ]
