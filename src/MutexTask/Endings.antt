-- ===== src/MutexTask/Endings.antt =====
-- The executions of `MutexTask`, how they have ended, and what their results have to do with what
-- callers get.
use fancy_go.Base.{ℕ, ◌≡◌, ◌≢◌, ◌<◌, Bool, true, false, ◌⊎◌, List, Option, none, some}
use fancy_go.MutexTask.System.{
  update, Task, Outcome, Pc, idle, running, recovered, sending, waiting, returned, System,
  panic_error, Move, lead, join, done, panic, pick, Reach, start, later,
}
use fancy_go.MutexTask.Invariant.{count, key_led, awaits, pending}

module _ (t : Task) where
  -- How an execution has ended.
  pub data Ending : Type 0 where
    result : Outcome t → Ending
    panicked : t.PanicValue → Ending

  -- What the thread that executed returns, and what the others that wait for it do.
  abbrev pub own_outcome : Ending → Outcome t
  own_outcome (result o) = o
  own_outcome (panicked v) = (t.zero_result, none)

  abbrev pub shared_outcome : Ending → Outcome t
  shared_outcome (result o) = o
  shared_outcome (panicked v) = (t.zero_result, some (panic_error t v))

  -- The key that a thread has called `Exec` for, and how its execution, if any, has ended, after a
  -- move of it.
  abbrev pub key_after :
      {i : ℕ} {m m' : t.Key → Option (List ℕ)} {b b' : ℕ → Option (Outcome t)} {p p' : Pc t}
      → Move t i m b p m' b' p'
      → Option t.Key
      → Option t.Key
  key_after (lead {k = k} g) old = some k
  key_after (join {k = k} g) old = some k
  key_after _ old = old

  abbrev pub ending_after :
      {i : ℕ} {m m' : t.Key → Option (List ℕ)} {b b' : ℕ → Option (Outcome t)} {p p' : Pc t}
      → Move t i m b p m' b' p'
      → Option Ending
      → Option Ending
  ending_after (done o) old = some (result o)
  ending_after (panic v) old = some (panicked v)
  ending_after _ old = old

  unfoldable pub key_of : {s : System t} → Reach t s → ℕ → Option t.Key
  key_of start = λ i. none
  key_of (later r (pick i mv)) = update (key_of r) i (key_after mv (key_of r i))

  unfoldable pub ending_of : {s : System t} → Reach t s → ℕ → Option Ending
  ending_of start = λ i. none
  ending_of (later r (pick i mv)) = update (ending_of r) i (ending_after mv (ending_of r i))

  abbrev pub own_of : Option Ending → Option (Outcome t)
  own_of none = none
  own_of (some x) = some (own_outcome x)

  abbrev pub shared_of : Option Ending → Option (Outcome t)
  shared_of none = none
  shared_of (some x) = some (shared_outcome x)

  abbrev pub is_idle : Pc t → Bool
  is_idle idle = true
  is_idle _ = false

  -- A thread that has not executed to the end.
  abbrev pub unrun : Pc t → Bool
  unrun idle = true
  unrun (running k) = true
  unrun (waiting k) = true
  unrun _ = false

  abbrev pub sent_by : Pc t → Option (Outcome t)
  sent_by (recovered k sent ret) = some sent
  sent_by (sending left sent ret) = some sent
  sent_by _ = none

  abbrev pub returned_by : Pc t → Option (Outcome t)
  returned_by (recovered k sent ret) = some ret
  returned_by (sending left sent ret) = some ret
  returned_by _ = none

  abbrev pub got_by : Pc t → Option (Outcome t)
  got_by (returned o) = some o
  got_by _ = none

  module _ (key : ℕ → Option t.Key) (ending : ℕ → Option Ending) where
    -- What a thread may be sent: the result of an execution for its key.
    abbrev pub Shared : ℕ → Outcome t → Type 0
    Shared w o =
        (j : ℕ) × (k : t.Key) × (key w ≡ some k)
        × (key j ≡ some k)
        × (shared_of (ending j) ≡ some o)

    -- What a thread may return: that of its own execution, if it has one.
    abbrev pub Got : ℕ → Outcome t → Type 0
    Got i o = (own_of (ending i) ≡ some o) ⊎ ((ending i ≡ none) × Shared i o)

    pub record Told (b : ℕ → Option (Outcome t)) (pc : ℕ → Pc t) : Type 0 where
      pub keyless : (i : ℕ) → is_idle (pc i) ≡ true → key i ≡ none
      pub keyed : (i : ℕ) → is_idle (pc i) ≡ false → key i ≢ none
      pub led_key : (i : ℕ) (k : t.Key) → key_led t (pc i) ≡ some k → key i ≡ some k
      pub awaited_key : (i : ℕ) (k : t.Key) → awaits t (pc i) ≡ some k → key i ≡ some k
      pub not_run : (i : ℕ) → unrun (pc i) ≡ true → ending i ≡ none
      pub sent : (i : ℕ) (o : Outcome t) → sent_by (pc i) ≡ some o → shared_of (ending i) ≡ some o
      pub kept : (i : ℕ) (o : Outcome t) → returned_by (pc i) ≡ some o → own_of (ending i) ≡ some o
      pub one_key : (w j : ℕ) → 0 < count w (pending t (pc j)) → key w ≡ key j
      pub boxes : (w : ℕ) (o : Outcome t) → b w ≡ some o → Shared w o
      pub got : (i : ℕ) (o : Outcome t) → got_by (pc i) ≡ some o → Got i o
