-- ===== src/MutexTask/System.antt =====
-- `Exec` as a step relation. A step is what a thread does between two points where another thread
-- can see the difference: under the mutex, or at a channel.
use mathlib.Core.Logic.{ite}
use native.Mathlib.Decide.{ℕ_discrete}
use fancy_go.Base.{ℕ, ◌≡◌, List, [], ◌∷◌, ◌++◌, Option, none, some, Bytes, codes}

abbrev pub update {ℓ} : {A : Type ℓ} → (ℕ → A) → ℕ → A → ℕ → A
update f i a j = ite (ℕ_discrete i j) a (f j)

-- What the program does not fix: results, errors, keys and the values of panics. `zero_result` is the
-- zero value of the result type; `as_error` says whether a recovered value is an error, and `print`
-- is what `fmt` makes of it; `new_error` and `with_stack` are `errors.New` and `errors.WithStack`.
pub record Task : Type 1 where
  pub Key : Type 0
  pub Result : Type 0
  pub Error : Type 0
  pub same_key : Discrete Key
  pub zero_result : Result
  pub PanicValue : Type 0
  pub as_error : PanicValue → Option Error
  pub print : PanicValue → Bytes
  pub new_error : Bytes → Error
  pub with_stack : Error → Error

module _ (t : Task) where
  open t use {
    Key, Result, Error, same_key, zero_result, PanicValue, as_error, print, new_error, with_stack,
  }

  -- A result and its error, as `Exec` returns them and as the channels carry them.
  abbrev pub Outcome : Type 0
  Outcome = Result × Option Error

  -- The error that the deferred function makes of a recovered value.
  unfoldable pub panic_error : PanicValue → Error
  panic_error v = elim (as_error v) [
    | none ↦ new_error (codes "panic: " ++ print v)
    | some e ↦ with_stack e
  ]

  -- Where a thread stands in `Exec`. `sent` is what the waiting callers get, `ret` what the thread
  -- itself returns.
  pub data Pc : Type 0 where
    idle : Pc
    running : Key → Pc  -- before the return of `m.exec(p)`
    recovered : (k : Key) → (sent : Outcome) → (ret : Outcome) → Pc  -- before `m.mu.Lock()` of the deferred function
    sending : (left : List ℕ) → (sent : Outcome) → (ret : Outcome) → Pc  -- the loop over `waitingList`
    waiting : Key → Pc  -- at `<-ch`
    returned : Outcome → Pc

  -- `waiting_map` is `waitingMap`, with thread numbers for the channels; `inbox` is what a thread's
  -- channel, of capacity one, holds.
  pub record System : Type 0 where
    pub waiting_map : Key → Option (List ℕ)
    pub inbox : ℕ → Option Outcome
    pub pc : ℕ → Pc

  abbrev pub put : (Key → Option (List ℕ)) → Key → Option (List ℕ) → Key → Option (List ℕ)
  put m k v j = ite (same_key k j) v (m j)

  -- `delete` leaves no entry, and a read of a missing entry is nil.
  abbrev pub entry : Option (List ℕ) → List ℕ
  entry none = []
  entry (some ws) = ws

  -- A move of the thread `i`: the map and the inboxes before and after, and where it stands.
  pub data Move (i : ℕ) (m : Key → Option (List ℕ)) (b : ℕ → Option Outcome)
      : Pc → (Key → Option (List ℕ)) → (ℕ → Option Outcome) → Pc → Type 0 where
    -- not running: the thread becomes the leader for the key
    lead : {k : Key} → m k ≡ none → Move i m b idle (put m k (some [])) b (running k)
    -- running: the thread's channel is appended
    join :
        {k : Key} {ws : List ℕ}
        → m k ≡ some ws
        → Move i m b idle (put m k (some (ws ++ i ∷ []))) b (waiting k)
    -- `result, err = m.exec(p)` returns
    done : {k : Key} (o : Outcome) → Move i m b (running k) m b (recovered k o o)
    -- `m.exec(p)` panics: the deferred function sets the local `err`; the results of `Exec` have no
    -- names, so it returns zero values
    panic :
        {k : Key} (v : PanicValue)
        → Move i m b
            (running k)
            m
            b
            (recovered k (zero_result, some (panic_error v)) (zero_result, none))
    -- the entry is taken and deleted
    release :
        {k : Key} {sent ret : Outcome}
        → Move i m b (recovered k sent ret) (put m k none) b (sending (entry (m k)) sent ret)
    -- `ch <- result`: blocks while the channel is full
    send :
        {w : ℕ} {ws : List ℕ} {sent ret : Outcome}
        → b w ≡ none
        → Move i m b (sending (w ∷ ws) sent ret) m (update b w (some sent)) (sending ws sent ret)
    finish : {sent ret : Outcome} → Move i m b (sending [] sent ret) m b (returned ret)
    receive :
        {k : Key} {o : Outcome}
        → b i ≡ some o
        → Move i m b (waiting k) m (update b i none) (returned o)

  pub data Step (s : System) : System → Type 0 where
    pick :
        (i : ℕ) {m : Key → Option (List ℕ)} {b : ℕ → Option Outcome} {p : Pc}
        → Move i s.waiting_map s.inbox (s.pc i) m b p
        → Step s (record { waiting_map = m; inbox = b; pc = update s.pc i p })

  -- `NewMutexTask`, before any call
  abbrev pub init : System
  init = record { waiting_map = λ k. none; inbox = λ i. none; pc = λ i. idle }

  pub data Reach : System → Type 0 where
    start : Reach init
    later : {s s' : System} → Reach s → Step s s' → Reach s'
