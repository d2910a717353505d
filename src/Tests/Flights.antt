-- ===== src/Tests/Flights.antt =====
-- mutex-task/mutex-task.go on a concrete schedule: two callers for one key.
use native.Mathlib.Decide.{ℕ_discrete}
use fancy_go.Base.{ℕ, ◌≡◌, ◌<◌, refl, ◌⊎◌, [], none, some}
use fancy_go.MutexTask.System.{
  Task, running, waiting, returned, System, panic_error, lead, join, panic, release, send, finish,
  receive, pick, Reach, start, later,
}
use fancy_go.MutexTask.Invariant.{count, key_led, pending}
use fancy_go.MutexTask.Safety.{single_flight, waiter_served}
use fancy_go.MutexTask.Endings.{Ending, own_outcome, shared_outcome, key_of, ending_of}
use fancy_go.MutexTask.Results.{returned-ending}

abbrev numbers : Task
numbers = record {
  Key = ℕ;
  Result = ℕ;
  Error = ℕ;
  same_key = ℕ_discrete;
  zero_result = 0;
  PanicValue = ℕ;
  as_error = λ v. some v;
  print = λ v. [];
  new_error = λ text. 0;
  with_stack = λ e. e;
}

-- Thread 0 leads key 7, thread 1 waits for it.
abbrev two_callers :
    (s : System numbers) × Reach numbers s
    × (s.pc 0 ≡ running 7)
    × (s.pc 1 ≡ waiting 7)
    × (s.inbox 1 ≡ none)
unfolding ℕ_discrete
two_callers = (
  _,
  later (later start (pick 0 (lead {k = 7} refl))) (pick 1 (join {k = 7} {ws = []} refl)),
  refl,
  refl,
  refl,
)

-- The execution panics, and thread 1 gets the error.
abbrev panicked_callers :
    (s : System numbers) × (r : Reach numbers s) × (s.pc 1 ≡ returned (0, some 99))
unfolding ℕ_discrete panic_error
panicked_callers = (
  _,
  later
      (later
        (later
          (later
            (later
              (later (later start (pick 0 (lead {k = 7} refl)))
                (pick 1 (join {k = 7} {ws = []} refl)))
              (pick 0 (panic 99)))
            (pick 0 release))
          (pick 0 (send {w = 1} {ws = []} refl)))
        (pick 0 finish))
      (pick 1 (receive {k = 7} {o = (0, some 99)} refl)),
  refl,
)

single_flight_example : ◌≡◌ {A = ℕ} 0 0
single_flight_example = single_flight {t = numbers} 0 0 7 two_callers.1 two_callers.2 two_callers.2

waiter_served_example :
    (j : ℕ) × ((key_led numbers (two_callers.0.pc j) ≡ some 7)
      ⊎ (0 < count 1 (pending numbers (two_callers.0.pc j))))
waiter_served_example = waiter_served 1 7 two_callers.1 two_callers.3 two_callers.4

returned-ending_example :
    let r = panicked_callers.1 in
    (j : ℕ) × (k : ℕ) × (x : Ending numbers) × (key_of numbers r 1 ≡ some k)
    × (key_of numbers r j ≡ some k)
    × (ending_of numbers r j ≡ some x)
    × (((1 ≡ j) × ((0, some 99) ≡ own_outcome numbers x))
        ⊎ ((ending_of numbers r 1 ≡ none) × ((0, some 99) ≡ shared_outcome numbers x)))
returned-ending_example = returned-ending panicked_callers.1 1 (0, some 99) panicked_callers.2
