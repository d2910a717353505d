-- ===== src/Tests/Reconnects.antt =====
-- The channel that reconnects on a concrete schedule.
use fancy_go.Base.{ℕ, ◌≡◌, refl, true, false, ◌⊎◌, [], ◌∷◌, some}
use fancy_go.CondChan.{wait, broadcast}
use fancy_go.Websocket.Reconnect.{
  creating, waiting, Reconnect, new_reconnect, loop, enter, created, close, wait_or_create, give,
  signal_of, call, create, wake, shutting, step, run,
}
use fancy_go.Websocket.Reconnect.Safety.{single_creation, waiting_served}

-- The inner channels have no signal of their own. Thread 1 waits for thread 0, whose creation fails.
abbrev retried :
    (c : Reconnect) × (run
        (λ k. false)
        (call 0 ∷ call 1 ∷ create 0 false ∷ wake 1 ∷ [])
        new_reconnect
      ≡ some c)
    × (c.pc 1 ≡ creating)
unfolding run step enter loop created close wait_or_create give signal_of wait broadcast
retried = (_, refl, refl)

-- Thread 2 has the first inner channel; it breaks, thread 0 begins to make another, thread 1 waits.
abbrev one_waits :
    (c : Reconnect) × (run
        (λ k. false)
        (call 2 ∷ create 2 true ∷ shutting 0 ∷ call 0 ∷ call 1 ∷ [])
        new_reconnect
      ≡ some c)
    × (c.pc 1 ≡ waiting 1)
unfolding run step enter loop created close wait_or_create give signal_of wait broadcast
one_waits = (_, refl, refl)

single_creation_example : ◌≡◌ {A = ℕ} 1 1
single_creation_example =
    single_creation (λ k. false) (call 0 ∷ call 1 ∷ create 0 false ∷ wake 1 ∷ []) retried.0 1 1
      retried.1 retried.2 retried.2

waiting_served_example :
    (step (λ k. false) (wake 1) one_waits.0 ≡ some (loop (λ k. false) 1 one_waits.0))
    ⊎ ((j : ℕ) × (one_waits.0.pc j ≡ creating))
waiting_served_example =
    waiting_served (λ k. false) (call 2 ∷ create 2 true ∷ shutting 0 ∷ call 0 ∷ call 1 ∷ [])
      one_waits.0 1 1 one_waits.1 one_waits.2
