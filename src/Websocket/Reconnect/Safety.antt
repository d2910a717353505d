-- ===== src/Websocket/Reconnect/Safety.antt =====
-- Who makes an inner channel, and who is woken when it is made or has broken.
use fancy_go.Base.{
  ℕ, ◌<◌, ◌≡◌, ◌≢◌, ap, Bool, true, false, ◌⊎◌, inl, inr, List, [], ◌∷◌, some, arith,
}
use fancy_go.CondChan.{wait}
use fancy_go.Websocket.Reconnect.{
  broken, Pc, creating, waiting, got, Reconnect, new_reconnect, give, wait_or_create, loop, created,
  Event, create, wake, step, run,
}
use fancy_go.Websocket.Reconnect.Invariant.{creates, waits_at, reached-Inv}

module _ (has_own : ℕ → Bool) where
  creates-creating : (p : Pc) → creates p ≡ true → p ≡ creating
  creates-creating p h = ground arith

  -- Whatever threads call getInner and Close, whether creations succeed or fail, and whenever
  -- inner channels break: at no time do two threads execute createFn.
  pub single_creation :
      (es : List Event) (c : Reconnect) (i j : ℕ)
      → run has_own es new_reconnect ≡ some c
      → c.pc i ≡ creating
      → c.pc j ≡ creating
      → i ≡ j
  single_creation es c i j h e e' =
      (reached-Inv has_own es c h).single i j (ap creates e) (ap creates e')

  -- Whatever has happened to a reconnecting channel: if a thread waits for the end of a creation,
  -- then it can go on with a turn of the loop at once, or some thread is executing createFn.
  pub waiting_served :
      (es : List Event) (c : Reconnect) (i g : ℕ)
      → run has_own es new_reconnect ≡ some c
      → c.pc i ≡ waiting g
      → (step has_own (wake i) c ≡ some (loop has_own i c)) ⊎ ((j : ℕ) × (c.pc j ≡ creating))
  unfolding step
  waiting_served es c i g h e = elim ((reached-Inv has_own es c h).heard i g (ap waits_at e)) [
    | inl old ↦ inl (ground (arith, e, old))
    | inr (new, on) ↦
        let (j, f) = (reached-Inv has_own es c h).led on in inr (j, creates-creating (c.pc j) f)
  ]

  -- An inner channel that breaks before a waiting call wakes is replaced by that call, and the broken
  -- signal that came with it is not broadcast.
  broken_signal_lost :
      (c : Reconnect) (i j k g : ℕ)
      → c.pc i ≡ waiting g
      → c.create_signal.closed g ≡ true
      → c.is_creating ≡ false
      → c.inner ≡ some k
      → k < c.made
      → c.shut k ≡ true
      → has_own c.made ≡ false
      → c.pc j ≡ got (broken (wait c.broken_signal)) k
      → (d : Reconnect) × (run has_own (wake i ∷ create i true ∷ []) c ≡ some d)
        × (d.inner ≡ some c.made)
        × (c.made ≢ k)
        × (d.pc j ≡ got (broken (wait d.broken_signal)) k)
  unfolding run step loop created wait_or_create give
  broken_signal_lost c i j k g e old off inner less gone own' f = (
    created has_own true i (wait_or_create i c),
    ground (arith, e, old, off, inner, gone),
    ground (arith, off),
    omega arith,
    ground (arith, e, f, off),
  )
