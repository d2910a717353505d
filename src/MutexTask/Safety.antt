-- ===== src/MutexTask/Safety.antt =====
-- What holds in every reachable state of a `MutexTask`.
use fancy_go.Base.{
  ℕ, ◌≡◌, ◌<◌, refl, sym, subst, Option-cases, ◌⊎◌, inl, inr, List, [], ◌∷◌, Option, none, some,
  arith,
}
use fancy_go.MutexTask.System.{
  Task, Outcome, Pc, idle, running, recovered, sending, waiting, returned, System, Move, done,
  release, send, finish, receive, Step, pick, init, Reach, start, later,
}
use fancy_go.MutexTask.Invariant.{count, key_led, pending, Inv, Move-Inv}

module _ {t : Task} where
  Inv-init : Inv t (init t).waiting_map (init t).inbox (init t).pc
  Inv-init = record {
    owner = λ i k h. cc;
    unique = λ i j k h. cc;
    led = λ k h. absurd (h refl);
    listed = λ w k h. absurd (omega arith);
    listed_empty = λ w k h. refl;
    queued = λ w j h. absurd (omega arith);
    queued_empty = λ w j h. refl;
    once_listed = λ w k. omega arith;
    once_queued = λ w j. omega arith;
    apart = λ w j k h. refl;
    alone = λ w i j h. absurd (omega arith);
    boxed = λ w h. refl;
    served = λ i k h. absurd (ground arith);
  }

  Step-Inv :
      {s s' : System t}
      → Step t s s'
      → Inv t s.waiting_map s.inbox s.pc
      → Inv t s'.waiting_map s'.inbox s'.pc
  Step-Inv (pick i mv) inv = Move-Inv inv i mv

  pub Reach-Inv : {s : System t} → Reach t s → Inv t s.waiting_map s.inbox s.pc
  Reach-Inv start = Inv-init
  Reach-Inv (later r st) = Step-Inv st (Reach-Inv r)

  -- In every reachable state, two threads that execute the function for one key are the same
  -- thread.
  pub single_flight :
      {s : System t} (i j : ℕ) (k : t.Key)
      → Reach t s
      → s.pc i ≡ running k
      → s.pc j ≡ running k
      → i ≡ j
  single_flight i j k r hi hj = (Reach-Inv r).unique i j k (ground arith) (ground arith)

  -- In every reachable state, if a thread waits for the result of a key and its channel is empty,
  -- then some thread leads that key or is sending results and has the waiting thread still on its
  -- list.
  pub waiter_served :
      {s : System t} (i : ℕ) (k : t.Key)
      → Reach t s
      → s.pc i ≡ waiting k
      → s.inbox i ≡ none
      → (j : ℕ) × ((key_led t (s.pc j) ≡ some k) ⊎ (0 < count i (pending t (s.pc j))))
  waiter_served {s} i k r h n =
      let inv = Reach-Inv r in
      elim (inv.served i k (ground arith) n) [
        | inl list ↦ let (j, held) = inv.led k (ground arith) in (j, inl held)
        | inr (j, q) ↦ (j, inr q)
      ]

  -- In every reachable state, the channel that a thread is about to send a result to is empty, so
  -- the loop over the waiting callers never blocks.
  send_never_blocks :
      {s : System t} (j w : ℕ) (ws : List ℕ) (sent ret : Outcome t)
      → Reach t s
      → s.pc j ≡ sending (w ∷ ws) sent ret
      → s.inbox w ≡ none
  send_never_blocks j w ws sent ret r h = (Reach-Inv r).queued_empty w j (ground arith)

  -- A thread that stands at `p` can make a move from `p`.
  move_from :
      {s : System t} (j : ℕ) {p p' : Pc t} {m : t.Key → Option (List ℕ)}
      {b : ℕ → Option (Outcome t)}
      → s.pc j ≡ p
      → Move t j s.waiting_map s.inbox p m b p'
      → (s' : System t) × Step t s s'
  move_from {s} j {p' = p'} {m = m} {b = b} e mv =
      (_, pick j (subst (λ q. Move t j s.waiting_map s.inbox q m b p') (sym e) mv))

  leader_moves :
      {s : System t} (j : ℕ) (k : t.Key) (p : Pc t)
      → s.pc j ≡ p
      → key_led t p ≡ some k
      → (s' : System t) × Step t s s'
  leader_moves j k (running k') e h = move_from j e (done (t.zero_result, none))
  leader_moves j k (recovered k' sent ret) e h = move_from j e release
  leader_moves j k idle e h = absurd (cc)
  leader_moves j k (sending left sent ret) e h = absurd (cc)
  leader_moves j k (waiting k') e h = absurd (cc)
  leader_moves j k (returned o) e h = absurd (cc)

  sender_moves :
      {s : System t} (i j : ℕ) (p : Pc t)
      → Reach t s
      → s.pc j ≡ p
      → 0 < count i (pending t p)
      → (s' : System t) × Step t s s'
  sender_moves i j (sending (w ∷ ws) sent ret) r e h =
      move_from j e (send (send_never_blocks j w ws sent ret r e))
  sender_moves i j (sending [] sent ret) r e h = move_from j e finish
  sender_moves i j idle r e h = absurd (omega arith)
  sender_moves i j (running k) r e h = absurd (omega arith)
  sender_moves i j (recovered k sent ret) r e h = absurd (omega arith)
  sender_moves i j (waiting k) r e h = absurd (omega arith)
  sender_moves i j (returned o) r e h = absurd (omega arith)

  -- In every reachable state in which a thread waits, some thread can make a step.
  no_deadlock :
      {s : System t} (i : ℕ) (k : t.Key)
      → Reach t s
      → s.pc i ≡ waiting k
      → (s' : System t) × Step t s s'
  no_deadlock {s} i k r h = elim (Option-cases (s.inbox i)) [
    | inr (o, full) ↦ move_from i h (receive full)
    | inl empty ↦ elim (waiter_served i k r h empty).1 [
      | inl held ↦ leader_moves (waiter_served i k r h empty).0 k _ refl held
      | inr queue ↦ sender_moves i (waiter_served i k r h empty).0 _ r refl queue
    ]
  ]
