-- ===== src/MutexTask/Results.antt =====
-- What the callers of `Exec` get: every caller for a key the result of one execution for that key.
use fancy_go.Base.{
  ℕ, ◌≡◌, ◌<◌, refl, ap, ◌∙◌, true, false, ◌⊎◌, inl, inr, List, Option, none, some, arith,
  Option-cases,
}
use fancy_go.MutexTask.System.{
  update, Task, Outcome, Pc, returned, System, Move, lead, join, done, panic, release, send, finish,
  receive, pick, Reach, start, later,
}
use fancy_go.MutexTask.Invariant.{count, pending, Inv}
use fancy_go.MutexTask.Endings.{
  Ending, own_outcome, shared_outcome, key_after, ending_after, key_of, ending_of, own_of,
  shared_of, is_idle, unrun, sent_by, returned_by, got_by, Shared, Got, Told,
}
use fancy_go.MutexTask.Keys.{
  Move-key, Move-ending, Move-keyless, Move-keyed, Move-led_key, Move-awaited_key, Move-not_run,
  Move-sent, Move-kept, Move-one_key,
}
use fancy_go.MutexTask.Safety.{Reach-Inv}

module _ {t : Task} {m : t.Key → Option (List ℕ)} {b : ℕ → Option (Outcome t)} {pc : ℕ → Pc t}
    (inv : Inv t m b pc) (key : ℕ → Option t.Key) (ending : ℕ → Option (Ending t))
    (h : Told t key ending b pc) (i : ℕ) where
  open h use {keyed, not_run, sent, kept, one_key, boxes, got}

  Move-Shared :
      {p p' : Pc t} {m' : t.Key → Option (List ℕ)} {b' : ℕ → Option (Outcome t)}
      (mv : Move t i m b p m' b' p')
      → pc i ≡ p
      → (w : ℕ) (o : Outcome t) → Shared t key ending w o
      → Shared t
          (update key i (key_after t mv (key i)))
          (update ending i (ending_after t mv (ending i)))
          w
          o
  Move-Shared mv e w o (j, k, mine, same, told) = (
    j,
    k,
    Move-key inv key ending h i mv e w (λ g. ground (arith, g, mine)) ∙ mine,
    Move-key inv key ending h i mv e j (λ g. ground (arith, g, same)) ∙ same,
    ap (shared_of t) (Move-ending inv key ending h i mv e j (λ g. ground (arith, g, told))) ∙ told,
  )

  -- What is in a channel has been there before, or has been sent by this thread.
  inbox-cases :
      {p p' : Pc t} {m' : t.Key → Option (List ℕ)} {b' : ℕ → Option (Outcome t)}
      (mv : Move t i m b p m' b' p')
      → pc i ≡ p
      → (w : ℕ) (o : Outcome t) → b' w ≡ some o
      → (b w ≡ some o)
        ⊎ ((sent_by t (pc i) ≡ some o)
            × (is_idle t (pc i) ≡ false)
            × (0 < count w (pending t (pc i))))
  inbox-cases (lead {k = k'} g) e w o g' = ground arith
  inbox-cases (join {k = k'} {ws = ws} g) e w o g' = ground arith
  inbox-cases (done o') e w o g' = ground arith
  inbox-cases (panic v) e w o g' = ground arith
  inbox-cases (release {k = k'}) e w o g' = ground arith
  inbox-cases (send {w = w'} {ws = ws} g) e w o g' = ground arith
  inbox-cases finish e w o g' = ground arith
  inbox-cases (receive {k = k'} g) e w o g' = ground arith

  Move-boxes :
      {p p' : Pc t} {m' : t.Key → Option (List ℕ)} {b' : ℕ → Option (Outcome t)}
      (mv : Move t i m b p m' b' p')
      → pc i ≡ p
      → (w : ℕ) (o : Outcome t) → b' w ≡ some o
      → Shared t
          (update key i (key_after t mv (key i)))
          (update ending i (ending_after t mv (ending i)))
          w
          o
  Move-boxes mv e w o g' = Move-Shared mv e w o (elim (inbox-cases mv e w o g') [
    | inl before ↦ boxes w o before
    | inr (out, begun, listed) ↦ elim (Option-cases (key i)) [
      | inl none' ↦ absurd (keyed i begun none')
      | inr (k, mine) ↦ (i, k, one_key w i listed ∙ mine, mine, sent i o out)
    ]
  ])

  got-cases :
      {p p' : Pc t} {m' : t.Key → Option (List ℕ)} {b' : ℕ → Option (Outcome t)}
      (mv : Move t i m b p m' b' p')
      → pc i ≡ p
      → (j : ℕ) (o : Outcome t) → got_by t (update pc i p' j) ≡ some o
      → (got_by t (pc j) ≡ some o)
        ⊎ (returned_by t (pc j) ≡ some o)
        ⊎ ((unrun t (pc j) ≡ true) × (b j ≡ some o))
  got-cases (lead {k = k'} g) e j o g' = ground arith
  got-cases (join {k = k'} {ws = ws} g) e j o g' = ground arith
  got-cases (done o') e j o g' = ground arith
  got-cases (panic v) e j o g' = ground arith
  got-cases (release {k = k'}) e j o g' = ground arith
  got-cases (send {w = w'} {ws = ws} g) e j o g' = ground arith
  got-cases finish e j o g' = ground arith
  got-cases (receive {k = k'} g) e j o g' = ground arith

  -- A thread that has returned has nothing more to execute.
  ending-got :
      {p p' : Pc t} {m' : t.Key → Option (List ℕ)} {b' : ℕ → Option (Outcome t)}
      (mv : Move t i m b p m' b' p')
      → pc i ≡ p
      → (j : ℕ) (o : Outcome t) → got_by t (update pc i p' j) ≡ some o
      → update ending i (ending_after t mv (ending i)) j ≡ ending j
  ending-got (lead {k = k'} g) e j o g' = ground arith
  ending-got (join {k = k'} {ws = ws} g) e j o g' = ground arith
  ending-got (done o') e j o g' = ground arith
  ending-got (panic v) e j o g' = ground arith
  ending-got (release {k = k'}) e j o g' = ground arith
  ending-got (send {w = w'} {ws = ws} g) e j o g' = ground arith
  ending-got finish e j o g' = ground arith
  ending-got (receive {k = k'} g) e j o g' = ground arith

  Move-got :
      {p p' : Pc t} {m' : t.Key → Option (List ℕ)} {b' : ℕ → Option (Outcome t)}
      (mv : Move t i m b p m' b' p')
      → pc i ≡ p
      → (j : ℕ) (o : Outcome t) → got_by t (update pc i p' j) ≡ some o
      → Got t
          (update key i (key_after t mv (key i)))
          (update ending i (ending_after t mv (ending i)))
          j
          o
  Move-got mv e j o g' =
      let same = ending-got mv e j o g' in
      elim (before (got-cases mv e j o g')) [
        | inl own ↦ inl (ap (own_of t) same ∙ own)
        | inr (unrun', shared) ↦ inr (same ∙ unrun', Move-Shared mv e j o shared)
      ]
    where
      before :
          (got_by t (pc j) ≡ some o)
            ⊎ (returned_by t (pc j) ≡ some o)
            ⊎ ((unrun t (pc j) ≡ true) × (b j ≡ some o))
          → Got t key ending j o
      before (inl old) = got j o old
      before (inr (inl led)) = inl (kept j o led)
      before (inr (inr (waits, there))) = inr (not_run j waits, boxes j o there)

  Move-Told :
      {p p' : Pc t} {m' : t.Key → Option (List ℕ)} {b' : ℕ → Option (Outcome t)}
      (mv : Move t i m b p m' b' p')
      → pc i ≡ p
      → Told t
          (update key i (key_after t mv (key i)))
          (update ending i (ending_after t mv (ending i)))
          b'
          (update pc i p')
  Move-Told mv e = record {
    keyless = Move-keyless inv key ending h i mv e;
    keyed = Move-keyed inv key ending h i mv e;
    led_key = Move-led_key inv key ending h i mv e;
    awaited_key = Move-awaited_key inv key ending h i mv e;
    not_run = Move-not_run inv key ending h i mv e;
    sent = Move-sent inv key ending h i mv e;
    kept = Move-kept inv key ending h i mv e;
    one_key = Move-one_key inv key ending h i mv e;
    boxes = Move-boxes mv e;
    got = Move-got mv e;
  }

module _ {t : Task} where
  Reach-Told : {s : System t} (r : Reach t s) → Told t (key_of t r) (ending_of t r) s.inbox s.pc
  unfolding key_of ending_of
  Reach-Told start = record {
    keyless = λ i g. refl;
    keyed = λ i g. absurd (cc);
    led_key = λ i k g. absurd (cc);
    awaited_key = λ i k g. absurd (cc);
    not_run = λ i g. refl;
    sent = λ i o g. absurd (cc);
    kept = λ i o g. absurd (cc);
    one_key = λ w j g. refl;
    boxes = λ w o g. absurd (cc);
    got = λ i o g. absurd (cc);
  }
  Reach-Told (later r (pick i mv)) =
      Move-Told (Reach-Inv r) (key_of t r) (ending_of t r) (Reach-Told r) i mv refl

  -- In every state that has been reached by some steps, if a thread has returned from Exec, then
  -- it was called for a key, and some execution that these steps contain was for the same key and
  -- has ended: either it was the thread's own, and the thread has returned its result, or zero
  -- values with no error if it has panicked; or the thread has not executed anything, and has
  -- returned the result of the other's execution, or the zero result with the error made of its
  -- panic.
  pub returned-ending :
      {s : System t} (r : Reach t s) (i : ℕ) (o : Outcome t)
      → s.pc i ≡ returned o
      → (j : ℕ) × (k : t.Key) × (x : Ending t) × (key_of t r i ≡ some k)
        × (key_of t r j ≡ some k)
        × (ending_of t r j ≡ some x)
        × (((i ≡ j) × (o ≡ own_outcome t x))
            ⊎ ((ending_of t r i ≡ none) × (o ≡ shared_outcome t x)))
  returned-ending r i o e = elim ((Reach-Told r).got i o (ap (got_by t) e)) [
    | inl own ↦ elim (Option-cases (key_of t r i)) [
      | inl none' ↦ absurd ((Reach-Told r).keyed i (ap (is_idle t) e) none')
      | inr (k, mine) ↦ elim (Option-cases (ending_of t r i)) [
        | inl none' ↦ absurd (ground (arith, none', own))
        | inr (x, ended) ↦ (i, k, x, mine, mine, ended, inl (refl, ground (arith, ended, own)))
      ]
    ]
    | inr (unrun', (j, k, mine, same, told)) ↦ elim (Option-cases (ending_of t r j)) [
      | inl none' ↦ absurd (ground (arith, none', told))
      | inr (x, ended) ↦ (j, k, x, mine, same, ended, inr (unrun', ground (arith, ended, told)))
    ]
  ]
