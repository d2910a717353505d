-- ===== src/Websocket/Reconnect/Invariant.antt =====
-- What holds of the threads and the condition between the steps of a reconnecting channel.
use fancy_go.Base.{
  set_at, ℕ, ◌≡◌, sym, subst, Bool, true, false, ◌⊎◌, inl, inr, List, [], ◌∷◌, Option, none, some,
  arith, Option-cases, Bool-cases,
}
use fancy_go.CondChan.{Cond, broadcast}
use fancy_go.Websocket.Reconnect.{
  Pc, creating, waiting, failed, Reconnect, new_reconnect, loop, enter, created, close, Event, call,
  create, wake, give_up, shutting, closing, step, run,
}

abbrev pub creates : Pc → Bool
creates creating = true
creates _ = false

abbrev pub waits_at : Pc → Option ℕ
waits_at (waiting g) = some g
waits_at _ = none

pub record Inv (c : Reconnect) : Type 0 where
  pub single : (i j : ℕ) → creates (c.pc i) ≡ true → creates (c.pc j) ≡ true → i ≡ j
  pub leads : (i : ℕ) → creates (c.pc i) ≡ true → c.is_creating ≡ true
  pub led : c.is_creating ≡ true → (i : ℕ) × (creates (c.pc i) ≡ true)
  pub heard :
      (i g : ℕ)
      → waits_at (c.pc i) ≡ some g
      → (c.create_signal.closed g ≡ true) ⊎ ((g ≡ c.create_signal.current) × (c.is_creating ≡ true))

module _ (has_own : ℕ → Bool) where
  enter-none :
      (i : ℕ) (c : Reconnect)
      → c.inner ≡ none
      → enter has_own i c ≡ loop has_own i (record c { closed = false })
  unfolding enter
  enter-none i c h = ground (arith, h)

  enter_shut :
      (i : ℕ) (c : Reconnect) (k : ℕ)
      → c.inner ≡ some k
      → c.shut k ≡ true
      → enter has_own i c
        ≡ loop has_own i
            (record c { inner = none; broken_signal = broadcast c.broken_signal; closed = false })
  unfolding enter
  enter_shut i c k h g = ground (arith, h, g)

  enter_open :
      (i : ℕ) (c : Reconnect) (k : ℕ)
      → c.inner ≡ some k
      → c.shut k ≡ false
      → enter has_own i c ≡ loop has_own i (record c { closed = false })
  unfolding enter
  enter_open i c k h g = ground (arith, h, g)

  new_reconnect-Inv : Inv new_reconnect
  new_reconnect-Inv = record {
    single = λ i j h g. absurd (cc);
    leads = λ i h. absurd (cc);
    led = λ h. absurd (cc);
    heard = λ i g h. absurd (cc);
  }

  -- After a turn of the loop somebody creates, if `creating` says so.
  loop_led :
      (i : ℕ) (c : Reconnect)
      → creates (c.pc i) ≡ false
      → Inv c
      → (loop has_own i c).is_creating ≡ true
      → (j : ℕ) × (creates ((loop has_own i c).pc j) ≡ true)
  unfolding loop
  loop_led i c h inv g = elim (Bool-cases c.is_creating) [
    | inl on ↦ let (j, e) = inv.led on in (j, ground (arith, on, e, h))
    | inr off ↦ (i, ground (arith, off, g))
  ]

  -- A turn of the loop by a thread that does not create.
  loop-Inv : (i : ℕ) (c : Reconnect) → creates (c.pc i) ≡ false → Inv c → Inv (loop has_own i c)
  unfolding loop
  loop-Inv i c h inv = record {
    single = λ j k g g'. ground (arith, inv.single j k, inv.leads j, inv.leads k);
    leads = λ j g. ground (arith, inv.leads j);
    led = loop_led i c h inv;
    heard = λ j g e. ground (arith, inv.heard j g);
  }

  -- A change to other fields.
  reset-Inv :
      (c : Reconnect) (inner : Option ℕ) (closed : Bool) (b : Cond) (shut : ℕ → Bool)
      → Inv c
      → Inv (record c { inner = inner; closed = closed; broken_signal = b; shut = shut })
  reset-Inv c inner closed b shut inv = record {
    single = inv.single;
    leads = inv.leads;
    led = inv.led;
    heard = inv.heard;
  }

  enter-Inv : (i : ℕ) (c : Reconnect) → creates (c.pc i) ≡ false → Inv c → Inv (enter has_own i c)
  enter-Inv i c h inv = elim (Option-cases c.inner) [
    | inl none' ↦ subst Inv (sym (enter-none i c none')) (
        loop-Inv i (record c { closed = false }) h
          (reset-Inv c c.inner false c.broken_signal c.shut inv))
    | inr (k, e) ↦ elim (Bool-cases (c.shut k)) [
      | inl gone ↦ subst Inv (sym (enter_shut i c k e gone)) (
          loop-Inv i
            (record c { inner = none; broken_signal = broadcast c.broken_signal; closed = false }) h
            (reset-Inv c none false (broadcast c.broken_signal) c.shut inv))
      | inr here ↦ subst Inv (sym (enter_open i c k e here)) (
          loop-Inv i (record c { closed = false }) h
            (reset-Inv c c.inner false c.broken_signal c.shut inv))
    ]
  ]

  created-Inv :
      (ok : Bool) (i : ℕ) (c : Reconnect)
      → creates (c.pc i) ≡ true
      → Inv c
      → Inv (created has_own ok i c)
  unfolding created
  created-Inv true i c h inv = record {
    single = λ j k g g'. ground (arith, inv.single j i, inv.single k i);
    leads = λ j g. ground (arith, inv.single j i);
    led = λ g. absurd (cc);
    heard = λ j g e. ground (arith, inv.heard j g);
  }
  created-Inv false i c h inv = record {
    single = λ j k g g'. ground (arith, inv.single j i, inv.single k i);
    leads = λ j g. ground (arith, inv.single j i);
    led = λ g. absurd (cc);
    heard = λ j g e. ground (arith, inv.heard j g);
  }

  give_up-Inv :
      (i : ℕ) (c : Reconnect)
      → creates (c.pc i) ≡ false
      → Inv c
      → Inv (record c { pc = set_at i failed c.pc })
  give_up-Inv i c h inv = record {
    single = λ j k g g'. ground (arith, inv.single j k);
    leads = λ j g. ground (arith, inv.leads j);
    led = λ g. let (j, e) = inv.led g in (j, ground (arith, e, h));
    heard = λ j g e. ground (arith, inv.heard j g);
  }

  close-Inv : (c : Reconnect) → Inv c → Inv (close c)
  unfolding close
  close-Inv c inv = record {
    single = λ j k g g'. ground (arith, inv.single j k);
    leads = λ j g. ground (arith, inv.leads j);
    led = λ g. let (j, e) = inv.led (ground (arith, g)) in (j, ground (arith, e));
    heard = λ j g e. ground (arith, inv.heard j g);
  }

  step-Inv : (e : Event) (c c' : Reconnect) → step has_own e c ≡ some c' → Inv c → Inv c'
  unfolding step
  step-Inv (call i) c c' h inv = subst Inv (ground arith) (enter-Inv i c (ground arith) inv)
  step-Inv (create i ok) c c' h inv =
      subst Inv (ground arith) (created-Inv ok i c (ground arith) inv)
  step-Inv (wake i) c c' h inv = subst Inv (ground arith) (loop-Inv i c (ground arith) inv)
  step-Inv (give_up i) c c' h inv = subst Inv (ground arith) (give_up-Inv i c (ground arith) inv)
  step-Inv (shutting k) c c' h inv =
      subst Inv (ground arith)
        (reset-Inv c c.inner c.closed c.broken_signal (set_at k true c.shut) inv)
  step-Inv closing c c' h inv = subst Inv (ground arith) (close-Inv c inv)

  run-Inv : (es : List Event) (c c' : Reconnect) → run has_own es c ≡ some c' → Inv c → Inv c'
  unfolding run
  run-Inv [] c c' h inv = subst Inv (ground arith) inv
  run-Inv (e ∷ es) c c' h inv = elim (Option-cases (step has_own e c)) [
    | inl stuck ↦ absurd (ground (arith, stuck))
    | inr (d, taken) ↦ run-Inv es d c' (ground (arith, taken)) (step-Inv e c d taken inv)
  ]

  pub reached-Inv :
      (es : List Event) (c : Reconnect) → run has_own es new_reconnect ≡ some c → Inv c
  reached-Inv es c h = run-Inv es new_reconnect c h new_reconnect-Inv
