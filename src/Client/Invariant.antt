-- ===== src/Client/Invariant.antt =====
-- What holds of a client between its steps, as long as fewer than 2^64 calls have started.
use fancy_go.Base.{
  ℕ, ◌^◌, ◌<◌, ◌≤◌, ◌≡◌, ◌≢◌, refl, List, [], ◌∷◌, Option, none, some, arith, ◌⊎◌, inl, inr,
  Option-cases, subst,
}
use fancy_go.Message.{Message}
use fancy_go.ErrorCode.Types.{Errors}
use fancy_go.Client.State.{
  received, Target, Pc, absent, numbered, writing, waiting, returned, Cli, new_cli, dispatch, Cause,
  Event, begin, register, written, take_result, give_up, read, leave, step, run,
}

module _ (lib : Errors) where
  -- The id of a call that has one and has not returned; of one that has entered the map.
  abbrev pub id_of : Pc lib → Option ℕ
  id_of absent = none
  id_of (numbered id r) = some id
  id_of (writing id r) = some id
  id_of (waiting id r) = some id
  id_of (returned o) = none

  abbrev pub entered : Pc lib → Option ℕ
  entered (writing id r) = some id
  entered (waiting id r) = some id
  entered _ = none

  pub record Inv (s : Cli lib) : Type 0 where
    pub seq_started : s.seq ≡ s.started
    pub fresh : (n : ℕ) → s.started < n → s.pc n ≡ absent
    pub own_id : (n id : ℕ) → id_of (s.pc n) ≡ some id → id ≡ n
    pub mapped : (n id : ℕ) → s.call_map id ≡ some n → entered (s.pc n) ≡ some id
    pub mapped_empty : (n id : ℕ) → s.call_map id ≡ some n → s.inbox n ≡ none
    pub outside :
        (n : ℕ)
        → entered (s.pc n) ≡ none
        → (id_of (s.pc n) ≢ none) ⊎ (s.pc n ≡ absent)
        → s.inbox n ≡ none
    pub listed :
        (n id : ℕ) → entered (s.pc n) ≡ some id → (s.call_map id ≡ some n) ⊎ (s.inbox n ≢ none)

  abbrev pub Good : Cli lib → Type 0
  Good s = s.started < 2 ^ 64 → Inv s

module _ {lib : Errors} (here : lib.Frame) where
  pub new_cli-Inv : Inv lib (new_cli here)
  new_cli-Inv = record {
    seq_started = refl;
    fresh = λ n h. refl;
    own_id = λ n id h. absurd (cc);
    mapped = λ n id h. absurd (cc);
    mapped_empty = λ n id h. absurd (cc);
    outside = λ n h g. refl;
    listed = λ n id h. absurd (cc);
  }

  pub step-started :
      (s s' : Cli lib) (e : Event lib) → step here s e ≡ some s' → s.started ≤ s'.started
  unfolding step dispatch leave
  step-started s s' (begin t) h = ground arith
  step-started s s' (register n) h = ground arith
  step-started s s' (written n) h = ground arith
  step-started s s' (take_result n) h = ground arith
  step-started s s' (give_up n c) h = ground arith
  step-started s s' (read m) h = ground arith

  module _ (s s' : Cli lib) (inv : Inv lib s) where
    open inv use {seq_started, fresh, own_id, mapped, mapped_empty, outside, listed}

    begin-Inv :
        (t : Target lib) → step here s (begin t) ≡ some s' → s'.started < 2 ^ 64 → Inv lib s'
    unfolding step
    begin-Inv t h small = record {
      seq_started = ground arith;
      fresh = λ n g. ground (arith, fresh n);
      own_id = λ n id g. ground (arith, own_id n id);
      mapped = λ n id g. ground (arith, mapped n id, fresh n);
      mapped_empty = λ n id g. ground (arith, mapped_empty n id);
      outside = λ n g g'. ground (arith, outside n, fresh n);
      listed = λ n id g. ground (arith, listed n id);
    }

    register-Inv : (n : ℕ) → step here s (register n) ≡ some s' → Inv lib s'
    unfolding step
    register-Inv n h = record {
      seq_started = ground arith;
      fresh = λ j g. ground (arith, fresh j);
      own_id = λ j id g. ground (arith, own_id j id);
      mapped = λ j id g. ground (arith, mapped j id);
      mapped_empty = λ j id g. ground (arith, mapped_empty j id, outside j);
      outside = λ j g g'. ground (arith, outside j);
      listed = λ j id g. ground (arith, listed j id, own_id j id, own_id n id);
    }

    written-Inv : (n : ℕ) → step here s (written n) ≡ some s' → Inv lib s'
    unfolding step
    written-Inv n h = record {
      seq_started = ground arith;
      fresh = λ j g. ground (arith, fresh j);
      own_id = λ j id g. ground (arith, own_id j id);
      mapped = λ j id g. ground (arith, mapped j id);
      mapped_empty = λ j id g. ground (arith, mapped_empty j id, outside j);
      outside = λ j g g'. ground (arith, outside j);
      listed = λ j id g. ground (arith, listed j id, own_id j id);
    }

    take_result-Inv : (n : ℕ) → step here s (take_result n) ≡ some s' → Inv lib s'
    unfolding step
    take_result-Inv n h = record {
      seq_started = ground arith;
      fresh = λ j g. ground (arith, fresh j);
      own_id = λ j id g. ground (arith, own_id j id);
      mapped = λ j id g. ground (arith, mapped j id, mapped_empty j id);
      mapped_empty = λ j id g. ground (arith, mapped_empty j id, outside j);
      outside = λ j g g'. ground (arith, outside j);
      listed = λ j id g. ground (arith, listed j id, own_id j id);
    }

    give_up-Inv : (n : ℕ) (c : Cause lib) → step here s (give_up n c) ≡ some s' → Inv lib s'
    unfolding step leave
    give_up-Inv n c h = record {
      seq_started = ground arith;
      fresh = λ j g. ground (arith, fresh j);
      own_id = λ j id g. ground (arith, own_id j id);
      mapped = λ j id g. ground (arith, mapped j id);
      mapped_empty = λ j id g. ground (arith, mapped_empty j id, outside j);
      outside = λ j g g'. ground (arith, outside j);
      listed = λ j id g. ground (arith, listed j id, own_id j id, own_id n id);
    }

    pub read-Inv : (sent : Option Message) → dispatch here s sent ≡ some s' → Inv lib s'
    unfolding dispatch
    read-Inv sent h = record {
      seq_started = ground arith;
      fresh = λ j g. ground (arith, fresh j);
      own_id = λ j id g. ground (arith, own_id j id);
      mapped = λ j id g. ground (arith, mapped j id);
      mapped_empty = λ j id g.
          ground (arith, mapped_empty j id, mapped j id, mapped j (received sent s.msg).id);
      outside = λ j g g'. ground (arith, outside j, mapped j (received sent s.msg).id);
      listed = λ j id g. ground (arith, listed j id, own_id j id);
    }

  pub step-Inv :
      (s s' : Cli lib) (e : Event lib) → step here s e ≡ some s' → Good lib s → Good lib s'
  unfolding step
  step-Inv s s' (begin t) h good small =
      begin-Inv s s' (good (omega (arith, step-started s s' (begin t) h))) t h small
  step-Inv s s' (register n) h good small =
      register-Inv s s' (good (omega (arith, step-started s s' (register n) h))) n h
  step-Inv s s' (written n) h good small =
      written-Inv s s' (good (omega (arith, step-started s s' (written n) h))) n h
  step-Inv s s' (take_result n) h good small =
      take_result-Inv s s' (good (omega (arith, step-started s s' (take_result n) h))) n h
  step-Inv s s' (give_up n c) h good small =
      give_up-Inv s s' (good (omega (arith, step-started s s' (give_up n c) h))) n c h
  step-Inv s s' (read m) h good small =
      read-Inv s s' (good (omega (arith, step-started s s' (read m) h))) m h

  run-Inv :
      (s s' : Cli lib) (es : List (Event lib)) → run here s es ≡ some s' → Good lib s → Good lib s'
  unfolding run
  run-Inv s s' [] h good = subst (Good lib) (cc) good
  run-Inv s s' (e ∷ es) h good = elim (Option-cases (step here s e)) [
    | inl stuck ↦ absurd (ground (arith, stuck))
    | inr (s1, taken) ↦ run-Inv s1 s' es (ground (arith, taken)) (step-Inv s s1 e taken good)
  ]

  pub reached-Inv :
      (s : Cli lib) (es : List (Event lib))
      → run here (new_cli here) es ≡ some s
      → s.started < 2 ^ 64
      → Inv lib s
  reached-Inv s es h = run-Inv (new_cli here) s es h (λ small. new_cli-Inv)
