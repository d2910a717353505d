-- ===== src/Rpc/Dispatch.antt =====
-- The loop of a client that deliveries many messages, one after the other.
use fancy_go.Base.{
  ◌⊎◌, ℕ, ◌≤◌, ◌≡◌, ◌≢◌, refl, sym, ap, ◌∙◌, subst, true, false, List, [], ◌∷◌, none, some, arith,
  ◌==◌, Bool-cases, inl, inr, All, All-map, keep,
}
use fancy_go.Message.{Message}
use fancy_go.ErrorCode.Types.{Errors}
use fancy_go.Client.State.{received, Pc, Cli, outcome, target_of, dispatch, Event, read, step, run}
use fancy_go.Client.Invariant.{Inv, entered, read-Inv}
use fancy_go.Client.Answers.{Entered, dispatch-inbox, dispatch_total, dispatch-pc}
use fancy_go.Server.Balance.{number}
use fancy_go.Rpc.Order.{has_id}

abbrev pub with_id : ℕ → List Message → ℕ
with_id k = number (λ m. m.id == k)

none_with_id : (k : ℕ) (ms : List Message) → with_id k ms ≡ 0 → All (λ m. m.id ≢ k) ms
unfolding number
none_with_id k [] h = tt
none_with_id k (m ∷ ms) h = (ground arith, none_with_id k ms (ground arith))

everywhere {ℓ κ} : {A : Type ℓ} {P : A → Type κ} (xs : List A) → ((a : A) → P a) → All P xs
everywhere [] h = tt
everywhere (x ∷ xs) h = (h x, everywhere xs h)

keep-yes :
    (m : Message) (ms : List Message) → has_id m ≡ true → keep has_id (m ∷ ms) ≡ m ∷ keep has_id ms
keep-yes m ms h = ground (arith, h)

keep-no :
    (m : Message) (ms : List Message) → has_id m ≡ false → keep has_id (m ∷ ms) ≡ keep has_id ms
keep-no m ms h = ground (arith, h)

unique_tail :
    (m : Message) (ms : List Message)
    → ((k : ℕ) → with_id k (m ∷ ms) ≤ 1)
    → (with_id m.id ms ≡ 0) × ((k : ℕ) → with_id k ms ≤ 1)
unfolding number
unique_tail m ms h = (ground (arith, h m.id), λ k. ground (arith, h k))

module _ {lib : Errors} (here : lib.Frame) where
  -- The number of a call that has entered the map, not returned and not been answered.
  abbrev pub Asked : Cli lib → Message → Type 0
  Asked s m = Entered here s m.id × (s.inbox m.id ≡ none)

  abbrev pub deliveries : List Message → List (Event lib)
  deliveries [] = []
  deliveries (m ∷ ms) = read (some m) ∷ deliveries ms

  -- The state after all of them: each message with an id is in its call's channel.
  pub record Delivered (s s' : Cli lib) (ms : List Message) : Type 0 where
    pub ran : run here s (deliveries ms) ≡ some s'
    pub other : (k : ℕ) → with_id k (keep has_id ms) ≡ 0 → s'.inbox k ≡ s.inbox k
    pub own :
        All
          (λ m. s'.inbox m.id ≡ some (outcome here (target_of here (s.pc m.id)) m))
          (keep has_id ms)

  run-read :
      (s t : Cli lib) (m : Message) (es : List (Event lib))
      → dispatch here s (some m) ≡ some t
      → run here s (read (some m) ∷ es) ≡ run here t es
  unfolding run step
  run-read s t m es h = ground (arith, h)

  -- A turn changes no channel but that of the message's call.
  inbox-after :
      (s s1 : Cli lib) (m : Message) (k : ℕ)
      → Inv lib s
      → dispatch here s (some m) ≡ some s1
      → (m.id ≡ 0) ⊎ (m.id ≢ k)
      → s1.inbox k ≡ s.inbox k
  unfolding received
  inbox-after s s1 m k inv e (inl event) = (dispatch-inbox here s s1 (some m) k inv e).2 (inl event)
  inbox-after s s1 m k inv e (inr apart) =
      (dispatch-inbox here s s1 (some m) k inv e).2 (inr (inl apart))

  Asked-after :
      (s s1 : Cli lib) (m : Message) (ms : List Message)
      → Inv lib s
      → dispatch here s (some m) ≡ some s1
      → All (λ x. (m.id ≡ 0) ⊎ (m.id ≢ x.id)) ms
      → All (Asked s) ms
      → All (Asked s1) ms
  Asked-after s s1 m [] inv e apart asked = tt
  Asked-after s s1 m (x ∷ ms) inv e apart asked = (
    (
      subst (λ (pc : ℕ → Pc lib). entered lib (pc x.id) ≢ none)
          (sym (dispatch-pc here s s1 (some m) e)) asked.0.0,
      inbox-after s s1 m x.id inv e apart.0 ∙ asked.0.1,
    ),
    Asked-after s s1 m ms inv e apart.1 asked.1,
  )

  -- What the tail gives, from the state before the head.
  own-before :
      (s s1 s' : Cli lib) (m : Message) (ms : List Message)
      → dispatch here s (some m) ≡ some s1
      → Delivered s1 s' ms
      → All
          (λ x. s'.inbox x.id ≡ some (outcome here (target_of here (s.pc x.id)) x))
          (keep has_id ms)
  own-before s s1 s' m ms e d =
      subst
        (λ (pc : ℕ → Pc lib).
          All (λ x. s'.inbox x.id ≡ some (outcome here (target_of here (pc x.id)) x))
            (keep has_id ms))
        (dispatch-pc here s s1 (some m) e) d.own

  Delivered-answer :
      (s s1 s' : Cli lib) (m : Message) (ms : List Message)
      → Inv lib s
      → dispatch here s (some m) ≡ some s1
      → has_id m ≡ true
      → Asked s m
      → with_id m.id (keep has_id ms) ≡ 0
      → Delivered s1 s' ms
      → Delivered s s' (m ∷ ms)
  unfolding number received
  Delivered-answer s s1 s' m ms inv e numbered asked lone d = record {
    ran = run-read s s1 m (deliveries ms) e ∙ d.ran;
    other = λ k h.
        let parts = ap (with_id k) (sym (keep-yes m ms numbered)) ∙ h in
        d.other k (ground (arith, parts))
        ∙ inbox-after s s1 m k inv e (inr (ground (arith, parts)));
    own =
        subst (All (λ x. s'.inbox x.id ≡ some (outcome here (target_of here (s.pc x.id)) x)))
          (sym (keep-yes m ms numbered))
          (
            d.other m.id lone
                ∙ (dispatch-inbox here s s1 (some m) m.id inv e).1 (ground (arith, numbered)) refl
                    asked.0 asked.1,
            own-before s s1 s' m ms e d,
          );
  }

  Delivered-event :
      (s s1 s' : Cli lib) (m : Message) (ms : List Message)
      → Inv lib s
      → dispatch here s (some m) ≡ some s1
      → has_id m ≡ false
      → Delivered s1 s' ms
      → Delivered s s' (m ∷ ms)
  Delivered-event s s1 s' m ms inv e event d = record {
    ran = run-read s s1 m (deliveries ms) e ∙ d.ran;
    other = λ k h.
        d.other k (ap (with_id k) (sym (keep-no m ms event)) ∙ h)
        ∙ inbox-after s s1 m k inv e (inl (ground (arith, event)));
    own =
        subst (All (λ x. s'.inbox x.id ≡ some (outcome here (target_of here (s.pc x.id)) x)))
          (sym (keep-no m ms event)) (own-before s s1 s' m ms e d);
  }

  pub run-deliveries :
      (ms : List Message) (s : Cli lib)
      → Inv lib s
      → All (Asked s) (keep has_id ms)
      → ((k : ℕ) → with_id k (keep has_id ms) ≤ 1)
      → (s' : Cli lib) × Delivered s s' ms
  unfolding run
  run-deliveries [] s inv asked unique = (s, record { ran = refl; other = λ k h. refl; own = tt })
  run-deliveries (m ∷ ms) s inv asked unique =
      let (s1, e) = dispatch_total here s (some m) inv in
      let inv1 = read-Inv here s s1 inv (some m) e in
      elim (Bool-cases (has_id m)) [
        | inl numbered ↦
            let asked' = subst (All (Asked s)) (keep-yes m ms numbered) asked in
            let (lone, unique') = unique_tail m (keep has_id ms) (
              subst (λ (l : List Message). (k : ℕ) → with_id k l ≤ 1) (keep-yes m ms numbered)
                unique) in
            let apart =
              All-map (λ x h. inr (λ same. h (sym same))) (keep has_id ms)
                (none_with_id m.id (keep has_id ms) lone) in
            let (s', d) =
              run-deliveries ms s1 inv1 (Asked-after s s1 m (keep has_id ms) inv e apart asked'.1)
                unique' in
            (s', Delivered-answer s s1 s' m ms inv e numbered asked'.0 lone d)
        | inr event ↦
            let apart = everywhere (keep has_id ms) (λ x. inl (ground (arith, event))) in
            let (s', d) =
              run-deliveries ms s1 inv1
                (Asked-after s s1 m (keep has_id ms) inv e apart
                  (subst (All (Asked s)) (keep-no m ms event) asked))
                (subst (λ (l : List Message). (k : ℕ) → with_id k l ≤ 1) (keep-no m ms event)
                  unique) in
            (s', Delivered-event s s1 s' m ms inv e event d)
      ]
