-- ===== src/Rpc/System/Client.antt =====
-- What a client knows of the requests that its calls have sent.
use fancy_go.Base.{
  ℕ, ◌≡◌, ◌≢◌, sym, ap, ◌∙◌, subst, set_at, Option, none, some, arith, ◌⊎◌, inl, inr, Option-cases,
}
use fancy_go.Message.{Message}
use fancy_go.ErrorCode.Types.{Errors}
use fancy_go.Client.State.{
  Target, Outcome, Pc, Cli, outcome, target_of, writing, waiting, returned, received, dispatch,
  leave, cause_error, Cause, begin, register, written, take_result, give_up, step,
}
use fancy_go.Client.Invariant.{Inv, entered}
use fancy_go.Server.State.{Api, reply}

module _ {lib : Errors} (here : lib.Frame) (api : Api lib) where
  abbrev pub Asked : Type 0
  Asked = ℕ → Option (Target lib × Message)

  -- The outcome of the reply to what the call has asked.
  abbrev pub Told : Asked → ℕ → Outcome lib → Type 0
  Told asked n o =
      (r : Target lib) × (m : Message) × (w : api.World) × (asked n ≡ some (r, m))
      × (o ≡ outcome here r (reply api w m))

  -- A call has returned without a result.
  abbrev pub GaveUp : Outcome lib → Type 0
  GaveUp o = (c : Cause lib) × (o ≡ some (cause_error here c))

  abbrev pub Stage : Pc lib → ℕ → Target lib → Type 0
  Stage pc n r = (pc ≡ writing n r) ⊎ (pc ≡ waiting n r) ⊎ ((o : Outcome lib) × (pc ≡ returned o))

  -- A message that answers a request, or an event.
  abbrev pub Answers : Asked → Message → Type 0
  Answers asked x =
      (x.id ≡ 0)
      ⊎ ((r : Target lib) × (m : Message) × (w : api.World) × (asked x.id ≡ some (r, m))
          × (x ≡ reply api w m))

  pub record Right (asked : Asked) (s : Cli lib) : Type 0 where
    pub inv : Inv lib s
    pub own : (n : ℕ) (r : Target lib) (m : Message) → asked n ≡ some (r, m) → m.id ≡ n
    pub stage : (n : ℕ) (r : Target lib) (m : Message) → asked n ≡ some (r, m) → Stage (s.pc n) n r
    pub inboxes : (n : ℕ) (o : Outcome lib) → s.inbox n ≡ some o → Told asked n o
    pub results : (n : ℕ) (o : Outcome lib) → s.pc n ≡ returned o → Told asked n o ⊎ GaveUp o

  module _ (asked : Asked) (s s' : Cli lib) (h : Right asked s) (inv' : Inv lib s') where
    open h use {inv, own, stage, inboxes, results}

    pub begin-Right : (t : Target lib) → step here s (begin t) ≡ some s' → Right asked s'
    unfolding step
    begin-Right t e = record {
      inv = inv';
      own = own;
      stage = λ n r m g. ground (arith, stage n r m g, inv.fresh n);
      inboxes = λ n o g. inboxes n o (ground (arith, g));
      results = λ n o g. results n o (ground (arith, g));
    }

    pub register-Right : (k : ℕ) → step here s (register k) ≡ some s' → Right asked s'
    unfolding step
    register-Right k e = record {
      inv = inv';
      own = own;
      stage = λ n r m g. ground (arith, stage n r m g);
      inboxes = λ n o g. inboxes n o (ground (arith, g));
      results = λ n o g. results n o (ground (arith, g));
    }

    pub written-Right : (k : ℕ) → step here s (written k) ≡ some s' → Right asked s'
    unfolding step
    written-Right k e = record {
      inv = inv';
      own = own;
      stage = λ n r m g. ground (arith, stage n r m g);
      inboxes = λ n o g. inboxes n o (ground (arith, g));
      results = λ n o g. results n o (ground (arith, g));
    }

    result-at :
        (k n : ℕ) (o : Outcome lib)
        → step here s (take_result k) ≡ some s'
        → s'.pc n ≡ returned o
        → (s.inbox n ≡ some o) ⊎ (s.pc n ≡ returned o)
    unfolding step
    result-at k n o e g = ground arith

    pub take_result-Right : (k : ℕ) → step here s (take_result k) ≡ some s' → Right asked s'
    unfolding step
    take_result-Right k e = record {
      inv = inv';
      own = own;
      stage = λ n r m g. ground (arith, stage n r m g);
      inboxes = λ n o g. inboxes n o (ground (arith, g));
      results = λ n o g. elim (result-at k n o e g) [
        | inl took ↦ inl (inboxes n o took)
        | inr before ↦ results n o before
      ];
    }

    gave-at :
        (k n : ℕ) (c : Cause lib) (o : Outcome lib)
        → step here s (give_up k c) ≡ some s'
        → s'.pc n ≡ returned o
        → (o ≡ some (cause_error here c)) ⊎ (s.pc n ≡ returned o)
    unfolding step leave
    gave-at k n c o e g = ground arith

    pub give_up-Right :
        (k : ℕ) (c : Cause lib) → step here s (give_up k c) ≡ some s' → Right asked s'
    unfolding step leave
    give_up-Right k c e = record {
      inv = inv';
      own = own;
      stage = λ n r m g. ground (arith, stage n r m g);
      inboxes = λ n o g. inboxes n o (ground (arith, g));
      results = λ n o g. elim (gave-at k n c o e g) [
        | inl gave ↦ inr (c, gave)
        | inr before ↦ results n o before
      ];
    }

    dispatch-same : (x : Message) → dispatch here s (some x) ≡ some s' → s'.pc ≡ s.pc
    unfolding dispatch
    dispatch-same x e = ground arith

    -- What is new in a channel has come with the message of that number.
    arrived-at :
        (x : Message) (n : ℕ) (o : Outcome lib)
        → dispatch here s (some x) ≡ some s'
        → s'.inbox n ≡ some o
        → (s.inbox n ≡ some o)
          ⊎ ((x.id ≡ n)
              × (x.id ≢ 0)
              × (o ≡ outcome here (target_of here (s.pc n)) x)
              × (entered lib (s.pc n) ≢ none))
    unfolding dispatch received
    arrived-at x n o e g = elim (Option-cases (s.call_map x.id)) [
      | inl unknown ↦ inl (ground (arith, unknown))
      | inr (k, mine) ↦ ground (arith, mine, inv.mapped k x.id mine, inv.own_id k x.id)
    ]

    Told-arrived :
        (x : Message) (n : ℕ) (o : Outcome lib)
        → Answers asked x
        → x.id ≡ n
        → x.id ≢ 0
        → o ≡ outcome here (target_of here (s.pc n)) x
        → entered lib (s.pc n) ≢ none
        → Told asked n o
    unfolding target_of
    Told-arrived x n o (inl event) mine nonzero out live = absurd (nonzero event)
    Told-arrived x n o (inr (r, m, w, a, same)) mine nonzero out live =
        let a' = sym (ap asked mine) ∙ a in
        (
          r,
          m,
          w,
          a',
          out
              ∙ (ap (λ t. outcome here t x) (target n r (stage n r m a') live)
                  ∙ ap (outcome here r) same),
        )
      where
        target :
            (n : ℕ) (r : Target lib)
            → Stage (s.pc n) n r
            → entered lib (s.pc n) ≢ none
            → target_of here (s.pc n) ≡ r
        target n r (inl is_writing) live = ap (target_of here) is_writing
        target n r (inr (inl is_waiting)) live = ap (target_of here) is_waiting
        target n r (inr (inr (o, gone))) live = absurd (live (ap (entered lib) gone))

    pub receive-Right :
        (x : Message) → Answers asked x → dispatch here s (some x) ≡ some s' → Right asked s'
    receive-Right x answers e = record {
      inv = inv';
      own = own;
      stage = λ n r m g.
          subst (λ (pc : ℕ → Pc lib). Stage (pc n) n r) (sym (dispatch-same x e)) (stage n r m g);
      inboxes = λ n o g. elim (arrived-at x n o e g) [
        | inl before ↦ inboxes n o before
        | inr (mine, nonzero, out, live) ↦ Told-arrived x n o answers mine nonzero out live
      ];
      results = λ n o g. results n o (ap (λ (pc : ℕ → Pc lib). pc n) (sym (dispatch-same x e)) ∙ g);
    }

  module _ (asked : Asked) (k : ℕ) (sent : Target lib × Message) (new : asked k ≡ none) where
    abbrev more : Asked
    more = set_at k (some sent) asked

    pub more-kept : (n : ℕ) {y : Target lib × Message} → asked n ≡ some y → more n ≡ some y
    more-kept n h = ground (arith, h, new)

    more-cases :
        (n : ℕ) (y : Target lib × Message)
        → more n ≡ some y
        → (asked n ≡ some y) ⊎ ((n ≡ k) × (y ≡ sent))
    more-cases n y h = ground arith

    Told-more : (n : ℕ) (o : Outcome lib) → Told asked n o → Told more n o
    Told-more n o (r, m, w, a, e) = (r, m, w, more-kept n a, e)

    pub Answers-more : (x : Message) → Answers asked x → Answers more x
    Answers-more x (inl event) = inl event
    Answers-more x (inr (r, m, w, a, e)) = inr (r, m, w, more-kept x.id a, e)

    pub put-Right :
        (s : Cli lib) (r : Target lib) (m : Message)
        → sent ≡ (r, m)
        → s.pc k ≡ writing k r
        → m.id ≡ k
        → Right asked s
        → Right more s
    put-Right s r m same at mine h = record {
      inv = h.inv;
      own = λ n r' m' g. elim (more-cases n (r', m') g) [
        | inl before ↦ h.own n r' m' before
        | inr (here', it) ↦ ap (λ y. y.1.id) (it ∙ same) ∙ (mine ∙ sym here')
      ];
      stage = λ n r' m' g. elim (more-cases n (r', m') g) [
        | inl before ↦ h.stage n r' m' before
        | inr (here', it) ↦ inl (ground (arith, at, here', it, same))
      ];
      inboxes = λ n o g. Told-more n o (h.inboxes n o g);
      results = λ n o g. elim (h.results n o g) [
        | inl told ↦ inl (Told-more n o told)
        | inr gave ↦ inr gave
      ];
    }
