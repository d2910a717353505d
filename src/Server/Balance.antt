-- ===== src/Server/Balance.antt =====
-- Where the requests and the messages of a session are.
use fancy_go.Base.{
  ℕ, zero, suc, ◌+◌, ◌≡◌, refl, Bool, false, List, [], ◌∷◌, map, Option, none, some, arith,
  if◌then◌else◌, Option-cases, inl, inr, ◌∙◌, subst, ap, sym, ◌++◌, append_assoc,
}
use fancy_go.Message.{Message}
use fancy_go.ErrorCode.Types.{Errors}
use fancy_go.Server.State.{
  Api, reply, Session, serve, Event, arrive, read_failed, cancel, answer, emit, write, writer_done,
  pick, step, run,
}

-- How many messages of a list pass a test.
unfoldable pub number {ℓ} : {A : Type ℓ} → (A → Bool) → List A → ℕ
number p [] = 0
number p (a ∷ l) = (if p a then 1 else 0) + number p l

abbrev pub number_in {ℓ} : {A : Type ℓ} → (A → Bool) → Option A → ℕ
number_in p none = 0
number_in p (some a) = if p a then 1 else 0

pub number-pick :
    (p : Message → Bool) (k : ℕ) (ms : List Message) {m : Message} {rest : List Message}
    → pick k ms ≡ some (m, rest)
    → number p ms ≡ (if p m then 1 else 0) + number p rest
unfolding pick number
number-pick p k [] h = absurd (cc)
number-pick p zero (m ∷ ms) h = ground arith
number-pick p (suc k) (m ∷ ms) h = elim (Option-cases (pick k ms)) [
  | inl none' ↦ absurd (ground (arith, none'))
  | inr ((n, rest), e) ↦ ground (arith, e, number-pick p k ms e)
]

module _ {lib : Errors} (api : Api lib) where
  abbrev pub answered : Session api → List Message
  answered s = map (λ h. reply api h.0 h.1) s.handled

  -- Every request is being handled or has been; every message is in the channel, written, or lost.
  pub record Balanced (s : Session api) : Type 0 where
    pub all_requests :
        (p : Message → Bool)
        → number p s.requests ≡ number p s.running + number p (map (λ h. h.1) s.handled)
    pub all_messages :
        (p : Message → Bool)
        → number p (answered s) + number p s.emitted
          ≡ number_in p s.out + (number p s.written + number p s.lost)

  pub serve-Balanced : Balanced (serve api)
  unfolding number
  serve-Balanced = record { all_requests = λ p. refl; all_messages = λ p. refl }

  pub step-Balanced :
      (s s' : Session api) (e : Event api) → step api s e ≡ some s' → Balanced s → Balanced s'
  unfolding step number
  step-Balanced s s' (arrive m) h b = record {
    all_requests = λ p. ground (arith, b.all_requests p);
    all_messages = λ p. ground (arith, b.all_messages p);
  }
  step-Balanced s s' read_failed h b = record {
    all_requests = λ p. ground (arith, b.all_requests p);
    all_messages = λ p. ground (arith, b.all_messages p);
  }
  step-Balanced s s' cancel h b = record {
    all_requests = λ p. ground (arith, b.all_requests p);
    all_messages = λ p. ground (arith, b.all_messages p);
  }
  step-Balanced s s' (answer k w) h b = elim (Option-cases (pick k s.running)) [
    | inl none' ↦ absurd (ground (arith, none'))
    | inr ((m, rest), e) ↦ record {
      all_requests = λ p. ground (arith, e, b.all_requests p, number-pick p k s.running e);
      all_messages = λ p. ground (arith, e, b.all_messages p);
    }
  ]
  step-Balanced s s' (emit m none) h b = record {
    all_requests = λ p. ground (arith, b.all_requests p);
    all_messages = λ p. ground (arith, b.all_messages p);
  }
  step-Balanced s s' (emit m (some bin)) h b = record {
    all_requests = λ p. ground (arith, b.all_requests p);
    all_messages = λ p. ground (arith, b.all_messages p);
  }
  step-Balanced s s' (write f c) h b = record {
    all_requests = λ p. ground (arith, b.all_requests p);
    all_messages = λ p. ground (arith, b.all_messages p);
  }
  step-Balanced s s' writer_done h b = record {
    all_requests = λ p. ground (arith, b.all_requests p);
    all_messages = λ p. ground (arith, b.all_messages p);
  }

  run-Balanced :
      (s s' : Session api) (es : List (Event api))
      → run api s es ≡ some s'
      → Balanced s
      → Balanced s'
  unfolding run
  run-Balanced s s' [] h b = subst Balanced (cc) b
  run-Balanced s s' (e ∷ es) h b = elim (Option-cases (step api s e)) [
    | inl stuck ↦ absurd (ground (arith, stuck))
    | inr (s1, taken) ↦ run-Balanced s1 s' es (ground (arith, taken)) (step-Balanced s s1 e taken b)
  ]

  -- In every reachable state of a session, of the requests that pass any given test, as many have
  -- been read as are being handled or have been answered into the channel, and of the messages
  -- that pass any given test, as many were sent into the channel, as answers to those requests or
  -- as events, as are in it, written, or lost in a failed write.
  pub reached-Balanced :
      (s : Session api) (es : List (Event api)) → run api (serve api) es ≡ some s → Balanced s
  reached-Balanced s es h = run-Balanced (serve api) s es h serve-Balanced

  step-stuck :
      (s s' : Session api) (e : Event api) {m : Message}
      → step api s e ≡ some s'
      → s.writer ≡ false
      → s.out ≡ some m
      → (s'.writer ≡ false)
        × (s'.out ≡ some m)
        × (s'.handled ≡ s.handled)
        × (read : List Message) × (s'.running ≡ read ++ s.running)
  unfolding step
  step-stuck s s' (arrive x) h w o =
      (ground arith, ground arith, ground arith, x ∷ [], ground arith)
  step-stuck s s' (answer k x) h w o = absurd (ground arith)
  step-stuck s s' (emit x none) h w o = (ground arith, ground arith, ground arith, [], ground arith)
  step-stuck s s' (emit x (some bin)) h w o = absurd (ground arith)
  step-stuck s s' (write f c) h w o = absurd (ground arith)
  step-stuck s s' _ h w o = (ground arith, ground arith, ground arith, [], ground arith)

  -- Once the writing goroutine of a session has ended and a message is in the channel, no steps,
  -- be the context cancelled or not, change that or answer any request, and every goroutine that
  -- was handling a request is still there after them, in the same order, behind those of requests
  -- read since.
  pub run-stuck :
      (s s' : Session api) (es : List (Event api)) (m : Message)
      → run api s es ≡ some s'
      → s.writer ≡ false
      → s.out ≡ some m
      → (s'.out ≡ some m)
        × (s'.handled ≡ s.handled)
        × (read : List Message) × (s'.running ≡ read ++ s.running)
  unfolding run
  run-stuck s s' [] m h w o = (ground arith, ground arith, [], ground arith)
  run-stuck s s' (e ∷ es) m h w o = elim (Option-cases (step api s e)) [
    | inl none' ↦ absurd (ground (arith, none'))
    | inr (s1, taken) ↦
        let (w1, o1, same, l1, kept) = step-stuck s s1 e taken w o in
        let (o2, same', l2, kept') = run-stuck s1 s' es m (ground (arith, taken)) w1 o1 in
        (
          o2,
          same' ∙ same,
          l2 ++ l1,
          kept' ∙ (ap (λ l. l2 ++ l) kept ∙ sym (append_assoc l2 l1 s.running)),
        )
  ]
