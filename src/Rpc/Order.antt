-- ===== src/Rpc/Order.antt =====
-- What a session has written, against the requests that it has handled.
use fancy_go.Base.{
  ℕ, zero, suc, ◌≡◌, refl, sym, subst, Bool, List, [], ◌∷◌, ◌++◌, map, Option, none, some, arith,
  ltb, Option-cases, inl, inr, All, keep,
}
use fancy_go.Message.{Message}
use fancy_go.ErrorCode.Types.{Errors}
use fancy_go.Server.State.{
  Api, reply, Session, serve, Event, arrive, read_failed, cancel, answer, emit, write, writer_done,
  pick, step, run, emit_message,
}
use fancy_go.Server.Balance.{answered}

-- An answer has the id of its request; an event has the id 0.
abbrev pub has_id : Message → Bool
has_id m = ltb 0 m.id

abbrev pub held : Option Message → List Message
held none = []
held (some m) = m ∷ []

pub pick-All :
    (P : Message → Type 0) (k : ℕ) (ms : List Message) {m : Message} {rest : List Message}
    → pick k ms ≡ some (m, rest)
    → (All P ms → P m × All P rest) × (P m → All P rest → All P ms)
unfolding pick
pick-All P k [] h = absurd (cc)
pick-All P zero (m ∷ ms) {m = n} {rest = rest} h =
    let e : m ≡ n = cc in
    let f : ms ≡ rest = cc in
    (λ a. (subst P e a.0, subst (All P) f a.1), λ a b. (subst P (sym e) a, subst (All P) (sym f) b))
pick-All P (suc k) (m ∷ ms) {m = n} {rest = rest} h = elim (Option-cases (pick k ms)) [
  | inl none' ↦ absurd (ground (arith, none'))
  | inr ((n', rest'), e) ↦
      let (there, back) = pick-All P k ms e in
      let same : n' ≡ n = ground (arith, e) in
      let parts : m ∷ rest' ≡ rest = ground (arith, e) in
      (
        λ a. (subst P same (there a.1).0, subst (All P) parts (a.0, (there a.1).1)),
        λ a b.
            let c : All P (m ∷ rest') = subst (All P) (sym parts) b in
            (c.0, back (subst P (sym same) a) c.1),
      )
]

module _ {lib : Errors} (api : Api lib) where
  -- What is not lost is in the channel or written, in the order in which it was sent; and every request
  -- is being handled or has been.
  pub record Ordered (s : Session api) : Type 1 where
    pub in_order :
        s.lost ≡ [] → keep has_id (held s.out ++ s.written) ≡ keep has_id (answered api s)
    pub come :
        (P : Message → Type 0)
        → All P s.requests
        → All P s.running × All P (map (λ h. h.1) s.handled)
    pub kept :
        (P : Message → Type 0)
        → All P s.running
        → All P (map (λ h. h.1) s.handled)
        → All P s.requests

  serve-Ordered : Ordered (serve api)
  serve-Ordered = record { in_order = λ h. refl; come = λ P h. (tt, tt); kept = λ P h g. tt }

  -- A step that leaves the requests where they are.
  stays-Ordered :
      (s s' : Session api)
      → s'.requests ≡ s.requests
      → s'.running ≡ s.running
      → s'.handled ≡ s.handled
      → (s'.lost ≡ [] → keep has_id (held s'.out ++ s'.written) ≡ keep has_id (answered api s'))
      → Ordered s
      → Ordered s'
  stays-Ordered s s' q r d ordered o = record {
    in_order = ordered;
    come = λ P a. rw (r, d) (o.come P (rw (sym q) a));
    kept = λ P a b. rw q (o.kept P (subst (All P) r a) (subst (λ l. All P (map (λ h. h.1) l)) d b));
  }

  arrive-Ordered :
      (s : Session api) (m : Message)
      → Ordered s
      → Ordered (record s { running = m ∷ s.running; requests = m ∷ s.requests })
  arrive-Ordered s m o = record {
    in_order = o.in_order;
    come = λ P a. let (r, d) = o.come P a.1 in ((a.0, r), d);
    kept = λ P a b. (a.0, o.kept P a.1 b);
  }

  answer-Ordered :
      (s : Session api) (k : ℕ) (w : api.World) (m : Message) (rest : List Message)
      → s.out ≡ none
      → pick k s.running ≡ some (m, rest)
      → Ordered s
      → Ordered
          (record s { running = rest; out = some (reply api w m); handled = (w, m) ∷ s.handled })
  answer-Ordered s k w m rest empty e o = record {
    in_order = λ h. ground (arith, o.in_order h, empty);
    come = λ P a.
        let (r, d) = o.come P a in
        let (here, left) = (pick-All P k s.running e).0 r in (left, (here, d));
    kept = λ P a b. o.kept P ((pick-All P k s.running e).1 b.0 a) b.1;
  }

  step-Ordered :
      (s s' : Session api) (e : Event api) → step api s e ≡ some s' → Ordered s → Ordered s'
  unfolding step emit_message
  step-Ordered s s' (arrive m) h o = subst Ordered (ground arith) (arrive-Ordered s m o)
  step-Ordered s s' (answer k w) h o = elim (Option-cases (pick k s.running)) [
    | inl none' ↦ absurd (ground (arith, none'))
    | inr ((m, rest), e) ↦
        subst Ordered (ground (arith, e)) (answer-Ordered s k w m rest (ground (arith, e)) e o)
  ]
  step-Ordered s s' (emit m none) h o = subst Ordered (ground arith) o
  step-Ordered s s' (emit m (some bin)) h o =
      stays-Ordered s s' (ground arith) (ground arith) (ground arith)
        (λ g. ground (arith, g, o.in_order)) o
  step-Ordered s s' (write f c) h o =
      stays-Ordered s s' (ground arith) (ground arith) (ground arith)
        (λ g. ground (arith, g, o.in_order)) o
  step-Ordered s s' read_failed h o =
      stays-Ordered s s' (ground arith) (ground arith) (ground arith)
        (λ g. ground (arith, g, o.in_order)) o
  step-Ordered s s' cancel h o =
      stays-Ordered s s' (ground arith) (ground arith) (ground arith)
        (λ g. ground (arith, g, o.in_order)) o
  step-Ordered s s' writer_done h o =
      stays-Ordered s s' (ground arith) (ground arith) (ground arith)
        (λ g. ground (arith, g, o.in_order)) o

  run-Ordered :
      (s s' : Session api) (es : List (Event api)) → run api s es ≡ some s' → Ordered s → Ordered s'
  unfolding run
  run-Ordered s s' [] h o = subst Ordered (ground arith) o
  run-Ordered s s' (e ∷ es) h o = elim (Option-cases (step api s e)) [
    | inl stuck ↦ absurd (ground (arith, stuck))
    | inr (s1, taken) ↦ run-Ordered s1 s' es (ground (arith, taken)) (step-Ordered s s1 e taken o)
  ]

  pub reached-Ordered :
      (s : Session api) (es : List (Event api)) → run api (serve api) es ≡ some s → Ordered s
  reached-Ordered s es h = run-Ordered (serve api) s es h serve-Ordered
