-- ===== src/Rpc/System/Answered.antt =====
-- What is under way can be worked off, and then every waiting call has its answer.
use fancy_go.Base.{
  ℕ, zero, suc, ◌+◌, ◌*◌, ◌^◌, ◌<◌, ◌≡◌, ◌≢◌, refl, sym, ap, ◌∙◌, subst, true, false, List, [], ◌∷◌,
  ◌++◌, Option, none, some, arith, ◌⊎◌, inl, inr, Option-cases, length, length-append,
}
use fancy_go.Message.{Message}
use fancy_go.ErrorCode.Types.{Errors}
use fancy_go.Client.State.{open_loop, after_turn, Outcome, Pc, Cli, dispatch}
use fancy_go.Client.Answers.{Entered, dispatch_total, dispatch-pc}
use fancy_go.Client.Invariant.{Inv, read-Inv, entered}
use fancy_go.Server.State.{Api, Session, reply, answer, write, pick}
use fancy_go.Server.State.{step as server_step}
use fancy_go.Server.Balance.{number}
use fancy_go.Rpc.Order.{held}
use fancy_go.Rpc.System.{
  System, start, Move, deliver, receive, server, deliver_first, receive_first, move, moves,
}
use fancy_go.Rpc.System.Client.{Asked, Told}
use fancy_go.Rpc.System.Steps.{start-Safe}
use fancy_go.Rpc.System.Safety.{moves-with}
use fancy_go.Rpc.System.Placed.{places, Placed}
use fancy_go.Rpc.System.Kept.{start-Placed, move-Placed}

module _ {lib : Errors} (here : lib.Frame) (api : Api lib) where
  -- The session reads and writes, and so does the client, whose context is open.
  abbrev Works : System here api → Type 0
  Works s = (s.session.writer ≡ true) × (s.session.reading ≡ true) × (s.loop ≡ open_loop)

  -- How many moves the messages under way still need, at most.
  abbrev weight : System here api → ℕ
  weight s =
      4 * length s.to_server
      + (3 * length s.session.running + (2 * length (held s.session.out) + length s.to_client))

  -- After a move that is about what is under way only.
  record Onward (s t : System here api) : Type 0 where
    lighter : weight t < weight s
    works : Works t
    same_pc : t.cli.pc ≡ s.cli.pc
    same_asked : t.asked ≡ s.asked
    same_lost : t.session.lost ≡ s.session.lost
    same_started : t.cli.started ≡ s.cli.started
    keeps_inv : Inv lib s.cli → Inv lib t.cli

  -- Nothing is under way.
  record Quiet (s : System here api) : Type 0 where
    none_to_server : s.to_server ≡ []
    none_running : s.session.running ≡ []
    none_out : s.session.out ≡ none
    none_to_client : s.to_client ≡ []

  dispatch-started :
      (c c' : Cli lib) (m : Message) → dispatch here c (some m) ≡ some c' → c'.started ≡ c.started
  unfolding dispatch
  dispatch-started c c' m h = ground arith

  receive-Onward :
      (s : System here api) (m : Message) (ms : List Message)
      → s.to_client ≡ m ∷ ms
      → Inv lib s.cli
      → Works s
      → (t : System here api) × (move here api s receive ≡ some t) × Onward s t
  unfolding move receive_first after_turn
  receive-Onward s m ms at inv works =
      let (c, e) = dispatch_total here s.cli (some m) inv in
      (
        record s { cli = c; to_client = ms; loop = open_loop },
        ground (arith, at, e, works.2),
        record {
          lighter = omega (arith, ap length at);
          works = (works.0, works.1, refl);
          same_pc = dispatch-pc here s.cli c (some m) e;
          same_asked = refl;
          same_lost = refl;
          same_started = dispatch-started s.cli c m e;
          keeps_inv = λ i. read-Inv here s.cli c i (some m) e;
        },
      )

  write-Onward :
      (s : System here api) (m : Message)
      → s.session.out ≡ some m
      → Works s
      → (t : System here api) × (move here api s (server (write false false)) ≡ some t) × Onward s t
  unfolding move server_step
  write-Onward s m full works =
      let d = s.session in
      let d' : Session api = record d {
        out = none;
        writer = true;
        closed = d.closed;
        written = m ∷ d.written;
      } in
      (
        record s { session = d'; to_client = s.to_client ++ held d.out },
        ground (arith, full, works.0),
        record {
          lighter = omega (
            arith,
            length-append s.to_client (held d.out),
            ap (λ (o : Option Message). length (held o)) full,
          );
          works = (refl, works.1, works.2);
          same_pc = refl;
          same_asked = refl;
          same_lost = refl;
          same_started = refl;
          keeps_inv = λ i. i;
        },
      )

  answer-Onward :
      (s : System here api) (w : api.World) (m : Message) (ms : List Message)
      → s.session.out ≡ none
      → s.session.running ≡ m ∷ ms
      → Works s
      → (t : System here api) × (move here api s (server (answer 0 w)) ≡ some t) × Onward s t
  unfolding move server_step pick
  answer-Onward s w m ms empty at works =
      let d = s.session in
      let d' : Session api = record d {
        running = ms;
        out = some (reply api w m);
        handled = (w, m) ∷ d.handled;
      } in
      (
        record s { session = d'; to_client = s.to_client ++ [] },
        ground (arith, empty, at),
        record {
          lighter = omega (
            arith,
            length-append s.to_client [],
            ap length at,
            ap (λ (o : Option Message). length (held o)) empty,
          );
          works = works;
          same_pc = refl;
          same_asked = refl;
          same_lost = refl;
          same_started = refl;
          keeps_inv = λ i. i;
        },
      )

  deliver-Onward :
      (s : System here api) (m : Message) (ms : List Message)
      → s.to_server ≡ m ∷ ms
      → Works s
      → (t : System here api) × (move here api s deliver ≡ some t) × Onward s t
  unfolding move deliver_first server_step
  deliver-Onward s m ms at works =
      let d = s.session in
      let d' : Session api = record d { running = m ∷ d.running; requests = m ∷ d.requests } in
      (
        record s { session = d'; to_server = ms },
        ground (arith, at, works.1),
        record {
          lighter = omega (arith, ap length at);
          works = works;
          same_pc = refl;
          same_asked = refl;
          same_lost = refl;
          same_started = refl;
          keeps_inv = λ i. i;
        },
      )

  list-cases :
      (ms : List Message) → (ms ≡ []) ⊎ ((m : Message) × (rest : List Message) × (ms ≡ m ∷ rest))
  list-cases [] = inl refl
  list-cases (m ∷ ms) = inr (m, ms, refl)

  next-Onward :
      (s : System here api) (w : api.World)
      → Inv lib s.cli
      → Works s
      → Quiet s
        ⊎ ((e : Move here api) × (t : System here api) × (move here api s e ≡ some t) × Onward s t)
  next-Onward s w inv works = elim (list-cases s.to_client) [
    | inr (m, ms, at) ↦
        let (t, h, on) = receive-Onward s m ms at inv works in inr (receive, t, h, on)
    | inl read ↦ elim (Option-cases s.session.out) [
      | inr (m, full) ↦
          let (t, h, on) = write-Onward s m full works in inr (server (write false false), t, h, on)
      | inl empty ↦ elim (list-cases s.session.running) [
        | inr (m, ms, at) ↦
            let (t, h, on) = answer-Onward s w m ms empty at works in
            inr (server (answer 0 w), t, h, on)
        | inl idle ↦ elim (list-cases s.to_server) [
          | inr (m, ms, at) ↦
              let (t, h, on) = deliver-Onward s m ms at works in inr (deliver, t, h, on)
          | inl sent ↦ inl (record {
            none_to_server = sent;
            none_running = idle;
            none_out = empty;
            none_to_client = read;
          })
        ]
      ]
    ]
  ]

  -- Worked off: what the moves change only is where messages are and what has been told.
  record Drained (s t : System here api) : Type 0 where
    quiet : Quiet t
    kept_pc : t.cli.pc ≡ s.cli.pc
    kept_asked : t.asked ≡ s.asked
    kept_lost : t.session.lost ≡ s.session.lost
    kept_started : t.cli.started ≡ s.cli.started

  drain :
      (fuel : ℕ) (s : System here api) (w : api.World)
      → weight s < fuel
      → Inv lib s.cli
      → Works s
      → (es : List (Move here api)) × (t : System here api) × (moves here api s es ≡ some t)
        × Drained s t
  unfolding moves
  drain zero s w less inv works = absurd (omega arith)
  drain (suc fuel) s w less inv works = elim (next-Onward s w inv works) [
    | inl quiet ↦ (
      [],
      s,
      refl,
      record {
        quiet = quiet;
        kept_pc = refl;
        kept_asked = refl;
        kept_lost = refl;
        kept_started = refl;
      },
    )
    | inr (e, t, h, on) ↦
        let (es, u, ran, d) =
          drain fuel t w (omega (arith, on.lighter)) (on.keeps_inv inv) on.works in
        (
          e ∷ es,
          u,
          ground (arith, h, ran),
          record {
            quiet = d.quiet;
            kept_pc = d.kept_pc ∙ on.same_pc;
            kept_asked = d.kept_asked ∙ on.same_asked;
            kept_lost = d.kept_lost ∙ on.same_lost;
            kept_started = d.kept_started ∙ on.same_started;
          },
        )
  ]

  nowhere : (t : System here api) (n : ℕ) → Quiet t → t.session.lost ≡ [] → places here api n t ≡ 0
  unfolding number
  nowhere t n q lost =
      ground (arith, q.none_to_server, q.none_running, q.none_out, q.none_to_client, lost)

  -- In every state that a client and a session at the other end of its connection reach with
  -- fewer than 2^64 calls started, in which the session still reads and writes and no write of it
  -- has failed, and in which the loop of the client still reads and its context is open: for a
  -- call, of a number other than 0, that is in the map or has been, has sent its request and has
  -- not returned, and any state of the handlers, there are further moves, under which the call
  -- stays where it is, after which its channel holds an outcome, that of the reply to its own
  -- request.
  pub moves-answered :
      (s : System here api) (es : List (Move here api)) (n : ℕ) (w : api.World)
      → moves here api (start here api) es ≡ some s
      → s.cli.started < 2 ^ 64
      → s.session.writer ≡ true
      → s.session.reading ≡ true
      → s.session.lost ≡ []
      → s.loop ≡ open_loop
      → n ≢ 0
      → s.asked n ≢ none
      → Entered here s.cli n
      → (fs : List (Move here api)) × (t : System here api) × (o : Outcome lib) × (moves here api s
            fs
          ≡ some t)
        × (t.cli.pc n ≡ s.cli.pc n)
        × (t.cli.inbox n ≡ some o)
        × Told here api s.asked n o
  moves-answered s es n w h small writes reads kept opened nonzero sent live =
      let before =
        moves-with here api (Placed here api) (start here api) s es
          (λ t t' e g safe p. move-Placed here api t t' e g safe p) h small
          (λ g. (start-Safe here api, start-Placed here api)) in
      let (fs, t, ran, d) =
        drain (suc (weight s)) s w (omega arith) before.0.right.inv (writes, reads, opened) in
      let after =
        moves-with here api (Placed here api) s t fs
          (λ t t' e g safe p. move-Placed here api t t' e g safe p) ran
          (omega (arith, small, d.kept_started)) (λ g. before) in
      elim (Option-cases (t.cli.inbox n)) [
        | inl empty ↦
            let live' =
              subst (λ (pc : ℕ → Pc lib). entered lib (pc n) ≢ none) (sym d.kept_pc) live in
            let sent' = subst (λ (a : Asked here api). a n ≢ none) (sym d.kept_asked) sent in
            absurd (
              omega (
                arith,
                after.1 n (nonzero, sent', live', empty),
                nowhere t n d.quiet (d.kept_lost ∙ kept),
              ))
        | inr (o, there) ↦ (
          fs,
          t,
          o,
          ran,
          ap (λ (pc : ℕ → Pc lib). pc n) d.kept_pc,
          there,
          subst (λ (a : Asked here api). Told here api a n o) d.kept_asked
              (after.0.right.inboxes n o there),
        )
      ]
