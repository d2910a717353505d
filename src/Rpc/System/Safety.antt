-- ===== src/Rpc/System/Safety.antt =====
-- No call is told the answer to another: an invariant of a client and a session together.
use fancy_go.Base.{
  ℕ, ◌^◌, ◌<◌, ◌≤◌, ◌≡◌, refl, subst, true, false, List, [], ◌∷◌, some, arith, ◌⊎◌, inl, inr,
  Option-cases,
}
use fancy_go.Message.{Message}
use fancy_go.ErrorCode.Types.{Errors}
use fancy_go.Client.State.{
  over, cancel_loop, Outcome, Cli, returned, dispatch, begin, register, written, take_result,
  give_up, read,
}
use fancy_go.Client.State.{step as client_step, Event as ClientEvent}
use fancy_go.Client.Invariant.{step-started}
use fancy_go.Server.State.{
  Api, arrive, read_failed, cancel, answer, emit, write, writer_done, emit_message,
}
use fancy_go.Server.State.{step as server_step, Event as ServerEvent}
use fancy_go.Rpc.Order.{held}
use fancy_go.Rpc.System.{
  System, start, Move, put, deliver, receive, client_cancel, client_read_failed, end_loop, client,
  server, deliver_first, receive_first, client_move, server_move, move, moves,
}
use fancy_go.Rpc.System.Client.{Told, GaveUp}
use fancy_go.Rpc.System.Serves.{serves, answer-Serves, emit-Serves, write-Serves}
use fancy_go.Rpc.System.Steps.{
  Safe, start-Safe, put_call-taken, put-Safe, client_move-Safe, server_move-Safe, deliver-to,
  receive-from, loop-Safe,
}

module _ {lib : Errors} (here : lib.Frame) (api : Api lib) where
  move-Safe :
      (s s' : System here api) (e : Move here api)
      → move here api s e ≡ some s'
      → s'.cli.started < 2 ^ 64
      → Safe here api s
      → Safe here api s'
  unfolding move server_step emit_message end_loop
  move-Safe s s' (put n method params) e small h = put-Safe here api s s' n method params e h
  move-Safe s s' deliver e small h = deliver-to here api s s' s.to_server refl e h
  move-Safe s s' receive e small h = receive-from here api s s' s.to_client refl e h
  move-Safe s s' client_cancel e small h =
      loop-Safe here api s s' (cancel_loop s.loop) (ground arith) h
  move-Safe s s' client_read_failed e small h = loop-Safe here api s s' over (ground arith) h
  move-Safe s s' (client (begin t)) e small h =
      client_move-Safe here api s s' (begin t) (λ m g. cc) e small h
  move-Safe s s' (client (register n)) e small h =
      client_move-Safe here api s s' (register n) (λ m g. cc) e small h
  move-Safe s s' (client (written n)) e small h = elim (Option-cases (s.asked n)) [
    | inl before ↦ absurd (ground (arith, before))
    | inr (sent, out) ↦
        client_move-Safe here api s s' (written n) (λ m g. cc) (ground (arith, out, e)) small h
  ]
  move-Safe s s' (client (take_result n)) e small h =
      client_move-Safe here api s s' (take_result n) (λ m g. cc) e small h
  move-Safe s s' (client (give_up n c)) e small h =
      client_move-Safe here api s s' (give_up n c) (λ m g. cc) e small h
  move-Safe s s' (client (read m)) e small h = absurd (cc)
  move-Safe s s' (server (arrive m)) e small h = absurd (cc)
  move-Safe s s' (server (write false cb)) e small h =
      server_move-Safe here api s s' (write false cb) (held s.session.out)
        (λ d g. write-Serves here api s.asked s.session d false cb g h.session) h.session.1 e h
  move-Safe s s' (server (write true cb)) e small h =
      server_move-Safe here api s s' (write true cb) []
        (λ d g. write-Serves here api s.asked s.session d true cb g h.session) tt e h
  move-Safe s s' (server read_failed) e small h =
      server_move-Safe here api s s' read_failed []
        (λ d g.
          serves here api s.asked d s.session.running s.session.out (ground arith) (ground arith)
            h.session.0 h.session.1)
        tt e h
  move-Safe s s' (server cancel) e small h =
      server_move-Safe here api s s' cancel []
        (λ d g.
          serves here api s.asked d s.session.running s.session.out (ground arith) (ground arith)
            h.session.0 h.session.1)
        tt e h
  move-Safe s s' (server (answer k w)) e small h =
      server_move-Safe here api s s' (answer k w) []
        (λ d g. answer-Serves here api s.asked s.session d k w g h.session) tt e h
  move-Safe s s' (server (emit method bin)) e small h =
      server_move-Safe here api s s' (emit method bin) []
        (λ d g. emit-Serves here api s.asked s.session d method bin g h.session) tt e h
  move-Safe s s' (server writer_done) e small h =
      server_move-Safe here api s s' writer_done []
        (λ d g.
          serves here api s.asked d s.session.running s.session.out (ground arith) (ground arith)
            h.session.0 h.session.1)
        tt e h

  client_move-started :
      (s s' : System here api) (e : ClientEvent lib)
      → client_move here api s e ≡ some s'
      → s.cli.started ≤ s'.cli.started
  client_move-started s s' e h = elim (Option-cases (client_step here s.cli e)) [
    | inl stuck ↦ absurd (ground (arith, stuck))
    | inr (c, taken) ↦ ground (arith, taken, step-started here s.cli c e taken)
  ]

  dispatch-started :
      (c c' : Cli lib) (m : Message) → dispatch here c (some m) ≡ some c' → c'.started ≡ c.started
  unfolding dispatch
  dispatch-started c c' m h = ground arith

  receive_first-started :
      (s s' : System here api) (q : List Message)
      → receive_first here api s q ≡ some s'
      → s.cli.started ≤ s'.cli.started
  unfolding receive_first
  receive_first-started s s' [] h = absurd (cc)
  receive_first-started s s' (m ∷ ms) h = elim (Option-cases (dispatch here s.cli (some m))) [
    | inl stuck ↦ absurd (ground (arith, stuck))
    | inr (c, taken) ↦ ground (arith, taken, dispatch-started s.cli c m taken)
  ]

  server_move-started :
      (s s' : System here api) (e : ServerEvent api) (out : List Message)
      → server_move here api s e out ≡ some s'
      → s.cli.started ≤ s'.cli.started
  server_move-started s s' e out h = ground arith

  move-started :
      (s s' : System here api) (e : Move here api)
      → move here api s e ≡ some s'
      → s.cli.started ≤ s'.cli.started
  unfolding move deliver_first end_loop
  move-started s s' (put n method params) h =
      let (id, r, at, new, same) = put_call-taken here api s s' n method params (s.cli.pc n) h in
      ground (arith, same)
  move-started s s' deliver h = ground arith
  move-started s s' receive h = receive_first-started s s' s.to_client h
  move-started s s' client_cancel h = ground arith
  move-started s s' client_read_failed h = ground arith
  move-started s s' (client (begin t)) h = client_move-started s s' (begin t) h
  move-started s s' (client (register n)) h = client_move-started s s' (register n) h
  move-started s s' (client (written n)) h = elim (Option-cases (s.asked n)) [
    | inl before ↦ absurd (ground (arith, before))
    | inr (sent, out) ↦ client_move-started s s' (written n) (ground (arith, out, h))
  ]
  move-started s s' (client (take_result n)) h = client_move-started s s' (take_result n) h
  move-started s s' (client (give_up n c)) h = client_move-started s s' (give_up n c) h
  move-started s s' (client (read m)) h = absurd (cc)
  move-started s s' (server (arrive m)) h = absurd (cc)
  move-started s s' (server (write false cb)) h =
      server_move-started s s' (write false cb) (held s.session.out) h
  move-started s s' (server (write true cb)) h = server_move-started s s' (write true cb) [] h
  move-started s s' (server read_failed) h = server_move-started s s' read_failed [] h
  move-started s s' (server cancel) h = server_move-started s s' cancel [] h
  move-started s s' (server (answer k w)) h = server_move-started s s' (answer k w) [] h
  move-started s s' (server (emit method bin)) h = server_move-started s s' (emit method bin) [] h
  move-started s s' (server writer_done) h = server_move-started s s' writer_done [] h

  -- A fact that every move keeps, where the invariant holds, holds in every state that is reached.
  pub moves-with :
      (P : System here api → Type 0) (s s' : System here api) (es : List (Move here api))
      → ((t t' : System here api) (e : Move here api)
          → move here api t e ≡ some t'
          → Safe here api t
          → P t
          → P t')
      → moves here api s es ≡ some s'
      → s'.cli.started < 2 ^ 64
      → (s.cli.started < 2 ^ 64 → Safe here api s × P s)
      → Safe here api s' × P s'
  unfolding moves
  moves-with P s s' [] keeps h small good =
      let same : s ≡ s' = ground arith in
      subst (λ (t : System here api). Safe here api t × P t) same
        (good (ground (arith, same, small)))
  moves-with P s s' (e ∷ es) keeps h small good = elim (Option-cases (move here api s e)) [
    | inl stuck ↦ absurd (ground (arith, stuck))
    | inr (s1, taken) ↦ moves-with P s1 s' es keeps (ground (arith, taken)) small (λ small1.
        let (safe, p) = good (omega (arith, small1, move-started s s1 e taken)) in
        (move-Safe s s1 e taken small1 safe, keeps s s1 e taken safe p))
  ]

  reached-Safe :
      (s : System here api) (es : List (Move here api))
      → moves here api (start here api) es ≡ some s
      → s.cli.started < 2 ^ 64
      → Safe here api s
  reached-Safe s es h small =
      (moves-with (λ t. Unit {0}) (start here api) s es (λ t t' e g safe p. p) h small
        (λ g. (start-Safe here api, tt))).0

  -- Whatever the order in which calls of a client begin, send, give up and return, a session at
  -- the other end of a connection that keeps the order of messages reads requests, answers them
  -- in any order, emits events and writes or fails to, and the client reads what is written, as
  -- long as fewer than 2^64 calls have started: the outcome that is in the channel of a call or
  -- with which a call has returned is that of the reply, in some state of the handlers, to the
  -- request which this very call has sent; or the call has given up and the outcome is one of the
  -- errors for that.
  pub moves-Told :
      (s : System here api) (es : List (Move here api)) (n : ℕ) (o : Outcome lib)
      → moves here api (start here api) es ≡ some s
      → s.cli.started < 2 ^ 64
      → (s.cli.inbox n ≡ some o) ⊎ (s.cli.pc n ≡ returned o)
      → Told here api s.asked n o ⊎ GaveUp here api o
  moves-Told s es n o h small (inl there) =
      inl ((reached-Safe s es h small).right.inboxes n o there)
  moves-Told s es n o h small (inr done) = (reached-Safe s es h small).right.results n o done
