-- ===== src/Rpc/System/Once.antt =====
-- No request of a call is handled twice.
use fancy_go.Base.{
  ℕ, ◌+◌, ◌^◌, ◌<◌, ◌≤◌, ◌≡◌, refl, ap, subst, true, false, List, [], ◌∷◌, ◌++◌, map, Option, none,
  some, arith, inl, inr, Option-cases, Bytes, ◌==◌, if◌then◌else◌,
}
use fancy_go.Message.{Message}
use fancy_go.ErrorCode.Types.{Errors}
use fancy_go.Client.State.{
  Loop, over, cancel_loop, after_turn, Target, begin, register, written, take_result, give_up, read,
  dispatch,
}
use fancy_go.Client.State.{step as client_step, Event as ClientEvent}
use fancy_go.Server.State.{
  Api, Session, arrive, read_failed, cancel, answer, emit, write, writer_done, emit_message,
}
use fancy_go.Server.State.{step as server_step, Event as ServerEvent}
use fancy_go.Server.Balance.{number, Balanced, step-Balanced, serve-Balanced}
use fancy_go.Rpc.Counts.{number-append}
use fancy_go.Rpc.Dispatch.{with_id}
use fancy_go.Rpc.Order.{held}
use fancy_go.Rpc.System.{
  System, start, Move, put, deliver, receive, client_cancel, client_read_failed, end_loop, client,
  server, request, deliver_first, receive_first, client_move, server_move, move, moves,
}
use fancy_go.Rpc.System.Steps.{Safe, start-Safe, put_call-taken}
use fancy_go.Rpc.System.Safety.{moves-with}

module _ {lib : Errors} (here : lib.Frame) (api : Api lib) where
  -- How often a call has sent its request.
  abbrev sendings : Option (Target lib × Message) → ℕ
  sendings none = 0
  sendings (some sent) = 1

  record Once (s : System here api) : Type 0 where
    sent : (k : ℕ) → with_id k s.to_server + with_id k s.session.requests ≤ sendings (s.asked k)
    balanced : Balanced api s.session

  start-Once : Once (start here api)
  unfolding number
  start-Once = record { sent = λ k. omega arith; balanced = serve-Balanced api }

  stays-Once :
      (s s' : System here api)
      → s'.to_server ≡ s.to_server
      → s'.asked ≡ s.asked
      → s'.session.requests ≡ s.session.requests
      → Balanced api s'.session
      → Once s
      → Once s'
  stays-Once s s' queue asked requests b h = record {
    sent = λ k. ground (arith, h.sent k, queue, asked, requests);
    balanced = b;
  }

  loop-Once : (s s' : System here api) (l : Loop) → record s { loop = l } ≡ s' → Once s → Once s'
  loop-Once s s' l same once =
      subst Once same (stays-Once s (record s { loop = l }) refl refl refl once.balanced once)

  client_move-Once :
      (s s' : System here api) (e : ClientEvent lib)
      → client_move here api s e ≡ some s'
      → Once s
      → Once s'
  client_move-Once s s' e h once = elim (Option-cases (client_step here s.cli e)) [
    | inl stuck ↦ absurd (ground (arith, stuck))
    | inr (c, taken) ↦
        let same : record s { cli = c } ≡ s' = ground (arith, taken) in
        subst Once same (stays-Once s (record s { cli = c }) refl refl refl once.balanced once)
  ]

  server_move-Once :
      (s s' : System here api) (e : ServerEvent api) (out : List Message)
      → server_move here api s e out ≡ some s'
      → ((d : Session api) → server_step api s.session e ≡ some d → d.requests ≡ s.session.requests)
      → Once s
      → Once s'
  server_move-Once s s' e out h same once = elim (Option-cases (server_step api s.session e)) [
    | inl stuck ↦ absurd (ground (arith, stuck))
    | inr (d, taken) ↦
        let is : record s { session = d; to_client = s.to_client ++ out } ≡ s' =
          ground (arith, taken) in
        subst Once is (
          stays-Once s (record s { session = d; to_client = s.to_client ++ out }) refl refl
            (same d taken) (step-Balanced api s.session d e taken once.balanced) once)
  ]

  put-Once :
      (s s' : System here api) (n : ℕ) (method params : Bytes)
      → move here api s (put n method params) ≡ some s'
      → Safe here api s
      → Once s
      → Once s'
  unfolding move number
  put-Once s s' n method params h safe once =
      let (id, r, at, new, same) = put_call-taken here api s s' n method params (s.cli.pc n) h in
      let mine : id ≡ n = safe.right.inv.own_id n id (ground (arith, at)) in
      let m = request here api id method params in
      subst Once same (record {
        sent = λ k. ground (
          arith,
          once.sent k,
          new,
          mine,
          number-append (λ (x : Message). x.id == k) s.to_server (m ∷ []),
        );
        balanced = once.balanced;
      })

  arrived :
      (d d' : Session api) (m : Message) (k : ℕ)
      → server_step api d (arrive m) ≡ some d'
      → with_id k d'.requests ≡ (if m.id == k then 1 else 0) + with_id k d.requests
  unfolding server_step number
  arrived d d' m k e = ap (with_id k) (requests' e)
    where
      requests' : server_step api d (arrive m) ≡ some d' → d'.requests ≡ m ∷ d.requests
      requests' e = ground arith

  deliver-Once :
      (s s' : System here api) (q : List Message)
      → s.to_server ≡ q
      → deliver_first here api s q ≡ some s'
      → Once s
      → Once s'
  unfolding deliver_first number
  deliver-Once s s' [] at h once = absurd (cc)
  deliver-Once s s' (m ∷ ms) at h once =
      elim (Option-cases (server_step api s.session (arrive m))) [
        | inl stuck ↦ absurd (ground (arith, stuck))
        | inr (d, taken) ↦
            let same : record s { session = d; to_server = ms } ≡ s' = ground (arith, taken) in
            subst Once same (record {
              sent =
                  λ k. omega (arith, once.sent k, ap (with_id k) at, arrived s.session d m k taken);
              balanced = step-Balanced api s.session d (arrive m) taken once.balanced;
            })
      ]

  receive-Once :
      (s s' : System here api) (q : List Message)
      → receive_first here api s q ≡ some s'
      → Once s
      → Once s'
  unfolding receive_first
  receive-Once s s' [] h once = absurd (cc)
  receive-Once s s' (m ∷ ms) h once = elim (Option-cases (dispatch here s.cli (some m))) [
    | inl stuck ↦ absurd (ground (arith, stuck))
    | inr (c, taken) ↦
        let same : record s { cli = c; to_client = ms; loop = after_turn s.loop } ≡ s' =
          ground (arith, taken) in
        subst Once same (
          stays-Once s (record s { cli = c; to_client = ms; loop = after_turn s.loop }) refl refl
            refl once.balanced once)
  ]

  answer-requests :
      (d d' : Session api) (k : ℕ) (w : api.World)
      → server_step api d (answer k w) ≡ some d'
      → d'.requests ≡ d.requests
  unfolding server_step
  answer-requests d d' k w h = ground arith

  emit-requests :
      (d d' : Session api) (method : Bytes) (bin : Option Bytes)
      → server_step api d (emit method bin) ≡ some d'
      → d'.requests ≡ d.requests
  unfolding server_step emit_message
  emit-requests d d' method none h = ground arith
  emit-requests d d' method (some bin) h = ground arith

  move-Once :
      (s s' : System here api) (e : Move here api)
      → move here api s e ≡ some s'
      → Safe here api s
      → Once s
      → Once s'
  unfolding move server_step end_loop
  move-Once s s' (put n method params) h safe once = put-Once s s' n method params h safe once
  move-Once s s' deliver h safe once = deliver-Once s s' s.to_server refl h once
  move-Once s s' receive h safe once = receive-Once s s' s.to_client h once
  move-Once s s' client_cancel h safe once = loop-Once s s' (cancel_loop s.loop) (ground arith) once
  move-Once s s' client_read_failed h safe once = loop-Once s s' over (ground arith) once
  move-Once s s' (client (begin t)) h safe once = client_move-Once s s' (begin t) h once
  move-Once s s' (client (register n)) h safe once = client_move-Once s s' (register n) h once
  move-Once s s' (client (written n)) h safe once = elim (Option-cases (s.asked n)) [
    | inl before ↦ absurd (ground (arith, before))
    | inr (sent, out) ↦ client_move-Once s s' (written n) (ground (arith, out, h)) once
  ]
  move-Once s s' (client (take_result n)) h safe once = client_move-Once s s' (take_result n) h once
  move-Once s s' (client (give_up n c)) h safe once = client_move-Once s s' (give_up n c) h once
  move-Once s s' (client (read m)) h safe once = absurd (cc)
  move-Once s s' (server (arrive m)) h safe once = absurd (cc)
  move-Once s s' (server (write false cb)) h safe once =
      server_move-Once s s' (write false cb) (held s.session.out) h (λ d g. ground arith) once
  move-Once s s' (server (write true cb)) h safe once =
      server_move-Once s s' (write true cb) [] h (λ d g. ground arith) once
  move-Once s s' (server read_failed) h safe once =
      server_move-Once s s' read_failed [] h (λ d g. ground arith) once
  move-Once s s' (server cancel) h safe once =
      server_move-Once s s' cancel [] h (λ d g. ground arith) once
  move-Once s s' (server (answer k w)) h safe once =
      server_move-Once s s' (answer k w) [] h (λ d g. answer-requests s.session d k w g) once
  move-Once s s' (server (emit method bin)) h safe once =
      server_move-Once s s' (emit method bin) [] h (λ d g. emit-requests s.session d method bin g)
        once
  move-Once s s' (server writer_done) h safe once =
      server_move-Once s s' writer_done [] h (λ d g. ground arith) once

  sendings-bound : (o : Option (Target lib × Message)) → sendings o ≤ 1
  sendings-bound none = omega arith
  sendings-bound (some sent) = omega arith

  -- In every state that a client and a session at the other end of its connection reach, as long
  -- as fewer than 2^64 calls have started: of all requests with a given number, at most one is
  -- under way, being handled or handled, so the handler of a call runs at most once.
  pub moves-once :
      (s : System here api) (es : List (Move here api)) (k : ℕ)
      → moves here api (start here api) es ≡ some s
      → s.cli.started < 2 ^ 64
      → with_id k s.to_server
          + (with_id k s.session.running + with_id k (map (λ h. h.1) s.session.handled))
        ≤ 1
  moves-once s es k h small =
      let (safe, once) =
        moves-with here api Once (start here api) s es move-Once h small
          (λ g. (start-Safe here api, start-Once)) in
      omega (
        arith,
        once.sent k,
        sendings-bound (s.asked k),
        once.balanced.all_requests (λ m. m.id == k),
      )
