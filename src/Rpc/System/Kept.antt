-- ===== src/Rpc/System/Kept.antt =====
-- That every move keeps requests and answers placed.
use fancy_go.Base.{
  ℕ, ◌+◌, ◌≤◌, ◌≡◌, ◌≢◌, refl, subst, Bool, true, false, [], some, arith, inl, inr, Option-cases,
}
use fancy_go.Message.{Message}
use fancy_go.ErrorCode.Types.{Errors}
use fancy_go.Client.State.{over, cancel_loop, begin, register, written, take_result, give_up, read}
use fancy_go.Server.State.{
  Api, Session, arrive, read_failed, cancel, answer, emit, write, writer_done,
}
use fancy_go.Server.State.{step as server_step, Event as ServerEvent}
use fancy_go.Rpc.Dispatch.{with_id}
use fancy_go.Rpc.Order.{held}
use fancy_go.Rpc.System.{
  System, start, Move, put, deliver, receive, client_cancel, client_read_failed, end_loop, client,
  server, move,
}
use fancy_go.Rpc.System.Steps.{Safe}
use fancy_go.Rpc.System.Placed.{
  inside, Placed, client_move-Placed, server_move-Placed, put-Placed, deliver-Placed,
  receive-Placed, server-inside, write-inside,
}

module _ {lib : Errors} (here : lib.Frame) (api : Api lib) where
  kept-inside :
      (s : System here api) (e : ServerEvent api)
      → ((m : Message) → e ≢ arrive m)
      → ((c : Bool) → e ≢ write false c)
      → (k : ℕ) (d : Session api) → server_step api s.session e ≡ some d
      → inside here api k s.session ≤ inside here api k d + with_id k []
  kept-inside s e comes writes k d taken =
      omega (arith, server-inside here api k s.session d e comes writes taken)

  pub move-Placed :
      (s s' : System here api) (e : Move here api)
      → move here api s e ≡ some s'
      → Safe here api s
      → Placed here api s
      → Placed here api s'
  unfolding move end_loop
  move-Placed s s' (put n method params) h safe p =
      put-Placed here api s s' n method params h safe p
  move-Placed s s' deliver h safe p = deliver-Placed here api s s' s.to_server refl h p
  move-Placed s s' receive h safe p = receive-Placed here api s s' s.to_client refl h safe p
  move-Placed s s' client_cancel h safe p =
      let same : record s { loop = cancel_loop s.loop } ≡ s' = ground arith in
      subst (Placed here api) same p
  move-Placed s s' client_read_failed h safe p =
      let same : record s { loop = over } ≡ s' = ground arith in subst (Placed here api) same p
  move-Placed s s' (client (begin t)) h safe p =
      client_move-Placed here api s s' (begin t) (λ x g. cc) h safe p
  move-Placed s s' (client (register n)) h safe p =
      client_move-Placed here api s s' (register n) (λ x g. cc) h safe p
  move-Placed s s' (client (written n)) h safe p = elim (Option-cases (s.asked n)) [
    | inl before ↦ absurd (ground (arith, before))
    | inr (sent, out) ↦
        client_move-Placed here api s s' (written n) (λ x g. cc) (ground (arith, out, h)) safe p
  ]
  move-Placed s s' (client (take_result n)) h safe p =
      client_move-Placed here api s s' (take_result n) (λ x g. cc) h safe p
  move-Placed s s' (client (give_up n c)) h safe p =
      client_move-Placed here api s s' (give_up n c) (λ x g. cc) h safe p
  move-Placed s s' (client (read m)) h safe p = absurd (cc)
  move-Placed s s' (server (arrive m)) h safe p = absurd (cc)
  move-Placed s s' (server (write false cb)) h safe p =
      server_move-Placed here api s s' (write false cb) (held s.session.out)
        (λ k d g. omega (arith, write-inside here api k s.session d cb g)) h p
  move-Placed s s' (server (write true cb)) h safe p =
      server_move-Placed here api s s' (write true cb) []
        (kept-inside s (write true cb) (λ m g. cc) (λ c g. cc)) h p
  move-Placed s s' (server read_failed) h safe p =
      server_move-Placed here api s s' read_failed []
        (kept-inside s read_failed (λ m g. cc) (λ c g. cc)) h p
  move-Placed s s' (server cancel) h safe p =
      server_move-Placed here api s s' cancel [] (kept-inside s cancel (λ m g. cc) (λ c g. cc)) h p
  move-Placed s s' (server (answer k w)) h safe p =
      server_move-Placed here api s s' (answer k w) []
        (kept-inside s (answer k w) (λ m g. cc) (λ c g. cc)) h p
  move-Placed s s' (server (emit method bin)) h safe p =
      server_move-Placed here api s s' (emit method bin) []
        (kept-inside s (emit method bin) (λ m g. cc) (λ c g. cc)) h p
  move-Placed s s' (server writer_done) h safe p =
      server_move-Placed here api s s' writer_done []
        (kept-inside s writer_done (λ m g. cc) (λ c g. cc)) h p

  pub start-Placed : Placed here api (start here api)
  start-Placed n (nonzero, sent, live, empty) = absurd (sent refl)
