-- ===== src/Rpc/System.antt =====
-- A client of net-filter/json-rpc/json-rpc-cli.go and a session of net-filter/json-rpc/json-rpc-server.go
-- at the two ends of a connection that keeps the order of messages.
use fancy_go.Base.{
  ℕ, set_at, Bool, true, false, List, [], ◌∷◌, ◌++◌, Option, none, some, Bytes, if◌then◌else◌,
}
use fancy_go.Message.{Message}
use fancy_go.ErrorCode.Types.{Errors}
use fancy_go.Client.State.{
  Loop, open_loop, over, is_over, cancel_loop, after_turn, Target, Pc, Cli, new_cli, absent,
  numbered, writing, waiting, returned, dispatch, begin, register, written, take_result, give_up,
  read,
}
use fancy_go.Client.State.{Event as ClientEvent, step as client_step}
use fancy_go.Server.State.{
  Api, Session, serve, arrive, read_failed, cancel, answer, emit, write, writer_done,
}
use fancy_go.Server.State.{Event as ServerEvent, step as server_step}
use fancy_go.Rpc.Order.{held}
pub mod Client
pub mod Serves
pub mod Steps
pub mod Safety
pub mod Once
pub mod Placed
pub mod Kept
pub mod Answered

module _ {lib : Errors} (here : lib.Frame) (api : Api lib) where
  -- `asked` is what a call has written, with its target; the queues hold what is under way.
  -- `loop` is where the loop of the client's `init` stands.
  pub record System : Type 0 where
    pub cli : Cli lib
    pub session : Session api
    pub asked : ℕ → Option (Target lib × Message)
    pub to_server : List Message
    pub to_client : List Message
    pub loop : Loop

  abbrev pub start : System
  start = record {
    cli = new_cli here;
    session = serve api;
    asked = λ n. none;
    to_server = [];
    to_client = [];
    loop = open_loop;
  }

  -- The request of a call goes out, which may happen before its `WriteCtx` returns; the session reads
  -- the next request, the client the next message; the client's context is cancelled; its `ReadCtx` fails; and the steps of
  -- each that do not read.
  pub data Move : Type 0 where
    put : ℕ → Bytes → Bytes → Move
    deliver : Move
    receive : Move
    client_cancel : Move
    client_read_failed : Move
    client : ClientEvent lib → Move
    server : ServerEvent api → Move

  -- The request of `Call`.
  abbrev pub request : ℕ → Bytes → Bytes → Message
  request id method params = record {
    id = id;
    method = method;
    params = params;
    result = [];
    error = none;
  }

  abbrev pub client_move : System → ClientEvent lib → Option System
  client_move s e = elim (client_step here s.cli e) [
    | none ↦ none
    | some c ↦ some (record s { cli = c })
  ]

  abbrev pub server_move : System → ServerEvent api → List Message → Option System
  server_move s e out = elim (server_step api s.session e) [
    | none ↦ none
    | some d ↦ some (record s { session = d; to_client = s.to_client ++ out })
  ]

  -- The write of a call that stands at its write, once.
  unfoldable pub put_call : System → ℕ → Bytes → Bytes → Pc lib → Option System
  put_call s n method params absent = none
  put_call s n method params (numbered id r) = none
  put_call s n method params (writing id r) = elim (s.asked n) [
    | some sent ↦ none
    | none ↦ some (record s {
      asked = set_at n (some (r, request id method params)) s.asked;
      to_server = s.to_server ++ request id method params ∷ [];
    })
  ]
  put_call s n method params (waiting id r) = none
  put_call s n method params (returned o) = none

  -- The session reads the first message of its queue, the client that of its own, as long as its loop
  -- has not returned.
  unfoldable pub deliver_first : System → List Message → Option System
  deliver_first s [] = none
  deliver_first s (m ∷ ms) = elim (server_step api s.session (arrive m)) [
    | none ↦ none
    | some d ↦ some (record s { session = d; to_server = ms })
  ]

  unfoldable pub receive_first : System → List Message → Option System
  unfolding after_turn
  receive_first s [] = none
  receive_first s (m ∷ ms) = if is_over s.loop then none else elim (dispatch here s.cli (some m)) [
    | none ↦ none
    | some c ↦ some (record s { cli = c; to_client = ms; loop = after_turn s.loop })
  ]

  -- `ReadCtx` returns an error, and so does the loop.
  unfoldable pub end_loop : System → Option System
  end_loop s = if is_over s.loop then none else some (record s { loop = over })

  unfoldable pub move : System → Move → Option System
  unfolding put_call deliver_first receive_first end_loop cancel_loop
  move s (put n method params) = put_call s n method params (s.cli.pc n)
  move s deliver = deliver_first s s.to_server
  move s receive = receive_first s s.to_client
  move s client_cancel = some (record s { loop = cancel_loop s.loop })
  move s client_read_failed = end_loop s
  move s (client (begin t)) = client_move s (begin t)
  move s (client (register n)) = client_move s (register n)
  move s (client (written n)) = elim (s.asked n) [
    | none ↦ none
    | some sent ↦ client_move s (written n)
  ]
  move s (client (take_result n)) = client_move s (take_result n)
  move s (client (give_up n c)) = client_move s (give_up n c)
  move s (client (read m)) = none
  move s (server (arrive m)) = none
  move s (server (write false cb)) = server_move s (write false cb) (held s.session.out)
  move s (server (write true cb)) = server_move s (write true cb) []
  move s (server read_failed) = server_move s read_failed []
  move s (server cancel) = server_move s cancel []
  move s (server (answer k w)) = server_move s (answer k w) []
  move s (server (emit method bin)) = server_move s (emit method bin) []
  move s (server writer_done) = server_move s writer_done []

  unfoldable pub moves : System → List Move → Option System
  moves s [] = some s
  moves s (e ∷ es) = elim (move s e) [ none ↦ none | some s' ↦ moves s' es ]
