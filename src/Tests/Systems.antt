-- ===== src/Tests/Systems.antt =====
-- A call of a client that a session answers, from its start to its return.
use fancy_go.Base.{
  ◌+◌, ◌≤◌, map, ◌≡◌, refl, set_at, ◌⊎◌, inr, List, [], ◌∷◌, none, some, true, false, arith, codes,
  eq_bytes,
}
use fancy_go.Base.Dict.{lookup}
use fancy_go.Message.{Message, empty_message}
use fancy_go.Client.State.{
  open_loop, after_turn, Outcome, absent, numbered, writing, waiting, returned, begin, register,
  written, take_result, dispatch, received,
}
use fancy_go.Client.State
use fancy_go.Server.State.{serve, answer, write, pick, reply, handle_rpc_call, recover_call}
use fancy_go.Server.State.{step as server_step}
use fancy_go.Rpc.System.{
  System, start, Move, put, deliver, receive, client, server, request, put_call, deliver_first,
  receive_first, move, moves,
}
use fancy_go.Rpc.System.Client.{Told, GaveUp}
use fancy_go.Rpc.System.Safety.{moves-Told}
use fancy_go.Rpc.System.Once.{moves-once}
use fancy_go.Rpc.System.Answered.{moves-answered}
use fancy_go.Rpc.Dispatch.{with_id}
use fancy_go.Tests.Errors.{plain_errors, here}
use fancy_go.Tests.Sessions.{echo}

abbrev call : Message
call = request here echo 1 (codes "echo") (codes "7")

abbrev steps : List (Move here echo)
steps =
    client (begin none)
    ∷ client (register 1)
    ∷ put 1 (codes "echo") (codes "7")
    ∷ deliver
    ∷ server (answer 0 5)
    ∷ server (write false false)
    ∷ receive
    ∷ client (written 1)
    ∷ client (take_result 1)
    ∷ []

abbrev answered : System here echo
answered = record {
  cli = record {
    seq = 1;
    call_map = set_at 1 none (set_at 1 (some 1) (λ id. none));
    started = 1;
    inbox = set_at 1 none (set_at 1 (some none) (λ n. none));
    pc = set_at 1 (returned none) (
        set_at 1 (waiting 1 none)
          (set_at 1 (writing 1 none) (set_at 1 (numbered 1 none) (λ n. absent))));
    msg = reply echo 5 call;
    events = [];
  };
  session = record {
    running = [];
    out = none;
    writer = true;
    reading = true;
    closed = false;
    requests = call ∷ [];
    handled = (5, call) ∷ [];
    emitted = [];
    written = reply echo 5 call ∷ [];
    lost = [];
  };
  asked = set_at 1 (some (none, call)) (λ n. none);
  to_server = [];
  to_client = [];
  loop = open_loop;
}

answered_reached : moves here echo (start here echo) steps ≡ some answered
unfolding moves move put_call deliver_first receive_first after_turn State.step server_step dispatch
    received pick reply handle_rpc_call recover_call lookup eq_bytes
answered_reached = refl

moves-Told_example : Told here echo answered.asked 1 none ⊎ GaveUp here echo none
moves-Told_example =
    moves-Told here echo answered steps 1 none answered_reached (omega arith) (inr refl)

moves-once_example :
    with_id 1 answered.to_server
      + (with_id 1 answered.session.running + with_id 1 (map (λ h. h.1) answered.session.handled))
    ≤ 1
moves-once_example = moves-once here echo answered steps 1 answered_reached (omega arith)

-- The call has sent its request, and its write returns.
abbrev asking : System here echo
asking = record {
  cli = record {
    seq = 1;
    call_map = set_at 1 (some 1) (λ id. none);
    started = 1;
    inbox = λ n. none;
    pc =
        set_at 1 (waiting 1 none)
          (set_at 1 (writing 1 none) (set_at 1 (numbered 1 none) (λ n. absent)));
    msg = empty_message;
    events = [];
  };
  session = serve echo;
  asked = set_at 1 (some (none, call)) (λ n. none);
  to_server = call ∷ [];
  to_client = [];
  loop = open_loop;
}

abbrev first_steps : List (Move here echo)
first_steps =
    client (begin none)
    ∷ client (register 1)
    ∷ put 1 (codes "echo") (codes "7")
    ∷ client (written 1)
    ∷ []

asking_reached : moves here echo (start here echo) first_steps ≡ some asking
unfolding moves move put_call State.step
asking_reached = refl

moves-answered_example :
    (fs : List (Move here echo)) × (t : System here echo) × (o : Outcome plain_errors) × (moves here
        echo asking fs
      ≡ some t)
    × (t.cli.pc 1 ≡ waiting 1 none)
    × (t.cli.inbox 1 ≡ some o)
    × Told here echo asking.asked 1 o
moves-answered_example =
    moves-answered here echo asking first_steps 1 5 asking_reached (omega arith) refl refl refl refl
      (λ h. omega arith) (λ h. cc) (λ h. cc)
