-- ===== src/Tests/Conversations.antt =====
-- Two calls of net-filter/json-rpc/json-rpc-cli.go, answered by a session in the other order.
use mathlib.Core.List.{reverse}
use fancy_go.Base.{
  ℕ, ◌≤◌, ◌≡◌, ◌≢◌, refl, List, [], ◌∷◌, Option, none, some, arith, true, false, Bytes, codes,
  eq_bytes, All, if◌then◌else◌, ◌==◌, repeat,
}
use fancy_go.Base.Dict.{lookup}
use fancy_go.Message.{Message, JsonCodec, to_bin}
use fancy_go.Framing.Decimal.{format, emit}
use fancy_go.Framing.Frame.{frame, header}
use fancy_go.Framing.Scanner.{Scanner, open_scanner}
use fancy_go.Framing.Split.{is_empty}
use fancy_go.Framing.Writer.{write_ctx, segment, write_loop}
use fancy_go.Framing.Channel.{receive, send_all}
use fancy_go.Client.State.{Cli, outcome, target_of, run, dispatch, read, received}
use fancy_go.Client.End.{run-replay}
use fancy_go.Server.State.{
  Session, serve, arrive, answer, write, pick, reply, handle_rpc_call, recover_call,
}
use fancy_go.Server.State
use fancy_go.Server.Balance.{number}
use fancy_go.Rpc.Dispatch.{with_id, deliveries}
use fancy_go.Rpc.Conversation.{run-receive}
use fancy_go.Tests.Errors.{plain_errors, here}
use fancy_go.Tests.Calls.{two_calls, two_calls_reached}
use fancy_go.Tests.Calls
use fancy_go.Tests.Sessions.{echo}
use fancy_go.Tests.Channel.{append_write, append_write-IsWriter}

-- A codec for answers without an error.
abbrev of_answer : Bytes → Message
of_answer [] = record { id = 0; method = []; params = []; result = []; error = none }
of_answer (x ∷ b) = record { id = x; method = []; params = []; result = b; error = none }

of_answer-unmarshal :
    (m : Message) (b : Bytes)
    → of_answer (m.id ∷ m.result) ≡ m
    → some (m.id ∷ m.result) ≡ some b
    → ◌≡◌ {A = Message × Option (Unit {0})} (of_answer b, none) (m, none)
of_answer-unmarshal m b p e = ground (arith, p, e)

abbrev answer_codec : JsonCodec
answer_codec = record {
  JsonError = Unit;
  encode = λ m. some (m.id ∷ m.result);
  unmarshal = λ b. (of_answer b, none);
  IsPlain = λ m. of_answer (m.id ∷ m.result) ≡ m;
  encode_plain = λ m p. (m.id ∷ m.result, refl);
  unmarshal-encode = of_answer-unmarshal;
}

abbrev ask : ℕ → Message
ask k = record { id = k; method = codes "echo"; params = codes "7"; result = []; error = none }

abbrev answers : Session echo
answers = record {
  running = [];
  out = none;
  writer = true;
  reading = true;
  closed = false;
  requests = ask 2 ∷ ask 1 ∷ [];
  handled = (0, ask 1) ∷ (0, ask 2) ∷ [];
  emitted = [];
  written = reply echo 0 (ask 1) ∷ reply echo 0 (ask 2) ∷ [];
  lost = [];
}

abbrev steps : List (State.Event echo)
steps =
    arrive (ask 1)
    ∷ arrive (ask 2)
    ∷ answer 0 0
    ∷ write false false
    ∷ answer 0 0
    ∷ write false false
    ∷ []

answers_reached : State.run echo (serve echo) steps ≡ some answers
unfolding State.run State.step pick
answers_reached = refl

numbered : All (λ m. m.id ≢ 0) answers.requests
numbered = (λ h. omega arith, (λ h. omega arith, tt))

unique : (k : ℕ) → with_id k answers.requests ≤ 1
unfolding number
unique k = ground arith

run-receive_example :
    (x : Scanner) × (s' : Cli plain_errors) × (receive answer_codec 2
        (open_scanner (frame (2 ∷ codes "7") ∷ frame (1 ∷ codes "7") ∷ []))
      ≡ some (x, reverse answers.written, none))
    × (run here two_calls (deliveries here (reverse answers.written)) ≡ some s')
    × All
        (λ m.
          (v : ℕ) × (s'.inbox m.id
            ≡ some (outcome here (target_of here (two_calls.pc m.id)) (reply echo v m))))
        answers.requests
unfolding send_all write_ctx write_loop segment is_empty to_bin frame header format emit reply
    handle_rpc_call recover_call lookup eq_bytes
run-receive_example =
    run-receive here echo two_calls Calls.steps answers steps answer_codec append_write
      append_write-IsWriter [] (frame (2 ∷ codes "7") ∷ frame (1 ∷ codes "7") ∷ [])
      two_calls_reached (omega arith) answers_reached refl refl refl
      (((λ h. cc), refl), (((λ h. cc), refl), tt)) numbered unique (refl, (refl, tt))
      (omega arith, (omega arith, tt)) refl refl refl

-- The client has read an event, and the connection ends.
abbrev tick : Message
tick = record { id = 0; method = codes "tick"; params = []; result = []; error = none }

abbrev ticked : Cli plain_errors
ticked = record two_calls { msg = tick; events = (codes "tick", []) ∷ [] }

run-replay_example :
    (t : Cli plain_errors) × (run here ticked (repeat 3 (read none) []) ≡ some t)
    × (t.pc ≡ ticked.pc)
    × (t.inbox ≡ ticked.inbox)
    × (t.call_map ≡ ticked.call_map)
    × (t.events ≡ (
        if tick.id == 0 then repeat 3 (tick.method, tick.params) ticked.events else ticked.events))
unfolding dispatch received
run-replay_example = run-replay here two_calls ticked tick 3 refl
