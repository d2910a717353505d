-- ===== src/Tests/Sessions.antt =====
-- Sessions of net-filter/json-rpc/json-rpc-server.go at concrete inputs.
use fancy_go.Base.{
  ℕ, ◌≡◌, refl, List, [], ◌∷◌, none, some, Bytes, codes, true, false, eq_bytes, ◌++◌,
}
use fancy_go.Base.Int.{negsuc}
use fancy_go.Base.Dict.{lookup}
use fancy_go.Message.{Message}
use fancy_go.ErrorCode.Types.{Err, error_text}
use fancy_go.ErrorCode.Code.{get_code}
use fancy_go.Client.State.{outcome}
use fancy_go.Server.State.{
  Api, returns, Session, serve, Event, arrive, cancel, answer, write, pick, step, run, reply,
  handle_rpc_call,
}
use fancy_go.Server.Balance.{Balanced, reached-Balanced, run-stuck}
use fancy_go.Server.Reply.{error_arrives}
use fancy_go.Tests.Errors.{plain_errors, here, timeout}

-- One method gives its parameters back, another fails.
abbrev pub echo : Api plain_errors
echo = record {
  World = ℕ;
  Value = Bytes;
  nil_value = codes "null";
  marshal = λ v. (v, none);
  func_map =
      (codes "echo", λ w p. returns p none)
      ∷ (codes "fail", λ w p. returns (codes "null") (some timeout))
      ∷ [];
  convert_rpc_error = λ e. e;
}

abbrev request : Message
request = record { id = 7; method = codes "echo"; params = codes "1"; result = []; error = none }

abbrev failing : Message
failing = record { id = 8; method = codes "fail"; params = []; result = []; error = none }

abbrev served : Session echo
served = record {
  running = [];
  out = some (reply echo 0 failing);
  writer = true;
  reading = true;
  closed = false;
  requests = failing ∷ request ∷ [];
  handled = (0, failing) ∷ (0, request) ∷ [];
  emitted = [];
  written = reply echo 0 request ∷ [];
  lost = [];
}

abbrev steps : List (Event echo)
steps = arrive request ∷ arrive failing ∷ answer 1 0 ∷ write false false ∷ answer 0 0 ∷ []

served_reached : run echo (serve echo) steps ≡ some served
unfolding run step pick
served_reached = refl

reached-Balanced_example : Balanced echo served
reached-Balanced_example = reached-Balanced echo served steps served_reached

-- The writer has ended with a message in the channel.
abbrev ended : Session echo
ended = record {
  running = request ∷ [];
  out = some failing;
  writer = false;
  reading = true;
  closed = true;
  requests = request ∷ [];
  handled = [];
  emitted = failing ∷ [];
  written = [];
  lost = [];
}

abbrev one_more : Session echo
one_more = record ended { running = failing ∷ request ∷ []; requests = failing ∷ request ∷ [] }

run-stuck_example :
    (one_more.out ≡ some failing)
    × (one_more.handled ≡ ended.handled)
    × (read : List Message) × (one_more.running ≡ read ++ ended.running)
unfolding run step
run-stuck_example =
    run-stuck echo ended one_more (arrive failing ∷ cancel ∷ []) failing refl refl refl

error_arrives_example :
    (c : Err plain_errors) × (outcome here none (reply echo 0 failing) ≡ some c)
    × (error_text c ≡ error_text timeout)
    × (get_code (some c) ≡ negsuc 0)
unfolding handle_rpc_call lookup eq_bytes
error_arrives_example =
    error_arrives here echo 0 failing none (codes "null") (some timeout) timeout refl refl
