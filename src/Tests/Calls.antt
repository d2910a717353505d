-- ===== src/Tests/Calls.antt =====
-- The client of net-filter/json-rpc/json-rpc-cli.go at concrete inputs.
use fancy_go.Base.{
  set_at, ℕ, ◌≡◌, refl, List, [], ◌∷◌, none, some, arith, codes, if◌then◌else◌, ◌==◌,
}
use fancy_go.Base.Int.{negsuc}
use fancy_go.Message.{Message, RpcError, empty_message}
use fancy_go.Client.State.{
  absent, numbered, writing, waiting, Cli, new_cli, outcome, target_of, dispatch, Event, begin,
  register, written, run, step,
}
use fancy_go.Client.Answers.{answer_delivered}
use fancy_go.Tests.Errors.{plain_errors, here}

-- Two calls that wait.
abbrev pub steps : List (Event plain_errors)
steps = begin none ∷ register 1 ∷ written 1 ∷ begin none ∷ register 2 ∷ written 2 ∷ []

abbrev pub two_calls : Cli plain_errors
two_calls = record {
  seq = 2;
  call_map = set_at 2 (some 2) (set_at 1 (some 1) (λ id. none));
  started = 2;
  inbox = λ n. none;
  pc = set_at 2 (waiting 2 none) (
      set_at 2 (writing 2 none) (
        set_at 2 (numbered 2 none) (
          set_at 1 (waiting 1 none)
            (set_at 1 (writing 1 none) (set_at 1 (numbered 1 none) (λ n. absent))))));
  msg = empty_message;
  events = [];
}

pub two_calls_reached : run here (new_cli here) steps ≡ some two_calls
unfolding run step
two_calls_reached = refl

abbrev refused : RpcError
refused = record { code = negsuc 0; message = codes "refused" }

abbrev failed_answer : Message
failed_answer = record { id = 1; method = []; params = []; result = []; error = some refused }

abbrev good_answer : Message
good_answer = record { id = 2; method = []; params = []; result = codes "7"; error = none }

answer_delivered_example :
    (s' : Cli plain_errors) × (dispatch here two_calls (some good_answer) ≡ some s')
    × ((k : ℕ)
        → s'.inbox k ≡ (
            if k == 2
            then some (outcome here (target_of here (two_calls.pc 2)) good_answer)
            else two_calls.inbox k))
answer_delivered_example =
    answer_delivered here two_calls steps good_answer 2 two_calls_reached (omega arith)
      (λ h. omega arith) refl (λ h. cc) refl
