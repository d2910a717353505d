-- ===== src/Tests/Writers.antt =====
-- Two goroutines that write at once to the framed channel of net-filter/json-rpc/json-msg.go.
use fancy_go.Base.{◌≡◌, refl, false, set_at, List, [], ◌∷◌, none, some, arith, codes, Bytes}
use fancy_go.Message.{to_bin}
use fancy_go.Framing.Decimal.{format, emit}
use fancy_go.Framing.Frame.{frame, header}
use fancy_go.Framing.Scanner.{Scanner, open_scanner}
use fancy_go.Framing.Split.{is_empty}
use fancy_go.Framing.Writer.{segment}
use fancy_go.Framing.Channel.{receive}
use fancy_go.Framing.Shared.{
  WriterStep, enter, proceed, Writers, outside, writing, open_writers, step, run,
}
use fancy_go.Framing.Shared.Order.{receive-run}
use fancy_go.Tests.Channel.{of_method, method_codec, append_write, append_write-IsWriter}

abbrev steps : List WriterStep
steps =
    enter 1 (of_method (codes "ping"))
    ∷ proceed 1
    ∷ proceed 1
    ∷ enter 0 (of_method (codes "pong!"))
    ∷ proceed 0
    ∷ proceed 0
    ∷ []

abbrev both : Writers Bytes (Unit {0})
both = record {
  st = codes "4,ping5,pong!";
  locked = false;
  pc = set_at 0 outside (
      set_at 0 (writing []) (
        set_at 0 (writing (codes "5,pong!")) (
          set_at 1 outside
            (set_at 1 (writing []) (set_at 1 (writing (codes "4,ping")) (λ i. outside))))));
  begun = of_method (codes "pong!") ∷ of_method (codes "ping") ∷ [];
  errors = [];
}

both_reached :
    run method_codec append_write (open_writers method_codec append_write []) steps ≡ some both
unfolding run step segment is_empty to_bin frame header format emit
both_reached = refl

-- The mutex is held: a second goroutine cannot enter.
held_back :
    run method_codec append_write
      (open_writers method_codec append_write [])
      (enter 1 (of_method (codes "ping")) ∷ enter 0 (of_method (codes "pong!")) ∷ [])
    ≡ none
unfolding run step
held_back = refl

receive-run_example :
    (x : Scanner) × (receive method_codec 2 (open_scanner (codes "4,ping5,po" ∷ codes "ng!" ∷ []))
      ≡ some (x, of_method (codes "ping") ∷ of_method (codes "pong!") ∷ [], none))
unfolding to_bin frame header format emit
receive-run_example =
    receive-run method_codec append_write append_write-IsWriter [] steps both
      (codes "4,ping5,po" ∷ codes "ng!" ∷ []) refl both_reached refl refl (refl, (refl, tt))
      (omega arith, (omega arith, tt)) refl
