-- ===== src/Tests/Channel.antt =====
-- net-filter/json-rpc/json-msg.go at concrete inputs.
use fancy_go.Base.{
  ◌≡◌, refl, false, List, [], ◌∷◌, ◌++◌, Option, none, some, arith, Bytes, codes, length, take,
}
use mathlib.Core.List.{cons-ne-nil}
use fancy_go.Message.{Message, JsonCodec, to_bin}
use fancy_go.Framing.Decimal.{format, parse_int, value, is_digit, emit}
use fancy_go.Framing.Split.{
  split_json, token, find_submatch, split_body, is_space, run, is_empty, closed_by_comma,
}
use fancy_go.Framing.Sound.{IsFrame, split_json_sound}
use fancy_go.Framing.Frame.{frame, header}
use fancy_go.Framing.Scanner.{Scanner, open_scanner}
use fancy_go.Framing.Writer.{Write, IsWriter, write_ctx, write_ctx_lem, Wrote, segment, write_loop}
use fancy_go.Framing.Channel.{read_ctx, receive, send_all, receive-send_all, read_ctx-truncated}

-- A codec that prints the method alone, for messages that have nothing else.
abbrev pub of_method : Bytes → Message
of_method b = record { id = 0; method = b; params = []; result = []; error = none }

pub of_method-unmarshal :
    (m : Message) (b : Bytes)
    → of_method m.method ≡ m
    → some m.method ≡ some b
    → ◌≡◌ {A = Message × Option (Unit {0})} (of_method b, none) (m, none)
of_method-unmarshal m b p e = ground (arith, p, e)

abbrev pub method_codec : JsonCodec
method_codec = record {
  JsonError = Unit;
  encode = λ m. some m.method;
  unmarshal = λ b. (of_method b, none);
  IsPlain = λ m. of_method m.method ≡ m;
  encode_plain = λ m p. (m.method, refl);
  unmarshal-encode = of_method-unmarshal;
}

-- A writer that takes everything.
abbrev pub append_write : Write Bytes (Unit {0})
append_write st p = (st ++ p, length p, none)

take-length : (p : Bytes) → take (length p) p ≡ p
take-length [] = refl
take-length (x ∷ p) = rw (take-length p)

pub append_write-IsWriter : IsWriter append_write (λ st. st)
append_write-IsWriter = record {
  appends = λ st p. rw (take-length p);
  bounded = λ st p. omega arith;
  short_is_error = λ st p h. refl;
}

abbrev two_messages : List Message
two_messages = of_method (codes "ping") ∷ of_method (codes "pong!") ∷ []

split_two : split_json (codes "4,ping5,pong!") false ≡ token 6 (codes "ping")
unfolding split_json find_submatch split_body parse_int value is_digit is_space run is_empty
    closed_by_comma
split_two = refl

split_spaced : split_json (codes " 4,ping5") false ≡ token 7 (codes "ping")
unfolding split_json find_submatch split_body parse_int value is_digit is_space run is_empty
    closed_by_comma
split_spaced = refl

split_json_sound_example : IsFrame (codes " 4,ping5") (codes "ping") 7
split_json_sound_example = split_json_sound (codes " 4,ping5") false split_spaced

write_ctx_lem_example :
    (r : Bytes × Option (Unit {0})) × (write_ctx append_write [] (codes "ping") ≡ some r)
    × Wrote append_write append_write-IsWriter [] (frame (codes "ping")) r
write_ctx_lem_example = write_ctx_lem append_write append_write-IsWriter [] (codes "ping")

receive-send_all_example :
    (s' : Scanner) × (receive method_codec 2
        (open_scanner (codes "4,pi" ∷ codes "ng5,pong" ∷ codes "!" ∷ []))
      ≡ some (s', two_messages, none))
unfolding send_all write_ctx write_loop segment is_empty to_bin frame header format emit
receive-send_all_example =
    receive-send_all method_codec append_write append_write-IsWriter [] two_messages
      (codes "4,pi" ∷ codes "ng5,pong" ∷ codes "!" ∷ []) (refl, (refl, tt)) (omega arith) refl refl
      refl

read_ctx-truncated_example :
    (s' : Scanner) × (read_ctx method_codec
        (open_scanner (codes "4,p" ∷ []))
        (of_method (codes "old"))
      ≡ some (s', of_method (codes "old"), none))
unfolding frame header format emit
read_ctx-truncated_example =
    read_ctx-truncated method_codec (open_scanner (codes "4,p" ∷ [])) (of_method (codes "old"))
      (codes "ping") (codes "ing") (record { no_error = refl; not_done = refl }) (omega arith) refl
      (cons-ne-nil _ _)
