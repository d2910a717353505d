-- ===== src/Tests/Channels.antt =====
-- The channels of one websocket connection at concrete messages.
use fancy_go.Base.{
  ◌≡◌, ◌⊎◌, refl, ap, sym, inr, true, List, [], ◌∷◌, ◌++◌, Option, none, some, map, arith, Bytes,
  codes, length, ltb, if◌then◌else◌,
}
use fancy_go.Message.{Message, empty_message}
use fancy_go.Websocket.Demux.{server, open_conn, turns, got, messages, alternate}
use fancy_go.Websocket.Channel.{WsJson, WsConn, new_ws_conn, write_all, closed, write_all-turns}

-- Messages that are no more than a number and a method, and a connection that breaks after one frame.
abbrev print_message : Message → Bytes ⊎ Bytes
print_message m = inr (m.id ∷ m.method)

abbrev read_message : Bytes → Option Message
read_message [] = none
read_message (n ∷ s) = some (record empty_message { id = n; method = s })

abbrev plain_json : WsJson Bytes
plain_json = record {
  marshal = print_message;
  read = read_message;
  IsPlain = λ m. (m ≡ record empty_message { id = m.id; method = m.method });
  read-marshal = λ m plain. (m.id ∷ m.method, refl, ap (λ (x : Message). some x) (sym plain));
}

abbrev one_frame : WsConn → Bytes → Option Bytes
one_frame c b =
    if c.conn_closed
    then some (codes "closed")
    else if ltb 0 (length c.written)
    then some (codes "broken")
    else none

one_frame_refuses :
    (c : WsConn) (b : Bytes) → c.conn_closed ≡ true → (e : Bytes) × (one_frame c b ≡ some e)
one_frame_refuses c b h = (codes "closed", ground (arith, h))

abbrev two_requests : List Message
two_requests =
    (record empty_message { id = 1; method = codes "a" })
    ∷ (record empty_message { id = 2; method = codes "b" })
    ∷ []

write_all-turns_example :
    let d = write_all plain_json one_frame two_requests new_ws_conn in
    (front back : List Message) × (two_requests ≡ front ++ back)
    × (got server (turns (alternate 4) (open_conn (map read_message d.written)))
        ≡ messages server (map (λ m. some m) front))
    × ((back ≡ []) ⊎ (closed d ≡ true))
write_all-turns_example =
    write_all-turns plain_json one_frame one_frame_refuses two_requests server 4 (refl, (refl, tt))
      (omega arith)
