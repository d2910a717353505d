-- ===== src/Tests/Websocket.antt =====
-- net-filter/json-rpc/json-msg-ws.go at concrete inputs.
use fancy_go.Base.{◌≡◌, refl, List, [], ◌∷◌, ◌++◌, Option, none, some, Bytes, codes, eq_bytes}
use fancy_go.Base.Strings.{is_nil}
use fancy_go.Message.{Message, empty_message}
use fancy_go.Websocket.Demux.{server, client, open_conn, turns, got, held, messages, turns_split}
use fancy_go.Websocket.Handshake.{
  check_origin, choose_protocol, contains, handshake, IsFirst, handshake_protocol,
}

abbrev request : Message
request = record { id = 1; method = codes "m"; params = []; result = []; error = none }

abbrev notification : Message
notification = record { id = 0; method = codes "n"; params = []; result = []; error = none }

-- A request, a text that is not JSON, a notification, and a message that is neither.
abbrev frames : List (Option Message)
frames = some request ∷ none ∷ some notification ∷ some empty_message ∷ []

turns_split_example :
    let c = turns (server ∷ client ∷ client ∷ server ∷ []) (open_conn frames) in
    got server c ++ (held server c ++ messages server c.frames) ≡ messages server frames
turns_split_example = turns_split server (server ∷ client ∷ client ∷ server ∷ []) frames

agreed :
    handshake (λ s. some s) none [] (codes "b" ∷ codes "a" ∷ []) [] (codes "x" ∷ codes "a" ∷ [])
    ≡ (codes "a" ∷ [], none)
unfolding handshake check_origin choose_protocol contains eq_bytes is_nil
agreed = refl

handshake_protocol_example :
    (p : Bytes) × (codes "a" ∷ [] ≡ p ∷ [])
    × (check_origin (λ s. some s) [] [] ≡ none)
    × IsFirst (codes "x" ∷ codes "a" ∷ []) (codes "b" ∷ codes "a" ∷ []) p
handshake_protocol_example =
    handshake_protocol (λ s. some s) [] (codes "b") (codes "a" ∷ []) [] (codes "x" ∷ codes "a" ∷ [])
      (codes "a" ∷ []) agreed
