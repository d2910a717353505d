-- ===== src/Websocket/Demux.antt =====
-- The message that two readers share: `readToLastMsgLocked` and `readFn`.
use fancy_go.Base.{
  ℕ, zero, suc, ◌+◌, ◌*◌, ◌≤◌, ◌-◌, ◌≡◌, refl, List, [], ◌∷◌, ◌++◌, Option, none, some, arith, ltb,
  if◌then◌else◌, append_assoc, append-nil, ap, sym, ◌∙◌, length,
}
use fancy_go.Base.Strings.{is_nil}
use fancy_go.Message.{Message}

pub data Role : Type 0 where
  server : Role
  client : Role

-- Requests are for the server; answers and notifications are for the client. `none`: neither an id
-- nor a method.
unfoldable pub classify : Message → Option Role
classify m =
    if ltb 0 m.id
    then (if is_nil m.method then some client else some server)
    else if is_nil m.method
    then none
    else some client

-- `frames` is what json.Unmarshal makes of the frames that are still to be received, `none` where it
-- fails; `last` is `lastMessage` with its role, `none` for the role 0; the others are the messages
-- that the readers of the two channels have returned.
pub record Conn : Type 0 where
  pub frames : List (Option Message)
  pub last : Option (Role × Message)
  pub server_got : List Message
  pub client_got : List Message

-- `readToLastMsgLocked`, whose error leaves the role 0.
unfoldable pub read_to_last : Conn → Conn
unfolding classify
read_to_last c = elim c.frames [
  | [] ↦ c
  | f ∷ frames ↦ elim f [
    | none ↦ record c { frames = frames }
    | some m ↦ elim (classify m) [
      | none ↦ record c { frames = frames }
      | some r ↦ record c { frames = frames; last = some (r, m) }
    ]
  ]
]

-- A turn of the loop of `readFn` for a role: it takes the message, waits, or receives a frame. A call
-- that ends with an error is followed by the next.
unfoldable pub turn : Role → Conn → Conn
unfolding read_to_last
turn server c = elim c.last [
  | none ↦ read_to_last c
  | some (r, m) ↦ elim r [
    | server ↦ record c { last = none; server_got = c.server_got ++ m ∷ [] }
    | client ↦ c
  ]
]
turn client c = elim c.last [
  | none ↦ read_to_last c
  | some (r, m) ↦ elim r [
    | server ↦ c
    | client ↦ record c { last = none; client_got = c.client_got ++ m ∷ [] }
  ]
]

-- The turns of the two readers, in any order.
unfoldable pub turns : List Role → Conn → Conn
unfolding turn
turns [] c = c
turns (r ∷ rs) c = turns rs (turn r c)

abbrev pub open_conn : List (Option Message) → Conn
open_conn frames = record { frames = frames; last = none; server_got = []; client_got = [] }

-- The messages for a role, in the order of their frames.
unfoldable pub for_role : Role → Option Role → Message → List Message
for_role server (some server) m = m ∷ []
for_role client (some client) m = m ∷ []
for_role server (some client) m = []
for_role client (some server) m = []
for_role server none m = []
for_role client none m = []

unfoldable pub messages : Role → List (Option Message) → List Message
unfolding for_role
messages role [] = []
messages role (none ∷ frames) = messages role frames
messages role (some m ∷ frames) = for_role role (classify m) m ++ messages role frames

abbrev pub got : Role → Conn → List Message
got server c = c.server_got
got client c = c.client_got

unfoldable pub held : Role → Conn → List Message
unfolding for_role
held role c = elim c.last [ none ↦ [] | some (r, m) ↦ for_role role (some r) m ]

abbrev pub all_of : Role → Conn → List Message
all_of role c = got role c ++ (held role c ++ messages role c.frames)

abbrev free : List (Option Message) → List Message → List Message → Conn
free frames sg cg = record { frames = frames; last = none; server_got = sg; client_got = cg }

-- Receiving a frame moves its message from the frames to the shared place.
read_to_last-all_of :
    (role : Role) (frames : List (Option Message)) (sg cg : List Message)
    → all_of role (read_to_last (free frames sg cg)) ≡ all_of role (free frames sg cg)
unfolding read_to_last held messages for_role
read_to_last-all_of role [] sg cg = refl
read_to_last-all_of server (none ∷ frames) sg cg = refl
read_to_last-all_of client (none ∷ frames) sg cg = refl
read_to_last-all_of server (some m ∷ frames) sg cg = ground arith
read_to_last-all_of client (some m ∷ frames) sg cg = ground arith

-- A turn returns the shared message, or receives one, or changes nothing.
turn-all_of :
    (role r : Role) (frames : List (Option Message)) (last : Option (Role × Message))
    (sg cg : List Message)
    → let c : Conn = record { frames = frames; last = last; server_got = sg; client_got = cg } in
      all_of role (turn r c) ≡ all_of role c
unfolding turn held for_role
turn-all_of role server frames none sg cg = read_to_last-all_of role frames sg cg
turn-all_of role client frames none sg cg = read_to_last-all_of role frames sg cg
turn-all_of server server frames (some (server, m)) sg cg =
    append_assoc sg (m ∷ []) (messages server frames)
turn-all_of client server frames (some (server, m)) sg cg = refl
turn-all_of role server frames (some (client, m)) sg cg = refl
turn-all_of role client frames (some (server, m)) sg cg = refl
turn-all_of server client frames (some (client, m)) sg cg = refl
turn-all_of client client frames (some (client, m)) sg cg =
    append_assoc cg (m ∷ []) (messages client frames)

turns-all_of : (role : Role) (rs : List Role) (c : Conn) → all_of role (turns rs c) ≡ all_of role c
unfolding turns
turns-all_of role [] c = refl
turns-all_of role (r ∷ rs) c =
    turns-all_of role rs (turn r c) ∙ turn-all_of role r c.frames c.last c.server_got c.client_got

-- Whatever frames are received and whatever turns the readers of the server channel and of the
-- client channel take: for each of them, what it has returned, then the shared message if it is
-- of its role, then the messages of its role in the frames to come, are all messages of its role,
-- in the order of their frames.
pub turns_split :
    (role : Role) (rs : List Role) (frames : List (Option Message))
    → let c = turns rs (open_conn frames) in
      got role c ++ (held role c ++ messages role c.frames) ≡ messages role frames
unfolding held
turns_split server rs frames = turns-all_of server rs (open_conn frames)
turns_split client rs frames = turns-all_of client rs (open_conn frames)

-- The turns that are left to receive and return everything.
work : Conn → ℕ
work c = 2 * length c.frames + (elim c.last [ none ↦ 0 | some x ↦ 1 ])

-- The readers take turns, n times each.
pub alternate : ℕ → List Role
alternate zero = []
alternate (suc n) = server ∷ client ∷ alternate n

turn-work :
    (frames : List (Option Message)) (last : Option (Role × Message)) (sg cg : List Message)
    → let c : Conn = record { frames = frames; last = last; server_got = sg; client_got = cg } in
      work (turn client (turn server c)) ≤ work c - 1
unfolding turn read_to_last work
turn-work [] none sg cg = ground arith
turn-work (none ∷ []) none sg cg = ground arith
turn-work (some m ∷ []) none sg cg = ground arith
turn-work (none ∷ none ∷ frames) none sg cg = ground arith
turn-work (none ∷ some m ∷ frames) none sg cg = ground arith
turn-work (some m ∷ none ∷ frames) none sg cg = ground arith
turn-work (some m ∷ some n ∷ frames) none sg cg = ground arith
turn-work [] (some (server, m)) sg cg = ground arith
turn-work (none ∷ frames) (some (server, m)) sg cg = ground arith
turn-work (some n ∷ frames) (some (server, m)) sg cg = ground arith
turn-work frames (some (client, m)) sg cg = ground arith

alternate-work : (n : ℕ) (c : Conn) → work c ≤ n → work (turns (alternate n) c) ≡ 0
unfolding turns alternate
alternate-work zero c h = omega arith
alternate-work (suc n) c h =
    alternate-work n (turn client (turn server c))
      (omega (arith, turn-work c.frames c.last c.server_got c.client_got, h))

idle : (role : Role) (c : Conn) → work c ≡ 0 → held role c ++ messages role c.frames ≡ []
unfolding work held messages
idle role c h = nothing c.frames c.last h
  where
    nothing :
        (frames : List (Option Message)) (last : Option (Role × Message))
        → 2 * length frames + (elim last as (λ _. ℕ) [ none ↦ 0 | some x ↦ 1 ]) ≡ 0
        → (elim last as (λ _. List Message) [ none ↦ [] | some (r, m) ↦ for_role role (some r) m ])
            ++ messages role frames
          ≡ []
    nothing [] none h = refl
    nothing [] (some x) h = absurd (omega arith)
    nothing (f ∷ frames) last h = absurd (omega arith)

-- If the readers of the two channels take turns, at least twice as many each as there are frames,
-- then each has returned exactly the messages of its role, in the order of their frames.
pub alternate_delivers :
    (role : Role) (frames : List (Option Message)) (n : ℕ)
    → 2 * length frames ≤ n
    → got role (turns (alternate n) (open_conn frames)) ≡ messages role frames
unfolding work
alternate_delivers role frames n h =
    let c = turns (alternate n) (open_conn frames) in
    sym (append-nil (got role c))
    ∙ ap (λ (l : List Message). got role c ++ l)
        (sym (idle role c (alternate-work n (open_conn frames) (omega (arith, h)))))
    ∙ turns_split role (alternate n) frames
