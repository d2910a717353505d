-- ===== src/Websocket/Channel.antt =====
-- net-filter/json-rpc/json-msg-ws.go: `wsChannel`, its writes and its end, and what the readers at
-- the other end of the connection get.
use fancy_go.Base.{
  ℕ, ◌*◌, ◌≤◌, ◌≡◌, refl, sym, ap, subst, ◌∙◌, Bool, true, false, ◌⊎◌, inl, inr, List, [], ◌∷◌,
  ◌++◌, append_assoc, append-nil, map, Option, none, some, arith, Bytes, All, length, length-append,
  length-map, Option-cases,
}
use mathlib.Core.List.{map-append}
use fancy_go.Message.{Message}
use fancy_go.Websocket.Demux.{Role, open_conn, turns, got, messages, alternate, alternate_delivers}

-- encoding/json as the channel uses it: json.Marshal, and what json.Unmarshal reads of a frame, `none`
-- for an error. The round trip is for messages whose raw parts are compact JSON without the
-- characters that json.Marshal escapes for HTML.
pub record WsJson (E : Type 0) : Type 1 where
  pub marshal : Message → E ⊎ Bytes
  pub read : Bytes → Option Message
  pub IsPlain : Message → Type 0
  pub read-marshal :
      (m : Message) → IsPlain m → (b : Bytes) × (marshal m ≡ inr b) × (read b ≡ some m)

-- The connection that both channels share: whether the context is cancelled and the connection
-- closed, and the frames that have been written.
pub record WsConn : Type 0 where
  pub cancelled : Bool
  pub conn_closed : Bool
  pub written : List Bytes

abbrev pub new_ws_conn : WsConn
new_ws_conn = record { cancelled = false; conn_closed = false; written = [] }

unfoldable pub close_fn : WsConn → WsConn
close_fn c = record c { cancelled = true; conn_closed = true }

unfoldable pub closed : WsConn → Bool
closed c = c.cancelled

-- `conn_write` is `conn.Write`: its error, or none.
module _ {E : Type 0} (json : WsJson E) (conn_write : WsConn → Bytes → Option E) where
  open json use {marshal, read, IsPlain}

  unfoldable pub write_bin : Bytes → WsConn → Option E × WsConn
  unfolding close_fn
  write_bin bin c = elim (conn_write c bin) [
    | some e ↦ (some e, close_fn c)
    | none ↦ (none, record c { written = c.written ++ bin ∷ [] })
  ]

  unfoldable pub write_ctx : Message → WsConn → Option E × WsConn
  unfolding write_bin
  write_ctx msg c = elim (marshal msg) [ inl e ↦ (some e, c) | inr bin ↦ write_bin bin c ]

  -- Messages that are written one after the other, whatever becomes of each.
  unfoldable pub write_all : List Message → WsConn → WsConn
  unfolding write_ctx
  write_all [] c = c
  write_all (m ∷ ms) c = write_all ms (write_ctx m c).1

  module _
      (refuses : (c : WsConn) (b : Bytes)
        → c.conn_closed ≡ true
        → (e : E) × (conn_write c b ≡ some e)) where
    -- A closed connection stays as it is.
    write_all-closed :
        (ms : List Message) (c : WsConn)
        → All IsPlain ms
        → c.conn_closed ≡ true
        → c.cancelled ≡ true
        → write_all ms c ≡ c
    unfolding write_all
    write_all-closed [] c plain h g = refl
    write_all-closed (m ∷ ms) c plain h g =
        let (b, made, back) = json.read-marshal m plain.0 in
        let (e, refused) = refuses c b h in
        ap (write_all ms) (ground (arith, made, refused, h, g)) ∙ write_all-closed ms c plain.1 h g

    -- What has been written are the first messages, all of them unless the channel is closed.
    pub Delivered : List Message → WsConn → WsConn → Type 0
    Delivered ms c d =
        (front back : List Message) × (ms ≡ front ++ back)
        × (map read d.written ≡ map read c.written ++ map some front)
        × ((back ≡ []) ⊎ (closed d ≡ true))

    write_ctx-refused :
        (m : Message) (b : Bytes) (e : E) (c : WsConn)
        → marshal m ≡ inr b
        → conn_write c b ≡ some e
        → (write_ctx m c).1 ≡ close_fn c
    unfolding write_ctx
    write_ctx-refused m b e c made refused = ground (arith, made, refused)

    write_ctx-accepted :
        (m : Message) (b : Bytes) (c : WsConn)
        → marshal m ≡ inr b
        → conn_write c b ≡ none
        → (write_ctx m c).1 ≡ record c { written = c.written ++ b ∷ [] }
    unfolding write_ctx
    write_ctx-accepted m b c made fine = ground (arith, made, fine)

    Delivered-cons :
        (m : Message) (ms : List Message) (b : Bytes) (c d : WsConn)
        → read b ≡ some m
        → Delivered ms (record c { written = c.written ++ b ∷ [] }) d
        → Delivered (m ∷ ms) c d
    unfolding Delivered
    Delivered-cons m ms b c d back (front, rest, parts, frames, why) = (
      m ∷ front,
      rest,
      ap (λ (l : List Message). m ∷ l) parts,
      frames
          ∙ (ap (λ (l : List (Option Message)). l ++ map (λ x. some x) front)
                (map-append read c.written (b ∷ [])
                  ∙ ap (λ (o : Option Message). map read c.written ++ o ∷ []) back)
              ∙ append_assoc (map read c.written) (some m ∷ []) (map (λ x. some x) front)),
      why,
    )

    pub write_all-prefix :
        (ms : List Message) (c : WsConn) → All IsPlain ms → Delivered ms c (write_all ms c)
    unfolding write_all closed Delivered close_fn
    write_all-prefix [] c plain = ([], [], refl, sym (append-nil (map read c.written)), inl refl)
    write_all-prefix (m ∷ ms) c plain =
        let (b, made, back) = json.read-marshal m plain.0 in
        elim (Option-cases (conn_write c b)) [
          | inr (e, refused) ↦
              subst (Delivered (m ∷ ms) c)
                (sym (
                  ap (write_all ms) (write_ctx-refused m b e c made refused)
                  ∙ write_all-closed ms (close_fn c) plain.1 refl refl))
                ([], m ∷ ms, refl, sym (append-nil (map read c.written)), inr refl)
          | inl fine ↦ Delivered-cons m ms b c (write_all ms (write_ctx m c).1) back (
              subst (λ (d : WsConn). Delivered ms d (write_all ms (write_ctx m c).1))
                (write_ctx-accepted m b c made fine)
                (write_all-prefix ms (write_ctx m c).1 plain.1))
        ]

    -- Messages that encoding/json reads back are written by WriteCtx to a new connection one
    -- after the other, whichever writes fail, where a closed connection refuses every write. If
    -- the two readers of the other end take turns, at least twice as many each as there are
    -- messages, then each has returned exactly the messages of its role, in order, among the
    -- first of those messages: all of them, unless the channel is closed.
    pub write_all-turns :
        (ms : List Message) (role : Role) (n : ℕ)
        → All IsPlain ms
        → 2 * length ms ≤ n
        → let d = write_all ms new_ws_conn in
          (front back : List Message) × (ms ≡ front ++ back)
          × (got role (turns (alternate n) (open_conn (map read d.written)))
              ≡ messages role (map some front))
          × ((back ≡ []) ⊎ (closed d ≡ true))
    unfolding Delivered
    write_all-turns ms role n plain h =
        let (front, back, parts, frames, why) = write_all-prefix ms new_ws_conn plain in
        (
          front,
          back,
          parts,
          ap (λ (l : List (Option Message)). got role (turns (alternate n) (open_conn l))) frames
              ∙ alternate_delivers role (map some front) n (
                  omega (
                    arith,
                    h,
                    ap length parts,
                    length-append front back,
                    length-map (λ (m : Message). some m) front,
                  )),
          why,
        )
