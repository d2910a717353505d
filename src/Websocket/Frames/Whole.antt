-- ===== src/Websocket/Frames/Whole.antt =====
-- A message in fragments, with pongs among them, is received whole; a ping among them panics.
use fancy_go.Base.{
  ℕ, ◌≡◌, Bool, true, false, List, [], ◌∷◌, ◌++◌, map, append_assoc, append-nil, Option, none, some,
  arith, Bytes,
}
use fancy_go.Websocket.Frames.{
  ping_frame, pong_frame, consumed, passed, Arrival, Effects, again, segment, panic, fin_of,
  is_control, answer_control, receive_pass, panics, returns, receive_all, receive_full_frame,
}

-- A frame that the library reads without an error, before the context is done.
abbrev pub Fine : Arrival → Type 0
Fine a = (a.ctx_done ≡ false) × (a.read_failed ≡ false)

-- A pong that can be read and that `HandleFrame` consumes.
abbrev pub Pong : Arrival → Bytes → Type 0
Pong a b = Fine a × (a.payload_type ≡ pong_frame) × (a.control ≡ some b) × (a.handled ≡ consumed)

-- A ping that can be read.
abbrev pub Ping : Arrival → Bytes → Type 0
Ping a b = Fine a × (a.payload_type ≡ ping_frame) × (a.control ≡ some b)

-- A data frame with its segment, the last of its message or not.
abbrev pub Fragment : Arrival → Bool → ℕ → Bytes → Type 0
Fragment a last t seg =
    Fine a
    × (is_control a ≡ false)
    × ((h : ℕ) × (a.header ≡ some h) × (fin_of false (some h) ≡ last))
    × (a.handled ≡ passed t (some seg))

-- Frames of one message before its last, in order, with pongs among them: the data and the pongs.
pub data Fragments : List Arrival → Bytes → List Bytes → Type 0 where
  finished : Fragments [] [] []
  pong :
      {a : Arrival} {b s : Bytes} {more : List Arrival} {pongs : List Bytes}
      → Pong a b
      → Fragments more s pongs
      → Fragments (a ∷ more) s (b ∷ pongs)
  fragment :
      {a : Arrival} {t : ℕ} {seg s s' : Bytes} {more : List Arrival} {pongs : List Bytes}
      → Fragment a false t seg
      → s' ≡ seg ++ s
      → Fragments more s pongs
      → Fragments (a ∷ more) s' pongs

-- What the callback is given of the pongs.
abbrev pub calls : List Bytes → List (ℕ × Bytes)
calls = map (λ b. (pong_frame, b))

module _ (write_pong : Option (List Bytes → Bytes → Bool)) where
  Pong-pass :
      (a : Arrival) (b : Bytes) (fin : Bool) (e : Effects)
      → Pong a b
      → ((receive_pass write_pong a fin e).0 ≡ again (fin_of fin a.header))
        × ((receive_pass write_pong a fin e).1.pongs ≡ e.pongs)
        × ((receive_pass write_pong a fin e).1.callbacks ≡ e.callbacks ++ calls (b ∷ []))
  unfolding receive_pass is_control answer_control
  Pong-pass a b fin e (fine, is_pong, control, handled) =
      ground (arith, fine, is_pong, control, handled)

  Fragment-pass :
      (a : Arrival) (last fin : Bool) (t : ℕ) (seg : Bytes) (e : Effects)
      → Fragment a last t seg
      → ((receive_pass write_pong a fin e).0 ≡ segment t last seg)
        × ((receive_pass write_pong a fin e).1 ≡ e)
  unfolding receive_pass
  Fragment-pass a last fin t seg e h = ground (arith, h.2)

  -- The loop over frames of a message that has begun: what it has gathered, and where it goes on.
  receive_all-Fragments :
      {front : List Arrival} {s : Bytes} {pongs : List Bytes}
      → Fragments front s pongs
      → (gathered : Bytes) (fin : Bool) (more : List Arrival) (e : Effects)
      → (fin' : Bool) × (e' : Effects) × (receive_all write_pong gathered fin (front ++ more) e
          ≡ receive_all write_pong (gathered ++ s) fin' more e')
        × (e'.pongs ≡ e.pongs)
        × (e'.callbacks ≡ e.callbacks ++ calls pongs)
  unfolding receive_all
  receive_all-Fragments finished gathered fin more e = (
    fin,
    e,
    ground (arith, append-nil gathered),
    ground arith,
    ground (arith, append-nil e.callbacks),
  )
  receive_all-Fragments (pong {a = a} {b = b} {s = s} {more = rest} {pongs = pongs} c f) gathered
        fin more e =
      let (again', same, called) = Pong-pass a b fin e c in
      let (fin', e', value, unwritten, later) =
        receive_all-Fragments f gathered (fin_of fin a.header) more
          (receive_pass write_pong a fin e).1 in
      (
        fin',
        e',
        ground (arith, again', value),
        ground (arith, unwritten, same),
        ground (arith, later, called, append_assoc e.callbacks (calls (b ∷ [])) (calls pongs)),
      )
  receive_all-Fragments (fragment {a = a} {t = u} {seg = seg} {s = s} {s' = s'} g p f) gathered fin
        more e =
      let (segment', same) = Fragment-pass a false fin u seg e g in
      let (fin', e', value, unwritten, later) =
        receive_all-Fragments f (gathered ++ seg) false more (receive_pass write_pong a fin e).1 in
      (
        fin',
        e',
        ground (arith, segment', value, p, append_assoc gathered seg s),
        ground (arith, unwritten, same),
        ground (arith, later, same),
      )

Ping-pass :
    (a : Arrival) (b : Bytes) (fin : Bool) (e : Effects)
    → Ping a b
    → (receive_pass none a fin e).0 ≡ panic
unfolding receive_pass is_control answer_control
Ping-pass a b fin e (fine, is_ping, control) = ground (arith, fine, is_ping, control)

pub receive_full_frame-last :
    (write_pong : Option (List Bytes → Bytes → Bool)) {front : List Arrival} {s : Bytes}
    {pongs : List Bytes}
    → Fragments front s pongs
    → (last : Arrival) (t : ℕ) (seg : Bytes) (rest : List Arrival) (e : Effects)
    → Fragment last true t seg
    → let r = receive_full_frame write_pong (front ++ last ∷ rest) e in
      (r.0 ≡ returns t (s ++ seg) rest)
      × (r.1.pongs ≡ e.pongs)
      × (r.1.callbacks ≡ e.callbacks ++ calls pongs)
unfolding receive_full_frame receive_all
receive_full_frame-last write_pong f last t seg rest e h =
    let (fin, e', whole, unwritten, called) =
      receive_all-Fragments write_pong f [] false (last ∷ rest) e in
    let pass = Fragment-pass write_pong last true fin t seg e' h in
    (
      ground (arith, whole, pass),
      ground (arith, whole, pass, unwritten),
      ground (arith, whole, pass, called),
    )

pub receive_full_frame-Ping :
    {front : List Arrival} {s : Bytes} {pongs : List Bytes}
    → Fragments front s pongs
    → (ping : Arrival) (b : Bytes) (rest : List Arrival) (e : Effects) → Ping ping b
    → (receive_full_frame none (front ++ ping ∷ rest) e).0 ≡ panics
unfolding receive_full_frame receive_all
receive_full_frame-Ping f ping b rest e p =
    let (fin, e', before, _, _) = receive_all-Fragments none f [] false (ping ∷ rest) e in
    ground (arith, before, Ping-pass ping b fin e' p)

-- If the frames that arrive begin with those of one message in order, without the final bit, with
-- any pongs that are consumed among them, and no error occurs, then: if its last frame follows,
-- with the final bit, ReceiveFullFrame returns the type of that frame and the concatenation of
-- all data, takes no frame more, writes no pong and gives exactly the pongs to the callback, in
-- order, each with its data, whatever method WritePong the connection has; and if a ping follows
-- instead and the connection has no method WritePong, it panics.
pub receive_full_frame-Fragments :
    (write_pong : Option (List Bytes → Bytes → Bool)) {front : List Arrival} {s : Bytes}
    {pongs : List Bytes}
    → Fragments front s pongs
    → (last : Arrival) (t : ℕ) (seg : Bytes) (ping : Arrival) (b : Bytes) (rest : List Arrival)
      (e : Effects)
    → Fragment last true t seg
    → Ping ping b
    → let r = receive_full_frame write_pong (front ++ last ∷ rest) e in
      (r.0 ≡ returns t (s ++ seg) rest)
      × (r.1.pongs ≡ e.pongs)
      × (r.1.callbacks ≡ e.callbacks ++ calls pongs)
      × ((receive_full_frame none (front ++ ping ∷ rest) e).0 ≡ panics)
receive_full_frame-Fragments write_pong f last t seg ping b rest e h p =
    let (whole, unwritten, called) = receive_full_frame-last write_pong f last t seg rest e h in
    (whole, unwritten, called, receive_full_frame-Ping f ping b rest e p)
