-- ===== src/Agent/Relay.antt =====
-- net-filter/ws-agent/ws-agent.go over net-filter/websocket-util/websocket-util.go: the frames that
-- arrive at one websocket, and the messages that a pipe writes to the other.
use fancy_go.Base.{
  ℕ, zero, suc, ◌+◌, ◌-◌, ◌<◌, ◌≡◌, refl, sym, ap, ◌∙◌, Bool, true, List, [], ◌∷◌, ◌++◌,
  append_assoc, append-nil, Option, none, some, arith, Bytes, length, Option-cases, inl, inr,
}
use fancy_go.ErrorCode.Types.{Errors, Err}
use fancy_go.Websocket.Frames.{
  receive_all, Arrival, Effects, FrameError, Received, waits, returns, receive_full_frame,
}
use fancy_go.Websocket.Frames.Whole.{
  Fragment, Fragments, Ping, receive_full_frame-last, receive_full_frame-Ping,
}
use fancy_go.Websocket.Frames
use fancy_go.Agent.Pipe.{Callback, Read, fails, message, panics, blocked, panicked, convert, pipe}

-- `data` of `ReceiveFullFrame`: appending nothing to a nil slice leaves it nil.
unfoldable pub slice_of : Bytes → Option Bytes
slice_of [] = none
slice_of (c ∷ s) = some (c ∷ s)

-- `to_err` is the error that a failure of the frames comes with, `write_pong` the method of the
-- connection.
module _ {lib : Errors} (to_err : FrameError → Err lib)
    (write_pong : Option (List Bytes → Bytes → Bool)) where
  -- `frameIo.ReadCtx`, called again and again, at most as often as the first argument says.
  unfoldable pub reads : ℕ → List Arrival → Effects → List (Read lib)
  unfolding receive_full_frame slice_of
  reads zero arrivals e = []
  reads (suc n) arrivals e = elim (receive_full_frame write_pong arrivals e).0 [
    | waits ↦ []
    | Frames.fails err ↦ fails (to_err err) ∷ []
    | Frames.panics ↦ panics ∷ []
    | returns t b rest ↦
        let more = reads n rest (receive_full_frame write_pong arrivals e).1 in
        message t (slice_of b) ∷ more
  ]

-- Frames that are whole messages, with pongs among them: the type and the data of each.
pub data Messages : List Arrival → List (ℕ × Bytes) → Type 0 where
  no_more : Messages [] []
  one_more :
      {front rest : List Arrival} {s seg : Bytes} {pongs : List Bytes} (last : Arrival) {t : ℕ}
      {ms : List (ℕ × Bytes)}
      → Fragments front s pongs
      → Fragment last true t seg
      → Messages rest ms
      → Messages (front ++ last ∷ rest) ((t, s ++ seg) ∷ ms)

-- The messages as the hook leaves them, without those that it drops.
unfoldable pub forwarded : Option Callback → List (ℕ × Bytes) → List (ℕ × Option Bytes)
unfolding convert slice_of
forwarded cb [] = []
forwarded cb ((t, b) ∷ ms) = elim (convert cb t (slice_of b)) [
  | none ↦ forwarded cb ms
  | some m ↦ m ∷ forwarded cb ms
]

abbrev all_messages : {lib : Errors} → List (ℕ × Bytes) → List (Read lib)
all_messages [] = []
all_messages ((t, b) ∷ ms) = message t (slice_of b) ∷ all_messages ms

module _ {lib : Errors} (to_err : FrameError → Err lib) where
  -- The reads of whole messages, and where they go on.
  reads-Messages :
      (write_pong : Option (List Bytes → Bytes → Bool)) {arrivals : List Arrival}
      {ms : List (ℕ × Bytes)}
      → Messages arrivals ms
      → (k : ℕ) (tail : List Arrival) (e : Effects)
      → (e' : Effects) × (reads to_err write_pong (length ms + k) (arrivals ++ tail) e
          ≡ all_messages ms ++ reads to_err write_pong k tail e')
  unfolding reads
  reads-Messages write_pong no_more k tail e =
      (e, ap (λ j. reads to_err write_pong j tail e) (omega arith))
  reads-Messages write_pong
        (one_more {front = front} {rest = rest} {s = s} {seg = seg} last {t = t} {ms = ms} f g m) k
        tail e =
      let (value, _, _) = receive_full_frame-last write_pong f last t seg (rest ++ tail) e g in
      let (e', more) =
        reads-Messages write_pong m k tail
          (receive_full_frame write_pong (front ++ last ∷ rest ++ tail) e).1 in
      let step : suc (length ms) + k ≡ suc (length ms + k) = omega arith in
      (
        e',
        ap (λ j. reads to_err write_pong j (front ++ last ∷ rest ++ tail) e) step
            ∙ ground (arith, value, more, append_assoc front (last ∷ rest) tail),
      )

  -- A destination that accepts every message.
  pipe-all_messages :
      (cb : Option Callback) (ms : List (ℕ × Bytes)) (rs : List (Read lib))
      (sent : List (ℕ × Option Bytes))
      → pipe cb (λ before m. none) (all_messages {lib = lib} ms ++ rs) sent
        ≡ pipe cb (λ before m. none) rs (sent ++ forwarded cb ms)
  unfolding pipe forwarded
  pipe-all_messages cb [] rs sent =
      ap (λ (l : List (ℕ × Option Bytes)). pipe cb (λ before m. none) rs l) (sym (append-nil sent))
  pipe-all_messages cb ((t, b) ∷ ms) rs sent = elim (Option-cases (convert cb t (slice_of b))) [
    | inl dropped ↦ ground (arith, dropped, pipe-all_messages cb ms rs sent)
    | inr (m, kept) ↦ ground (
      arith,
      kept,
      pipe-all_messages cb ms rs (sent ++ m ∷ []),
      append_assoc sent (m ∷ []) (forwarded cb ms),
    )
  ]

  no_reads :
      (write_pong : Option (List Bytes → Bytes → Bool)) (n : ℕ) (e : Effects)
      → reads to_err write_pong n [] e ≡ []
  unfolding reads receive_full_frame receive_all
  no_reads write_pong zero e = refl
  no_reads write_pong (suc n) e = refl

  reads-Ping :
      {front : List Arrival} {s : Bytes} {pongs : List Bytes}
      → Fragments front s pongs
      → (ping : Arrival) (b : Bytes) (rest : List Arrival) → Ping ping b
      → (n : ℕ) (e : Effects) → reads to_err none (suc n) (front ++ ping ∷ rest) e ≡ panics ∷ []
  unfolding reads
  reads-Ping f ping b rest p n e = ground (arith, receive_full_frame-Ping f ping b rest e p)

  -- What a pipe does with whole messages and the reads after them.
  after_messages :
      (cb : Option Callback) (ms : List (ℕ × Bytes)) (end got : List (Read lib))
      → got ≡ all_messages ms ++ end
      → pipe cb (λ before m. none) got [] ≡ pipe cb (λ before m. none) end (forwarded cb ms)
  after_messages cb ms end got h =
      ap (λ (rs : List (Read lib)). pipe cb (λ before m. none) rs []) h
      ∙ pipe-all_messages cb ms end []

  -- If the frames that arrive at one websocket are whole messages one after the other, each as a
  -- sequence of fragments with any pongs that are consumed before its last, and no error occurs,
  -- then a pipe to a destination that accepts everything writes exactly these messages, each with
  -- the type of its last frame and with the concatenation of its data, in order and as the hook
  -- leaves them without those that it drops, and then waits; and if any fragments of another
  -- message and a ping follow, and the connection has no method WritePong, it writes the same
  -- messages and then panics. In both cases ReadCtx may be called any number of times greater
  -- than that of the messages.
  pub pipe-reads :
      (write_pong : Option (List Bytes → Bytes → Bool)) {arrivals : List Arrival}
      {ms : List (ℕ × Bytes)}
      → Messages arrivals ms
      → {front : List Arrival} {s : Bytes} {pongs : List Bytes} → Fragments front s pongs
      → (ping : Arrival) (b : Bytes) (rest : List Arrival) → Ping ping b
      → (cb : Option Callback) (e : Effects) (n : ℕ) → length ms < n
      → (pipe cb (λ before m. none) (reads to_err write_pong n arrivals e) []
          ≡ (blocked, forwarded cb ms))
        × (pipe cb
              (λ before m. none)
              (reads to_err none n (arrivals ++ (front ++ ping ∷ rest)) e)
              []
            ≡ (panicked, forwarded cb ms))
  unfolding pipe
  pipe-reads write_pong {arrivals = arrivals} {ms = ms} m {front = front} f ping b rest p cb e n h =
      let k : ℕ = n - length ms - 1 in
      let enough : n ≡ length ms + suc k = omega (arith, h) in
      let (e1, all) = reads-Messages write_pong m (suc k) [] e in
      let (e2, all') = reads-Messages none m (suc k) (front ++ ping ∷ rest) e in
      (
        after_messages cb ms [] (reads to_err write_pong n arrivals e) (
            ground (
              arith,
              enough,
              all,
              append-nil arrivals,
              append-nil (all_messages {lib = lib} ms),
              no_reads write_pong (suc k) e1,
            )),
        after_messages cb ms (panics ∷ [])
            (reads to_err none n (arrivals ++ (front ++ ping ∷ rest)) e)
            (ap (λ j. reads to_err none j (arrivals ++ (front ++ ping ∷ rest)) e) enough
              ∙ (all'
                  ∙ ap (λ (l : List (Read lib)). all_messages ms ++ l)
                      (reads-Ping f ping b rest p k e2))),
      )
