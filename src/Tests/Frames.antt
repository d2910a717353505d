-- ===== src/Tests/Frames.antt =====
-- net-filter/websocket-util/websocket-util.go at concrete frames.
use fancy_go.Base.{
  arith, Option, List, ℕ, ◌≡◌, refl, false, [], ◌∷◌, ◌++◌, none, some, Bytes, codes,
}
use fancy_go.Agent.Pipe.{Callback, blocked, panicked, pipe}
use fancy_go.Agent.Relay.{reads, Messages, no_more, one_more, forwarded, pipe-reads}
use fancy_go.Tests.Errors.{plain_errors, timeout}
use fancy_go.Websocket.Frames.{
  consumed, passed, pong_frame, Arrival, panics, returns, no_effects, fin_of, is_control,
  ping_frame, receive_full_frame,
}
use fancy_go.Websocket.Frames.Whole.{
  Fragments, finished, pong, fragment, calls, receive_full_frame-Fragments,
}

abbrev data_frame : ℕ → Bytes → Arrival
data_frame header seg = record {
  ctx_done = false;
  read_failed = false;
  header = some header;
  payload_type = 1;
  control = none;
  handled = passed 1 (some seg);
}

abbrev ping : Bytes → Arrival
ping b = record {
  ctx_done = false;
  read_failed = false;
  header = some 137;
  payload_type = ping_frame;
  control = some b;
  handled = consumed;
}

abbrev pong_of : Bytes → Arrival
pong_of b = record (ping b) { header = some 138; payload_type = pong_frame }

-- A fragment and a pong before the last fragment.
abbrev before_last :
    Fragments (data_frame 1 (codes "ab") ∷ pong_of (codes "p") ∷ []) (codes "ab") (codes "p" ∷ [])
unfolding is_control fin_of
before_last =
    fragment {t = 1} {seg = codes "ab"} ((refl, refl), refl, (1, refl, refl), refl) refl
      (pong {b = codes "p"} ((refl, refl), refl, refl, refl) finished)

receive_full_frame-Fragments_example :
    let front = data_frame 1 (codes "ab") ∷ pong_of (codes "p") ∷ [] in
    let rest = ping [] ∷ [] in
    let r = receive_full_frame none (front ++ data_frame 129 (codes "c") ∷ rest) no_effects in
    (r.0 ≡ returns 1 (codes "ab" ++ codes "c") rest)
    × (r.1.pongs ≡ [])
    × (r.1.callbacks ≡ [] ++ calls (codes "p" ∷ []))
    × ((receive_full_frame none (front ++ ping (codes "q") ∷ rest) no_effects).0 ≡ panics)
unfolding is_control fin_of
receive_full_frame-Fragments_example =
    receive_full_frame-Fragments none before_last (data_frame 129 (codes "c")) 1 (codes "c")
      (ping (codes "q")) (codes "q") (ping [] ∷ []) no_effects
      ((refl, refl), refl, (129, refl, refl), refl) ((refl, refl), refl, refl)

-- A message of two fragments with a pong between them, and an empty one.
abbrev two_messages : List Arrival
two_messages =
    (data_frame 1 (codes "ab") ∷ pong_of (codes "p") ∷ [])
    ++ data_frame 129 (codes "c") ∷ data_frame 129 [] ∷ []

abbrev are_messages : Messages two_messages ((1, codes "ab" ++ codes "c") ∷ (1, []) ∷ [])
unfolding is_control fin_of
are_messages =
    one_more (data_frame 129 (codes "c")) {t = 1} before_last
      ((refl, refl), refl, (129, refl, refl), refl)
      (one_more (data_frame 129 []) {t = 1} finished ((refl, refl), refl, (129, refl, refl), refl)
        no_more)

abbrev no_change : Option Callback
no_change = some (λ event. event)

pipe-reads_example :
    let front = data_frame 1 (codes "ab") ∷ pong_of (codes "p") ∷ [] in
    let written = forwarded no_change ((1, codes "ab" ++ codes "c") ∷ (1, []) ∷ []) in
    (pipe no_change
        (λ before m. none)
        (reads {lib = plain_errors} (λ err. timeout) none 5 two_messages no_effects)
        []
      ≡ (blocked, written))
    × (pipe no_change
          (λ before m. none)
          (reads {lib = plain_errors}
            (λ err. timeout)
            none
            5
            (two_messages ++ (front ++ ping [] ∷ data_frame 129 [] ∷ []))
            no_effects)
          []
        ≡ (panicked, written))
pipe-reads_example =
    pipe-reads (λ err. timeout) none are_messages before_last (ping []) [] (data_frame 129 [] ∷ [])
      ((refl, refl), refl, refl) no_change no_effects 5 (omega arith)
