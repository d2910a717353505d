-- ===== src/Websocket/Frames.antt =====
-- net-filter/websocket-util/websocket-util.go: whole messages out of the frames of a websocket.
pub mod Whole
use fancy_go.Base.{
  ℕ, ◌/◌, ◌%◌, ◌≡◌, Bool, true, false, not, ◌||◌, List, [], ◌∷◌, ◌++◌, append_assoc, append-nil,
  Option, none, some, arith, Bytes, ◌==◌, if◌then◌else◌,
}

-- The opcodes of golang.org/x/net/websocket.
abbrev pub ping_frame : ℕ
ping_frame = 9

abbrev pub pong_frame : ℕ
pong_frame = 10

-- What `HandleFrame` makes of a frame: an error, nothing, or a frame with its type and what
-- `io.ReadAll` reads of it, `none` for an error.
pub data Handled : Type 0 where
  handle_error : Handled
  consumed : Handled
  passed : ℕ → Option Bytes → Handled

-- A call of `NewFrameReader` and what the library does with its frame: whether the context is done
-- before it, whether it fails, the first byte of the header if there is a header, the type, what
-- `io.ReadFull` reads of a control frame into its 1024 bytes, `none` for an error other than its end,
-- and what `HandleFrame` returns.
pub record Arrival : Type 0 where
  pub ctx_done : Bool
  pub read_failed : Bool
  pub header : Option ℕ
  pub payload_type : ℕ
  pub control : Option Bytes
  pub handled : Handled

pub data FrameError : Type 0 where
  context_done : FrameError
  frame_error : FrameError
  ping_pong_error : FrameError
  pong_error : FrameError
  handler_error : FrameError
  data_error : FrameError

-- What has been written and called back on the way: the pongs, and the control frames.
pub record Effects : Type 0 where
  pub pongs : List Bytes
  pub callbacks : List (ℕ × Bytes)

abbrev pub no_effects : Effects
no_effects = record { pongs = []; callbacks = [] }

-- How a pass through `receiveFrame` ends: `goto again` with the value of `fin`, a segment with its
-- type and `fin`, an error, or a panic.
pub data Pass : Type 0 where
  again : Bool → Pass
  segment : ℕ → Bool → Bytes → Pass
  error : FrameError → Pass
  panic : Pass

unfoldable pub fin_of : Bool → Option ℕ → Bool
fin_of fin none = fin
fin_of fin (some h) = not ((h / 128) % 2 == 0)

unfoldable pub is_control : Arrival → Bool
is_control a = a.payload_type == ping_frame || a.payload_type == pong_frame

-- The end of a pass, from `HandleFrame` on.
unfoldable pub after_control : Bool → Handled → Pass
after_control fin handle_error = error handler_error
after_control fin consumed = again fin
after_control fin (passed t none) = error data_error
after_control fin (passed t (some data')) = segment t fin data'

-- What the part for control frames comes to: the effects, an error, or a panic.
pub data Answer : Type 0 where
  answered : Effects → Answer
  refused : FrameError → Answer
  no_method : Answer

-- What `ReceiveFullFramePingPongCb` comes to: it waits for frames, fails, panics, or returns a type
-- and a message, with the frames that are left.
pub data Received : Type 0 where
  waits : Received
  fails : FrameError → Received
  panics : Received
  returns : ℕ → Bytes → List Arrival → Received

-- `write_pong` is the method `WritePong` of the connection, which says, from the pongs written
-- before and the data, whether the write succeeds. It is `none` if `*websocket.Conn` has no such
-- method: then the type assertion on it panics.
module _ (write_pong : Option (List Bytes → Bytes → Bool)) where
  -- The part for control frames.
  unfoldable pub answer_control : Arrival → Effects → Answer
  answer_control a e = elim a.control [
    | none ↦ refused ping_pong_error
    | some b ↦
        if a.payload_type == ping_frame
        then elim write_pong [
          | none ↦ no_method
          | some write ↦
              if write e.pongs b
              then answered (record {
                pongs = e.pongs ++ b ∷ [];
                callbacks = e.callbacks ++ (a.payload_type, b) ∷ [];
              })
              else refused pong_error
        ]
        else answered (record e { callbacks = e.callbacks ++ (a.payload_type, b) ∷ [] })
  ]

  -- A pass through `receiveFrame`.
  unfoldable pub receive_pass : Arrival → Bool → Effects → Pass × Effects
  unfolding fin_of is_control after_control answer_control
  receive_pass a fin e =
      if a.ctx_done
      then (error context_done, e)
      else if a.read_failed
      then (error frame_error, e)
      else if is_control a
      then elim (answer_control a e) [
        | refused err ↦ (error err, e)
        | no_method ↦ (panic, e)
        | answered e' ↦ (after_control (fin_of fin a.header) a.handled, e')
      ]
      else (after_control (fin_of fin a.header) a.handled, e)

  -- `receive_all data fin` is the loop with what it has gathered, inside a call of `receiveFrame`
  -- whose variable `fin` has that value.
  unfoldable pub receive_all : Bytes → Bool → List Arrival → Effects → Received × Effects
  receive_all gathered fin [] e = (waits, e)
  receive_all gathered fin (a ∷ rest) e = elim (receive_pass a fin e).0 [
    | again fin' ↦ receive_all gathered fin' rest (receive_pass a fin e).1
    | error err ↦ (fails err, (receive_pass a fin e).1)
    | panic ↦ (panics, (receive_pass a fin e).1)
    | segment t fin' seg ↦ elim fin' [
      | true ↦ (returns t (gathered ++ seg) rest, (receive_pass a fin e).1)
      | false ↦ receive_all (gathered ++ seg) false rest (receive_pass a fin e).1
    ]
  ]

  -- `ReceiveFullFramePingPongCb`; `ReceiveFullFrame` has no callback, and else is the same.
  unfoldable pub receive_full_frame : List Arrival → Effects → Received × Effects
  receive_full_frame = receive_all [] false
