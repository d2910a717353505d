-- ===== src/Client/State.antt =====
-- `Cli`: what `Call`, at each of its steps, and the loop of `init` do to the shared state.
use fancy_go.Base.{
  set_at, ℕ, ◌+◌, ◌%◌, ◌^◌, Bool, true, false, List, [], ◌∷◌, Option, none, some, Bytes, codes,
  ◌==◌, if◌then◌else◌,
}
use fancy_go.Message.{Message, empty_message}
use fancy_go.ErrorCode.Types.{Errors, Err, leaf, pkg_wrap}
use fancy_go.ErrorCode.Wrap.{as_error, new_error}

-- Where the loop of `init` stands: its context is open; its context has been cancelled after its last
-- `select`; it has returned, which cancels the context as well.
pub data Loop : Type 0 where
  open_loop : Loop
  last_turn : Loop
  over : Loop

abbrev pub is_over : Loop → Bool
is_over over = true
is_over _ = false

-- The context is cancelled.
unfoldable pub cancel_loop : Loop → Loop
cancel_loop open_loop = last_turn
cancel_loop last_turn = last_turn
cancel_loop over = over

-- The `select` after a turn of the loop.
unfoldable pub after_turn : Loop → Loop
after_turn open_loop = open_loop
after_turn last_turn = over
after_turn over = over

-- What the variable of the loop holds after `ReadCtx`: the message that was read, or, where a framed
-- channel finds the end of its connection and no error, what it held before.
unfoldable pub received : Option Message → Message → Message
received none old = old
received (some m) old = m

module _ (lib : Errors) where
  -- `call.r`: absent, or the error of `json.Unmarshal` into it.
  abbrev pub Target : Type 0
  Target = Option (Bytes → Option (Err lib))

  -- What a call comes to: an error or nil.
  abbrev pub Outcome : Type 0
  Outcome = Option (Err lib)

  -- Where a call stands: it has no id yet, has one, is in the map and writes, waits, has returned.
  pub data Pc : Type 0 where
    absent : Pc
    numbered : ℕ → Target → Pc
    writing : ℕ → Target → Pc
    waiting : ℕ → Target → Pc
    returned : Outcome → Pc

  -- Calls are numbered from 1 in the order of their `AddUint64`; `started` is the last number.
  -- `inbox` is what the channel of a call, of capacity one, holds; `msg` is the loop's variable.
  pub record Cli : Type 0 where
    pub seq : ℕ
    pub call_map : ℕ → Option ℕ
    pub started : ℕ
    pub inbox : ℕ → Option Outcome
    pub pc : ℕ → Pc
    pub msg : Message
    pub events : List (Bytes × Bytes)

  -- Why a call gives up: its write failed, the broken signal came, or one of its contexts is done.
  pub data Cause : Type 0 where
    write_failed : Err lib → Cause
    broken : Cause
    context_done : Err lib → Cause

  -- The steps: a call gets its id; enters the map; has written; takes its result; gives up. And the
  -- loop reads a message, or finds the end.
  pub data Event : Type 0 where
    begin : Target → Event
    register : ℕ → Event
    written : ℕ → Event
    take_result : ℕ → Event
    give_up : ℕ → Cause → Event
    read : Option Message → Event

module _ {lib : Errors} (here : lib.Frame) where
  -- `NewCli`
  abbrev pub new_cli : Cli lib
  new_cli = record {
    seq = 0;
    call_map = λ id. none;
    started = 0;
    inbox = λ n. none;
    pc = λ n. absent;
    msg = empty_message;
    events = [];
  }

  -- The error that is sent to the channel of a call.
  unfoldable pub outcome : Target lib → Message → Outcome lib
  outcome target msg = elim msg.error [
    | some e ↦ some (as_error (new_error here e.code e.message))
    | none ↦ elim target [
      | none ↦ none
      | some reads ↦ elim (reads msg.result) [
        | none ↦ none
        | some e ↦ some (pkg_wrap e (codes "unmarshal result error"))
      ]
    ]
  ]

  unfoldable pub target_of : Pc lib → Target lib
  target_of absent = none
  target_of (numbered id r) = r
  target_of (writing id r) = r
  target_of (waiting id r) = r
  target_of (returned o) = none

  -- A turn of the loop of `init`, once its `ReadCtx` has returned no error. `none`: it blocks on a full channel for ever.
  unfoldable pub dispatch : Cli lib → Option Message → Option (Cli lib)
  unfolding outcome target_of
  dispatch s sent =
      let msg = received sent s.msg in
      if msg.id == 0
      then some (record s { msg = msg; events = (msg.method, msg.params) ∷ s.events })
      else elim (s.call_map msg.id) [
        | none ↦ some (record s { msg = msg })
        | some n ↦ elim (s.inbox n) [
          | some full ↦ none
          | none ↦ some (record s {
            msg = msg;
            call_map = set_at msg.id none s.call_map;
            inbox = set_at n (some (outcome (target_of (s.pc n)) msg)) s.inbox;
          })
        ]
      ]

  unfoldable pub cause_error : Cause lib → Err lib
  cause_error (write_failed e) = pkg_wrap e (codes "write message error")
  cause_error broken = leaf (lib.new (codes "channel broken while waiting for result"))
  cause_error (context_done e) = pkg_wrap e (codes "context done")

  unfoldable pub leave : Cli lib → ℕ → ℕ → Cause lib → Cli lib
  unfolding cause_error
  leave s n id cause = record s {
    call_map = set_at id none s.call_map;
    pc = set_at n (returned (some (cause_error cause))) s.pc;
  }

  -- `none` for a step that is not possible.
  unfoldable pub step : Cli lib → Event lib → Option (Cli lib)
  unfolding dispatch leave
  step s (begin target) =
      let id = (s.seq + 1) % 2 ^ 64 in
      some (record s {
        seq = id;
        started = s.started + 1;
        pc = set_at (s.started + 1) (numbered id target) s.pc;
      })
  step s (register n) = elim (s.pc n) [
    | absent ↦ none
    | numbered id r ↦
        some
          (record s { call_map = set_at id (some n) s.call_map; pc = set_at n (writing id r) s.pc })
    | writing id r ↦ none
    | waiting id r ↦ none
    | returned o ↦ none
  ]
  step s (written n) = elim (s.pc n) [
    | absent ↦ none
    | numbered id r ↦ none
    | writing id r ↦ some (record s { pc = set_at n (waiting id r) s.pc })
    | waiting id r ↦ none
    | returned o ↦ none
  ]
  step s (take_result n) = elim (s.pc n) [
    | absent ↦ none
    | numbered id r ↦ none
    | writing id r ↦ none
    | waiting id r ↦ elim (s.inbox n) [
      | none ↦ none
      | some o ↦ some (record s { inbox = set_at n none s.inbox; pc = set_at n (returned o) s.pc })
    ]
    | returned o ↦ none
  ]
  step s (give_up n cause) = elim (s.pc n) [
    | absent ↦ none
    | numbered id r ↦ none
    | writing id r ↦ some (leave s n id cause)
    | waiting id r ↦ some (leave s n id cause)
    | returned o ↦ none
  ]
  step s (read sent) = dispatch s sent

  unfoldable pub run : Cli lib → List (Event lib) → Option (Cli lib)
  run s [] = some s
  run s (e ∷ es) = elim (step s e) [ none ↦ none | some s' ↦ run s' es ]
