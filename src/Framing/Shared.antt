-- ===== src/Framing/Shared.antt =====
-- `WriteCtx` of `lengthPrefixedChannel`, called by many goroutines at once: its mutex, and each write
-- to the connection as a step of its own.
use fancy_go.Base.{
  ℕ, set_at, Bool, true, false, List, [], ◌∷◌, Option, none, some, Bytes, drop, if◌then◌else◌,
}
use fancy_go.Message.{Message, JsonCodec, to_bin}
use fancy_go.Framing.Split.{is_empty}
use fancy_go.Framing.Frame.{frame}
use fancy_go.Framing.Writer.{Write, segment}
pub mod Order

-- Where a goroutine stands: outside of `WriteCtx`, or with the mutex and this left to be written.
pub data WriterPc : Type 0 where
  outside : WriterPc
  writing : Bytes → WriterPc

-- A goroutine takes the mutex for a message, or goes on by one write.
pub data WriterStep : Type 0 where
  enter : ℕ → Message → WriterStep
  proceed : ℕ → WriterStep

-- `st` is the connection, `locked` whether `writeMutex` is held. The last two record what has happened:
-- the messages in the order in which their goroutines took the mutex, and the errors returned, the
-- last first.
pub record Writers (S E : Type 0) : Type 0 where
  pub st : S
  pub locked : Bool
  pub pc : ℕ → WriterPc
  pub begun : List Message
  pub errors : List E

module _ (c : JsonCodec) {S E : Type 0} (write : Write S E) where
  abbrev pub open_writers : S → Writers S E
  open_writers st = record { st = st; locked = false; pc = λ i. outside; begun = []; errors = [] }

  -- `WriteCtx` returns, and the deferred call unlocks.
  abbrev pub unlock : Writers S E → ℕ → S → Option E → Writers S E
  unlock s i st e = record s {
    st = st;
    locked = false;
    pc = set_at i outside s.pc;
    errors = elim e as (λ _. List E) [ none ↦ s.errors | some err ↦ err ∷ s.errors ];
  }

  unfoldable pub step : Writers S E → WriterStep → Option (Writers S E)
  unfolding is_empty
  step s (enter i msg) = elim (s.pc i) [
    | outside ↦
        if s.locked
        then none
        else some (record s {
          locked = true;
          pc = set_at i (writing (frame (to_bin c msg))) s.pc;
          begun = msg ∷ s.begun;
        })
    | writing bin ↦ none
  ]
  step s (proceed i) = elim (s.pc i) [
    | outside ↦ none
    | writing bin ↦ elim (is_empty bin) [
      | true ↦ let (st, n, e) = write s.st bin in some (unlock s i st e)
      | false ↦
          let (st, n, e) = write s.st (segment bin) in
          elim e [
            | some err ↦ some (unlock s i st (some err))
            | none ↦ some (record s { st = st; pc = set_at i (writing (drop n bin)) s.pc })
          ]
    ]
  ]

  unfoldable pub run : Writers S E → List WriterStep → Option (Writers S E)
  run s [] = some s
  run s (e ∷ es) = elim (step s e) [ none ↦ none | some s' ↦ run s' es ]
