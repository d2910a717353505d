-- ===== src/Agent/Pipe.antt =====
-- net-filter/ws-agent/ws-agent.go: `startPipe`, which copies messages between two websockets.
use fancy_go.Base.{
  ℕ, ◌≡◌, refl, Bool, true, false, List, [], ◌∷◌, ◌++◌, append_assoc, Option, none, some, arith,
  Bytes, codes, ◌⊎◌, Option-cases, inl, inr,
}
use fancy_go.ErrorCode.Types.{Errors, Err, pkg_wrap}

-- `PipeDataEvent`; `none` is a nil slice.
pub record PipeDataEvent : Type 0 where
  pub type : ℕ
  pub bin : Option Bytes

-- A hook may change the event: what stands in it afterwards.
abbrev pub Callback : Type 0
Callback = PipeDataEvent → PipeDataEvent

-- A call of `ReadCtx` of the source, which may panic.
pub data Read (lib : Errors) : Type 0 where
  fails : Err lib → Read lib
  message : ℕ → Option Bytes → Read lib
  panics : Read lib

-- `blocked` waits for a message; `ended` has returned the error; `panicked` has panicked.
pub data Pipe (lib : Errors) : Type 0 where
  blocked : Pipe lib
  ended : Err lib → Pipe lib
  panicked : Pipe lib

-- What a message becomes: nothing if the hook leaves nil, else the same type with the new bytes.
unfoldable pub convert : Option Callback → ℕ → Option Bytes → Option (ℕ × Option Bytes)
convert none t bin = some (t, bin)
convert (some cb) t bin = elim (cb (record { type = t; bin = bin })).bin [
  | none ↦ none
  | some b ↦ some (t, some b)
]

module _ {lib : Errors} where
  -- `pipe`, over the reads to come; `accepts` is the error of writing a message after those already
  -- written. The result has what was written, oldest first.
  unfoldable pub pipe :
      Option Callback
      → (List (ℕ × Option Bytes) → ℕ × Option Bytes → Option (Err lib))
      → List (Read lib)
      → List (ℕ × Option Bytes)
      → Pipe lib × List (ℕ × Option Bytes)
  unfolding convert
  pipe cb accepts [] sent = (blocked, sent)
  pipe cb accepts (fails e ∷ rs) sent = (ended (pkg_wrap e (codes "read error")), sent)
  pipe cb accepts (panics ∷ rs) sent = (panicked, sent)
  pipe cb accepts (message t bin ∷ rs) sent = elim (convert cb t bin) [
    | none ↦ pipe cb accepts rs sent
    | some m ↦ elim (accepts sent m) [
      | some e ↦ (ended (pkg_wrap e (codes "write error")), sent)
      | none ↦ pipe cb accepts rs (sent ++ m ∷ [])
    ]
  ]

  -- The messages that the reads give before the first error or panic.
  unfoldable pub converted : Option Callback → List (Read lib) → List (ℕ × Option Bytes)
  converted cb [] = []
  converted cb (fails e ∷ rs) = []
  converted cb (panics ∷ rs) = []
  converted cb (message t bin ∷ rs) = elim (convert cb t bin) [
    | none ↦ converted cb rs
    | some m ↦ m ∷ converted cb rs
  ]

  -- What is still to be written, and why it never will be.
  abbrev pub Rest :
      Option Callback
      → (List (ℕ × Option Bytes) → ℕ × Option Bytes → Option (Err lib))
      → List (Read lib)
      → List (ℕ × Option Bytes)
      → Type 0
  Rest cb accepts rs sent =
      (back : List (ℕ × Option Bytes)) × ((pipe cb accepts rs sent).1 ++ back
        ≡ sent ++ converted cb rs)
      × ((back ≡ [])
          ⊎ ((e : Err lib) × (m : ℕ × Option Bytes) × (accepts (pipe cb accepts rs sent).1 m
                ≡ some e)
              × ((pipe cb accepts rs sent).0 ≡ ended (pkg_wrap e (codes "write error")))))

  pipe-converted :
      (cb : Option Callback)
      (accepts : List (ℕ × Option Bytes) → ℕ × Option Bytes → Option (Err lib))
      (rs : List (Read lib)) (sent : List (ℕ × Option Bytes))
      → Rest cb accepts rs sent
  unfolding pipe converted
  pipe-converted cb accepts [] sent = ([], refl, inl refl)
  pipe-converted cb accepts (fails e ∷ rs) sent = ([], refl, inl refl)
  pipe-converted cb accepts (panics ∷ rs) sent = ([], refl, inl refl)
  pipe-converted cb accepts (message t bin ∷ rs) sent = elim (Option-cases (convert cb t bin)) [
    | inl dropped ↦
        let (back, whole, why) = pipe-converted cb accepts rs sent in
        (back, ground (arith, dropped, whole), ground (arith, dropped, why))
    | inr (m, kept) ↦ elim (Option-cases (accepts sent m)) [
      | inr (e, refused) ↦ (
        m ∷ converted cb rs,
        ground (arith, kept, refused),
        inr (e, m, ground (arith, kept, refused), ground (arith, kept, refused)),
      )
      | inl fine ↦
          let (back, whole, why) = pipe-converted cb accepts rs (sent ++ m ∷ []) in
          (
            back,
            ground (arith, kept, fine, whole, append_assoc sent (m ∷ []) (converted cb rs)),
            ground (arith, kept, fine, why),
          )
    ]
  ]

  -- For every hook, every sequence of reads and every behaviour of the destination, a pipe writes
  -- a prefix of the messages that are read before the first read error, each as its hook leaves
  -- it and without those for which the hook leaves nil: all of them, unless a write fails, and
  -- then the pipe ends with the error of that write.
  pub pipe_lem :
      (cb : Option Callback)
      (accepts : List (ℕ × Option Bytes) → ℕ × Option Bytes → Option (Err lib))
      (rs : List (Read lib))
      → Rest cb accepts rs []
  pipe_lem cb accepts rs = pipe-converted cb accepts rs []

-- `startPipe`: the error of the hooks, or the two pipes. It returns when the pipe of what is sent
-- has ended; `received_first` is whether the other had ended before it and set the error. A panic of
-- that other ends the process, unless `startPipe` has returned before.
module _ {lib : Errors} where
  unfoldable pub start_pipe : Option (Err lib) → Pipe lib → Pipe lib → Bool → Pipe lib
  start_pipe (some e) receive send received_first =
      ended (pkg_wrap e (codes "get pipe hooks error"))
  start_pipe none receive panicked received_first = panicked
  start_pipe none panicked blocked received_first = panicked
  start_pipe none blocked blocked received_first = blocked
  start_pipe none (ended d) blocked received_first = blocked
  start_pipe none blocked (ended e) received_first = ended (pkg_wrap e (codes "pipe send error"))
  start_pipe none panicked (ended e) true = panicked
  start_pipe none panicked (ended e) false = ended (pkg_wrap e (codes "pipe send error"))
  start_pipe none (ended d) (ended e) true = ended (pkg_wrap d (codes "pipe receive error"))
  start_pipe none (ended d) (ended e) false = ended (pkg_wrap e (codes "pipe send error"))
