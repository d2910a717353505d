-- ===== src/Rpc/System/Serves.antt =====
-- What a session keeps: requests that calls have sent, and answers to them.
use fancy_go.Base.{
  ℕ, ◌≡◌, refl, sym, ap, ◌∙◌, subst, Bool, List, [], ◌∷◌, Option, none, some, arith, inl, inr,
  Option-cases, Bytes, All,
}
use fancy_go.Message.{Message}
use fancy_go.ErrorCode.Types.{Errors}
use fancy_go.Client.State.{Target}
use fancy_go.Server.State.{Api, Session, reply, pick, arrive, answer, emit, write, emit_message}
use fancy_go.Server.State.{step as server_step}
use fancy_go.Rpc.Order.{held, pick-All}
use fancy_go.Rpc.Conversation.{reply-id}
use fancy_go.Rpc.System.Client.{Asked, Answers}

module _ {lib : Errors} (here : lib.Frame) (api : Api lib) where
  -- A request that is what its call has asked.
  abbrev pub Known : Asked here api → Message → Type 0
  Known asked m = (r : Target lib) × (asked m.id ≡ some (r, m))

  -- What holds of the session's end.
  abbrev pub Serves : Asked here api → Session api → Type 0
  Serves asked d = All (Known asked) d.running × All (Answers here api asked) (held d.out)

  Answers-reply :
      (asked : Asked here api) (m : Message) (w : api.World)
      → Known asked m
      → Answers here api asked (reply api w m)
  Answers-reply asked m w (r, a) = inr (r, m, w, ap asked (reply-id api w m) ∙ a, refl)

  pub serves :
      (asked : Asked here api) (d : Session api) (ms : List Message) (out : Option Message)
      → d.running ≡ ms
      → d.out ≡ out
      → All (Known asked) ms
      → All (Answers here api asked) (held out)
      → Serves asked d
  serves asked d ms out e g known answers = (
    subst (All (Known asked)) (sym e) known,
    subst (λ (o : Option Message). All (Answers here api asked) (held o)) (sym g) answers,
  )

  pub arrive-Serves :
      (asked : Asked here api) (d d' : Session api) (m : Message)
      → Known asked m
      → server_step api d (arrive m) ≡ some d'
      → Serves asked d
      → Serves asked d'
  unfolding server_step
  arrive-Serves asked d d' m known h (run, out) =
      serves asked d' (m ∷ d.running) d.out (ground arith) (ground arith) (known, run) out

  pub answer-Serves :
      (asked : Asked here api) (d d' : Session api) (k : ℕ) (w : api.World)
      → server_step api d (answer k w) ≡ some d'
      → Serves asked d
      → Serves asked d'
  unfolding server_step
  answer-Serves asked d d' k w h (run, out) = elim (Option-cases (pick k d.running)) [
    | inl none' ↦ absurd (ground (arith, none'))
    | inr ((m, rest), e) ↦
        let (known, left) = (pick-All (Known asked) k d.running e).0 run in
        serves asked d' rest (some (reply api w m)) (ground (arith, e)) (ground (arith, e)) left
          (Answers-reply asked m w known, tt)
  ]

  pub emit-Serves :
      (asked : Asked here api) (d d' : Session api) (method : Bytes) (bin : Option Bytes)
      → server_step api d (emit method bin) ≡ some d'
      → Serves asked d
      → Serves asked d'
  unfolding server_step emit_message
  emit-Serves asked d d' method none h both =
      let same : d ≡ d' = ground arith in subst (Serves asked) same both
  emit-Serves asked d d' method (some bin) h (run, out) =
      serves asked d' d.running
        (some (record { id = 0; method = method; params = bin; result = []; error = none }))
        (ground arith) (ground arith) run (inl refl, tt)

  pub write-Serves :
      (asked : Asked here api) (d d' : Session api) (f c : Bool)
      → server_step api d (write f c) ≡ some d'
      → Serves asked d
      → Serves asked d'
  unfolding server_step
  write-Serves asked d d' f c h (run, out) =
      serves asked d' d.running none (ground arith) (ground arith) run tt
