-- ===== src/Client/End.antt =====
-- What the loop of `init` does behind the end of a framed connection, where `ReadCtx` returns no error.
use fancy_go.Base.{
  repeat, ℕ, zero, suc, ◌≡◌, refl, sym, subst, ap, ◌∙◌, Bool, true, false, Bool-cases, inl, inr,
  List, [], ◌∷◌, none, some, arith, ◌==◌, if◌then◌else◌,
}
use fancy_go.Message.{Message}
use fancy_go.ErrorCode.Types.{Errors}
use fancy_go.Client.State.{received, Cli, dispatch, Event, read, step, run}

repeat-cons {ℓ} :
    {A : Type ℓ} (n : ℕ) (x : A) (xs : List A) → repeat n x (x ∷ xs) ≡ x ∷ repeat n x xs
repeat-cons zero x xs = refl
repeat-cons (suc n) x xs = ap (λ l. x ∷ l) (repeat-cons n x xs)

if_same {ℓ} : {A : Type ℓ} (b : Bool) (x : A) → (if b then x else x) ≡ x
if_same true x = refl
if_same false x = refl

module _ {lib : Errors} (here : lib.Frame) where
  -- The state after another read at the end: an event is handled once more.
  abbrev pub again : Cli lib → Cli lib
  again s = record s {
    events = if s.msg.id == 0 then (s.msg.method, s.msg.params) ∷ s.events else s.events;
  }

  dispatch-again :
      (s : Cli lib)
      → ((s.msg.id == 0) ≡ false → s.call_map s.msg.id ≡ none)
      → dispatch here s none ≡ some (again s)
  unfolding dispatch received
  dispatch-again s gone = elim (Bool-cases (s.msg.id == 0)) [
    | inl event ↦ ground (arith, event)
    | inr answer ↦ ground (arith, answer, gone answer)
  ]

  run-read :
      (s t : Cli lib) (es : List (Event lib))
      → dispatch here s none ≡ some t
      → run here s (read none ∷ es) ≡ run here t es
  unfolding run step
  run-read s t es h = ground (arith, h)

  run-again :
      (n : ℕ) (s : Cli lib)
      → ((s.msg.id == 0) ≡ false → s.call_map s.msg.id ≡ none)
      → run here s (repeat n (read none) [])
        ≡ some (record s {
          events =
              if s.msg.id == 0 then repeat n (s.msg.method, s.msg.params) s.events else s.events;
        })
  unfolding run step
  run-again zero s gone =
      ap (λ l. some (record s { events = l })) (sym (if_same (s.msg.id == 0) s.events))
  run-again (suc n) s gone =
      run-read s (again s) (repeat n (read none) []) (dispatch-again s gone)
      ∙ (run-again n (again s) gone ∙ elim (Bool-cases (s.msg.id == 0)) [
        | inl event ↦ ground (arith, event, repeat-cons n (s.msg.method, s.msg.params) s.events)
        | inr answer ↦ ground (arith, answer)
      ])

  dispatch-gone :
      (s s' : Cli lib) (sent : Message)
      → dispatch here s (some sent) ≡ some s'
      → (s'.msg ≡ sent) × ((sent.id == 0) ≡ false → s'.call_map sent.id ≡ none)
  unfolding dispatch received
  dispatch-gone s s' sent h = elim (Bool-cases (sent.id == 0)) [
    | inl event ↦ ground (arith, event)
    | inr answer ↦ ground (arith, answer)
  ]

  -- After a turn of the loop that has read a message, any number of further reads which find the
  -- end of a framed channel, where ReadCtx returns no error, all go through: they change no call,
  -- no answer and no entry of the map, and if the message was an event, it is handled once more
  -- for each of them.
  pub run-replay :
      (s s' : Cli lib) (sent : Message) (n : ℕ)
      → dispatch here s (some sent) ≡ some s'
      → (t : Cli lib) × (run here s' (repeat n (read none) []) ≡ some t)
        × (t.pc ≡ s'.pc)
        × (t.inbox ≡ s'.inbox)
        × (t.call_map ≡ s'.call_map)
        × (t.events
            ≡ (if sent.id == 0 then repeat n (sent.method, sent.params) s'.events else s'.events))
  run-replay s s' sent n h =
      let (read', gone) = dispatch-gone s s' sent h in
      (
        record s' {
          events =
              if s'.msg.id == 0
              then repeat n (s'.msg.method, s'.msg.params) s'.events
              else s'.events;
        },
        run-again n s' (
            subst (λ (m : Message). (m.id == 0) ≡ false → s'.call_map m.id ≡ none) (sym read')
              gone),
        refl,
        refl,
        refl,
        rw read' refl,
      )
