-- ===== src/Client/Answers.antt =====
-- What the loop of `init` does with what it reads.
use fancy_go.Base.{
  Option, ℕ, ◌^◌, ◌<◌, ◌≡◌, ◌≢◌, refl, sym, ◌∙◌, List, none, some, arith, ◌==◌, if◌then◌else◌, ◌⊎◌,
  inl, inr, true, false, Option-cases, Bool-cases, subst,
}
use fancy_go.Message.{Message, RpcError}
use fancy_go.ErrorCode.Types.{Errors}
use fancy_go.ErrorCode.Wrap.{as_error, new_error}
use fancy_go.Client.State.{received, Target, Cli, new_cli, outcome, dispatch, Event, run, target_of}
use fancy_go.Client.Invariant.{Inv, entered, reached-Inv}

module _ {lib : Errors} (here : lib.Frame) where
  abbrev pub Entered : Cli lib → ℕ → Type 0
  Entered s n = entered lib (s.pc n) ≢ none

  dispatch_blocked :
      (s : Cli lib) (sent : Option Message) → Inv lib s → dispatch here s sent ≡ none → ⊥
  unfolding dispatch
  dispatch_blocked s sent inv h = elim (Option-cases (s.call_map (received sent s.msg).id)) [
    | inl unknown ↦ ground (arith, unknown)
    | inr (n, e) ↦ ground (arith, e, inv.mapped_empty n (received sent s.msg).id e)
  ]

  pub dispatch-inbox :
      (s s' : Cli lib) (sent : Option Message) (n : ℕ)
      → Inv lib s
      → dispatch here s sent ≡ some s'
      → (s'.msg ≡ received sent s.msg)
        × ((received sent s.msg).id ≢ 0
            → (received sent s.msg).id ≡ n
            → Entered s n
            → s.inbox n ≡ none
            → s'.inbox n ≡ some (outcome here (target_of here (s.pc n)) (received sent s.msg)))
        × (((received sent s.msg).id ≡ 0) ⊎ ((received sent s.msg).id ≢ n) ⊎ (¬ Entered s n)
            → s'.inbox n ≡ s.inbox n)
  unfolding dispatch
  dispatch-inbox s s' sent n inv h = elim (Option-cases (s.call_map (received sent s.msg).id)) [
    | inl unknown ↦
        let id = (received sent s.msg).id in
        (
          ground (arith, unknown),
          λ g e g' empty. elim (Option-cases (entered lib (s.pc n))) [
            | inl out ↦ absurd (g' out)
            | inr (x, ex) ↦ ground (arith, unknown, ex, inv.listed n x, inv.own_id n x)
          ],
          λ g. ground (arith, unknown),
        )
    | inr (k, e) ↦
        let id = (received sent s.msg).id in
        (
          ground (arith, e, inv.mapped_empty k id e),
          λ g eq g' empty.
              ground (arith, e, inv.mapped_empty k id e, inv.mapped k id e, inv.own_id k id),
          λ g. ground (arith, e, inv.mapped_empty k id e, inv.mapped k id e, inv.own_id k id),
        )
  ]

  pub dispatch_total :
      (s : Cli lib) (sent : Option Message)
      → Inv lib s
      → (s' : Cli lib) × (dispatch here s sent ≡ some s')
  dispatch_total s sent inv = elim (Option-cases (dispatch here s sent)) [
    | inl blocked ↦ absurd (dispatch_blocked s sent inv blocked)
    | inr there ↦ there
  ]

  pub dispatch-pc :
      (s s' : Cli lib) (sent : Option Message) → dispatch here s sent ≡ some s' → s'.pc ≡ s.pc
  unfolding dispatch
  dispatch-pc s s' sent h = ground arith

  outcome-error :
      (t : Target lib) (msg : Message) (e : RpcError)
      → msg.error ≡ some e
      → outcome here t msg ≡ some (as_error (new_error here e.code e.message))
  unfolding outcome
  outcome-error t msg e h = rw h refl

  -- In every reachable state of a client with fewer than 2^64 calls started, when the loop has
  -- read a message whose number, not 0, is that of a call which has entered the map, not returned
  -- and not been answered, it puts the outcome of that message into the channel of that call, and
  -- no other channel changes.
  pub answer_delivered :
      (s : Cli lib) (es : List (Event lib)) (sent : Message) (n : ℕ)
      → run here (new_cli here) es ≡ some s
      → s.started < 2 ^ 64
      → sent.id ≢ 0
      → sent.id ≡ n
      → Entered s n
      → s.inbox n ≡ none
      → (s' : Cli lib) × (dispatch here s (some sent) ≡ some s')
        × ((k : ℕ)
            → s'.inbox k
              ≡ (if k == n then some (outcome here (target_of here (s.pc n)) sent) else s.inbox k))
  unfolding received
  answer_delivered s es sent n h small nonzero mine entered' empty =
      let inv = reached-Inv here s es h small in
      let (s', e) = dispatch_total s (some sent) inv in
      (
        s',
        e,
        λ k. elim (Bool-cases (k == n)) [
          | inl same ↦ rw same (
              subst (λ (j : ℕ). s'.inbox j ≡ some (outcome here (target_of here (s.pc n)) sent))
                (sym (equal k same))
                ((dispatch-inbox s s' (some sent) n inv e).1 nonzero mine entered' empty))
          | inr other ↦ rw other (
              (dispatch-inbox s s' (some sent) k inv e).2
                (inr (inl (λ eq. different k other (sym (sym mine ∙ eq))))))
        ],
      )
    where
      equal : (k : ℕ) → (k == n) ≡ true → k ≡ n
      equal k h = ground arith

      different : (k : ℕ) → (k == n) ≡ false → k ≢ n
      different k h e = ground arith

  -- In every reachable state of a client with fewer than 2^64 calls started, a turn of the loop
  -- ends whatever message it reads: the channel it sends to has room.
  dispatch_never_blocks :
      (s : Cli lib) (es : List (Event lib)) (sent : Option Message)
      → run here (new_cli here) es ≡ some s
      → s.started < 2 ^ 64
      → (s' : Cli lib) × (dispatch here s sent ≡ some s') × (s'.msg ≡ received sent s.msg)
  dispatch_never_blocks s es sent h small =
      let inv = reached-Inv here s es h small in
      let (s', e) = dispatch_total s sent inv in (s', e, (dispatch-inbox s s' sent 0 inv e).0)
