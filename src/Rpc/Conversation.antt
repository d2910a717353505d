-- ===== src/Rpc/Conversation.antt =====
-- Requests of a client, handled by a session in any order, and answered over a framed connection.
use mathlib.Core.List.{reverse, reverse-reverse}
use fancy_go.Base.{
  ℕ, ◌+◌, ◌^◌, ◌<◌, ◌≤◌, ◌≡◌, ◌≢◌, refl, sym, ap, ◌∙◌, subst, Bool, List, [], ◌∷◌, ◌++◌, map,
  Option, none, some, arith, ◌==◌, Bytes, All, keep, length,
}
use fancy_go.Message.{Message, JsonCodec, to_bin}
use fancy_go.ErrorCode.Types.{Errors}
use fancy_go.Framing.Scanner.{Scanner, open_scanner}
use fancy_go.Framing.Stream.{joined, Fits}
use fancy_go.Framing.Writer.{Write, IsWriter}
use fancy_go.Framing.Channel.{receive, send_all, receive-send_all}
use fancy_go.Client.State.{Cli, new_cli, outcome, target_of, Event, run}
use fancy_go.Client.Answers.{Entered}
use fancy_go.Client.Invariant.{reached-Inv}
use fancy_go.Server.State.{Api, reply, Session, serve}
use fancy_go.Server.State
use fancy_go.Server.Balance.{number, answered, Balanced, reached-Balanced}
use fancy_go.Rpc.Counts.{keep-reverse, number-reverse, All-reverse, All-keep, number-keep}
use fancy_go.Rpc.Order.{has_id, held, Ordered, reached-Ordered}
use fancy_go.Rpc.Dispatch.{with_id, Asked, deliveries, Delivered, run-deliveries}

module _ {lib : Errors} (api : Api lib) where
  pub reply-id : (w : api.World) (m : Message) → (reply api w m).id ≡ m.id
  unfolding reply
  reply-id w m = ground arith

  -- A fact about requests, at the answers to them.
  All-answered :
      (P : Message → Type 0) (hs : List (api.World × Message))
      → ((w : api.World) (m : Message) → P m → P (reply api w m))
      → All P (map (λ h. h.1) hs)
      → All P (map (λ h. reply api h.0 h.1) hs)
  All-answered P [] f a = tt
  All-answered P ((w, m) ∷ hs) f a = (f w m a.0, All-answered P hs f a.1)

  number-answered :
      (k : ℕ) (hs : List (api.World × Message))
      → with_id k (map (λ h. reply api h.0 h.1) hs) ≡ with_id k (map (λ h. h.1) hs)
  unfolding number
  number-answered k [] = refl
  number-answered k ((w, m) ∷ hs) = rw (reply-id w m, number-answered k hs) refl

  All-requests :
      (P : Message → Type 0) (Q : Message → Type 0) (hs : List (api.World × Message))
      → ((w : api.World) (m : Message) → P (reply api w m) → Q m)
      → All (λ m. m.id ≢ 0) (map (λ h. h.1) hs)
      → All P (keep has_id (map (λ h. reply api h.0 h.1) hs))
      → All Q (map (λ h. h.1) hs)
  All-requests P Q [] f numbered a = tt
  All-requests P Q ((w, m) ∷ hs) f numbered a =
      let first : keep has_id (map (λ h. reply api h.0 h.1) ((w, m) ∷ hs))
          ≡ reply api w m ∷ keep has_id (map (λ h. reply api h.0 h.1) hs) =
        ground (arith, reply-id w m, numbered.0) in
      let b = subst (All P) first a in (f w m b.0, All-requests P Q hs f numbered.1 b.1)

-- A session that has handled all its requests, read by a client that waits for their answers.
module _ {lib : Errors} (here : lib.Frame) (api : Api lib) where
  module _ (s : Cli lib) (d : Session api) (idle : d.running ≡ []) where
    Asked-reply : (w : api.World) (m : Message) → Asked here s m → Asked here s (reply api w m)
    Asked-reply w m (entered', empty) = (
      subst (Entered here s) (sym (reply-id api w m)) entered',
      ap s.inbox (reply-id api w m) ∙ empty,
    )

    Asked-written :
        Ordered api d
        → keep has_id d.written ≡ keep has_id (answered api d)
        → All (Asked here s) d.requests
        → All (Asked here s) (keep has_id (reverse d.written))
    Asked-written o same asked =
        let handled = (o.come (Asked here s) asked).1 in
        let replies = All-answered api (Asked here s) d.handled Asked-reply handled in
        subst (All (Asked here s)) (sym (keep-reverse has_id d.written)) (
          All-reverse (Asked here s) (keep has_id d.written) (
            subst (All (Asked here s)) (sym same)
              (All-keep (Asked here s) has_id (answered api d) replies)))

    unique_written :
        Balanced api d
        → keep has_id d.written ≡ keep has_id (answered api d)
        → ((k : ℕ) → with_id k d.requests ≤ 1)
        → (k : ℕ) → with_id k (keep has_id (reverse d.written)) ≤ 1
    unique_written b same unique k =
        let is_k : Message → Bool = λ m. m.id == k in
        let turned : with_id k (keep has_id (reverse d.written))
            ≡ with_id k (keep has_id (answered api d)) =
          ap (number is_k) (keep-reverse has_id d.written)
          ∙ (number-reverse is_k (keep has_id d.written) ∙ ap (number is_k) same) in
        let all =
          ap (λ (l : List Message). number is_k l + number is_k (map (λ h. h.1) d.handled)) idle in
        omega (
          arith,
          turned,
          number-keep is_k has_id (answered api d),
          number-answered api k d.handled,
          b.all_requests is_k,
          all,
          unique k,
        )

    -- The channel of a call holds the outcome of an answer to its request.
    abbrev Told : Cli lib → Message → Type 0
    Told s' m =
        (w : api.World) × (s'.inbox m.id
          ≡ some (outcome here (target_of here (s.pc m.id)) (reply api w m)))

    Told-requests :
        (s' : Cli lib)
        → Ordered api d
        → keep has_id d.written ≡ keep has_id (answered api d)
        → All (λ m. m.id ≢ 0) d.requests
        → Delivered here s s' (reverse d.written)
        → All (Told s') d.requests
    Told-requests s' o same numbered e =
        let Own : Message → Type 0 =
          λ m. s'.inbox m.id ≡ some (outcome here (target_of here (s.pc m.id)) m) in
        let turned : reverse (keep has_id (reverse d.written)) ≡ keep has_id (answered api d) =
          ap reverse (keep-reverse has_id d.written)
          ∙ (reverse-reverse (keep has_id d.written) ∙ same) in
        let own =
          subst (All Own) turned (All-reverse Own (keep has_id (reverse d.written)) e.own) in
        let handled = (o.come (λ m. m.id ≢ 0) numbered).1 in
        o.kept (Told s') (subst (All (Told s')) (sym idle) tt) (
          All-requests api Own (Told s') d.handled
            (λ w m own. (
              w,
              subst
                  (λ (k : ℕ).
                    s'.inbox k ≡ some (outcome here (target_of here (s.pc k)) (reply api w m)))
                  (reply-id api w m) own,
            ))
            handled own)

  -- Suppose that a client with fewer than 2^64 calls started and a session have each come to
  -- their states by any steps, that the session has handled all its requests, in whatever order,
  -- and written all its messages, events among them, without a failed write, and that its
  -- requests have distinct numbers other than 0, of calls that have entered the map of the
  -- client, have not returned and are unanswered. If what the session has written, in the order
  -- of writing, is sent by WriteCtx over a fresh io.Writer without an error, in messages that are
  -- plain for the codec and fit the buffer of the scanner, then however the bytes are cut into
  -- reads, as many calls of ReadCtx give these messages back; a turn of the client's loop for
  -- each of them goes through; and after them the channel of each of these calls holds the
  -- outcome of the reply to its own request.
  pub run-receive :
      (s : Cli lib) (es : List (Event lib)) (d : Session api) (fs : List (State.Event api))
      (c : JsonCodec) {S E : Type 0} (write : Write S E) {sent : S → Bytes}
      (w : IsWriter write sent) (st : S) {st' : S} (chunks : List Bytes)
      → run here (new_cli here) es ≡ some s
      → s.started < 2 ^ 64
      → State.run api (serve api) fs ≡ some d
      → d.running ≡ []
      → d.out ≡ none
      → d.lost ≡ []
      → All (Asked here s) d.requests
      → All (λ m. m.id ≢ 0) d.requests
      → ((k : ℕ) → with_id k d.requests ≤ 1)
      → All c.IsPlain (reverse d.written)
      → All (λ m. Fits (to_bin c m)) (reverse d.written)
      → sent st ≡ []
      → send_all c write st (reverse d.written) ≡ some (st', none)
      → joined chunks ≡ sent st'
      → (x : Scanner) × (s' : Cli lib) × (receive c
            (length (reverse d.written))
            (open_scanner chunks)
          ≡ some (x, reverse d.written, none))
        × (run here s (deliveries here (reverse d.written)) ≡ some s')
        × All
            (λ m.
              (v : api.World) × (s'.inbox m.id
                ≡ some (outcome here (target_of here (s.pc m.id)) (reply api v m))))
            d.requests
  run-receive s es d fs c write w st {st'} chunks h small g idle empty kept asked numbered unique
        plain fit fresh ok arrived =
      let o = reached-Ordered api d fs g in
      let b = reached-Balanced api d fs g in
      let same =
        subst
          (λ (x : Option Message). keep has_id (held x ++ d.written) ≡ keep has_id (answered api d))
          empty (o.in_order kept) in
      let (x, got) =
        receive-send_all c write w st (reverse d.written) chunks plain fit fresh ok arrived in
      let (s', e) =
        run-deliveries here (reverse d.written) s (reached-Inv here s es h small)
          (Asked-written s d idle o same asked) (unique_written s d idle b same unique) in
      (x, s', got, e.ran, Told-requests s d idle s' o same numbered e)
