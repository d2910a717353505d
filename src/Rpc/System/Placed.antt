-- ===== src/Rpc/System/Placed.antt =====
-- Where the request of a call that is still to be told of its answer is, or the answer itself.
use fancy_go.Base.{
  ℕ, ◌+◌, ◌≤◌, ◌≡◌, ◌≢◌, refl, ap, subst, Bool, true, false, Bool-cases, List, [], ◌∷◌, ◌++◌,
  Option, none, some, arith, inl, inr, Option-cases, Bytes, ◌==◌, if◌then◌else◌,
}
use fancy_go.Message.{Message}
use fancy_go.ErrorCode.Types.{Errors}
use fancy_go.Client.State.{
  after_turn, Target, Cli, begin, register, written, take_result, give_up, read, dispatch, leave,
  received,
}
use fancy_go.Client.State.{step as client_step, Event as ClientEvent}
use fancy_go.Client.Answers.{Entered, dispatch-inbox}
use fancy_go.Server.State.{
  Api, Session, arrive, read_failed, cancel, answer, emit, write, writer_done, emit_message, pick,
}
use fancy_go.Server.State.{step as server_step, Event as ServerEvent}
use fancy_go.Server.Balance.{number, number_in, number-pick}
use fancy_go.Rpc.Counts.{number-append}
use fancy_go.Rpc.Conversation.{reply-id}
use fancy_go.Rpc.Dispatch.{with_id}
use fancy_go.Rpc.Order.{held}
use fancy_go.Rpc.System.{
  System, put, request, deliver_first, receive_first, client_move, server_move, move,
}
use fancy_go.Rpc.System.Client.{Asked, Right}
use fancy_go.Rpc.System.Steps.{Safe, put_call-taken}

module _ {lib : Errors} (here : lib.Frame) (api : Api lib) where
  -- How many messages with a number the session still has or has lost.
  abbrev pub inside : ℕ → Session api → ℕ
  inside k d = with_id k d.running + (number_in (λ m. m.id == k) d.out + with_id k d.lost)

  abbrev pub places : ℕ → System here api → ℕ
  places k s = with_id k s.to_server + (inside k s.session + with_id k s.to_client)

  -- A call that has sent its request, has not returned and has no answer yet.
  abbrev pub Waits : System here api → ℕ → Type 0
  Waits s n = (n ≢ 0) × (s.asked n ≢ none) × Entered here s.cli n × (s.cli.inbox n ≡ none)

  abbrev pub Placed : System here api → Type 0
  Placed s = (n : ℕ) → Waits s n → 1 ≤ places n s

  pub server-inside :
      (k : ℕ) (d d' : Session api) (e : ServerEvent api)
      → ((m : Message) → e ≢ arrive m)
      → ((c : Bool) → e ≢ write false c)
      → server_step api d e ≡ some d'
      → inside k d ≤ inside k d'
  unfolding server_step emit_message number
  server-inside k d d' (arrive m) comes writes h = absurd (comes m refl)
  server-inside k d d' read_failed comes writes h = ground arith
  server-inside k d d' cancel comes writes h = ground arith
  server-inside k d d' (answer i w) comes writes h = elim (Option-cases (pick i d.running)) [
    | inl none' ↦ absurd (ground (arith, none'))
    | inr ((m, rest), e) ↦
        ground (arith, e, reply-id api w m, number-pick (λ x. x.id == k) i d.running e)
  ]
  server-inside k d d' (emit method none) comes writes h = ground arith
  server-inside k d d' (emit method (some bin)) comes writes h = ground arith
  server-inside k d d' (write false c) comes writes h = absurd (writes c refl)
  server-inside k d d' (write true c) comes writes h = ground arith
  server-inside k d d' writer_done comes writes h = ground arith

  pub write-inside :
      (k : ℕ) (d d' : Session api) (c : Bool)
      → server_step api d (write false c) ≡ some d'
      → inside k d ≡ inside k d' + with_id k (held d.out)
  unfolding server_step number
  write-inside k d d' c h = ground arith

  arrive-inside :
      (k : ℕ) (d d' : Session api) (m : Message)
      → server_step api d (arrive m) ≡ some d'
      → inside k d' ≡ (if m.id == k then 1 else 0) + inside k d
  unfolding server_step number
  arrive-inside k d d' m h = ground arith

  -- A step of a call makes no call wait that has sent its request before.
  client-before :
      (asked : Asked here api) (c c' : Cli lib) (e : ClientEvent lib) (n : ℕ) (r : Target lib)
      (m : Message)
      → ((x : Option Message) → e ≢ read x)
      → client_step here c e ≡ some c'
      → Right here api asked c
      → asked n ≡ some (r, m)
      → Entered here c' n
      → c'.inbox n ≡ none
      → Entered here c n × (c.inbox n ≡ none)
  unfolding client_step leave
  client-before asked c c' (begin t) n r m other h right a live empty =
      ground (arith, live, right.stage n r m a)
  client-before asked c c' (register k) n r m other h right a live empty =
      ground (arith, live, right.stage n r m a)
  client-before asked c c' (written k) n r m other h right a live empty =
      ground (arith, live, right.stage n r m a)
  client-before asked c c' (take_result k) n r m other h right a live empty =
      ground (arith, live, right.stage n r m a)
  client-before asked c c' (give_up k x) n r m other h right a live empty =
      ground (arith, live, right.stage n r m a)
  client-before asked c c' (read x) n r m other h right a live empty = absurd (other x refl)

  dispatch-before :
      (c c' : Cli lib) (x : Message) (n : ℕ)
      → dispatch here c (some x) ≡ some c'
      → Entered here c' n
      → c'.inbox n ≡ none
      → Entered here c n × (c.inbox n ≡ none)
  unfolding dispatch
  dispatch-before c c' x n h live empty = ground (arith, live)

  pub client_move-Placed :
      (s s' : System here api) (e : ClientEvent lib)
      → ((x : Option Message) → e ≢ read x)
      → client_move here api s e ≡ some s'
      → Safe here api s
      → Placed s
      → Placed s'
  client_move-Placed s s' e other h safe placed = elim (Option-cases (client_step here s.cli e)) [
    | inl stuck ↦ absurd (ground (arith, stuck))
    | inr (c, taken) ↦
        let same : record s { cli = c } ≡ s' = ground (arith, taken) in
        subst Placed same (λ n (nonzero, sent, live, empty). elim (Option-cases (s.asked n)) [
          | inl none' ↦ absurd (sent none')
          | inr ((r, m), a) ↦
              let (live', empty') =
                client-before s.asked s.cli c e n r m other taken safe.right a live empty in
              placed n (nonzero, sent, live', empty')
        ])
  ]

  pub server_move-Placed :
      (s s' : System here api) (e : ServerEvent api) (out : List Message)
      → ((k : ℕ) (d : Session api)
          → server_step api s.session e ≡ some d
          → inside k s.session ≤ inside k d + with_id k out)
      → server_move here api s e out ≡ some s'
      → Placed s
      → Placed s'
  server_move-Placed s s' e out keeps h placed = elim (Option-cases (server_step api s.session e)) [
    | inl stuck ↦ absurd (ground (arith, stuck))
    | inr (d, taken) ↦
        let same : record s { session = d; to_client = s.to_client ++ out } ≡ s' =
          ground (arith, taken) in
        subst Placed same (λ n waits. omega (
          arith,
          placed n waits,
          keeps n d taken,
          number-append (λ (m : Message). m.id == n) s.to_client out,
        ))
  ]

  pub put-Placed :
      (s s' : System here api) (k : ℕ) (method params : Bytes)
      → move here api s (put k method params) ≡ some s'
      → Safe here api s
      → Placed s
      → Placed s'
  unfolding move number
  put-Placed s s' k method params h safe placed =
      let (id, r, at, new, same) = put_call-taken here api s s' k method params (s.cli.pc k) h in
      let mine : id ≡ k = safe.right.inv.own_id k id (ground (arith, at)) in
      let m = request here api id method params in
      subst Placed same (λ n (nonzero, sent, live, empty).
        let longer = number-append (λ (x : Message). x.id == n) s.to_server (m ∷ []) in
        elim (Bool-cases (n == k)) [
          | inl this ↦ ground (arith, this, mine, longer)
          | inr that ↦
              let before = placed n (nonzero, (λ g. sent (ground (arith, that, g))), live, empty) in
              ground (arith, longer, before)
        ])

  pub deliver-Placed :
      (s s' : System here api) (q : List Message)
      → s.to_server ≡ q
      → deliver_first here api s q ≡ some s'
      → Placed s
      → Placed s'
  unfolding deliver_first number
  deliver-Placed s s' [] at h placed = absurd (cc)
  deliver-Placed s s' (m ∷ ms) at h placed =
      elim (Option-cases (server_step api s.session (arrive m))) [
        | inl stuck ↦ absurd (ground (arith, stuck))
        | inr (d, taken) ↦
            let same : record s { session = d; to_server = ms } ≡ s' = ground (arith, taken) in
            subst Placed same (λ n waits.
              omega (arith, placed n waits, ap (with_id n) at, arrive-inside n s.session d m taken))
      ]

  pub receive-Placed :
      (s s' : System here api) (q : List Message)
      → s.to_client ≡ q
      → receive_first here api s q ≡ some s'
      → Safe here api s
      → Placed s
      → Placed s'
  unfolding receive_first number received
  receive-Placed s s' [] at h safe placed = absurd (cc)
  receive-Placed s s' (m ∷ ms) at h safe placed =
      elim (Option-cases (dispatch here s.cli (some m))) [
        | inl stuck ↦ absurd (ground (arith, stuck))
        | inr (c, taken) ↦
            let same : record s { cli = c; to_client = ms; loop = after_turn s.loop } ≡ s' =
              ground (arith, taken) in
            subst Placed same (λ n (nonzero, sent, live, empty).
              let (live', empty') = dispatch-before s.cli c m n taken live empty in
              let before = placed n (nonzero, sent, live', empty') in
              elim (Bool-cases (m.id == n)) [
                | inl mine ↦
                    let told =
                      (dispatch-inbox here s.cli c (some m) n safe.right.inv taken).1
                        (λ g. ground (arith, g, mine, nonzero)) (ground (arith, mine)) live'
                        empty' in
                    absurd (cc)
                | inr other ↦ ground (arith, before, ap (with_id n) at, other)
              ])
      ]
