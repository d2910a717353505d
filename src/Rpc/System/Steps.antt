-- ===== src/Rpc/System/Steps.antt =====
-- What holds between the moves of a client and a session, and that the moves of each keep it.
use fancy_go.Base.{
  ℕ, ◌^◌, ◌<◌, ◌≡◌, ◌≢◌, refl, ap, ◌∙◌, subst, set_at, List, [], ◌∷◌, ◌++◌, Option, none, some,
  arith, inl, inr, Option-cases, Bytes, All, All-append, All-map,
}
use fancy_go.Message.{Message}
use fancy_go.ErrorCode.Types.{Errors}
use fancy_go.Client.State.{
  Loop, after_turn, Target, Pc, Cli, absent, numbered, writing, waiting, returned, dispatch, begin,
  register, written, take_result, give_up, read,
}
use fancy_go.Client.State.{step as client_step, Event as ClientEvent}
use fancy_go.Client.Invariant.{Inv, step-Inv, read-Inv, new_cli-Inv}
use fancy_go.Server.State.{Api, Session, arrive}
use fancy_go.Server.State.{step as server_step, Event as ServerEvent}
use fancy_go.Rpc.Order.{held}
use fancy_go.Rpc.System.{
  System, start, put, request, put_call, deliver_first, receive_first, client_move, server_move,
  move,
}
use fancy_go.Rpc.System.Client.{
  Asked, Answers, Right, more-kept, Answers-more, put-Right, begin-Right, register-Right,
  written-Right, take_result-Right, give_up-Right, receive-Right,
}
use fancy_go.Rpc.System.Serves.{Known, Serves, arrive-Serves}

module _ {lib : Errors} (here : lib.Frame) (api : Api lib) where
  pub record Safe (s : System here api) : Type 0 where
    pub right : Right here api s.asked s.cli
    pub outgoing : All (Known here api s.asked) s.to_server
    pub session : Serves here api s.asked s.session
    pub incoming : All (Answers here api s.asked) s.to_client

  pub start-Safe : Safe (start here api)
  start-Safe = record {
    right = record {
      inv = new_cli-Inv here;
      own = λ n r m e. absurd (cc);
      stage = λ n r m e. absurd (cc);
      inboxes = λ n o e. absurd (cc);
      results = λ n o e. absurd (cc);
    };
    outgoing = tt;
    session = (tt, tt);
    incoming = tt;
  }

  pub put_call-taken :
      (s s' : System here api) (n : ℕ) (method params : Bytes) (p : Pc lib)
      → put_call here api s n method params p ≡ some s'
      → (id : ℕ) × (r : Target lib) × (p ≡ writing id r)
        × (s.asked n ≡ none)
        × (record s {
          asked = set_at n (some (r, request here api id method params)) s.asked;
          to_server = s.to_server ++ request here api id method params ∷ [];
        }
            ≡ s')
  unfolding put_call
  put_call-taken s s' n method params absent e = absurd (cc)
  put_call-taken s s' n method params (numbered id r) e = absurd (cc)
  put_call-taken s s' n method params (writing id r) e = elim (Option-cases (s.asked n)) [
    | inl new ↦ (id, r, refl, new, ground (arith, new))
    | inr (sent, old) ↦ absurd (ground (arith, old))
  ]
  put_call-taken s s' n method params (waiting id r) e = absurd (cc)
  put_call-taken s s' n method params (returned o) e = absurd (cc)

  module _ (s : System here api) (n : ℕ) (sent : Target lib × Message)
      (new : s.asked n ≡ none) where
    Known-more :
        (m : Message) → Known here api s.asked m → Known here api (set_at n (some sent) s.asked) m
    Known-more m (r, a) = (r, more-kept here api s.asked n sent new m.id a)

    asked-Safe :
        (r : Target lib) (m : Message)
        → sent ≡ (r, m)
        → s.cli.pc n ≡ writing n r
        → m.id ≡ n
        → Safe s
        → Safe
            (record s { asked = set_at n (some sent) s.asked; to_server = s.to_server ++ m ∷ [] })
    asked-Safe r m same at mine h = record {
      right = put-Right here api s.asked n sent new s.cli r m same at mine h.right;
      outgoing =
          All-append (Known here api (set_at n (some sent) s.asked)) s.to_server (m ∷ [])
            (All-map Known-more s.to_server h.outgoing) ((r, ground (arith, mine, same)), tt);
      session = (
        All-map Known-more s.session.running h.session.0,
        All-map (Answers-more here api s.asked n sent new) (held s.session.out) h.session.1,
      );
      incoming = All-map (Answers-more here api s.asked n sent new) s.to_client h.incoming;
    }

  pub put-Safe :
      (s s' : System here api) (n : ℕ) (method params : Bytes)
      → move here api s (put n method params) ≡ some s'
      → Safe s
      → Safe s'
  unfolding move
  put-Safe s s' n method params e h =
      let (id, r, at, new, same) = put_call-taken s s' n method params (s.cli.pc n) e in
      let mine : id ≡ n = h.right.inv.own_id n id (ground (arith, at)) in
      subst Safe same (
        asked-Safe s n (r, request here api id method params) new r
          (request here api id method params) refl (at ∙ ap (λ (k : ℕ). writing k r) mine) mine h)

  server-Safe :
      (s s' : System here api) (d : Session api) (out : List Message)
      → some (record s { session = d; to_client = s.to_client ++ out }) ≡ some s'
      → Serves here api s.asked d
      → All (Answers here api s.asked) out
      → Safe s
      → Safe s'
  server-Safe s s' d out e serves' answers h = subst Safe (ground arith) (
      let t : Safe (record s { session = d; to_client = s.to_client ++ out }) = record {
        right = h.right;
        outgoing = h.outgoing;
        session = serves';
        incoming = All-append (Answers here api s.asked) s.to_client out h.incoming answers;
      } in
      t)

  client-Safe :
      (s s' : System here api) (c : Cli lib)
      → some (record s { cli = c }) ≡ some s'
      → Right here api s.asked c
      → Safe s
      → Safe s'
  client-Safe s s' c e right' h = subst Safe (ground arith) (
      let t : Safe (record s { cli = c }) = record {
        right = right';
        outgoing = h.outgoing;
        session = h.session;
        incoming = h.incoming;
      } in
      t)

  step-Right :
      (asked : Asked here api) (c c' : Cli lib) (e : ClientEvent lib)
      → ((m : Option Message) → e ≢ read m)
      → client_step here c e ≡ some c'
      → c'.started < 2 ^ 64
      → Right here api asked c
      → Right here api asked c'
  step-Right asked c c' e writes h small right' =
      let inv' = step-Inv here c c' e h (λ g. right'.inv) small in by_event e writes h inv'
    where
      by_event :
          (e : ClientEvent lib)
          → ((m : Option Message) → e ≢ read m)
          → client_step here c e ≡ some c'
          → Inv lib c'
          → Right here api asked c'
      by_event (begin t) writes h inv' = begin-Right here api asked c c' right' inv' t h
      by_event (register n) writes h inv' = register-Right here api asked c c' right' inv' n h
      by_event (written n) writes h inv' = written-Right here api asked c c' right' inv' n h
      by_event (take_result n) writes h inv' = take_result-Right here api asked c c' right' inv' n h
      by_event (give_up n x) writes h inv' = give_up-Right here api asked c c' right' inv' n x h
      by_event (read m) writes h inv' = absurd (writes m refl)

  pub client_move-Safe :
      (s s' : System here api) (e : ClientEvent lib)
      → ((m : Option Message) → e ≢ read m)
      → client_move here api s e ≡ some s'
      → s'.cli.started < 2 ^ 64
      → Safe s
      → Safe s'
  client_move-Safe s s' e writes h small safe = elim (Option-cases (client_step here s.cli e)) [
    | inl stuck ↦ absurd (ground (arith, stuck))
    | inr (c, taken) ↦
        let same : some (record s { cli = c }) ≡ some s' = ground (arith, taken) in
        client-Safe s s' c same
          (step-Right s.asked s.cli c e writes taken (ground (arith, same, small)) safe.right) safe
  ]

  pub server_move-Safe :
      (s s' : System here api) (e : ServerEvent api) (out : List Message)
      → ((d : Session api) → server_step api s.session e ≡ some d → Serves here api s.asked d)
      → All (Answers here api s.asked) out
      → server_move here api s e out ≡ some s'
      → Safe s
      → Safe s'
  server_move-Safe s s' e out keeps answers h safe =
      elim (Option-cases (server_step api s.session e)) [
        | inl stuck ↦ absurd (ground (arith, stuck))
        | inr (d, taken) ↦
            server-Safe s s' d out (ground (arith, taken)) (keeps d taken) answers safe
      ]

  pub deliver-to :
      (s s' : System here api) (q : List Message)
      → s.to_server ≡ q
      → deliver_first here api s q ≡ some s'
      → Safe s
      → Safe s'
  unfolding deliver_first
  deliver-to s s' [] at e h = absurd (cc)
  deliver-to s s' (m ∷ ms) at e h = elim (Option-cases (server_step api s.session (arrive m))) [
    | inl stuck ↦ absurd (ground (arith, stuck))
    | inr (d, taken) ↦
        let (known, rest) = subst (All (Known here api s.asked)) at h.outgoing in
        let t : Safe (record s { session = d; to_server = ms }) = record {
          right = h.right;
          outgoing = rest;
          session = arrive-Serves here api s.asked s.session d m known taken h.session;
          incoming = h.incoming;
        } in
        let same : record s { session = d; to_server = ms } ≡ s' = ground (arith, taken) in
        subst Safe same t
  ]

  pub loop-Safe :
      (s s' : System here api) (l : Loop) → record s { loop = l } ≡ s' → Safe s → Safe s'
  loop-Safe s s' l same h =
      let t : Safe (record s { loop = l }) = record {
        right = h.right;
        outgoing = h.outgoing;
        session = h.session;
        incoming = h.incoming;
      } in
      subst Safe same t

  pub receive-from :
      (s s' : System here api) (q : List Message)
      → s.to_client ≡ q
      → receive_first here api s q ≡ some s'
      → Safe s
      → Safe s'
  unfolding receive_first
  receive-from s s' [] at e h = absurd (cc)
  receive-from s s' (m ∷ ms) at e h = elim (Option-cases (dispatch here s.cli (some m))) [
    | inl stuck ↦ absurd (ground (arith, stuck))
    | inr (c, taken) ↦
        let (answers, rest) = subst (All (Answers here api s.asked)) at h.incoming in
        let inv' = read-Inv here s.cli c h.right.inv (some m) taken in
        let t : Safe (record s { cli = c; to_client = ms; loop = after_turn s.loop }) = record {
          right = receive-Right here api s.asked s.cli c h.right inv' m answers taken;
          outgoing = h.outgoing;
          session = h.session;
          incoming = rest;
        } in
        let same : record s { cli = c; to_client = ms; loop = after_turn s.loop } ≡ s' =
          ground (arith, taken) in
        subst Safe same t
  ]
