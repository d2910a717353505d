-- ===== src/Framing/Channel.antt =====
-- `ReadCtx` of `lengthPrefixedChannel`, and whole conversations over it.
use fancy_go.Base.{
  ℕ, zero, suc, ◌≤◌, ◌≡◌, ◌≢◌, refl, sym, ap, ◌∙◌, List, [], ◌∷◌, ◌++◌, Option, none, some, arith,
  Bytes, length, All, append_assoc, append-nil, take,
}
use fancy_go.Message.{Message, empty_message, JsonCodec, to_bin, unmarshal-to_bin}
use fancy_go.Framing.Frame.{frame}
use fancy_go.Framing.Scanner.{Scanner, ScanError, scan, scanner_err, open_scanner}
use fancy_go.Framing.Stream.{joined, stream, IsLive, Fits, scan-frame, take_all}
use fancy_go.Framing.End.{scan-truncated}
use fancy_go.Framing.Writer.{Write, write_ctx, IsWriter, write_ctx_lem}

module _ (c : JsonCodec) where
  open c use {JsonError, unmarshal, IsPlain}

  pub data ReadError : Type 0 where
    scanning : ScanError → ReadError
    invalid_json : JsonError → ReadError

  abbrev wrap_json : Option JsonError → Option ReadError
  wrap_json none = none
  wrap_json (some e) = some (invalid_json e)

  abbrev wrap_scan : Option ScanError → Option ReadError
  wrap_scan none = none
  wrap_scan (some e) = some (scanning e)

  -- `msg` is what the pointer holds at the call; the result is what it holds at the return.
  -- `none` would be a scan that does not end.
  unfoldable pub read_ctx : Scanner → Message → Option (Scanner × Message × Option ReadError)
  read_ctx s msg = elim (scan s) [
    | none ↦ none
    | some (s', none) ↦ some (s', msg, wrap_scan (scanner_err s'))
    | some (s', some t) ↦ some (s', (unmarshal t).0, wrap_json (unmarshal t).1)
  ]

  -- `n` calls of `ReadCtx`, each into a fresh message, up to the first error.
  unfoldable pub receive : ℕ → Scanner → Option (Scanner × List Message × Option ReadError)
  receive zero s = some (s, [], none)
  receive (suc n) s = elim (read_ctx s empty_message) [
    | none ↦ none
    | some (s', m, some e) ↦ some (s', [], some e)
    | some (s', m, none) ↦ elim (receive n s') [
      | none ↦ none
      | some (s'', ms, e) ↦ some (s'', m ∷ ms, e)
    ]
  ]

  read_ctx-frame :
      (s : Scanner) (m old : Message) (rest : Bytes)
      → IsLive s
      → IsPlain m
      → Fits (to_bin c m)
      → stream s ≡ frame (to_bin c m) ++ rest
      → (s' : Scanner) × (read_ctx s old ≡ some (s', m, none)) × IsLive s' × (stream s' ≡ rest)
  unfolding read_ctx
  read_ctx-frame s m old rest live plain fit e =
      let (s', ran, live', left) = scan-frame s (to_bin c m) rest live fit e in
      (s', ground (arith, unmarshal-to_bin c m plain), live', left)

  -- The bytes of messages sent one after the other.
  abbrev pub wire : List Message → Bytes
  wire [] = []
  wire (m ∷ ms) = frame (to_bin c m) ++ wire ms

  receive_next :
      (n : ℕ) (s s' s'' : Scanner) (m : Message) (ms : List Message)
      → read_ctx s empty_message ≡ some (s', m, none)
      → receive n s' ≡ some (s'', ms, none)
      → receive (suc n) s ≡ some (s'', m ∷ ms, none)
  unfolding receive
  receive_next n s s' s'' m ms now later = ground (arith, now, later)

  pub receive-wire :
      (ms : List Message) (s : Scanner) (rest : Bytes)
      → IsLive s
      → All IsPlain ms
      → All (λ m. Fits (to_bin c m)) ms
      → stream s ≡ wire ms ++ rest
      → (s' : Scanner) × (receive (length ms) s ≡ some (s', ms, none))
        × IsLive s'
        × (stream s' ≡ rest)
  unfolding receive
  receive-wire [] s rest live plain fit e = (s, refl, live, e)
  receive-wire (m ∷ ms) s rest live plain fit e =
      let (s', ran, live', left) =
        read_ctx-frame s m empty_message (wire ms ++ rest) live plain.0 fit.0
          (e ∙ append_assoc (frame (to_bin c m)) (wire ms) rest) in
      let (s'', later, live'', left') = receive-wire ms s' rest live' plain.1 fit.1 left in
      (s'', receive_next (length ms) s s' s'' m ms ran later, live'', left')

  -- When the connection ends before a frame or inside one (of a payload whose frame fits the
  -- scanner's buffer), ReadCtx on a scanner that has met no error returns no error, and the
  -- message variable holds what it held before the call.
  pub read_ctx-truncated :
      (s : Scanner) (old : Message) (p r : Bytes)
      → IsLive s
      → Fits p
      → frame p ≡ stream s ++ r
      → r ≢ []
      → (s' : Scanner) × (read_ctx s old ≡ some (s', old, none))
  unfolding read_ctx
  read_ctx-truncated s old p r live fit f ne =
      let (s', ran, quiet) = scan-truncated s p r live fit f ne in (s', ground arith)

-- The two ends together, over any `io.Writer`.
module _ (c : JsonCodec) {S E : Type 0} (write : Write S E) where
  -- `WriteCtx` for each message, up to the first error.
  unfoldable pub send_all : S → List Message → Option (S × Option E)
  send_all st [] = some (st, none)
  send_all st (m ∷ ms) = elim (write_ctx write st (to_bin c m)) [
    | none ↦ none
    | some (st', some e) ↦ some (st', some e)
    | some (st', none) ↦ send_all st' ms
  ]

  module _ {sent : S → Bytes} (w : IsWriter write sent) where
    send_all-wire :
        (st : S) (ms : List Message) {st' : S}
        → send_all st ms ≡ some (st', none)
        → sent st' ≡ sent st ++ wire c ms
    unfolding send_all
    send_all-wire st [] {st'} h =
        let same : st' ≡ st = cc in ap sent same ∙ sym (append-nil (sent st))
    send_all-wire st (m ∷ ms) {st'} h =
        let (r, ran, wrote) = write_ctx_lem write w st (to_bin c m) in
        first r ran wrote (λ st1 g. send_all-wire st1 ms g)
      where
        first :
            (r : S × Option E)
            → write_ctx write st (to_bin c m) ≡ some r
            → ((k : ℕ) × (sent r.0 ≡ sent st ++ take k (frame (to_bin c m)))
                × (k ≤ length (frame (to_bin c m)))
                × (r.1 ≡ none → k ≡ length (frame (to_bin c m))))
            → ((st1 : S) → send_all st1 ms ≡ some (st', none) → sent st' ≡ sent st1 ++ wire c ms)
            → sent st' ≡ sent st ++ (frame (to_bin c m) ++ wire c ms)
        first (st1, some e) ran wrote next = cc
        first (st1, none) ran (k, out, le, all) next =
            let b = frame (to_bin c m) in
            next st1 (ground arith)
            ∙ ap (λ (x : Bytes). x ++ wire c ms)
                (out
                  ∙ ap (λ (i : ℕ). sent st ++ take i b) (all refl)
                  ∙ ap (λ (x : Bytes). sent st ++ x) (take_all (length b) b (omega arith)))
            ∙ append_assoc (sent st) b (wire c ms)

    -- For every codec with the documented round trip and every io.Writer that keeps its contract:
    -- messages that are sent by WriteCtx one after the other without an error are received by as
    -- many calls of ReadCtx, in order and unchanged, however the bytes that were written are cut
    -- into reads, if nothing was sent before, the messages are plain for the codec and each frame
    -- fits the 64 KiB buffer of the scanner.
    pub receive-send_all :
        (st : S) (ms : List Message) {st' : S} (reads : List Bytes)
        → All c.IsPlain ms
        → All (λ m. Fits (to_bin c m)) ms
        → sent st ≡ []
        → send_all st ms ≡ some (st', none)
        → joined reads ≡ sent st'
        → (s' : Scanner) × (receive c (length ms) (open_scanner reads) ≡ some (s', ms, none))
    receive-send_all st ms {st'} reads plain fit fresh ok arrived =
        let bytes : joined reads ≡ wire c ms ++ [] =
          arrived
          ∙ send_all-wire st ms ok
          ∙ ap (λ (x : Bytes). x ++ wire c ms) fresh
          ∙ sym (append-nil (wire c ms)) in
        let (s', ran, live, left) =
          receive-wire c ms (open_scanner reads) [] (record { no_error = refl; not_done = refl })
            plain fit bytes in
        (s', ran)
