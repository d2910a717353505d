-- ===== src/Framing/Shared/Order.antt =====
-- The bytes of goroutines that write at once.
use mathlib.Core.List.{reverse, reverse-cons}
use fancy_go.Base.{
  ◌⊎◌, ℕ, zero, suc, ◌≡◌, refl, sym, ap, ◌∙◌, subst, set_at, true, false, Bool-cases, Option-cases,
  inl, inr, List, [], ◌∷◌, ◌++◌, Option, none, some, arith, Bytes, drop, take, length, All,
  append_assoc, append-nil, take-append-drop,
}
use fancy_go.Message.{Message, JsonCodec, to_bin}
use fancy_go.Framing.Frame.{frame}
use fancy_go.Framing.Scanner.{Scanner, open_scanner}
use fancy_go.Framing.Stream.{joined, Fits}
use fancy_go.Framing.Split.{is_empty}
use fancy_go.Framing.Writer.{Write, IsWriter, segment, take-segment}
use fancy_go.Framing.Channel.{wire, receive, receive-wire}
use fancy_go.Framing.Shared.{
  WriterPc, outside, writing, WriterStep, enter, proceed, Writers, open_writers, unlock, step, run,
}

wire-append : (c : JsonCodec) (ms ns : List Message) → wire c (ms ++ ns) ≡ wire c ms ++ wire c ns
wire-append c [] ns = refl
wire-append c (m ∷ ms) ns =
    ap (λ (b : Bytes). frame (to_bin c m) ++ b) (wire-append c ms ns)
    ∙ sym (append_assoc (frame (to_bin c m)) (wire c ms) (wire c ns))

wire-last :
    (c : JsonCodec) (ms : List Message) (m : Message)
    → wire c (reverse (m ∷ ms)) ≡ wire c (reverse ms) ++ frame (to_bin c m)
wire-last c ms m =
    ap (wire c) (reverse-cons m ms)
    ∙ (wire-append c (reverse ms) (m ∷ [])
        ∙ ap (λ (b : Bytes). wire c (reverse ms) ++ b) (append-nil (frame (to_bin c m))))

module _ (c : JsonCodec) {S E : Type 0} (write : Write S E) {sent : S → Bytes}
    (w : IsWriter write sent) where
  -- The goroutine with the mutex is the only one that writes, and what it has left completes the
  -- frames that were begun.
  pub record Whole (s : Writers S E) : Type 0 where
    pub holds : (i : ℕ) (b : Bytes) → s.pc i ≡ writing b → s.locked ≡ true
    pub alone : (i j : ℕ) (a b : Bytes) → s.pc i ≡ writing a → s.pc j ≡ writing b → i ≡ j
    pub free : s.errors ≡ [] → s.locked ≡ false → sent s.st ≡ wire c (reverse s.begun)
    pub held :
        (i : ℕ) (b : Bytes)
        → s.errors ≡ []
        → s.pc i ≡ writing b
        → sent s.st ++ b ≡ wire c (reverse s.begun)

  open_writers-Whole : (st : S) → sent st ≡ [] → Whole (open_writers c write st)
  open_writers-Whole st fresh = record {
    holds = λ i b h. absurd (cc);
    alone = λ i j a b h g. absurd (cc);
    free = λ e h. fresh;
    held = λ i b e h. absurd (cc);
  }

  after_segment :
      (st : S) (bin : Bytes)
      → (write st (segment bin)).2 ≡ none
      → sent (write st (segment bin)).0 ++ drop (write st (segment bin)).1 bin ≡ sent st ++ bin
  after_segment st bin clean =
      let n = (write st (segment bin)).1 in
      ap (λ (x : Bytes). x ++ drop n bin)
        (w.appends st (segment bin)
          ∙ ap (λ (x : Bytes). sent st ++ x) (take-segment bin n (w.bounded st (segment bin))))
      ∙ (append_assoc (sent st) (take n bin) (drop n bin)
          ∙ ap (λ (x : Bytes). sent st ++ x) (take-append-drop n bin))

  after_end : (st : S) → (write st []).2 ≡ none → sent (write st []).0 ≡ sent st ++ []
  after_end st clean = w.appends st [] ∙ ap (λ (x : Bytes). sent st ++ x) (take-nil (write st []).1)
    where
      take-nil : (n : ℕ) → ◌≡◌ {A = Bytes} (take n []) []
      take-nil zero = refl
      take-nil (suc n) = refl

  module _ (s s' : Writers S E) (h : Whole s) where
    open h use {holds, alone, free, held}

    enter-Whole : (i : ℕ) (m : Message) → step c write s (enter i m) ≡ some s' → Whole s'
    unfolding step
    enter-Whole i m e = record {
      holds = λ j b g. ground (arith, holds j b);
      alone = λ j k a b g g'. ground (arith, holds j a, holds k b);
      free = λ quiet g. ground (arith, free);
      held = λ j b quiet g. ground (arith, free, holds j b, wire-last c s.begun m);
    }

  module _ (s : Writers S E) (i : ℕ) (bin : Bytes) (here : s.pc i ≡ writing bin) (h : Whole s) where
    open h use {holds, alone, free, held}

    unlock-Whole :
        (st : S) (e : Option E)
        → (e ≡ none → s.errors ≡ [] → sent st ≡ wire c (reverse s.begun))
        → Whole (unlock c write s i st e)
    unlock-Whole st e bytes = record {
      holds = λ j b g. ground (arith, alone i j bin b here);
      alone = λ j k a b g g'. ground (arith, alone j k a b);
      free = λ quiet g. ground (arith, bytes);
      held = λ j b quiet g. ground (arith, alone i j bin b here);
    }

    segment-Whole :
        (st : S) (n : ℕ)
        → sent st ++ drop n bin ≡ sent s.st ++ bin
        → Whole (record s { st = st; pc = set_at i (writing (drop n bin)) s.pc })
    segment-Whole st n bytes = record {
      holds = λ j b g. holds i bin here;
      alone =
          λ j k a b g g'. ground (arith, alone i j bin a here, alone i k bin b here, alone j k a b);
      free = λ quiet g. ground (arith, holds i bin here);
      held = λ j b quiet g. ground (arith, bytes, held i bin quiet here, alone i j bin b here);
    }

    proceed-Whole : (s' : Writers S E) → step c write s (proceed i) ≡ some s' → Whole s'
    unfolding step is_empty
    proceed-Whole s' e = elim (Bool-cases (is_empty bin)) [
      | inl nothing ↦ subst Whole (ground (arith, here, nothing)) (
          unlock-Whole (write s.st bin).0 (write s.st bin).2
            (λ clean quiet. ground (arith, nothing, held i bin quiet here, after_end s.st)))
      | inr more ↦ elim (Option-cases (write s.st (segment bin)).2) [
        | inl clean ↦ subst Whole (ground (arith, here, more, clean)) (
            segment-Whole (write s.st (segment bin)).0 (write s.st (segment bin)).1
              (after_segment s.st bin clean))
        | inr (err, broken) ↦
            subst Whole (ground (arith, here, more, broken))
              (unlock-Whole (write s.st (segment bin)).0 (some err) (λ clean. absurd (cc)))
      ]
    ]

  writing-cases : (p : WriterPc) → (p ≡ outside) ⊎ ((b : Bytes) × (p ≡ writing b))
  writing-cases outside = inl refl
  writing-cases (writing b) = inr (b, refl)

  step-Whole :
      (s s' : Writers S E) (e : WriterStep) → step c write s e ≡ some s' → Whole s → Whole s'
  unfolding step
  step-Whole s s' (enter i m) e h = enter-Whole s s' h i m e
  step-Whole s s' (proceed i) e h = elim (writing-cases (s.pc i)) [
    | inl out ↦ absurd (ground (arith, out))
    | inr (bin, here) ↦ proceed-Whole s i bin here h s' e
  ]

  run-Whole :
      (s s' : Writers S E) (es : List WriterStep) → run c write s es ≡ some s' → Whole s → Whole s'
  unfolding run
  run-Whole s s' [] e h = subst Whole (ground arith) h
  run-Whole s s' (x ∷ xs) e h = elim (Option-cases (step c write s x)) [
    | inl stuck ↦ absurd (ground (arith, stuck))
    | inr (s1, taken) ↦ run-Whole s1 s' xs (ground (arith, taken)) (step-Whole s s1 x taken h)
  ]

  -- Whatever goroutines call WriteCtx at once, for every codec with the documented round trip,
  -- every io.Writer that keeps its contract and every order of their single writes: if no call
  -- has returned an error, none holds the mutex and nothing was sent before, then, however the
  -- bytes are cut into reads, as many calls of ReadCtx as WriteCtx has begun give back the
  -- messages, whole and unchanged, in the order in which their goroutines took the mutex, if the
  -- messages are plain for the codec and each frame fits the buffer of the scanner.
  pub receive-run :
      (st : S) (es : List WriterStep) (s : Writers S E) (reads : List Bytes)
      → sent st ≡ []
      → run c write (open_writers c write st) es ≡ some s
      → s.errors ≡ []
      → s.locked ≡ false
      → All c.IsPlain (reverse s.begun)
      → All (λ m. Fits (to_bin c m)) (reverse s.begun)
      → joined reads ≡ sent s.st
      → (x : Scanner) × (receive c (length (reverse s.begun)) (open_scanner reads)
          ≡ some (x, reverse s.begun, none))
  receive-run st es s reads fresh ran quiet idle plain fit arrived =
      let h = run-Whole (open_writers c write st) s es ran (open_writers-Whole st fresh) in
      let (x, got, live, left) =
        receive-wire c (reverse s.begun) (open_scanner reads) []
          (record { no_error = refl; not_done = refl }) plain fit
          (arrived ∙ (h.free quiet idle ∙ sym (append-nil (wire c (reverse s.begun))))) in
      (x, got)
