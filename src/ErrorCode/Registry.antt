-- ===== src/ErrorCode/Registry.antt =====
-- `Define` and the table `codeMap` of the codes that are taken.
use fancy_go.Base.{
  ◌≡◌, ◌≢◌, refl, ap, ◌∙◌, List, [], ◌∷◌, Option, none, some, arith, if◌then◌else◌, Bytes, inl, inr,
  Option-cases, All,
}
use fancy_go.Base.Int.{ℤ, eq_int, eq_int_iff}
use fancy_go.ErrorCode.Types.{Errors}
use fancy_go.ErrorCode.Wrap.{WithCode, new_error}

abbrev pub CodeMap : Type 0
CodeMap = List (ℤ × Bytes)

unfoldable pub message_of : ℤ → CodeMap → Option Bytes
message_of c [] = none
message_of c ((d, s) ∷ m) = if eq_int d c then some s else message_of c m

abbrev pub Distinct : List (ℤ × Bytes) → Type 0
Distinct [] = Unit
Distinct ((c, s) ∷ rest) = All (λ d. d.0 ≢ c) rest × Distinct rest

module _ (lib : Errors) (caller : lib.Frame) where
  -- `define`, with the table before and after; `none` is the panic at a code that is taken.
  unfoldable pub define : CodeMap → ℤ → Bytes → Option (CodeMap × WithCode lib)
  define table code message = elim (message_of code table) [
    | some _ ↦ none
    | none ↦ some ((code, message) ∷ table, new_error caller code message)
  ]

  -- A sequence of definitions, as package variables make them; `none` if one panics.
  unfoldable pub define_all : CodeMap → List (ℤ × Bytes) → Option (CodeMap × List (WithCode lib))
  define_all table [] = some (table, [])
  define_all table ((c, s) ∷ rest) = elim (define table c s) [
    | none ↦ none
    | some (table', e) ↦ elim (define_all table' rest) [
      | none ↦ none
      | some (table'', es) ↦ some (table'', e ∷ es)
    ]
  ]

  -- What a successful sequence has done first.
  define_all-inv :
      (table : CodeMap) (c : ℤ) (s : Bytes) (rest : List (ℤ × Bytes)) {table' : CodeMap}
      {es : List (WithCode lib)}
      → define_all table ((c, s) ∷ rest) ≡ some (table', es)
      → (es' : List (WithCode lib)) × (message_of c table ≡ none)
        × (define_all ((c, s) ∷ table) rest ≡ some (table', es'))
        × (es ≡ new_error caller c s ∷ es')
  unfolding define_all define
  define_all-inv table c s rest h = elim (Option-cases (message_of c table)) [
    | inr (t, taken) ↦ absurd (ground (arith, taken))
    | inl free ↦ elim (Option-cases (define_all ((c, s) ∷ table) rest)) [
      | inl failed ↦ absurd (ground (arith, free, failed))
      | inr ((t, es'), done) ↦ (es', free, ground (arith, free, done), ground (arith, free, done))
    ]
  ]

  message_of-cons :
      (c d : ℤ) (s : Bytes) (table : CodeMap)
      → message_of c ((d, s) ∷ table) ≡ (if eq_int d c then some s else message_of c table)
  unfolding message_of
  message_of-cons c d s table = refl

  -- A code that is taken stays so, and is not defined again.
  define_all_keeps :
      (table : CodeMap) (defs : List (ℤ × Bytes)) (c : ℤ) (s : Bytes) {table' : CodeMap}
      {es : List (WithCode lib)}
      → define_all table defs ≡ some (table', es)
      → message_of c table ≡ some s
      → (message_of c table' ≡ some s) × All (λ d. d.0 ≢ c) defs
  define_all_keeps table [] c s h taken = unfold define_all in (ground arith, tt)
  define_all_keeps table ((d, t) ∷ rest) c s h taken =
      let (es', free, later, _) = define_all-inv table d t rest h in
      let other : d ≢ c = λ e. cc (ap (λ (k : ℤ). message_of k table) e) in
      let (kept, fresh) =
        define_all_keeps ((d, t) ∷ table) rest c s later
          (message_of-cons c d t table ∙ ground (arith, other, taken, eq_int_iff d c)) in
      (kept, (other, fresh))

  -- If a sequence of calls of Define on a table of codes panics nowhere, the defined codes are
  -- pairwise distinct and the table has the text of each afterwards.
  define_all_lem :
      (table : CodeMap) (defs : List (ℤ × Bytes)) {table' : CodeMap} {es : List (WithCode lib)}
      → define_all table defs ≡ some (table', es)
      → Distinct defs × All (λ d. message_of d.0 table' ≡ some d.1) defs
  define_all_lem table [] h = (tt, tt)
  define_all_lem table ((c, s) ∷ rest) h =
      let (es', free, later, _) = define_all-inv table c s rest h in
      let first = message_of-cons c c s table ∙ ground (arith, eq_int_iff c c) in
      let (kept, fresh) = define_all_keeps ((c, s) ∷ table) rest c s later first in
      let (distinct, listed) = define_all_lem ((c, s) ∷ table) rest later in
      ((fresh, distinct), (kept, listed))
