-- ===== src/Logger/Entry/Stage.antt =====
-- How long a stage gets.
use fancy_go.Base.{
  ℕ, ◌+◌, ◌≤◌, ◌≡◌, refl, sym, [], ◌∷◌, ◌++◌, append_assoc, Option, none, some, arith, Bytes, codes,
  ltb, if◌then◌else◌, length, length-append, eq_bytes_refl,
}
use fancy_go.Base.Dict.{lookup, lookup-insert}
use fancy_go.Base.Strings.{is_nil}
use fancy_go.ErrorCode.Wrap.{put_all}
use fancy_go.Logger.Entry.{plain, Store, Texts, next_stage, text_of, with_stage}

next_stage_bound :
    (old : Option Bytes) (stage : Bytes) → length (next_stage old stage) ≤ 501 + length stage
unfolding next_stage is_nil
next_stage_bound none [] = omega arith
next_stage_bound none (c ∷ s) = omega arith
next_stage_bound (some o) [] = omega arith
next_stage_bound (some o) (c ∷ s) = ground (arith, length-append o (codes "." ++ (c ∷ s)))

-- The new stage ends with the given one.
next_stage_ends :
    (old : Option Bytes) (stage : Bytes) → (front : Bytes) × (next_stage old stage ≡ front ++ stage)
unfolding next_stage is_nil
next_stage_ends none [] = ([], refl)
next_stage_ends none (c ∷ s) = ([], refl)
next_stage_ends (some o) [] = ([], refl)
next_stage_ends (some o) (c ∷ s) =
    let kept : Bytes = if ltb 500 (length o) then codes "$stage-too-long$" else o in
    (kept ++ codes ".", sym (append_assoc kept (codes ".") (c ∷ s)))

module _ {V : Type 0} (texts : Texts V) where
  -- The entry that WithStage makes has a stage that is a text, ends with the given text, and is
  -- at most 501 bytes longer than it, whatever the stage was before.
  pub with_stage_bound :
      (i : ℕ) (stage : Bytes) (s : Store V)
      → ((b : Bytes) → texts.as_text (texts.of_text b) ≡ some b)
      → (b : Bytes) × (text_of texts
            (lookup (codes "stage") ((with_stage texts i stage s).field_maps s.count))
          ≡ some b)
        × (length b ≤ 501 + length stage)
        × ((front : Bytes) × (b ≡ front ++ stage))
  unfolding with_stage text_of
  with_stage_bound i stage s reads =
      let old = text_of texts (lookup (codes "stage") (s.field_maps (s.entries i).fields)) in
      (
        next_stage old stage,
        ground (
          arith,
          reads (next_stage old stage),
          eq_bytes_refl (codes "stage"),
          lookup-insert (codes "stage") (codes "stage")
              (plain (texts.of_text (next_stage old stage)))
              (put_all [] (s.field_maps (s.entries i).fields)),
        ),
        next_stage_bound old stage,
        next_stage_ends old stage,
      )
