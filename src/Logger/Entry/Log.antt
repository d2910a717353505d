-- ===== src/Logger/Entry/Log.antt =====
-- Logging, new loggers, hooks and stages, as operations on values.
use fancy_go.Base.{
  ℕ, ◌<◌, ◌≡◌, ◌≢◌, refl, subst, false, [], ◌∷◌, ◌++◌, Option, none, some, arith, Bytes, codes,
  eq_bytes, ltb, if◌then◌else◌,
}
use fancy_go.Base.Dict.{lookup, lookup-insert}
use fancy_go.Logger.Level.{trace_level}
use fancy_go.Logger.Entry.{
  Field, plain, data_map, Store, Texts, next_stage, text_of, with_stage, add_hook, log_level,
  logger,
}
use fancy_go.Logger.Entry.Refine.{
  Shown, value, nested, Plain, Plain-ext, put, show_field, view, Separate, Describes,
}
use fancy_go.Logger.Entry.Derive.{with_field-Describes}

-- A change of one entry: it stands for a given value, and the others for what they did.
pub record Changes {V : Type 0} (s s' : Store V) (i : ℕ) (a : Plain V) : Type 0 where
  pub counted : s'.count ≡ s.count
  pub changed : view s' i ≡ a
  pub same : (k : ℕ) → k < s.count → k ≢ i → view s' k ≡ view s k
  pub separate : Separate s'

-- The text that a shown field is.
abbrev pub shown_text : {V : Type 0} → Texts V → Option (Shown V) → Option Bytes
shown_text texts none = none
shown_text texts (some (value v)) = texts.as_text v
shown_text texts (some (nested m)) = none

-- An entry after it has been logged at a level.
abbrev pub logged : {V : Type 0} → ℕ → Plain V → Plain V
logged level a =
    if ltb a.level level
    then a
    else if a.has_values
    then record a { fields = put (codes "data") (nested a.values) a.fields }
    else a

abbrev pub staged : {V : Type 0} → Texts V → Bytes → Plain V → Plain V
staged texts stage a = record a {
  fields =
      put (codes "stage")
        (value (texts.of_text (next_stage (shown_text texts (a.fields (codes "stage"))) stage)))
        a.fields;
}

abbrev pub new_logger : {V : Type 0} → Texts V → Bytes → ℕ → Plain V
new_logger texts name hook = record {
  values = λ j. none;
  has_values = false;
  fields = λ j. if eq_bytes (codes "type") j then some (value (texts.of_text name)) else none;
  hooks = hook ∷ [];
  stack_skip = 0;
  level = trace_level;
}

module _ {V : Type 0} (texts : Texts V) (s : Store V) (sep : Separate s) where
  pub logger-Describes :
      (name : Bytes) (hook : ℕ)
      → Describes s (logger texts name hook s) (new_logger texts name hook)
  unfolding logger lookup
  logger-Describes name hook = record {
    counted = refl;
    kept_entry = λ j h. ground arith;
    kept_data = λ j h. ground arith;
    kept_fields = λ j h. ground arith;
    entry = ground arith;
    values = λ j. ground arith;
    has_values = ground arith;
    fields = λ j. ground arith;
    made = λ j r e. ground arith;
  }

  module _ (i : ℕ) (small : i < s.count) where
    text_of-show :
        (o : Option (Field V)) → text_of texts o ≡ shown_text texts (show_field s.data_maps o)
    unfolding text_of
    text_of-show none = refl
    text_of-show (some (plain v)) = refl
    text_of-show (some (data_map r)) = refl

    pub with_stage-Describes :
        (stage : Bytes) → Describes s (with_stage texts i stage s) (staged texts stage (view s i))
    unfolding with_stage
    with_stage-Describes stage =
        subst
          (λ (old : Option Bytes). Describes s (with_stage texts i stage s) (record (view s i) {
            fields =
                put (codes "stage") (value (texts.of_text (next_stage old stage)))
                  (view s i).fields;
          }))
          (text_of-show (lookup (codes "stage") (s.field_maps (s.entries i).fields)))
          (with_field-Describes texts i s small sep (codes "stage") _)

    pub add_hook-Changes :
        (hook : ℕ)
        → Changes s
            (add_hook texts i hook s)
            i
            (record (view s i) { hooks = (view s i).hooks ++ hook ∷ [] })
    unfolding add_hook
    add_hook-Changes hook = record {
      counted = refl;
      changed =
          Plain-ext _ _ (λ j. ground arith) (ground arith) (λ j. ground arith) (ground arith)
            (ground arith) (ground arith);
      same = λ k h g.
          Plain-ext _ _ (λ j. ground arith) (ground arith) (λ j. ground arith) (ground arith)
            (ground arith) (ground arith);
      separate = record {
        own_values = λ k h. ground (arith, sep.own_values k);
        own_fields = λ k h. ground (arith, sep.own_fields k);
        old_maps = sep.old_maps;
      };
    }

    pub log_level-Changes :
        (level : ℕ) → Changes s (log_level texts i level s) i (logged level (view s i))
    unfolding log_level
    log_level-Changes level = record {
      counted = ground arith;
      changed =
          Plain-ext _ _ (λ j. ground arith) (ground arith)
            (λ j. ground (
              arith,
              lookup-insert (codes "data") j (data_map (s.entries i).values)
                  (s.field_maps (s.entries i).fields),
            ))
            (ground arith) (ground arith) (ground arith);
      same = λ k h g.
          Plain-ext _ _ (λ j. ground arith) (ground arith)
            (λ j. ground (arith, sep.own_fields k, sep.own_fields i)) (ground arith) (ground arith)
            (ground arith);
      separate = record {
        own_values = λ k h. ground (arith, sep.own_values k);
        own_fields = λ k h. ground (arith, sep.own_fields k);
        old_maps = λ k r j h e. ground (
          arith,
          sep.old_maps k r j,
          sep.own_fields i,
          sep.own_values i,
          lookup-insert (codes "data") j (data_map (s.entries i).values)
              (s.field_maps (s.entries i).fields),
        );
      };
    }
