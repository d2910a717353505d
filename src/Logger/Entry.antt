-- ===== src/Logger/Entry.antt =====
-- utils/logger/unilog.go: entries, their maps in a store, and what logging does to them.
pub mod Refine
pub mod Derive
pub mod Log
pub mod Runs
pub mod Stage
use fancy_go.Base.{
  set_at, ℕ, ◌+◌, Bool, true, false, not, List, [], ◌∷◌, ◌++◌, Option, none, some, Bytes, codes,
  ltb, ◌==◌, if◌then◌else◌, length,
}
use fancy_go.Base.Dict.{Dict, lookup, insert}
use fancy_go.Base.Strings.{is_nil}
use fancy_go.ErrorCode.Wrap.{put_all}
use fancy_go.Logger.Level.{trace_level}

abbrev pub is_empty {ℓ} : {A : Type ℓ} → List A → Bool
is_empty [] = true
is_empty (x ∷ xs) = false

-- A value of the map `fields`: one that was given, or the map `data` of an entry.
pub data Field (V : Type 0) : Type 0 where
  plain : V → Field V
  data_map : ℕ → Field V

-- `entry`, without its writer. `values` is `data`; both maps are references.
pub record Entry : Type 0 where
  pub values : ℕ
  pub fields : ℕ
  pub hooks : List ℕ
  pub stack_skip : ℕ
  pub level : ℕ

-- The entries that have been made, and the maps that they refer to.
pub record Store (V : Type 0) : Type 0 where
  pub count : ℕ
  pub entries : ℕ → Entry
  pub data_maps : ℕ → Dict V
  pub field_maps : ℕ → Dict (Field V)

-- The values that are texts.
pub record Texts (V : Type 0) : Type 0 where
  pub as_text : V → Option Bytes
  pub of_text : Bytes → V

-- `WithStage`: the new stage, from that of the entry if it is a text.
unfoldable pub next_stage : Option Bytes → Bytes → Bytes
next_stage old stage = if is_nil stage then stage else elim old [
  | none ↦ stage
  | some o ↦ (if ltb 500 (length o) then codes "$stage-too-long$" else o) ++ (codes "." ++ stage)
]

module _ {V : Type 0} (texts : Texts V) where
  unfoldable pub text_of : Option (Field V) → Option Bytes
  text_of none = none
  text_of (some (plain v)) = texts.as_text v
  text_of (some (data_map r)) = none

  -- `clone`: a new entry with copies of both maps and of the hooks.
  unfoldable pub clone : ℕ → Store V → Store V
  clone i s = record {
    count = s.count + 1;
    entries =
        set_at s.count (record (s.entries i) { values = s.count; fields = s.count }) s.entries;
    data_maps = set_at s.count (put_all [] (s.data_maps (s.entries i).values)) s.data_maps;
    field_maps = set_at s.count (put_all [] (s.field_maps (s.entries i).fields)) s.field_maps;
  }

  -- The new entry is the one numbered `count` before the call.
  unfoldable pub with_field : ℕ → Bytes → V → Store V → Store V
  unfolding clone
  with_field i name value s =
      let n = s.count in
      let c = clone i s in
      record c { field_maps = set_at n (insert name (plain value) (c.field_maps n)) c.field_maps }

  unfoldable pub with_data : ℕ → Bytes → V → Store V → Store V
  unfolding clone
  with_data i key value s =
      let n = s.count in
      let c = clone i s in
      record c { data_maps = set_at n (insert key value (c.data_maps n)) c.data_maps }

  unfoldable pub with_data_map : ℕ → Dict V → Store V → Store V
  unfolding clone
  with_data_map i mp s =
      let n = s.count in
      let c = clone i s in
      record c { data_maps = set_at n (put_all (c.data_maps n) mp) c.data_maps }

  unfoldable pub set_stack_skip : ℕ → ℕ → Store V → Store V
  unfolding clone
  set_stack_skip i skip s =
      let c = clone i s in
      record c {
        entries = set_at s.count (record (c.entries s.count) { stack_skip = skip }) c.entries;
      }

  unfoldable pub set_level : ℕ → ℕ → Store V → Store V
  unfolding clone
  set_level i level s =
      let c = clone i s in
      record c { entries = set_at s.count (record (c.entries s.count) { level = level }) c.entries }

  unfoldable pub with_type : ℕ → V → Store V → Store V
  unfolding with_field
  with_type i typ = with_field i (codes "type") typ

  unfoldable pub with_object_id : ℕ → V → Store V → Store V
  unfolding with_field
  with_object_id i id = with_field i (codes "id") id

  unfoldable pub with_stage : ℕ → Bytes → Store V → Store V
  unfolding with_field text_of next_stage
  with_stage i stage s =
      with_field i (codes "stage")
        (texts.of_text
          (next_stage (text_of (lookup (codes "stage") (s.field_maps (s.entries i).fields))) stage))
        s

  unfoldable pub add_hook : ℕ → ℕ → Store V → Store V
  add_hook i hook s = record s {
    entries =
        set_at i (record (s.entries i) { hooks = (s.entries i).hooks ++ hook ∷ [] }) s.entries;
  }

  -- `logLevel`, as far as it changes the entry: data that is not empty is entered into its fields.
  unfoldable pub log_level : ℕ → ℕ → Store V → Store V
  log_level i level s =
      if ltb (s.entries i).level level
      then s
      else if is_empty (s.data_maps (s.entries i).values)
      then s
      else record s {
        field_maps =
            set_at (s.entries i).fields
              (insert (codes "data") (data_map (s.entries i).values)
                (s.field_maps (s.entries i).fields))
              s.field_maps;
      }

  -- `Logger`, the first time that it is called with a name.
  unfoldable pub logger : Bytes → ℕ → Store V → Store V
  logger name hook s = record {
    count = s.count + 1;
    entries =
        set_at s.count
          (record {
            values = s.count;
            fields = s.count;
            hooks = hook ∷ [];
            stack_skip = 0;
            level = trace_level;
          })
          s.entries;
    data_maps = set_at s.count [] s.data_maps;
    field_maps = set_at s.count ((codes "type", plain (texts.of_text name)) ∷ []) s.field_maps;
  }
