-- ===== src/Logger/Entry/Refine.antt =====
-- Entries as values: what the store of entries and maps stands for.
use mathlib.Core.Path.{fun_ext}
use fancy_go.Base.{
  ℕ, ◌+◌, ◌<◌, ◌≡◌, refl, ap, ◌∙◌, Bool, false, not, List, [], ◌∷◌, Option, none, some, arith,
  Bytes, eq_bytes, if◌then◌else◌,
}
use fancy_go.Base.Dict.{Dict, lookup, insert}
use fancy_go.ErrorCode.Wrap.{put_all}
use fancy_go.Logger.Entry.{is_empty, Field, plain, data_map, Entry, Store}

-- A field of a value: one that was given, or a map.
pub data Shown (V : Type 0) : Type 0 where
  value : V → Shown V
  nested : (Bytes → Option V) → Shown V

-- An entry as a value.
pub record Plain (V : Type 0) : Type 0 where
  pub values : Bytes → Option V
  pub has_values : Bool
  pub fields : Bytes → Option (Shown V)
  pub hooks : List ℕ
  pub stack_skip : ℕ
  pub level : ℕ

abbrev pub put {ℓ} : {A : Type ℓ} → Bytes → A → (Bytes → Option A) → Bytes → Option A
put k a f j = if eq_bytes k j then some a else f j

module _ {V : Type 0} where
  pub Plain-ext :
      (a b : Plain V)
      → ((j : Bytes) → a.values j ≡ b.values j)
      → a.has_values ≡ b.has_values
      → ((j : Bytes) → a.fields j ≡ b.fields j)
      → a.hooks ≡ b.hooks
      → a.stack_skip ≡ b.stack_skip
      → a.level ≡ b.level
      → a ≡ b
  Plain-ext a b v h f k s l = cc (fun_ext v, fun_ext f)

pub is_empty-insert {ℓ} :
    {A : Type ℓ} (k : Bytes) (v : A) (m : Dict A) → is_empty (insert k v m) ≡ false
unfolding insert
is_empty-insert k v [] = refl
is_empty-insert k v ((j, w) ∷ m) = ground arith

pub is_empty-put_all : {A : Type 0} (m : Dict A) → is_empty (put_all [] m) ≡ is_empty m
unfolding put_all
is_empty-put_all [] = refl
is_empty-put_all ((k, v) ∷ m) = is_empty-insert k v (put_all [] m)

module _ {V : Type 0} where
  abbrev pub show_field : (ℕ → Dict V) → Option (Field V) → Option (Shown V)
  show_field maps none = none
  show_field maps (some (plain v)) = some (value v)
  show_field maps (some (data_map r)) = some (nested (λ k. lookup k (maps r)))

  -- The value that an entry of the store stands for.
  abbrev pub view : Store V → ℕ → Plain V
  view s i = record {
    values = λ j. lookup j (s.data_maps (s.entries i).values);
    has_values = not (is_empty (s.data_maps (s.entries i).values));
    fields = λ j. show_field s.data_maps (lookup j (s.field_maps (s.entries i).fields));
    hooks = (s.entries i).hooks;
    stack_skip = (s.entries i).stack_skip;
    level = (s.entries i).level;
  }

  -- Every entry has the maps with its own number, and refers to none that is not made.
  pub record Separate (s : Store V) : Type 0 where
    pub own_values : (i : ℕ) → i < s.count → (s.entries i).values ≡ i
    pub own_fields : (i : ℕ) → i < s.count → (s.entries i).fields ≡ i
    pub old_maps :
        (i r : ℕ) (j : Bytes)
        → i < s.count
        → lookup j (s.field_maps i) ≡ some (data_map r)
        → r < s.count

  -- Fields that refer to maps made before look the same when a map is added.
  show_field-same :
      (maps maps' : ℕ → Dict V) (n : ℕ) (o : Option (Field V))
      → ((r : ℕ) → r < n → maps' r ≡ maps r)
      → ((r : ℕ) → o ≡ some (data_map r) → r < n)
      → show_field maps' o ≡ show_field maps o
  show_field-same maps maps' n none same old = refl
  show_field-same maps maps' n (some (plain v)) same old = refl
  show_field-same maps maps' n (some (data_map r)) same old =
      ap (λ (m : Dict V). some (nested (λ k. lookup k m))) (same r (old r refl))

  -- A store with one entry more, which stands for a given value; the others stand for what they did.
  pub record Adds (s s' : Store V) (a : Plain V) : Type 0 where
    pub counted : s'.count ≡ s.count + 1
    pub new : view s' s.count ≡ a
    pub old : (k : ℕ) → k < s.count → view s' k ≡ view s k
    pub separate : Separate s'

  -- How an operation shows that: the old entries and maps are kept, and the new ones are described.
  pub record Describes (s s' : Store V) (a : Plain V) : Type 0 where
    pub counted : s'.count ≡ s.count + 1
    pub kept_entry : (k : ℕ) → k < s.count → s'.entries k ≡ s.entries k
    pub kept_data : (k : ℕ) → k < s.count → s'.data_maps k ≡ s.data_maps k
    pub kept_fields : (k : ℕ) → k < s.count → s'.field_maps k ≡ s.field_maps k
    pub entry : s'.entries s.count ≡ record {
      values = s.count;
      fields = s.count;
      hooks = a.hooks;
      stack_skip = a.stack_skip;
      level = a.level;
    }
    pub values : (j : Bytes) → lookup j (s'.data_maps s.count) ≡ a.values j
    pub has_values : not (is_empty (s'.data_maps s.count)) ≡ a.has_values
    pub fields :
        (j : Bytes) → show_field s.data_maps (lookup j (s'.field_maps s.count)) ≡ a.fields j
    pub made :
        (j : Bytes) (r : ℕ) → lookup j (s'.field_maps s.count) ≡ some (data_map r) → r < s.count

  module _ (s s' : Store V) (a : Plain V) (sep : Separate s) (d : Describes s s' a) where
    old_view : (k : ℕ) → k < s.count → view s' k ≡ view s k
    old_view k small =
        Plain-ext (view s' k) (view s k)
          (λ j. ground (arith, d.kept_entry k, d.kept_data k, sep.own_values k))
          (ground (arith, d.kept_entry k, d.kept_data k, sep.own_values k))
          (λ j.
            ap (show_field s'.data_maps) (same j)
            ∙ show_field-same s.data_maps s'.data_maps s.count
                (lookup j (s.field_maps (s.entries k).fields)) d.kept_data
                (λ r e. ground (arith, e, sep.old_maps k r j, sep.own_fields k)))
          (ap (λ (e : Entry). e.hooks) (d.kept_entry k small))
          (ap (λ (e : Entry). e.stack_skip) (d.kept_entry k small))
          (ap (λ (e : Entry). e.level) (d.kept_entry k small))
      where
        same :
            (j : Bytes)
            → lookup j (s'.field_maps (s'.entries k).fields)
              ≡ lookup j (s.field_maps (s.entries k).fields)
        same j = ground (arith, d.kept_entry k, d.kept_fields k, sep.own_fields k)

    new_view : view s' s.count ≡ a
    new_view =
        Plain-ext (view s' s.count) a (λ j. ground (arith, d.entry, d.values j))
          (ground (arith, d.entry, d.has_values))
          (λ j.
            ap (show_field s'.data_maps) (same j)
            ∙ (show_field-same s.data_maps s'.data_maps s.count (lookup j (s'.field_maps s.count))
                  d.kept_data (λ r e. d.made j r e)
                ∙ d.fields j))
          (ap (λ (e : Entry). e.hooks) d.entry) (ap (λ (e : Entry). e.stack_skip) d.entry)
          (ap (λ (e : Entry). e.level) d.entry)
      where
        same :
            (j : Bytes)
            → lookup j (s'.field_maps (s'.entries s.count).fields)
              ≡ lookup j (s'.field_maps s.count)
        same j = ground (arith, d.entry)

    new-Separate : Separate s'
    new-Separate = record {
      own_values = λ i h. ground (arith, d.counted, d.kept_entry i, sep.own_values i, d.entry);
      own_fields = λ i h. ground (arith, d.counted, d.kept_entry i, sep.own_fields i, d.entry);
      old_maps =
          λ i r j h e. ground (arith, d.counted, d.kept_fields i, sep.old_maps i r j, d.made j r);
    }

    pub adds : Adds s s' a
    adds = record { counted = d.counted; new = new_view; old = old_view; separate = new-Separate }
