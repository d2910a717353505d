-- ===== src/Logger/Entry/Derive.antt =====
-- The methods that make an entry from another, as operations on values.
use fancy_go.Base.{ℕ, ◌<◌, ◌≡◌, refl, ◌∙◌, true, not, ◌||◌, ◌&&◌, [], ◌∷◌, some, arith, Bytes}
use fancy_go.Base.Dict.{Dict, lookup, lookup-insert, first_of, first_of-none, lookup-nil}
use fancy_go.ErrorCode.Wrap.{put_all}
use fancy_go.ErrorCode.Preserve.{lookup-put_all}
use fancy_go.Logger.Entry.{
  is_empty, plain, data_map, Store, Texts, with_field, with_data, with_data_map, set_stack_skip,
  set_level,
}
use fancy_go.Logger.Entry.Refine.{
  value, put, show_field, view, Separate, Describes, is_empty-insert, is_empty-put_all,
}

lookup-copy : {A : Type 0} (j : Bytes) (m : Dict A) → lookup j (put_all [] m) ≡ lookup j m
lookup-copy j m = lookup-put_all j [] m ∙ rw lookup-nil (first_of-none (lookup j m))

is_empty-put_all_on :
    {A : Type 0} (m mp : Dict A) → is_empty (put_all m mp) ≡ (is_empty mp && is_empty m)
unfolding put_all
is_empty-put_all_on m [] = refl
is_empty-put_all_on m ((k, v) ∷ mp) = is_empty-insert k v (put_all m mp)

module _ {V : Type 0} (texts : Texts V) (i : ℕ) (s : Store V) (small : i < s.count)
    (sep : Separate s) where
  -- The copy of the fields that `clone` makes.
  copied_shows :
      (j : Bytes)
      → show_field s.data_maps (lookup j (put_all [] (s.field_maps (s.entries i).fields)))
        ≡ (view s i).fields j
  copied_shows j = ground (arith, lookup-copy j (s.field_maps (s.entries i).fields))

  copied_made :
      (j : Bytes) (r : ℕ)
      → lookup j (put_all [] (s.field_maps (s.entries i).fields)) ≡ some (data_map r)
      → r < s.count
  copied_made j r e = ground (
    arith,
    lookup-copy j (s.field_maps (s.entries i).fields),
    sep.own_fields i,
    sep.old_maps i r j,
  )

  pub with_field-Describes :
      (k : Bytes) (v : V)
      → Describes s
          (with_field texts i k v s)
          (record (view s i) { fields = put k (value v) (view s i).fields })
  unfolding with_field
  with_field-Describes k v = record {
    counted = refl;
    kept_entry = λ j h. ground arith;
    kept_data = λ j h. ground arith;
    kept_fields = λ j h. ground arith;
    entry = ground arith;
    values = λ j. ground (arith, lookup-copy j (s.data_maps (s.entries i).values));
    has_values = ground (arith, is_empty-put_all (s.data_maps (s.entries i).values));
    fields = λ j. ground (
      arith,
      lookup-insert k j (plain v) (put_all [] (s.field_maps (s.entries i).fields)),
      copied_shows j,
    );
    made = λ j r e. ground (
      arith,
      lookup-insert k j (plain v) (put_all [] (s.field_maps (s.entries i).fields)),
      copied_made j r,
    );
  }

  pub with_data-Describes :
      (k : Bytes) (v : V)
      → Describes s
          (with_data texts i k v s)
          (record (view s i) { values = put k v (view s i).values; has_values = true })
  unfolding with_data
  with_data-Describes k v = record {
    counted = refl;
    kept_entry = λ j h. ground arith;
    kept_data = λ j h. ground arith;
    kept_fields = λ j h. ground arith;
    entry = ground arith;
    values = λ j. ground (
      arith,
      lookup-insert k j v (put_all [] (s.data_maps (s.entries i).values)),
      lookup-copy j (s.data_maps (s.entries i).values),
    );
    has_values =
        ground (arith, is_empty-insert k v (put_all [] (s.data_maps (s.entries i).values)));
    fields = λ j. ground (arith, copied_shows j);
    made = λ j r e. ground (arith, copied_made j r);
  }

  pub with_data_map-Describes :
      (mp : Dict V)
      → Describes s (with_data_map texts i mp s) (record (view s i) {
        values = λ j. first_of (lookup j mp) ((view s i).values j);
        has_values = not (is_empty mp) || (view s i).has_values;
      })
  unfolding with_data_map
  with_data_map-Describes mp = record {
    counted = refl;
    kept_entry = λ j h. ground arith;
    kept_data = λ j h. ground arith;
    kept_fields = λ j h. ground arith;
    entry = ground arith;
    values = λ j. ground (
      arith,
      lookup-put_all j (put_all [] (s.data_maps (s.entries i).values)) mp,
      lookup-copy j (s.data_maps (s.entries i).values),
    );
    has_values = ground (
      arith,
      is_empty-put_all (s.data_maps (s.entries i).values),
      is_empty-put_all_on (put_all [] (s.data_maps (s.entries i).values)) mp,
    );
    fields = λ j. ground (arith, copied_shows j);
    made = λ j r e. ground (arith, copied_made j r);
  }

  pub set_stack_skip-Describes :
      (n : ℕ) → Describes s (set_stack_skip texts i n s) (record (view s i) { stack_skip = n })
  unfolding set_stack_skip
  set_stack_skip-Describes n = record {
    counted = refl;
    kept_entry = λ j h. ground arith;
    kept_data = λ j h. ground arith;
    kept_fields = λ j h. ground arith;
    entry = ground arith;
    values = λ j. ground (arith, lookup-copy j (s.data_maps (s.entries i).values));
    has_values = ground (arith, is_empty-put_all (s.data_maps (s.entries i).values));
    fields = λ j. ground (arith, copied_shows j);
    made = λ j r e. ground (arith, copied_made j r);
  }

  pub set_level-Describes :
      (n : ℕ) → Describes s (set_level texts i n s) (record (view s i) { level = n })
  unfolding set_level
  set_level-Describes n = record {
    counted = refl;
    kept_entry = λ j h. ground arith;
    kept_data = λ j h. ground arith;
    kept_fields = λ j h. ground arith;
    entry = ground arith;
    values = λ j. ground (arith, lookup-copy j (s.data_maps (s.entries i).values));
    has_values = ground (arith, is_empty-put_all (s.data_maps (s.entries i).values));
    fields = λ j. ground (arith, copied_shows j);
    made = λ j r e. ground (arith, copied_made j r);
  }
