-- ===== src/Logger/Entry/Runs.antt =====
-- Any use of loggers: the store of entries against plain values.
use fancy_go.Base.{
  set_at, ℕ, ◌+◌, ◌<◌, ◌≡◌, ◌≢◌, refl, sym, ap, ◌∙◌, subst, true, false, not, ◌||◌, List, [], ◌∷◌,
  ◌++◌, arith, Bytes, ltb, ltb→lt, ◌==◌, if◌then◌else◌, Bool-cases, inl, inr,
}
use fancy_go.Base.Dict.{Dict, lookup, first_of}
use fancy_go.Logger.Entry
use fancy_go.Logger.Entry.{is_empty, Store, Texts, next_stage}
use fancy_go.Logger.Entry.Refine.{Plain, value, put, view, Separate, Describes, adds}
use fancy_go.Logger.Entry.Derive.{
  with_field-Describes, with_data-Describes, with_data_map-Describes, set_stack_skip-Describes,
  set_level-Describes,
}
use fancy_go.Logger.Entry.Log.{
  Changes, logged, staged, new_logger, logger-Describes, with_stage-Describes, add_hook-Changes,
  log_level-Changes,
}

-- What is done with loggers; an entry is named by its number.
pub data Use (V : Type 0) : Type 0 where
  logger : Bytes → ℕ → Use V
  with_field : ℕ → Bytes → V → Use V
  with_data : ℕ → Bytes → V → Use V
  with_data_map : ℕ → Dict V → Use V
  with_stage : ℕ → Bytes → Use V
  set_stack_skip : ℕ → ℕ → Use V
  set_level : ℕ → ℕ → Use V
  add_hook : ℕ → ℕ → Use V
  log_level : ℕ → ℕ → Use V

-- The entries as values, numbered.
pub record Values (V : Type 0) : Type 0 where
  pub count : ℕ
  pub at : ℕ → Plain V

-- The value that a use adds, or the entry that it changes with its new value.
pub data Effect (V : Type 0) : Type 0 where
  adds_value : Plain V → Effect V
  changes_value : ℕ → Plain V → Effect V
  nothing : Effect V

-- The store stands for the values.
pub record Stands {V : Type 0} (s : Store V) (a : Values V) : Type 0 where
  pub counted : s.count ≡ a.count
  pub shows : (k : ℕ) → k < s.count → view s k ≡ a.at k
  pub separate : Separate s

module _ {V : Type 0} where
  unfoldable pub perform : Effect V → Values V → Values V
  perform (adds_value p) a = record { count = a.count + 1; at = set_at a.count p a.at }
  perform (changes_value i p) a = record a { at = set_at i p a.at }
  perform nothing a = a

  adds-Stands :
      (s s' : Store V) (a : Values V) (p : Plain V)
      → Stands s a
      → Describes s s' p
      → Stands s' (perform (adds_value p) a)
  unfolding perform
  adds-Stands s s' a p st d = record {
    counted = ground (arith, d.counted, st.counted);
    shows = λ k h. elim (Bool-cases (k == a.count)) [
      | inl new ↦
          ap (view s') (sym (equal k new)) ∙ ((adds s s' p st.separate d).new ∙ sym (rw new refl))
      | inr old ↦
          (adds s s' p st.separate d).old k (ground (arith, d.counted, st.counted, old, h))
          ∙ (st.shows k (ground (arith, d.counted, st.counted, old, h)) ∙ sym (rw old refl))
    ];
    separate = (adds s s' p st.separate d).separate;
  }
    where
      equal : (k : ℕ) → (k == a.count) ≡ true → s.count ≡ k
      equal k h = ground (arith, st.counted)

  -- An entry that is made from another, and one that is changed.
  derive-Stands :
      (s s' : Store V) (a : Values V) (i : ℕ) (f : Plain V → Plain V)
      → Stands s a
      → i < s.count
      → Describes s s' (f (view s i))
      → Stands s' (perform (adds_value (f (a.at i))) a)
  derive-Stands s s' a i f st small d =
      adds-Stands s s' a (f (a.at i)) st
        (subst (λ (p : Plain V). Describes s s' (f p)) (st.shows i small) d)

  change-Stands :
      (s s' : Store V) (a : Values V) (i : ℕ) (f : Plain V → Plain V)
      → Stands s a
      → i < s.count
      → Changes s s' i (f (view s i))
      → Stands s' (perform (changes_value i (f (a.at i))) a)
  unfolding perform
  change-Stands s s' a i f st small c = record {
    counted = c.counted ∙ st.counted;
    shows = λ k h. elim (Bool-cases (k == i)) [
      | inl same ↦
          ap (view s') (equal k same) ∙ (c.changed ∙ (ap f (st.shows i small) ∙ sym (rw same refl)))
      | inr other ↦
          c.same k (subst (λ (n : ℕ). k < n) c.counted h) (different k other)
          ∙ (st.shows k (subst (λ (n : ℕ). k < n) c.counted h) ∙ sym (rw other refl))
    ];
    separate = c.separate;
  }
    where
      equal : (k : ℕ) → (k == i) ≡ true → k ≡ i
      equal k h = ground arith

      different : (k : ℕ) → (k == i) ≡ false → k ≢ i
      different k h e = ground arith

abbrev joined : {V : Type 0} → Dict V → Plain V → Plain V
joined mp p = record p {
  values = λ j. first_of (lookup j mp) (p.values j);
  has_values = not (is_empty mp) || p.has_values;
}

module _ {V : Type 0} (texts : Texts V) where
  -- A use of an entry that has not been made is none.
  unfoldable pub act : Use V → Store V → Store V
  act (logger name hook) s = Entry.logger texts name hook s
  act (with_field i k v) s = if ltb i s.count then Entry.with_field texts i k v s else s
  act (with_data i k v) s = if ltb i s.count then Entry.with_data texts i k v s else s
  act (with_data_map i mp) s = if ltb i s.count then Entry.with_data_map texts i mp s else s
  act (with_stage i stage) s = if ltb i s.count then Entry.with_stage texts i stage s else s
  act (set_stack_skip i n) s = if ltb i s.count then Entry.set_stack_skip texts i n s else s
  act (set_level i n) s = if ltb i s.count then Entry.set_level texts i n s else s
  act (add_hook i hook) s = if ltb i s.count then Entry.add_hook texts i hook s else s
  act (log_level i level) s = if ltb i s.count then Entry.log_level texts i level s else s

  unfoldable pub effect : Use V → Values V → Effect V
  effect (logger name hook) a = adds_value (new_logger texts name hook)
  effect (with_field i k v) a =
      if ltb i a.count
      then adds_value (record (a.at i) { fields = put k (value v) (a.at i).fields })
      else nothing
  effect (with_data i k v) a =
      if ltb i a.count
      then adds_value (record (a.at i) { values = put k v (a.at i).values; has_values = true })
      else nothing
  effect (with_data_map i mp) a = if ltb i a.count then adds_value (joined mp (a.at i)) else nothing
  effect (with_stage i stage) a =
      if ltb i a.count then adds_value (staged texts stage (a.at i)) else nothing
  effect (set_stack_skip i n) a =
      if ltb i a.count then adds_value (record (a.at i) { stack_skip = n }) else nothing
  effect (set_level i n) a =
      if ltb i a.count then adds_value (record (a.at i) { level = n }) else nothing
  effect (add_hook i hook) a =
      if ltb i a.count
      then changes_value i (record (a.at i) { hooks = (a.at i).hooks ++ hook ∷ [] })
      else nothing
  effect (log_level i level) a =
      if ltb i a.count then changes_value i (logged level (a.at i)) else nothing

  unfoldable pub run : List (Use V) → Store V → Store V
  run [] s = s
  run (u ∷ us) s = run us (act u s)

  unfoldable pub replay : List (Use V) → Values V → Values V
  replay [] a = a
  replay (u ∷ us) a = replay us (perform (effect u a) a)

  -- A use of an entry that is there, or of none.
  guarded-Stands :
      (s s' : Store V) (a : Values V) (i : ℕ) (e : Effect V)
      → Stands s a
      → (i < s.count → Stands s' (perform e a))
      → Stands (if ltb i s.count then s' else s) (perform (if ltb i a.count then e else nothing) a)
  unfolding perform
  guarded-Stands s s' a i e st made = elim (Bool-cases (ltb i s.count)) [
    | inl there ↦
        rw there (rw (ap (ltb i) (sym st.counted) ∙ there) (made (ltb→lt i s.count there)))
    | inr away ↦ rw away (rw (ap (ltb i) (sym st.counted) ∙ away) st)
  ]

  act-Stands :
      (u : Use V) (s : Store V) (a : Values V)
      → Stands s a
      → Stands (act u s) (perform (effect u a) a)
  unfolding act effect
  act-Stands (logger name hook) s a st =
      adds-Stands s _ a _ st (logger-Describes texts s st.separate name hook)
  act-Stands (with_field i k v) s a st = guarded-Stands s _ a i _ st λ small.
      derive-Stands s _ a i (λ p. record p { fields = put k (value v) p.fields }) st small
        (with_field-Describes texts i s small st.separate k v)
  act-Stands (with_data i k v) s a st = guarded-Stands s _ a i _ st λ small.
      derive-Stands s _ a i (λ p. record p { values = put k v p.values; has_values = true }) st
        small (with_data-Describes texts i s small st.separate k v)
  act-Stands (with_data_map i mp) s a st = guarded-Stands s _ a i _ st λ small.
      derive-Stands s _ a i (joined mp) st small
        (with_data_map-Describes texts i s small st.separate mp)
  act-Stands (with_stage i stage) s a st = guarded-Stands s _ a i _ st λ small.
      derive-Stands s _ a i (staged texts stage) st small
        (with_stage-Describes texts s st.separate i small stage)
  act-Stands (set_stack_skip i n) s a st = guarded-Stands s _ a i _ st λ small.
      derive-Stands s _ a i (λ p. record p { stack_skip = n }) st small
        (set_stack_skip-Describes texts i s small st.separate n)
  act-Stands (set_level i n) s a st = guarded-Stands s _ a i _ st λ small.
      derive-Stands s _ a i (λ p. record p { level = n }) st small
        (set_level-Describes texts i s small st.separate n)
  act-Stands (add_hook i hook) s a st = guarded-Stands s _ a i _ st λ small.
      change-Stands s _ a i (λ p. record p { hooks = p.hooks ++ hook ∷ [] }) st small
        (add_hook-Changes texts s st.separate i small hook)
  act-Stands (log_level i level) s a st = guarded-Stands s _ a i _ st λ small.
      change-Stands s _ a i (logged level) st small
        (log_level-Changes texts s st.separate i small level)

  -- If a store of entries, which refer to maps, stands for a list of plain values, then after any
  -- sequence of new loggers, derived entries, added hooks and logging it stands for those values
  -- with the same done to them one by one, where deriving an entry copies a value and logging
  -- enters the data of an entry as a value: no use of an entry changes what another entry stands
  -- for.
  pub run_refines :
      (us : List (Use V)) (s : Store V) (a : Values V)
      → Stands s a
      → Stands (run us s) (replay us a)
  unfolding run replay
  run_refines [] s a st = st
  run_refines (u ∷ us) s a st =
      run_refines us (act u s) (perform (effect u a) a) (act-Stands u s a st)
