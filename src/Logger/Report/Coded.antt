-- ===== src/Logger/Report/Coded.antt =====
-- What hooks get of an error that is logged, and what the entries stand for afterwards.
use fancy_go.Base.{
  le→ltb, ℕ, ◌<◌, ◌≤◌, ◌≡◌, refl, sym, ap, ◌∙◌, subst, Bool, true, false, List, [], map, some,
  arith, Bytes, codes, if◌then◌else◌,
}
use fancy_go.Base.Split.{join_by}
use fancy_go.ErrorCode.Types.{Errors, Err, error_text}
use fancy_go.ErrorCode.Code.{get_code}
use fancy_go.ErrorCode.Log.{Traces, to_log}
use fancy_go.Logger.Entry.{is_empty, Store, with_field, with_data, log_level}
use fancy_go.Logger.Entry.Refine.{Plain, value, put, view, Separate, adds}
use fancy_go.Logger.Entry.Derive.{with_field-Describes, with_data-Describes}
use fancy_go.Logger.Entry.Log.{logged, log_level-Changes}
use fancy_go.Logger.Report.{error_level, Record, Reports, fire_record, log, log_code, log_err}

-- An entry with the code and the stack of an error.
abbrev pub coded : {V : Type 0} → V → V → Plain V → Plain V
coded code stack a = record a {
  fields = put (codes "error_stack") (value stack) (put (codes "error_code") (value code) a.fields);
}

module _ {V : Type 0} {lib : Errors} (traces : Traces lib) (reports : Reports lib V) where
  open reports use {texts, of_code, of_extra}

  -- What logging has done: the records, the entry that they are about, and the others.
  pub record Logged (s : Store V) (out : List (ℕ × Record) × Store V) (message : Bytes)
      (a : Plain V) : Type 0 where
    pub entry : ℕ
    pub fresh : s.count ≤ entry
    pub sent :
        out.0
        ≡ map
            (λ hook. (
              hook,
              record { values = entry; fields = entry; message = message; level = error_level },
            ))
            a.hooks
    pub shows : view out.1 entry ≡ logged error_level a
    pub same : (k : ℕ) → k < s.count → view out.1 k ≡ view s k

  fire_record-shows :
      (n : ℕ) (message : Bytes) (s : Store V) (a : Plain V)
      → Separate s
      → n < s.count
      → view s n ≡ logged error_level a
      → fire_record n message error_level s
        ≡ map
            (λ hook.
              (hook, record { values = n; fields = n; message = message; level = error_level }))
            a.hooks
  unfolding fire_record
  fire_record-shows n message s a sep small h =
      let hooks : (s.entries n).hooks ≡ a.hooks =
        ap (λ (p : Plain V). p.hooks) h ∙ logged_hooks a in
      rw (sep.own_values n small) (rw (sep.own_fields n small) (rw hooks refl))
    where
      logged_hooks : (a : Plain V) → (logged error_level a).hooks ≡ a.hooks
      logged_hooks a = ground arith

  log-loud :
      (i : ℕ) (message : Bytes) (s : Store V)
      → error_level ≤ (s.entries i).level
      → (log traces reports i error_level message s).0
        ≡ fire_record i message error_level (log_level texts i error_level s)
  unfolding log
  log-loud i message s loud =
      ap
        (λ (b : Bool).
          if b then [] else fire_record i message error_level (log_level texts i error_level s))
        (le→ltb (s.entries i).level error_level loud)

  log_code_lem :
      (i : ℕ) (message : Bytes) (code stack : V) (s : Store V)
      → Separate s
      → i < s.count
      → error_level ≤ (s.entries i).level
      → Logged s
          (log_code traces reports i message code stack s)
          message
          (coded code stack (view s i))
  unfolding log_code log
  log_code_lem i message code stack s sep small loud =
      let s1 = with_field texts i (codes "error_code") code s in
      let s2 = with_field texts s.count (codes "error_stack") stack s1 in
      let a1 =
        adds s s1 _ sep (with_field-Describes texts i s small sep (codes "error_code") code) in
      let first : s.count < s1.count = omega (arith, a1.counted) in
      let a2 =
        adds s1 s2 _ a1.separate
          (with_field-Describes texts s.count s1 first a1.separate (codes "error_stack") stack) in
      let second : s1.count < s2.count = omega (arith, a2.counted) in
      let c = log_level-Changes texts s2 a2.separate s1.count second error_level in
      let new : view s2 s1.count ≡ coded code stack (view s i) =
        a2.new
        ∙ ap
            (λ (a : Plain V). record a {
              fields = put (codes "error_stack") (value stack) a.fields;
            })
            a1.new in
      record {
        entry = s1.count;
        fresh = omega (arith, a1.counted);
        sent =
            log-loud s1.count message s2
              (subst (λ (l : ℕ). error_level ≤ l) (sym (ap (λ (p : Plain V). p.level) new)) loud)
            ∙ (fire_record-shows s1.count message (log_level texts s1.count error_level s2)
                (coded code stack (view s i)) c.separate (omega (arith, second, c.counted))
                (c.changed ∙ ap (logged error_level) new));
        shows = c.changed ∙ ap (logged error_level) new;
        same = λ k h.
            c.same k (omega (arith, h, first, second)) (λ e. omega (arith, h, first, e))
            ∙ (a2.old k (omega (arith, h, first)) ∙ a1.old k h);
      }

  -- An entry with the extra data of an error, if there is any.
  abbrev pub extended : Err lib → Plain V → Plain V
  extended err a = if is_empty (to_log traces (some err)).2 then a else record a {
    values = put (codes "extra") (of_extra (to_log traces (some err)).2) a.values;
    has_values = true;
  }

  -- The case of extra data.
  log_code-with_data :
      (i : ℕ) (message : Bytes) (code stack extra : V) (s : Store V)
      → Separate s
      → i < s.count
      → error_level ≤ (s.entries i).level
      → Logged s
          (log_code traces reports s.count message code stack
            (with_data texts i (codes "extra") extra s))
          message
          (coded code stack (record (view s i) {
            values = put (codes "extra") extra (view s i).values;
            has_values = true;
          }))
  log_code-with_data i message code stack extra s sep small loud =
      let s1 = with_data texts i (codes "extra") extra s in
      let a1 = adds s s1 _ sep (with_data-Describes texts i s small sep (codes "extra") extra) in
      let first : s.count < s1.count = omega (arith, a1.counted) in
      let l =
        subst
          (λ (a : Plain V).
            Logged s1 (log_code traces reports s.count message code stack s1) message
              (coded code stack a))
          a1.new
          (log_code_lem s.count message code stack s1 a1.separate first (
            subst (λ (l : ℕ). error_level ≤ l) (sym (ap (λ (p : Plain V). p.level) a1.new))
              loud)) in
      record {
        entry = l.entry;
        fresh = omega (arith, l.fresh, first);
        sent = l.sent;
        shows = l.shows;
        same = λ k h. l.same k (omega (arith, h, first)) ∙ a1.old k h;
      }

  -- When an error is logged by an entry whose level lets errors pass, a new entry is made for it:
  -- the hooks of the entry get a record, in order, with that new entry's maps, the error's text
  -- and the level of errors; the new entry stands for the old one with the code that GetCode
  -- finds in the error, the lines of ToLog as its stack and, if ToLog gives extra data, that data
  -- as well, and with its data entered into its fields; and no entry that was there before stands
  -- for anything else than it did.
  pub log_err_lem :
      (i : ℕ) (err : Err lib) (s : Store V)
      → Separate s
      → i < s.count
      → error_level ≤ (s.entries i).level
      → Logged s (log_err traces reports i err s) (error_text err) (
          coded
            (of_code (get_code (some err)))
            (texts.of_text (join_by 10 (to_log traces (some err)).1))
            (extended err (view s i)))
  unfolding log_err
  log_err_lem i err s sep small loud =
      let extra = (to_log traces (some err)).2 in
      let code = of_code (get_code (some err)) in
      let joined = texts.of_text (join_by 10 (to_log traces (some err)).1) in
      elim (is_empty extra)
        as (λ b.
          Logged s
            (elim b [
              | true ↦ log_code traces reports i (error_text err) code joined s
              | false ↦
                  log_code traces reports s.count (error_text err) code joined
                    (with_data texts i (codes "extra") (of_extra extra) s)
            ])
            (error_text err)
            (coded code joined (
              if b then view s i else record (view s i) {
                values = put (codes "extra") (of_extra extra) (view s i).values;
                has_values = true;
              }))) [
                | true ↦ log_code_lem i (error_text err) code joined s sep small loud
                | false ↦
                    log_code-with_data i (error_text err) code joined (of_extra extra) s sep small
                      loud
              ]
