-- ===== src/Logger/Registry.antt =====
-- utils/logger/logger.go and utils/logger/direct.go: the loggers by their names, and what is logged
-- by one of them.
use fancy_go.Base.{ℕ, set_at, List, [], ◌∷◌, none, some, Bytes, codes}
use fancy_go.Base.Dict.{Dict, lookup, insert}
use fancy_go.ErrorCode.Types.{Errors}
use fancy_go.ErrorCode.Log.{Traces}
use fancy_go.Logger.Entry.{Store, Texts, with_field}
use fancy_go.Logger.Entry
use fancy_go.Logger.Report.{Record, Reports, Arg, nil, error, error_level, info_level, log, log_err}

-- `loggers`, with the entries that it refers to.
pub record Registry (V : Type 0) : Type 0 where
  pub loggers : Dict ℕ
  pub store : Store V

-- `OptionOut`, which changes the output only, and `OptionNoDefaultHooks`.
pub data LoggerOption : Type 0 where
  out : LoggerOption
  no_default_hooks : LoggerOption

module _ {V : Type 0} (texts : Texts V) where
  unfoldable pub apply : LoggerOption → ℕ → Store V → Store V
  apply out i s = s
  apply no_default_hooks i s = record s {
    entries = set_at i (record (s.entries i) { hooks = [] }) s.entries;
  }

  unfoldable pub apply_all : List LoggerOption → ℕ → Store V → Store V
  unfolding apply
  apply_all [] i s = s
  apply_all (o ∷ os) i s = apply_all os i (apply o i s)

  -- `Logger`: the number of the entry. `hooker` is the variable `Hooker`.
  unfoldable pub get_logger : (Bytes → ℕ) → Bytes → List LoggerOption → Registry V → ℕ × Registry V
  unfolding apply_all
  get_logger hooker name options r = elim (lookup name r.loggers) [
    | some i ↦ (i, r)
    | none ↦
        let i = r.store.count in
        (
          i,
          record {
            loggers = insert name i r.loggers;
            store = apply_all options i (Entry.logger texts name (hooker name) r.store);
          },
        )
  ]

module _ {V : Type 0} {lib : Errors} (traces : Traces lib) (reports : Reports lib V) where
  open reports use {texts}

  -- `Notify`, with the number that it makes of the time and the content, and the JSON text of the
  -- data.
  unfoldable pub notify :
      (Bytes → ℕ)
      → Bytes
      → Bytes
      → Bytes
      → Bytes
      → Registry V
      → Bytes × List (ℕ × Record) × Registry V
  unfolding get_logger with_field log
  notify hooker id bin topic content r =
      let got = get_logger texts hooker (codes "notify") [] r in
      let s = got.1.store in
      let with_id = with_field texts got.0 (codes "notify_id") (texts.of_text id) s in
      let with_bin = with_field texts s.count (codes "data") (texts.of_text bin) with_id in
      let with_topic =
        with_field texts with_id.count (codes "topic") (texts.of_text topic) with_bin in
      let logged = log traces reports with_bin.count info_level content with_topic in
      (id, logged.0, record got.1 { store = logged.1 })

  -- The functions `Error` and `Info`; `i` is the entry of `Default`.
  unfoldable pub direct_error :
      (List (Arg lib) → Bytes) → ℕ → List (Arg lib) → Store V → List (ℕ × Record) × Store V
  unfolding log log_err
  direct_error print i (nil ∷ []) s = ([], s)
  direct_error print i (error err ∷ []) s = log_err traces reports i err s
  direct_error print i args s = log traces reports i error_level (print args) s

  unfoldable pub direct_info :
      (List (Arg lib) → Bytes) → ℕ → List (Arg lib) → Store V → List (ℕ × Record) × Store V
  unfolding log
  direct_info print i args s = log traces reports i info_level (print args) s
