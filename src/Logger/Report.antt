-- ===== src/Logger/Report.antt =====
-- utils/logger/unilog.go: the records that hooks get, and the logging of errors.
pub mod Coded
use fancy_go.Base.{
  ℕ, ◌+◌, Bool, true, false, List, [], ◌∷◌, map, Option, none, some, Bytes, codes, ltb,
  if◌then◌else◌,
}
use fancy_go.Base.Dict.{Dict}
use fancy_go.Base.Int.{ℤ}
use fancy_go.Base.Split.{join_by}
use fancy_go.ErrorCode.Types.{Errors, Err}
use fancy_go.ErrorCode.Code.{get_code}
use fancy_go.ErrorCode.Log.{Traces, to_log}
use fancy_go.Logger.Entry.{is_empty, Store, Texts, with_field, with_data, log_level}

abbrev pub error_level : ℕ
error_level = 2

abbrev pub info_level : ℕ
info_level = 4

-- `Record`: its maps are those of the entry. The caller and its location are left out.
pub record Record : Type 0 where
  pub values : ℕ
  pub fields : ℕ
  pub message : Bytes
  pub level : ℕ

-- The values that are made of codes and of the extra data of errors.
pub record Reports (lib : Errors) (V : Type 0) : Type 0 where
  pub texts : Texts V
  pub of_code : ℤ → V
  pub of_extra : Dict lib.Value → V

-- An argument of a method that logs.
pub data Arg (lib : Errors) : Type 0 where
  nil : Arg lib
  error : Err lib → Arg lib
  other : Bytes → Arg lib

module _ {V : Type 0} where
  -- The hooks that get the record, in order, each with it.
  unfoldable pub fire_record : ℕ → Bytes → ℕ → Store V → List (ℕ × Record)
  fire_record i message level s =
      map
        (λ hook. (
          hook,
          record {
            values = (s.entries i).values;
            fields = (s.entries i).fields;
            message = message;
            level = level;
          },
        ))
        (s.entries i).hooks

module _ {V : Type 0} {lib : Errors} (traces : Traces lib) (reports : Reports lib V) where
  open reports use {texts, of_code, of_extra}

  -- `logLevel`, at what it prints of its arguments.
  unfoldable pub log : ℕ → ℕ → Bytes → Store V → List (ℕ × Record) × Store V
  unfolding log_level fire_record
  log i level message s = (
    if ltb (s.entries i).level level
        then []
        else fire_record i message level (log_level texts i level s),
    log_level texts i level s,
  )

  -- The last lines of `logErr`.
  unfoldable pub log_code : ℕ → Bytes → V → V → Store V → List (ℕ × Record) × Store V
  unfolding with_field log
  log_code i message code stack s =
      let coded = with_field texts i (codes "error_code") code s in
      log coded.count error_level message
        (with_field texts s.count (codes "error_stack") stack coded)

  unfoldable pub log_err : ℕ → Err lib → Store V → List (ℕ × Record) × Store V
  unfolding to_log with_data log_code join_by get_code
  log_err i err s =
      let (message, stack, extra) = to_log traces (some err) in
      let code = of_code (get_code (some err)) in
      let joined = texts.of_text (join_by 10 stack) in
      elim (is_empty extra) [
        | true ↦ log_code i message code joined s
        | false ↦
            log_code s.count message code joined
              (with_data texts i (codes "extra") (of_extra extra) s)
      ]

  -- `Error`; `print` is `fmt.Sprintln` without the end of the line.
  unfoldable pub error_args :
      (List (Arg lib) → Bytes) → ℕ → List (Arg lib) → Store V → List (ℕ × Record) × Store V
  unfolding log log_err
  error_args print i (nil ∷ []) s = ([], s)
  error_args print i (error err ∷ []) s = log_err i err s
  error_args print i args s = log i error_level (print args) s

  unfoldable pub error_or_info :
      ℕ → Option (Err lib) → Bytes → Store V → Option (Err lib) × (List (ℕ × Record) × Store V)
  unfolding log log_err
  error_or_info i none message s = (none, log i info_level message s)
  error_or_info i (some err) message s = (some err, log_err i err s)
