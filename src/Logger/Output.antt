-- ===== src/Logger/Output.antt =====
-- utils/logger: the lines that `logLevel` writes (unilog.go), where they go (logger.go), and the methods
-- that log at a level.
use fancy_go.Base.{
  ℕ, ◌≡◌, refl, ap, ◌∙◌, List, [], ◌∷◌, ◌++◌, arith, Bytes, eq_bytes, codes, ltb, if◌then◌else◌,
  Bool-cases, inl, inr, ◌⊎◌, append_assoc, append-nil, eq_bytes_refl,
}
use fancy_go.Base.Strings.{is_nil}
use fancy_go.ErrorCode.Types.{Errors}
use fancy_go.ErrorCode.Log.{Traces}
use fancy_go.Framing.Decimal.{format}
use fancy_go.Logger.Level.{level_string}
use fancy_go.Logger.Entry.{Store}
use fancy_go.Logger.Report.{Record, Reports, log}

-- Where a line was logged: the time, as it is printed, the file of the caller without its folders and the
-- number of the line.
pub record Place : Type 0 where
  pub time : Bytes
  pub base : Bytes
  pub ln : ℕ

-- The fields as JSON, or the error of json.Marshal and the fields as `%#v` prints them.
unfoldable pub fields_text : (Bytes × Bytes) ⊎ Bytes → Bytes
fields_text (inr bin) = bin
fields_text (inl (e, fields)) =
    codes "$logger-error$ marshal fields: " ++ (e ++ (codes ": " ++ fields))

-- What `logLevel` puts into its buffer.
unfoldable pub line : Place → ℕ → Bytes → (Bytes × Bytes) ⊎ Bytes → Bytes
unfolding level_string fields_text
line place level msg fields =
    place.time
    ++ (codes " ["
        ++ (level_string level
            ++ (codes "] "
                ++ (place.base
                    ++ b':'
                      ∷ (format place.ln
                          ++ (b' ' ∷ (msg ++ (b' ' ∷ (fields_text fields ++ 10 ∷ [])))))))))

-- The outputs: the standard error, the file of a logger, or none.
pub data Sink : Type 0 where
  std_err : Sink
  file : Bytes → Sink
  discard : Sink

-- `LogOutput`, by the variable `SAVE_LOG` of the environment: the writer behind `logToStd`.
unfoldable pub log_output : Bytes → Bytes → Sink
unfolding is_nil
log_output save_log name = if is_nil save_log then discard else file (name ++ codes ".log")

-- `Write` of `logToStd`: what is written, in order.
unfoldable pub write_std : Sink → Bytes → List (Sink × Bytes)
write_std real p = (std_err, p) ∷ (std_err, 10 ∷ []) ∷ (real, p) ∷ []

-- `logLevel` of an entry with a default output: the write after the hooks.
unfoldable pub write_line :
    Sink → ℕ → Place → ℕ → Bytes → (Bytes × Bytes) ⊎ Bytes → List (Sink × Bytes)
unfolding line write_std
write_line real entry_level place level msg fields =
    if ltb entry_level level then [] else write_std real (line place level msg fields)

-- The methods that print their arguments at a level.
pub data LogMethod : Type 0 where
  debug : LogMethod
  info : LogMethod
  print : LogMethod
  warn : LogMethod
  warning : LogMethod
  fatal : LogMethod
  panic : LogMethod

unfoldable pub method_level : LogMethod → ℕ
method_level debug = 5
method_level info = 4
method_level print = 4
method_level warn = 3
method_level warning = 3
method_level fatal = 1
method_level panic = 0

module _ {V : Type 0} {lib : Errors} (traces : Traces lib) (reports : Reports lib V) where
  unfoldable pub call_method : LogMethod → ℕ → Bytes → Store V → List (ℕ × Record) × Store V
  unfolding log method_level
  call_method m i msg s = log traces reports i (method_level m) msg s

-- What a file gets of a list of writes.
abbrev to_file : Bytes → List (Sink × Bytes) → Bytes
to_file name [] = []
to_file name ((std_err, p) ∷ ws) = to_file name ws
to_file name ((discard, p) ∷ ws) = to_file name ws
to_file name ((file f, p) ∷ ws) = if eq_bytes f name then p ++ to_file name ws else to_file name ws

to_file-append :
    (name : Bytes) (ws us : List (Sink × Bytes))
    → to_file name (ws ++ us) ≡ to_file name ws ++ to_file name us
to_file-append name [] us = refl
to_file-append name ((std_err, p) ∷ ws) us = to_file-append name ws us
to_file-append name ((discard, p) ∷ ws) us = to_file-append name ws us
to_file-append name ((file f, p) ∷ ws) us = elim (Bool-cases (eq_bytes f name)) [
  | inl mine ↦
      ground
        (arith, mine, to_file-append name ws us, append_assoc p (to_file name ws) (to_file name us))
  | inr other ↦ ground (arith, other, to_file-append name ws us)
]

abbrev Call : Type 0
Call = Place × ℕ × Bytes × ((Bytes × Bytes) ⊎ Bytes)

-- The writes of calls, one after the other.
abbrev write_lines : Sink → ℕ → List Call → List (Sink × Bytes)
write_lines real entry_level [] = []
write_lines real entry_level ((place, level, msg, fields) ∷ calls) =
    write_line real entry_level place level msg fields ++ write_lines real entry_level calls

-- The lines of the calls whose level passes.
abbrev passed : ℕ → List Call → Bytes
passed entry_level [] = []
passed entry_level ((place, level, msg, fields) ∷ calls) =
    if ltb entry_level level
    then passed entry_level calls
    else line place level msg fields ++ passed entry_level calls

write_line-file :
    (name : Bytes) (entry_level : ℕ) (place : Place) (level : ℕ) (msg : Bytes)
    (fields : (Bytes × Bytes) ⊎ Bytes)
    → to_file name (write_line (file name) entry_level place level msg fields)
      ≡ (if ltb entry_level level then [] else line place level msg fields)
unfolding write_line write_std
write_line-file name entry_level place level msg fields =
    elim (Bool-cases (ltb entry_level level)) [
      | inl dropped ↦ rw dropped refl
      | inr there ↦ rw (there, eq_bytes_refl name) (append-nil (line place level msg fields))
    ]

-- The file of a logger gets the lines of exactly the calls whose level passes, in order.
write_lines-file :
    (name : Bytes) (entry_level : ℕ) (calls : List Call)
    → to_file name (write_lines (file name) entry_level calls) ≡ passed entry_level calls
write_lines-file name entry_level [] = refl
write_lines-file name entry_level ((place, level, msg, fields) ∷ calls) =
    to_file-append name (write_line (file name) entry_level place level msg fields)
      (write_lines (file name) entry_level calls)
    ∙ (ap (λ (b : Bytes). b ++ to_file name (write_lines (file name) entry_level calls))
          (write_line-file name entry_level place level msg fields)
        ∙ (ap
              (λ (b : Bytes).
                (if ltb entry_level level then [] else line place level msg fields) ++ b)
              (write_lines-file name entry_level calls)
            ∙ elim (Bool-cases (ltb entry_level level)) [
              | inl dropped ↦ rw dropped refl
              | inr there ↦ rw there refl
            ]))
