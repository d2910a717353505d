-- ===== src/Tests/Entries.antt =====
-- utils/logger/unilog.go at concrete uses.
use fancy_go.Base.{
  Option, false, ◌+◌, ◌≤◌, ◌≡◌, refl, [], ◌∷◌, ◌++◌, List, none, some, Bytes, codes, arith, length,
}
use fancy_go.Base.Dict.{lookup}
use fancy_go.Logger.Entry.{Store, Texts, text_of, with_stage, logger}
use fancy_go.Logger.Entry.Runs.{Use, Values, Stands, run, replay, run_refines}
use fancy_go.Logger.Entry.Runs
use fancy_go.Logger.Entry.Refine.{view, Separate}
use fancy_go.Base.Dict.{Dict}
use fancy_go.Base.Int.{ℤ}
use fancy_go.Base.Split.{join_by}
use fancy_go.ErrorCode.Types.{error_text}
use fancy_go.ErrorCode.Code.{get_code}
use fancy_go.ErrorCode.Log.{to_log}
use fancy_go.Logger.Report.{Reports, log_err}
use fancy_go.Logger.Report.Coded.{Logged, coded, extended, log_err_lem}
use fancy_go.Tests.Errors.{plain_errors}
use fancy_go.Tests.Traces.{no_traces, nested_error}
use fancy_go.Logger.Entry.Stage.{with_stage_bound}

-- The values are texts.
abbrev pub plain_texts : Texts Bytes
plain_texts = record { as_text = λ v. some v; of_text = λ b. b }

abbrev pub no_entries : Store Bytes
no_entries = record {
  count = 0;
  entries = λ i. record { values = 0; fields = 0; hooks = []; stack_skip = 0; level = 0 };
  data_maps = λ i. [];
  field_maps = λ i. [];
}

abbrev no_values : Values Bytes
no_values = record {
  count = 0;
  at = λ i. record {
    values = λ j. none;
    has_values = false;
    fields = λ j. none;
    hooks = [];
    stack_skip = 0;
    level = 0;
  };
}

nothing-Stands : Stands no_entries no_values
nothing-Stands = record {
  counted = refl;
  shows = λ k h. absurd (omega arith);
  separate = record {
    own_values = λ i h. absurd (omega arith);
    own_fields = λ i h. absurd (omega arith);
    old_maps = λ i r j h e. absurd (omega arith);
  };
}

abbrev uses : List (Use Bytes)
uses =
    Runs.logger (codes "app") 1
    ∷ Runs.with_data 0 (codes "k") (codes "v")
    ∷ Runs.log_level 1 2
    ∷ Runs.with_stage 1 (codes "start")
    ∷ Runs.with_data 1 (codes "k") (codes "w")
    ∷ []

run_refines_example : Stands (run plain_texts uses no_entries) (replay plain_texts uses no_values)
run_refines_example = run_refines plain_texts uses no_entries no_values nothing-Stands

with_stage_bound_example :
    let s = logger plain_texts (codes "app") 1 no_entries in
    (b : Bytes) × (text_of plain_texts
        (lookup (codes "stage") ((with_stage plain_texts 0 (codes "start") s).field_maps s.count))
      ≡ some b)
    × (length b ≤ 501 + length (codes "start"))
    × ((front : Bytes) × (b ≡ front ++ codes "start"))
with_stage_bound_example =
    with_stage_bound plain_texts 0 (codes "start") (logger plain_texts (codes "app") 1 no_entries)
      (λ b. refl)

-- Values in the fields of errors.
data TestValue : Type 0 where
  text : Bytes → TestValue
  number : ℤ → TestValue
  table : Dict ℤ → TestValue

abbrev text_of_value : TestValue → Option Bytes
text_of_value (text b) = some b
text_of_value (number n) = none
text_of_value (table m) = none

abbrev test_reports : Reports plain_errors TestValue
test_reports = record {
  texts = record { as_text = text_of_value; of_text = text };
  of_code = number;
  of_extra = table;
}

abbrev empty_store : Store TestValue
empty_store = record {
  count = 0;
  entries = λ i. record { values = 0; fields = 0; hooks = []; stack_skip = 0; level = 0 };
  data_maps = λ i. [];
  field_maps = λ i. [];
}

abbrev one_logger : Store TestValue
unfolding logger
one_logger = logger test_reports.texts (codes "app") 1 empty_store

one_logger-Separate : Separate one_logger
unfolding lookup logger one_logger
one_logger-Separate = record {
  own_values = λ i h. ground arith;
  own_fields = λ i h. ground arith;
  old_maps = λ i r j h e. absurd (ground arith);
}

log_err_lem_example :
    Logged no_traces test_reports one_logger
      (log_err no_traces test_reports 0 nested_error one_logger)
      (error_text nested_error)
      (coded
        (number (get_code (some nested_error)))
        (text (join_by 10 (to_log no_traces (some nested_error)).1))
        (extended no_traces test_reports nested_error (view one_logger 0)))
unfolding logger
log_err_lem_example =
    log_err_lem no_traces test_reports 0 nested_error one_logger one_logger-Separate (omega arith)
      (omega arith)
