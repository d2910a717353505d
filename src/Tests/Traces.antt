-- ===== src/Tests/Traces.antt =====
-- error-code/log-error.go at a concrete error.
use fancy_go.Base.{◌≡◌, [], ◌∷◌, none, some, codes, arith, length}
use fancy_go.Base.Int.{pos}
use fancy_go.Base.Dict.{lookup}
use fancy_go.ErrorCode.Types.{Err, with_code, with_stack, caused, error_text}
use fancy_go.ErrorCode.Code.{chain}
use fancy_go.ErrorCode.Log.{Traces, to_log, traced, first_extra, to_log_lem}
use fancy_go.Tests.Errors.{plain_errors, here, timeout}

abbrev pub no_traces : Traces plain_errors
no_traces = record { position = λ f. (f, 7); top_frame = λ f. none; foreign_extra = λ f. none }

abbrev pub nested_error : Err plain_errors
nested_error = with_code (pos 5) ((codes "k", pos 1) ∷ []) (
    with_stack here
      (caused (some (codes "job")) (with_code (pos 6) ((codes "k", pos 2) ∷ []) timeout)))

to_log_lem_example :
    ((to_log no_traces (some nested_error)).0 ≡ error_text nested_error)
    × (length (to_log no_traces (some nested_error)).1 ≡ traced no_traces (chain nested_error))
    × (lookup (codes "k") (to_log no_traces (some nested_error)).2
        ≡ first_extra no_traces (codes "k") (chain nested_error))
to_log_lem_example = to_log_lem no_traces nested_error (codes "k") ((λ e. omega arith), tt)
