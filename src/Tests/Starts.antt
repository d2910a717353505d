-- ===== src/Tests/Starts.antt =====
-- The log's start, its lines and the ends of sessions at concrete inputs.
use fancy_go.Base.{ℕ, ◌≡◌, refl, [], ◌∷◌, ◌++◌, none, some, codes, inr}
use fancy_go.Base.Strings.{is_nil}
use fancy_go.ErrorCode.Types.{pkg_wrap}
use fancy_go.Framing.Decimal.{format, emit}
use fancy_go.Logger.Level.{level_string, marshal_text}
use fancy_go.Logger.Output.{std_err, file, fields_text, line, log_output, write_line, write_std}
use fancy_go.Server.Serve.{writer_turn, writer_error}
use fancy_go.Websocket.Serve.{handle_ws, on_channel, serves, log_end, cancel, close, returns}
use fancy_go.Tests.Errors.{plain_errors, timeout}

warn_line :
    write_line
      (log_output (codes "1") (codes "api"))
      6
      (record { time = codes "T"; base = codes "a.go"; ln = 7 })
      3
      (codes "slow")
      (inr (codes "{}"))
    ≡ (std_err, codes "T [warning] a.go:7 slow {}" ++ 10 ∷ [])
      ∷ (std_err, 10 ∷ [])
      ∷ (file (codes "api.log"), codes "T [warning] a.go:7 slow {}" ++ 10 ∷ [])
      ∷ []
unfolding write_line write_std line fields_text level_string marshal_text log_output is_nil format
    emit
warn_line = refl

-- The callback sees the error of the write, and its own error is the one that counts.
callback_first :
    writer_error {lib = plain_errors} ((none, none) ∷ (some timeout, some (λ e. e)) ∷ [])
    ≡ some (pkg_wrap timeout (codes "msg write callback error"))
unfolding writer_error writer_turn
callback_first = refl

-- A session is not served with the context that has the connection.
served_without :
    handle_ws {Conn = ℕ} {lib = plain_errors} 4 none (some (λ ctx. returns none))
    ≡ on_channel (some 4) ∷ serves none ∷ log_end none ∷ cancel ∷ close 4 ∷ []
unfolding handle_ws
served_without = refl
