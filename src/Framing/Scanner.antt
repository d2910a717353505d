-- ===== src/Framing/Scanner.antt =====
-- `bufio.Scanner` as `lengthPrefixedChannel` uses it (split function `SplitJson`, default buffer),
-- and `ReadCtx`. The connection hands its bytes out in pieces of any size.
use fancy_go.Base.{
  ℕ, zero, suc, ◌*◌, ◌+◌, ◌-◌, Bool, true, false, ◌&&◌, List, [], ◌∷◌, ◌++◌, Option, none, some,
  Bytes, leb, if◌then◌else◌, length, take, drop,
}
use fancy_go.Framing.Split.{
  SplitError, final_token, SplitResult, more, token, fail, split_json, is_empty,
}

-- `eof` stands for io.EOF, which `Err` does not report; `full` for the scanner's own ErrTooLong.
pub data ScanError : Type 0 where
  eof : ScanError
  full : ScanError
  split_error : SplitError → ScanError

-- `pending` is `buf[start:end]`; `reads` is what the connection will still hand out before io.EOF.
pub record Scanner : Type 0 where
  pub pending : Bytes
  pub reads : List Bytes
  pub err : Option ScanError
  pub done : Bool

-- bufio.MaxScanTokenSize
abbrev pub max_token_size : ℕ
max_token_size = 64 * 1024

-- `setErr`: an earlier error stays, but io.EOF is replaced.
unfoldable pub set_err : ScanError → Scanner → Scanner
set_err e s = elim s.err [
  | none ↦ record s { err = some e }
  | some eof ↦ record s { err = some e }
  | some _ ↦ s
]

-- One read from the connection into the free part of the buffer.
unfoldable pub fill : Scanner → List Bytes → Scanner
unfolding set_err
fill s [] = set_err eof s
fill s (piece ∷ later) =
    let free = max_token_size - length s.pending in
    record s {
      pending = s.pending ++ take free piece;
      reads = if leb (length piece) free then later else drop free piece ∷ later;
    }

unfoldable pub failed : Scanner → Bool
failed s = elim s.err [ none ↦ false | some _ ↦ true ]

-- The first half of a round of `Scan`: what the split function makes of the buffer. `some` ends the
-- call, with the token if there is one.
unfoldable pub offer : Scanner → SplitResult → Option (Scanner × Option Bytes)
unfolding set_err
offer s more = none
offer s (token advance t) = some (record s { pending = drop advance s.pending }, some t)
offer s (fail final_token) = some (record s { done = true }, none)
offer s (fail e) = some (set_err (split_error e) s, none)

unfoldable pub try_split : Scanner → Option (Scanner × Option Bytes)
unfolding failed is_empty offer
try_split s =
    if is_empty s.pending && (if failed s then false else true)
    then none
    else offer s (split_json s.pending (failed s))

-- The loop of `Scan`; `none` means that the fuel ran out.
unfoldable pub scan_loop : ℕ → Scanner → Option (Scanner × Option Bytes)
unfolding fill set_err failed
scan_loop zero s = none
scan_loop (suc fuel) s = elim (try_split s) [
  | some r ↦ some r
  | none ↦ elim (failed s) [
    | true ↦ some (record s { pending = [] }, none)
    | false ↦ elim (leb max_token_size (length s.pending)) [
      | true ↦ some (set_err full s, none)
      | false ↦ scan_loop fuel (fill s s.reads)
    ]
  ]
]

-- A round takes a byte or a piece away, or meets the end.
unfoldable pub budget : List Bytes → ℕ
budget [] = 2
budget (piece ∷ later) = suc (length piece + budget later)

unfoldable pub scan : Scanner → Option (Scanner × Option Bytes)
unfolding scan_loop budget
scan s = elim s.done [ true ↦ some (s, none) | false ↦ scan_loop (budget s.reads) s ]

-- `Err`
unfoldable pub scanner_err : Scanner → Option ScanError
scanner_err s = elim s.err [ none ↦ none | some eof ↦ none | some e ↦ some e ]

abbrev pub open_scanner : List Bytes → Scanner
open_scanner reads = record { pending = []; reads = reads; err = none; done = false }
