-- ===== src/Framing/Split.antt =====
-- `SplitJson`: the split function that cuts the next frame off the scanner's buffer.
use fancy_go.Base.{
  ℕ, ◌+◌, ◌*◌, Bool, true, false, ◌&&◌, ◌||◌, not, [], ◌∷◌, ◌++◌, Option, none, some, Bytes, ltb,
  ◌==◌, if◌then◌else◌, length, take, drop,
}
use fancy_go.Framing.Decimal.{is_digit, parse_int}

-- `\s` of Go's regular expressions.
unfoldable pub is_space : ℕ → Bool
is_space c = c == 9 || c == 10 || c == 12 || c == 13 || c == 32

-- The longest prefix of bytes that pass a test.
unfoldable pub run : (ℕ → Bool) → Bytes → Bytes
run p [] = []
run p (c ∷ s) = let rest = run p s in if p c then c ∷ rest else []

unfoldable pub is_empty : Bytes → Bool
is_empty [] = true
is_empty (c ∷ s) = false

-- What must stand behind the digits.
unfoldable pub closed_by_comma : Bytes → Bool
closed_by_comma [] = false
closed_by_comma (c ∷ s) = c == b','

-- `jsonLengthRe.FindSubmatch`, for `^\s*(\d+),`: the whole match and its group.
unfoldable pub find_submatch : Bytes → Option (Bytes × Bytes)
find_submatch data' =
    let spaces = run is_space data' in
    let digits = run is_digit (drop (length spaces) data') in
    let rest = drop (length digits) (drop (length spaces) data') in
    if not (is_empty digits) && closed_by_comma rest
    then some (spaces ++ (digits ++ b',' ∷ []), digits)
    else none

pub data SplitError : Type 0 where
  final_token : SplitError  -- bufio.ErrFinalToken
  too_long : SplitError  -- bufio.ErrTooLong
  invalid_prefix : SplitError
  too_large : SplitError

-- `(0, nil, nil)`, `(advance, token, nil)` and `(0, nil, err)`.
pub data SplitResult : Type 0 where
  more : SplitResult
  token : ℕ → Bytes → SplitResult
  fail : SplitError → SplitResult

abbrev pub max_length : ℕ
max_length = 1024 * 1024 * 2

-- The part of `SplitJson` behind the header: `whole` is the match, `length'` the number read.
unfoldable pub split_body : Bytes → Bytes → ℕ → SplitResult
split_body data' whole length' =
    if ltb max_length length'
    then fail too_large
    else if ltb (length (drop (length whole) data')) length'
    then more
    else token (length whole + length') (take length' (drop (length whole) data'))

unfoldable pub split_json : Bytes → Bool → SplitResult
split_json data' at_eof =
    if at_eof && is_empty data' then fail final_token else elim (find_submatch data') [
      | none ↦ if ltb 10 (length data') then fail too_long else more
      | some (whole, digits) ↦ elim (parse_int digits) [
        | none ↦ fail invalid_prefix
        | some n ↦ split_body data' whole n
      ]
    ]
