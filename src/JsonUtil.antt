-- ===== src/JsonUtil.antt =====
-- utils/json-util/json-util.go: texts of any value, over the encoder of encoding/json.
use fancy_go.Base.{Option, none, some, [], Bytes}
use fancy_go.Base.Strings.{trim_space}

-- `encode` is `Encoder.Encode` without HTML escapes, `encode_indent` the same with an indent of one
-- space; `none` is an error.
module _ {V : Type 0} (encode encode_indent : V → Option Bytes) where
  unfoldable pub format : V → Bytes
  format v = elim (encode_indent v) [ none ↦ [] | some b ↦ trim_space b ]

  -- `ToBin`; an error gives nil.
  unfoldable pub to_bin : V → Bytes
  to_bin v = elim (encode v) [ none ↦ [] | some b ↦ trim_space b ]

  unfoldable pub to_string : V → Bytes
  unfolding to_bin
  to_string v = to_bin v

  unfoldable pub json : V → Bytes
  json v = elim (encode_indent v) [ none ↦ [] | some b ↦ trim_space b ]

  unfoldable pub json_bin : V → Bytes
  json_bin v = elim (encode v) [ none ↦ [] | some b ↦ trim_space b ]

  unfoldable pub json_raw : V → Bytes
  unfolding json_bin
  json_raw v = json_bin v
