-- ===== src/Curl/Parse.antt =====
-- `CurlToGo`: the words of the command line, the options it knows, and the request template.
use fancy_go.Base.{
  ℕ, ◌-◌, ◌*◌, ◌+◌, Bool, true, false, ◌&&◌, List, [], ◌∷◌, Option, none, some, Bytes, codes,
  eq_bytes, leb, ◌==◌, if◌then◌else◌,
}
use fancy_go.Base.Dict.{Dict, insert}
use fancy_go.Base.Strings.{trim_space, drop_while, has_prefix, cut, is_nil}

pub data CurlError : Type 0 where
  bad_command : CurlError
  option_without_value : Bytes → CurlError
  invalid_header : Bytes → CurlError
  bad_escape : Bytes → CurlError
  unknown_arg : Bytes → CurlError
  link_twice : Bytes → Bytes → CurlError
  bad_request : CurlError

pub data Result {ℓ} (A : Type ℓ) : Type ℓ where
  ok : A → Result A
  err : CurlError → Result A

-- The variables of `CurlToGo` that the loop over the words changes.
pub record Options : Type 0 where
  pub method : Bytes
  pub link : Bytes
  pub header : Dict Bytes
  pub compressed : Bool

unfoldable pub hex_digit : ℕ → Option ℕ
hex_digit c =
    if leb b'0' c && leb c b'9'
    then some (c - b'0')
    else if leb b'a' c && leb c b'f'
    then some (c - b'a' + 10)
    else if leb b'A' c && leb c b'F'
    then some (c - b'A' + 10)
    else none

-- `url.QueryUnescape`; `none` is its error.
unfoldable pub query_unescape : Bytes → Option Bytes
unfolding hex_digit
query_unescape [] = some []
query_unescape (c ∷ []) = if c == b'%' then none else some ((if c == b'+' then 32 else c) ∷ [])
query_unescape (c ∷ d ∷ []) = if c == b'%' then none else elim (query_unescape (d ∷ [])) [
  | none ↦ none
  | some s ↦ some ((if c == b'+' then 32 else c) ∷ s)
]
query_unescape (c ∷ d ∷ e ∷ s) = elim (c == b'%') [
  | true ↦ elim (hex_digit d) [
    | none ↦ none
    | some h ↦ elim (hex_digit e) [
      | none ↦ none
      | some l ↦ elim (query_unescape s) [ none ↦ none | some r ↦ some ((16 * h + l) ∷ r) ]
    ]
  ]
  | false ↦ elim (query_unescape (d ∷ e ∷ s)) [
    | none ↦ none
    | some r ↦ some ((if c == b'+' then 32 else c) ∷ r)
  ]
]

-- `handleArg`
unfoldable pub handle_arg : Options → Bytes → Bytes → Result Options
handle_arg o name value =
    if eq_bytes name (codes "X")
    then ok (record o { method = value })
    else if eq_bytes name (codes "H")
    then elim (cut b':' value) [
      | none ↦ err (invalid_header value)
      | some (k, v) ↦ elim (query_unescape (trim_space v)) [
        | none ↦ err (bad_escape value)
        | some u ↦ ok (record o { header = insert k u o.header })
      ]
    ]
    else err (unknown_arg name)

-- `strings.TrimLeft(arg, "--")`
unfoldable pub option_name : Bytes → Bytes
unfolding drop_while
option_name = drop_while (λ c. c == b'-')

unfoldable pub is_option : Bytes → Bool
unfolding has_prefix
is_option arg = has_prefix arg (codes "-")

-- The loop that removes blank words.
unfoldable pub remove_blank : List Bytes → List Bytes
unfolding is_nil trim_space
remove_blank [] = []
remove_blank (a ∷ args) =
    let rest = remove_blank args in if is_nil (trim_space a) then rest else a ∷ rest

-- The loop over the words. `boolOpt` has the one key "compressed".
unfoldable pub read_args : Options → List Bytes → Result Options
unfolding option_name is_option is_nil
read_args o [] = ok o
read_args o (arg ∷ []) =
    if is_option arg
    then (if eq_bytes (option_name arg) (codes "compressed")
        then ok (record o { compressed = true })
        else err (option_without_value (option_name arg)))
    else if is_nil o.link
    then ok (record o { link = arg })
    else err (link_twice arg o.link)
read_args o (arg ∷ value ∷ rest) = elim (is_option arg) [
  | true ↦ elim (eq_bytes (option_name arg) (codes "compressed")) [
    | true ↦ read_args (record o { compressed = true }) (value ∷ rest)
    | false ↦ elim (is_option value) [
      | true ↦ err (option_without_value (option_name arg))
      | false ↦ elim (handle_arg o (option_name arg) value) [
        | err e ↦ err e
        | ok o' ↦ read_args o' rest
      ]
    ]
  ]
  | false ↦ elim (is_nil o.link) [
    | true ↦ read_args (record o { link = arg }) (value ∷ rest)
    | false ↦ err (link_twice arg o.link)
  ]
]

abbrev pub no_options : Options
no_options = record { method = []; link = []; header = []; compressed = false }

-- The template that the returned function sends; `new_request` is `http.NewRequest` without a body.
unfoldable pub template :
    {Request : Type 0} → (Bytes → Bytes → Option Request) → Result Options → Result Request
template new_request (err e) = err e
template new_request (ok o) = elim (new_request o.method o.link) [
  | none ↦ err bad_request
  | some r ↦ ok r
]

-- `shell_words` is `shellwords.Parse`.
module _ {Request : Type 0} (shell_words : Bytes → Option (List Bytes))
    (new_request : Bytes → Bytes → Option Request) where
  -- `none` is the panic of `args[1:]` at a command line without words.
  unfoldable pub curl_to_go : Bytes → Option (Result Request)
  unfolding template
  curl_to_go cmd = elim (shell_words cmd) [
    | none ↦ some (err bad_command)
    | some [] ↦ none
    | some (_ ∷ args) ↦ some (template new_request (read_args no_options (remove_blank args)))
  ]
