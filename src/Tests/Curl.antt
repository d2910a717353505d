-- ===== src/Tests/Curl.antt =====
-- spider/curl-to-go/curl-to-go.go at concrete inputs.
use fancy_go.Base.{
  ◌≡◌, ◌↔◌, List, [], ◌∷◌, Option, none, some, Bytes, codes, false, eq_bytes, if◌then◌else◌,
}
use fancy_go.Curl.Parse.{ok, Options, read_args, no_options}
use fancy_go.Curl.Items.{items, AllKnown, last_method, link_of, read_args_accepts}
use fancy_go.Curl.Factory.{RequestOption}

abbrev words : List Bytes
words = codes "-X" ∷ codes "POST" ∷ codes "http://a" ∷ codes "-X" ∷ codes "PUT" ∷ []

read_args_accepts_example :
    ((o : Options) × (read_args no_options words ≡ ok o)
      × (o.method ≡ codes "PUT")
      × (o.link ≡ codes "http://a"))
    ↔ (AllKnown (items words)
        × (last_method [] (items words) ≡ codes "PUT")
        × (link_of [] (items words) ≡ some (codes "http://a")))
read_args_accepts_example = read_args_accepts words (codes "PUT") (codes "http://a")

-- A parser of words that knows two lines, and requests of a method and an address.
abbrev plain_line : Bytes
plain_line = codes "a"

abbrev header_line : Bytes
header_line = codes "b"

abbrev shell_words : Bytes → Option (List Bytes)
shell_words s =
    if eq_bytes s plain_line
    then some (codes "curl" ∷ codes "http://a" ∷ [])
    else if eq_bytes s header_line
    then some (codes "curl" ∷ codes "-H" ∷ codes "k: v" ∷ codes "http://a" ∷ [])
    else none

abbrev new_request : Bytes → Bytes → Option (Bytes × Bytes)
new_request method url = some (method, url)

abbrev with_token : RequestOption
with_token = record {
  do' = λ r. some (record { body = some [] });
  header = (codes "token", codes "t") ∷ [];
  json_send = none;
  string_ret = false;
  json_ret = none;
}

abbrev without_token : RequestOption
without_token = record with_token { header = [] }
