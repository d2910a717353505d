-- ===== src/Agent/Dial.antt =====
-- net-filter/ws-agent/ws-agent.go: what `ServeHttp` asks of the target before it starts the pipe.
use fancy_go.Base.{
  ◌≡◌, refl, Bool, true, false, ◌||◌, List, [], ◌∷◌, ◌++◌, Option, none, some, arith, Bytes, codes,
  eq_bytes, eq_bytes_iff, if◌then◌else◌, ◌==◌, Bool-cases, inl, inr,
}
use fancy_go.Base.Dict.{Dict, lookup, insert, lookup-insert, first_of}
use fancy_go.Base.Strings.{has_prefix}
use fancy_go.ErrorCode.Types.{Errors, Err, pkg_wrap, error_text}

-- `strings.Split(s, ", ")`
unfoldable pub split_comma : Bytes → Bytes → List Bytes
split_comma cur [] = cur ∷ []
split_comma cur (c ∷ []) = (cur ++ c ∷ []) ∷ []
split_comma cur (c ∷ d ∷ s) = elim (c == b',') [
  | true ↦ elim (d == 32) [
    | true ↦ cur ∷ split_comma [] s
    | false ↦ split_comma (cur ++ c ∷ []) (d ∷ s)
  ]
  | false ↦ split_comma (cur ++ c ∷ []) (d ∷ s)
]

abbrev pub extensions_key : Bytes
extensions_key = codes "Sec-WebSocket-Extensions"

-- A header that the agent does not pass on.
unfoldable pub is_own : Bytes → Bool
unfolding has_prefix
is_own k =
    has_prefix k (codes "Sec-Websocket-")
    || (eq_bytes k (codes "Origin")
        || (eq_bytes k (codes "Connection") || eq_bytes k (codes "Upgrade")))

-- The loop over the headers of the request.
unfoldable pub copy_headers : Dict (List Bytes) → Dict (List Bytes) → Dict (List Bytes)
unfolding is_own
copy_headers conf [] = conf
copy_headers conf ((k, v) ∷ header) =
    copy_headers (elim (is_own k) [ true ↦ conf | false ↦ insert k v conf ]) header

-- A read of a header that is not there is nil.
unfoldable pub values : Option (List Bytes) → List Bytes
values none = []
values (some v) = v

unfoldable pub dial_headers : Dict (List Bytes) → Dict (List Bytes)
unfolding copy_headers values
dial_headers header =
    copy_headers ((extensions_key, values (lookup (codes "Sec-Websocket-Extensions") header)) ∷ [])
      header

-- `websocket.Config`, as `DialConfig` gets it.
pub record DialConfig : Type 0 where
  pub target : Bytes
  pub origin : Bytes
  pub protocol : List Bytes
  pub header : Dict (List Bytes)

-- The answer to a request that cannot be piped, or the start of the pipe with the configuration.
pub data Served : Type 0 where
  server_error : Bytes → Served
  piped : DialConfig → Served

module _ {lib : Errors} where
  -- `get_target` is the option; `new_config` the error of `websocket.NewConfig`, `dial` that of
  -- `websocket.DialConfig`.
  unfoldable pub serve_http :
      (Bytes × Option (Err lib))
      → (Bytes → Bytes → Option (Err lib))
      → (DialConfig → Option (Err lib))
      → Bytes
      → Bytes
      → Dict (List Bytes)
      → Served
  unfolding dial_headers split_comma
  serve_http get_target new_config dial origin protocols header = elim get_target.1 [
    | some e ↦ server_error (error_text (pkg_wrap e (codes "get target error")))
    | none ↦ elim (new_config get_target.0 origin) [
      | some e ↦ server_error (error_text (pkg_wrap e (codes "new target config error")))
      | none ↦
          let conf : DialConfig = record {
            target = get_target.0;
            origin = origin;
            protocol = split_comma [] protocols;
            header = dial_headers header;
          } in
          elim (dial conf) [
            | some e ↦ server_error (error_text (pkg_wrap e (codes "dail target error")))
            | none ↦ piped conf
          ]
    ]
  ]

-- A map lists a key once.
abbrev pub IsMap : Dict (List Bytes) → Type 0
IsMap [] = Unit {0}
IsMap ((k, v) ∷ m) = (lookup k m ≡ none) × IsMap m

lookup-copy_headers :
    (j : Bytes) (conf header : Dict (List Bytes))
    → IsMap header
    → lookup j (copy_headers conf header)
      ≡ (if is_own j then lookup j conf else first_of (lookup j header) (lookup j conf))
unfolding copy_headers lookup
lookup-copy_headers j conf [] h = ground arith
lookup-copy_headers j conf ((k, v) ∷ header) h = elim (Bool-cases (is_own k)) [
  | inl own ↦ ground (arith, own, lookup-copy_headers j conf header h.1, eq_bytes_iff k j)
  | inr other ↦ ground (
    arith,
    other,
    lookup-copy_headers j (insert k v conf) header h.1,
    eq_bytes_iff k j,
    lookup-insert k j v conf,
    h.0,
  )
]

extensions_other : is_own extensions_key ≡ false
unfolding is_own eq_bytes
extensions_other = refl

-- In the configuration with which the agent dials its target, for a request with no header under
-- the extensions' name of the configuration: that header has the request's extensions, a header
-- that belongs to the request's own handshake is absent, and each other header has the request's
-- value, or is absent with it.
dial_headers_lem :
    (j : Bytes) (header : Dict (List Bytes))
    → IsMap header
    → lookup extensions_key header ≡ none
    → lookup j (dial_headers header) ≡ (
        if eq_bytes extensions_key j
        then some (values (lookup (codes "Sec-Websocket-Extensions") header))
        else if is_own j
        then none
        else lookup j header)
unfolding dial_headers lookup
dial_headers_lem j header h absent = ground (
  arith,
  lookup-copy_headers j
      ((extensions_key, values (lookup (codes "Sec-Websocket-Extensions") header)) ∷ []) header h,
  eq_bytes_iff extensions_key j,
  extensions_other,
  absent,
)
