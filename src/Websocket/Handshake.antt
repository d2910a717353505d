-- ===== src/Websocket/Handshake.antt =====
-- The handshake of `WsHttpHandler`: origin and protocol.
use fancy_go.Base.{
  ℕ, ◌-◌, ◌≡◌, refl, Bool, true, false, ◌&&◌, List, [], ◌∷◌, ◌++◌, Option, none, some, arith, Bytes,
  eq_bytes, eq_bytes_iff, if◌then◌else◌, length, drop, leb, All, ◌⊎◌, inl, inr, Bool-cases,
  length-append, drop-length-append, sym, ◌∙◌, ap,
}
use fancy_go.Base.Strings.{is_nil}

pub data HandshakeError : Type 0 where
  origin_empty : HandshakeError
  origin_parse : HandshakeError
  origin_not_listed : Bytes → HandshakeError
  protocol_not_found : HandshakeError

-- `strings.HasSuffix`
unfoldable pub has_suffix : Bytes → Bytes → Bool
has_suffix s suffix =
    leb (length suffix) (length s) && eq_bytes (drop (length s - length suffix) s) suffix

-- `originHost`
unfoldable pub find_origin : List Bytes → Bytes → Bytes
unfolding has_suffix
find_origin [] hostname = []
find_origin (v ∷ whitelist) hostname =
    let rest = find_origin whitelist hostname in if has_suffix hostname v then v else rest

-- The check of the origin; `host_of` is the host of the parsed address, without a port.
unfoldable pub check_origin : (Bytes → Option Bytes) → List Bytes → Bytes → Option HandshakeError
unfolding find_origin
check_origin host_of [] org = none
check_origin host_of (w ∷ ws) org = if is_nil org then some origin_empty else elim (host_of org) [
  | none ↦ some origin_parse
  | some hostname ↦
      if is_nil (find_origin (w ∷ ws) hostname) then some (origin_not_listed hostname) else none
]

unfoldable pub contains : List Bytes → Bytes → Bool
contains [] v = false
contains (p ∷ ps) v = let rest = contains ps v in if eq_bytes v p then true else rest

-- `protocol`, from the protocols that the request offers and those of the handler.
unfoldable pub choose_protocol : List Bytes → List Bytes → Bytes
choose_protocol [] protocols = []
choose_protocol (v ∷ offered) protocols =
    let rest = choose_protocol offered protocols in
    if contains protocols v then (if is_nil v then rest else v) else rest

-- The protocols of the connection afterwards, or the error; `custom` is the field `Handshake`.
unfoldable pub handshake :
    (Bytes → Option Bytes)
    → Option (List Bytes → List Bytes × Option HandshakeError)
    → List Bytes
    → List Bytes
    → Bytes
    → List Bytes
    → List Bytes × Option HandshakeError
unfolding check_origin choose_protocol
handshake host_of custom whitelist protocols org offered =
    elim (check_origin host_of whitelist org) [
      | some e ↦ (offered, some e)
      | none ↦ elim protocols [
        | [] ↦ elim custom [ none ↦ (offered, none) | some f ↦ f offered ]
        | p ∷ ps ↦
            if is_nil (choose_protocol offered (p ∷ ps))
            then (offered, some protocol_not_found)
            else elim custom [
              | none ↦ (choose_protocol offered (p ∷ ps) ∷ [], none)
              | some f ↦ f (choose_protocol offered (p ∷ ps) ∷ [])
            ]
      ]
    ]

has_suffix-append : (x v : Bytes) → has_suffix (x ++ v) v ≡ true
unfolding has_suffix
has_suffix-append x v =
    ground
      (arith, length-append x v, whole, eq_bytes_iff (drop (length (x ++ v) - length v) (x ++ v)) v)
  where
    len : length (x ++ v) - length v ≡ length x
    len = omega (arith, length-append x v)

    whole : drop (length (x ++ v) - length v) (x ++ v) ≡ v
    whole = ap (λ (n : ℕ). drop n (x ++ v)) len ∙ drop-length-append x v

find_origin-append :
    (front back : List Bytes) (x v : Bytes)
    → All (λ w. is_nil w ≡ false) (front ++ v ∷ back)
    → is_nil (find_origin (front ++ v ∷ back) (x ++ v)) ≡ false
unfolding find_origin
find_origin-append [] back x v h = ground (arith, has_suffix-append x v, h.0)
find_origin-append (w ∷ front) back x v h =
    ground (arith, find_origin-append front back x v h.1, h.0)

-- With a whitelist without empty entries, an origin whose host is any text followed by an entry
-- passes the check, also if no dot separates them.
check_origin_suffix :
    (host_of : Bytes → Option Bytes) (front back : List Bytes) (org x v : Bytes)
    → All (λ w. is_nil w ≡ false) (front ++ v ∷ back)
    → is_nil org ≡ false
    → host_of org ≡ some (x ++ v)
    → check_origin host_of (front ++ v ∷ back) org ≡ none
unfolding check_origin
check_origin_suffix host_of [] back org x v h e g =
    ground (arith, e, g, find_origin-append [] back x v h)
check_origin_suffix host_of (w ∷ front) back org x v h e g =
    ground (arith, e, g, find_origin-append (w ∷ front) back x v h)

-- The first offered protocol that the handler has.
abbrev pub IsFirst : List Bytes → List Bytes → Bytes → Type 0
IsFirst offered protocols p =
    (front : List Bytes) × (back : List Bytes) × (offered ≡ front ++ p ∷ back)
    × (contains protocols p ≡ true)
    × (is_nil p ≡ false)
    × All (λ q. (contains protocols q ≡ false) ⊎ (is_nil q ≡ true)) front

IsFirst-skip :
    (v : Bytes) (offered protocols : List Bytes) (p : Bytes)
    → (contains protocols v ≡ false) ⊎ (is_nil v ≡ true)
    → IsFirst offered protocols p
    → IsFirst (v ∷ offered) protocols p
IsFirst-skip v offered protocols p skip (front, back, e, has, full, others) =
    (v ∷ front, back, ap (λ (l : List Bytes). v ∷ l) e, has, full, (skip, others))

choose_protocol-IsFirst :
    (offered protocols : List Bytes) (p : Bytes)
    → choose_protocol offered protocols ≡ p
    → is_nil p ≡ false
    → IsFirst offered protocols p
unfolding choose_protocol is_nil
choose_protocol-IsFirst [] protocols p e h = absurd (ground (arith, e, h))
choose_protocol-IsFirst (v ∷ offered) protocols p e h = elim (Bool-cases (contains protocols v)) [
  | inr out ↦
      IsFirst-skip v offered protocols p (inl out)
        (choose_protocol-IsFirst offered protocols p (ground (arith, out, e)) h)
  | inl has ↦ elim (Bool-cases (is_nil v)) [
    | inl nil ↦
        IsFirst-skip v offered protocols p (inr nil)
          (choose_protocol-IsFirst offered protocols p (ground (arith, has, nil, e)) h)
    | inr full ↦ found (ground (arith, has, full, e)) has
  ]
]
  where
    found : v ≡ p → contains protocols v ≡ true → IsFirst (v ∷ offered) protocols p
    found same has = (
      [],
      offered,
      ap (λ (u : Bytes). u ∷ offered) same,
      ap (contains protocols) (sym same) ∙ has,
      h,
      tt,
    )

-- If a handler with at least one protocol and no function of its own lets a handshake pass, then
-- the origin has passed its check and the connection has one protocol, the first of the offered
-- ones that is not empty and is the handler's.
pub handshake_protocol :
    (host_of : Bytes → Option Bytes) (whitelist : List Bytes) (q : Bytes) (qs : List Bytes)
    (org : Bytes) (offered after : List Bytes)
    → handshake host_of none whitelist (q ∷ qs) org offered ≡ (after, none)
    → (p : Bytes) × (after ≡ p ∷ [])
      × (check_origin host_of whitelist org ≡ none)
      × IsFirst offered (q ∷ qs) p
unfolding handshake
handshake_protocol host_of whitelist q qs org offered after h =
    elim (Bool-cases (is_nil (choose_protocol offered (q ∷ qs)))) [
      | inl missing ↦ absurd (ground (arith, missing))
      | inr full ↦ (
        choose_protocol offered (q ∷ qs),
        ground (arith, full),
        ground (arith, full),
        choose_protocol-IsFirst offered (q ∷ qs) (choose_protocol offered (q ∷ qs)) refl full,
      )
    ]
