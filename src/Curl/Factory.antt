-- ===== src/Curl/Factory.antt =====
-- `factoryFromTpl`: the function that sends the request, again and again from one template.
use fancy_go.Base.{
  ◌-◌, ◌+◌, Bool, true, false, not, ◌&&◌, ◌||◌, [], ◌∷◌, Option, none, some, Bytes, leb,
  if◌then◌else◌, ◌≡◌, refl, ap, ◌∙◌, arith, ◌==◌,
}
use fancy_go.Base.Dict.{Dict, insert, lookup, lookup-insert, lookup-nil, first_of}

-- `textproto.CanonicalMIMEHeaderKey` on names of letters, digits and dashes: the first letter and
-- those behind a dash in upper case, the others in lower case.
unfoldable pub canonical_from : Bool → Bytes → Bytes
canonical_from upper [] = []
canonical_from upper (c ∷ s) =
    (if upper && (leb b'a' c && leb c b'z')
      then c - 32
      else if not upper && (leb b'A' c && leb c b'Z')
      then c + 32
      else c)
    ∷ canonical_from (c == b'-') s

unfoldable pub canonical : Bytes → Bytes
unfolding canonical_from
canonical = canonical_from true

pub data CallError : Type 0 where
  json_marshal : CallError
  create_request : CallError
  do_request : CallError
  read_body : CallError
  json_unmarshal : CallError

-- A request as `do` gets it.
pub record Request : Type 0 where
  pub method : Bytes
  pub url : Bytes
  pub body : Option Bytes
  pub header : Dict Bytes

-- The body of a response: its bytes, or `none` if reading fails.
pub record Response : Type 0 where
  pub body : Option Bytes

-- `RequestOption`. `json_send` is absent, or what `json.Marshal` makes of the value (`none` if it
-- fails); `json_ret` is whether a value is asked for, and whether a body can be read into it.
pub record RequestOption : Type 0 where
  pub do' : Request → Option Response
  pub header : Dict Bytes
  pub json_send : Option (Option Bytes)
  pub string_ret : Bool
  pub json_ret : Option (Bytes → Bool)

-- What a call leaves in the option: the response, the text, and whether the value was filled.
pub record Returned : Type 0 where
  pub resp : Option Response
  pub text : Option Bytes
  pub error : Option CallError

abbrev failed : CallError → Returned
failed e = record { resp = none; text = none; error = some e }

-- `req.Header.Set(k, v)` for each given header.
unfoldable pub set_all : Dict Bytes → Dict Bytes → Dict Bytes
unfolding canonical
set_all header [] = header
set_all header ((k, v) ∷ more) = insert (canonical k) v (set_all header more)

-- What is done with the response.
unfoldable pub finish : RequestOption → Option Response → Returned
finish o none = failed do_request
finish o (some r) =
    if o.string_ret || (elim o.json_ret [ none ↦ false | some _ ↦ true ])
    then elim r.body [
      | none ↦ record { resp = some r; text = none; error = some read_body }
      | some b ↦ record {
        resp = some r;
        text = if o.string_ret then some b else none;
        error = elim o.json_ret [
          | none ↦ none
          | some reads ↦ if reads b then none else some json_unmarshal
        ];
      }
    ]
    else record { resp = some r; text = none; error = none }

-- The body of the request, or the failure of `json.Marshal`.
unfoldable pub request_body : RequestOption → Option (Option Bytes)
request_body o = elim o.json_send [
  | none ↦ some none
  | some none ↦ none
  | some (some b) ↦ some (some b)
]

-- One call. The header of the request is the map of the template, not a copy, so the call changes
-- the template: `header` is its map before the call, and the first result the map afterwards.
-- `accepts` says whether `http.NewRequest` accepts the template's method and address again.
unfoldable pub call :
    Bool → Bytes → Bytes → Dict Bytes → RequestOption → Dict Bytes × Option Request × Returned
unfolding set_all finish
call accepts method url header o = elim (request_body o) [
  | none ↦ (header, none, failed json_marshal)
  | some body ↦ elim accepts [
    | false ↦ (header, none, failed create_request)
    | true ↦
        let header' = set_all header o.header in
        let req : Request = record { method = method; url = url; body = body; header = header' } in
        (header', some req, finish o (o.do' req))
  ]
]

lookup-set_all :
    (j : Bytes) (h m : Dict Bytes)
    → lookup j (set_all h m) ≡ first_of (lookup j (set_all [] m)) (lookup j h)
unfolding set_all
lookup-set_all j h [] = rw lookup-nil
lookup-set_all j h ((k, v) ∷ m) =
    lookup-insert (canonical k) j v (set_all h m)
    ∙ ground (arith, lookup-set_all j h m, lookup-insert (canonical k) j v (set_all [] m))

call-request :
    (accepts : Bool) (method url : Bytes) (header : Dict Bytes) (o : RequestOption)
    (b : Option Bytes)
    → request_body o ≡ some b
    → accepts ≡ true
    → ((call accepts method url header o).0 ≡ set_all header o.header)
      × ((call accepts method url header o).1
          ≡ some
              (record { method = method; url = url; body = b; header = set_all header o.header }))
unfolding call
call-request accepts method url header o b e h = (ground (arith, e, h), ground (arith, e, h))

-- In the second of two calls from one template, if the bodies of both can be marshalled and the
-- requests be made, a header has the value that the second call gives, or else the value that the
-- first call gave, or else the template's.
second_call_header :
    (method url : Bytes) (header : Dict Bytes) (o1 o2 : RequestOption) (b1 b2 : Option Bytes)
    → request_body o1 ≡ some b1
    → request_body o2 ≡ some b2
    → (req : Request) × ((call true method url (call true method url header o1).0 o2).1 ≡ some req)
      × ((j : Bytes)
          → lookup j req.header
            ≡ first_of
                (lookup j (set_all [] o2.header))
                (first_of (lookup j (set_all [] o1.header)) (lookup j header)))
second_call_header method url header o1 o2 b1 b2 e1 e2 =
    let (first, _) = call-request true method url header o1 b1 e1 refl in
    let h1 = (call true method url header o1).0 in
    let (_, second) = call-request true method url h1 o2 b2 e2 refl in
    (
      record { method = method; url = url; body = b2; header = set_all h1 o2.header },
      second,
      λ j.
          lookup-set_all j h1 o2.header
          ∙ ap (first_of (lookup j (set_all [] o2.header)))
              (ap (lookup j) first ∙ lookup-set_all j header o1.header),
    )
