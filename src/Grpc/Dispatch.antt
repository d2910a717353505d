-- ===== src/Grpc/Dispatch.antt =====
-- What `ServeHTTP` does with requests of registered services, and with JSON that cannot be read.
use fancy_go.Base.{
  ℕ, ◌≡◌, ◌≢◌, refl, sym, ap, ◌∙◌, subst, Bool, true, false, Option, Option-cases, List, [], ◌∷◌,
  ◌++◌, none, some, arith, Bytes, codes, eq_bytes, eq_bytes_iff, All, drop-length-append, ◌⊎◌, inl,
  inr,
}
use fancy_go.Base.Dict.{Dict, lookup, insert, lookup-insert}
use fancy_go.Base.Strings.{has_prefix}
use fancy_go.ErrorCode.Types.{Errors, Err, leaf, error_text, pkg_wrap}
use fancy_go.ErrorCode.Code.{get_code}
use fancy_go.Grpc.Route.{NoSlash, split, split_name, split_name-join}
use fancy_go.Grpc.Handler.{
  Rpc, Outcome, returns, HttpRequest, HttpResponse, Config, Services, add_methods, register_service,
  decode, recover_call, answer, write_error, invoke, route, serve_http, json_type, print_int, fails,
  panics_error, panics_value,
}

has_prefix-append : (p s : Bytes) → has_prefix (p ++ s) p ≡ true
unfolding has_prefix
has_prefix-append [] s = refl
has_prefix-append (c ∷ p) s = ground (arith, has_prefix-append p s)

append-longer : (p : Bytes) (c : ℕ) (s : Bytes) → p ++ c ∷ s ≢ p
append-longer [] c s h = cc
append-longer (d ∷ p) c s h = append-longer p c s (cc)

not_prefix : (p s m : Bytes) → p ++ (s ++ b'/' ∷ m) ≢ p
not_prefix p [] m h = append-longer p b'/' m h
not_prefix p (c ∷ s) m h = append-longer p c (s ++ b'/' ∷ m) h

health_part : split_name (codes "health") ≡ none
unfolding split_name split
health_part = refl

not_health : (s m : Bytes) → NoSlash m → s ++ b'/' ∷ m ≢ codes "health"
not_health s m h e = differ (sym (split_name-join s m h) ∙ ap split_name e ∙ health_part)
  where
    differ : {A : Type 0} {a : A} → some a ≡ none → ⊥
    differ e = cc

eq_bytes-false : (s t : Bytes) → s ≢ t → eq_bytes s t ≡ false
eq_bytes-false s t h = ground (arith, eq_bytes_iff s t)

module _ {lib : Errors} (rpc : Rpc lib) where
  open rpc use {Msg, Method, read_proto, read_json, print_proto, print_json, run}

  add_methods-other :
      (ms : Dict Method) (name : Bytes) (desc : List (Bytes × Method))
      → All (λ d. d.0 ≢ name) desc
      → lookup name (add_methods rpc ms desc) ≡ lookup name ms
  unfolding add_methods
  add_methods-other ms name [] h = refl
  add_methods-other ms name ((n, d) ∷ desc) h = ground (
    arith,
    add_methods-other (insert n d ms) name desc h.1,
    lookup-insert n name d ms,
    eq_bytes_iff n name,
    h.0,
  )

  add_methods-lookup :
      (ms : Dict Method) (name : Bytes) (d : Method) (front desc : List (Bytes × Method))
      → All (λ d. d.0 ≢ name) desc
      → lookup name (add_methods rpc ms (front ++ (name, d) ∷ desc)) ≡ some d
  unfolding add_methods
  add_methods-lookup ms name d [] desc h = ground (
    arith,
    add_methods-other (insert name d ms) name desc h,
    lookup-insert name name d ms,
    eq_bytes_iff name name,
  )
  add_methods-lookup ms name d ((n, e) ∷ front) desc h =
      add_methods-lookup (insert n e ms) name d front desc h

  serve_http-route :
      (cfg : Config rpc) (services : Services rpc) (io_error : Err lib) (r : HttpRequest)
      (s m : Bytes)
      → NoSlash m
      → r.path ≡ cfg.prefix ++ (s ++ b'/' ∷ m)
      → serve_http rpc cfg services io_error r ≡ route rpc cfg services io_error r (s ++ b'/' ∷ m)
  unfolding serve_http
  serve_http-route cfg services io_error r s m h e = ground (
    arith,
    e,
    has_prefix-append cfg.prefix (s ++ b'/' ∷ m),
    eq_bytes-false (cfg.prefix ++ (s ++ b'/' ∷ m)) cfg.prefix (not_prefix cfg.prefix s m),
    drop-length-append cfg.prefix (s ++ b'/' ∷ m),
    eq_bytes-false (s ++ b'/' ∷ m) (codes "health") (not_health s m h),
  )

  -- After RegisterService of a service, a request whose path is the prefix, the service's name, a
  -- slash and the name of one of its methods, a name without a slash that no later method of the
  -- service has, reaches exactly that method of that service, whatever was registered before.
  pub serve_http-register :
      (cfg : Config rpc) (services : Services rpc) (io_error : Err lib) (r : HttpRequest)
      (service name : Bytes) (d : Method) (front desc : List (Bytes × Method))
      → NoSlash name
      → All (λ d. d.0 ≢ name) desc
      → r.path ≡ cfg.prefix ++ (service ++ b'/' ∷ name)
      → serve_http rpc cfg
          (register_service rpc service (front ++ (name, d) ∷ desc) services)
          io_error
          r
        ≡ invoke rpc cfg service name d io_error r
  unfolding route register_service
  serve_http-register cfg services io_error r service name d front desc h others e =
      serve_http-route cfg (register_service rpc service (front ++ (name, d) ∷ desc) services)
        io_error r service name h e
      ∙ ground (
        arith,
        split_name-join service name h,
        lookup-insert service service (add_methods rpc [] (front ++ (name, d) ∷ desc)) services,
        eq_bytes_iff service service,
        add_methods-lookup [] name d front desc others,
      )

  -- Two JSON requests with the same Accept header from whose bodies protojson fills equal
  -- messages get the same response from a method, also if it reports an error for one body and
  -- none for the other.
  decode_ignores_errors :
      (cfg : Config rpc) (service name : Bytes) (method : Method) (io_error : Err lib)
      (bin bin' : Bytes) (r r' : HttpRequest)
      → r.body ≡ some bin
      → r'.body ≡ some bin'
      → eq_bytes r.content_type json_type ≡ true
      → eq_bytes r'.content_type json_type ≡ true
      → r.accept ≡ r'.accept
      → (read_json method bin).0 ≡ (read_json method bin').0
      → invoke rpc cfg service name method io_error r
        ≡ invoke rpc cfg service name method io_error r'
  unfolding invoke decode
  decode_ignores_errors cfg service name method io_error bin bin' r r' e e' j j' a same =
      rw e (rw e' (rw j (rw j' (rw a (rw same)))))

  -- The printing of a reply, by the Accept header.
  abbrev pub printed : Bool → Msg → Bytes × Option (Err lib)
  printed true m = print_json m
  printed false m = print_proto m

  -- The error with which a call fails, if it does.
  abbrev pub Failed : Bool → Outcome lib Msg → Err lib → Type 0
  Failed is_json (returns m) e =
      (c : Err lib) × ((printed is_json m).1 ≡ some c)
      × (e ≡ pkg_wrap c (codes "marshal output error"))
  Failed is_json (fails c) e = e ≡ c
  Failed is_json (panics_error c) e = e ≡ c
  Failed is_json (panics_value s) e = e ≡ leaf (lib.new (codes "panic " ++ s))

  -- What a response tells of the outcome of a call.
  abbrev pub Tells : Bool → Outcome lib Msg → HttpResponse → Type 0
  Tells is_json out res =
      ((m : Msg) × (out ≡ returns m)
        × ((printed is_json m).1 ≡ none)
        × (res.status ≡ 200)
        × (res.body ≡ (printed is_json m).0))
      ⊎ ((e : Err lib) × Failed is_json out e
          × (res.status ≡ 500)
          × (lookup (codes "X-Error-Code") res.headers ≡ some (print_int (get_code (some e))))
          × (lookup (codes "X-Error-Message") res.headers ≡ some (error_text e)))

  answer-Tells :
      (is_json : Bool) (out : Outcome lib Msg)
      → Tells is_json out (answer rpc is_json (recover_call rpc out))
  unfolding answer recover_call write_error lookup eq_bytes
  answer-Tells is_json (fails e) = inr (e, refl, refl, refl, refl)
  answer-Tells is_json (panics_error e) = inr (e, refl, refl, refl, refl)
  answer-Tells is_json (panics_value s) = inr (_, refl, refl, refl, refl)
  answer-Tells true (returns m) = elim (Option-cases (print_json m).1) [
    | inl fine ↦ inl (m, refl, fine, rw fine refl, rw fine refl)
    | inr (c, bad) ↦ inr (
      pkg_wrap c (codes "marshal output error"),
      (c, bad, refl),
      rw bad refl,
      rw bad refl,
      rw bad refl,
    )
  ]
  answer-Tells false (returns m) = elim (Option-cases (print_proto m).1) [
    | inl fine ↦ inl (m, refl, fine, rw fine refl, rw fine refl)
    | inr (c, bad) ↦ inr (
      pkg_wrap c (codes "marshal output error"),
      (c, bad, refl),
      rw bad refl,
      rw bad refl,
      rw bad refl,
    )
  ]

  -- A request that reaches a method of a service that has been registered, as by its path under
  -- the prefix, is answered in one of two ways, after the outcome of the handler on what the
  -- request decodes to, or fails to decode to: with the status 200 and the printed reply, if the
  -- handler returns a reply that can be printed in the format accepted; or with the status 500,
  -- the code that GetCode finds in an error in one header, and its text in another, where that
  -- error is the one that the handler returns or panics with, one that says the value it panics
  -- with, or the wrapped one of printing the reply.
  pub serve_http-Tells :
      (cfg : Config rpc) (services : Services rpc) (io_error : Err lib) (r : HttpRequest)
      (service name : Bytes) (d : Method) (front desc : List (Bytes × Method))
      → NoSlash name
      → All (λ d. d.0 ≢ name) desc
      → r.path ≡ cfg.prefix ++ (service ++ b'/' ∷ name)
      → Tells
          (eq_bytes r.accept json_type)
          (run d
            (decode rpc cfg service name d (eq_bytes r.content_type json_type) r.body io_error))
          (serve_http rpc cfg
            (register_service rpc service (front ++ (name, d) ∷ desc) services)
            io_error
            r)
  unfolding invoke
  serve_http-Tells cfg services io_error r service name d front desc h others e =
      let out =
        run d (decode rpc cfg service name d (eq_bytes r.content_type json_type) r.body io_error) in
      subst (Tells (eq_bytes r.accept json_type) out)
        (sym (serve_http-register cfg services io_error r service name d front desc h others e))
        (answer-Tells (eq_bytes r.accept json_type) out)
