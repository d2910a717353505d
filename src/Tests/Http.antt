-- ===== src/Tests/Http.antt =====
-- utils/grpc_util/http_rpc_handler.go at concrete inputs.
use fancy_go.Base.{
  eq_bytes, ◌≡◌, refl, [], ◌∷◌, ◌++◌, Option, none, some, arith, Bytes, codes, Bool, true, false,
}
use fancy_go.ErrorCode.Types.{Err}
use fancy_go.Grpc.Handler.{
  Rpc, HttpRequest, Config, Either, ok, err, Outcome, returns, fails, invoke, serve_http,
  register_service, json_type,
}
use fancy_go.Grpc.Dispatch.{serve_http-register, serve_http-Tells, Tells}
use fancy_go.Tests.Errors.{plain_errors, timeout}

-- Messages are texts; a JSON text must start with a brace. The method `true` gives its input back,
-- the method `false` fails.
abbrev read_text : Bytes → Bytes × Option (Err plain_errors)
read_text [] = ([], some timeout)
read_text (c ∷ s) = ([], none)

abbrev give_back : Either plain_errors Bytes → Outcome plain_errors Bytes
give_back (ok s) = returns s
give_back (err e) = fails e

abbrev run_text : Bool → Either plain_errors Bytes → Outcome plain_errors Bytes
run_text true input = give_back input
run_text false input = fails timeout

abbrev texts : Rpc plain_errors
texts = record {
  Msg = Bytes;
  Method = Bool;
  read_proto = λ m s. (s, none);
  read_json = λ m s. read_text s;
  print_proto = λ s. (s, none);
  print_json = λ s. (s, none);
  run = run_text;
  error_json = λ c s. s;
}

abbrev config : Config texts
config = record { prefix = codes "/rpc/"; on_before_call = none }

abbrev get : HttpRequest
get = record {
  path = codes "/rpc/pkg.Echo/Get";
  content_type = json_type;
  accept = json_type;
  body = some [];
}

serve_http-register_example :
    serve_http texts config
      (register_service texts
        (codes "pkg.Echo")
        ([] ++ (codes "Get", true) ∷ (codes "Fail", false) ∷ [])
        [])
      timeout
      get
    ≡ invoke texts config (codes "pkg.Echo") (codes "Get") true timeout get
serve_http-register_example =
    serve_http-register texts config [] timeout get (codes "pkg.Echo") (codes "Get") true []
      ((codes "Fail", false) ∷ [])
      ((λ h. omega arith), ((λ h. omega arith), ((λ h. omega arith), tt))) ((λ h. cc), tt) refl

abbrev other : HttpRequest
other = record get { body = some (codes "{}") }

serve_http-Tells_example : Tells texts true (fails timeout) (
    serve_http texts config
      (register_service texts
        (codes "pkg.Echo")
        ([] ++ (codes "Get", false) ∷ (codes "Fail", false) ∷ [])
        [])
      timeout
      get)
unfolding eq_bytes
serve_http-Tells_example =
    serve_http-Tells texts config [] timeout get (codes "pkg.Echo") (codes "Get") false []
      ((codes "Fail", false) ∷ [])
      ((λ h. omega arith), ((λ h. omega arith), ((λ h. omega arith), tt))) ((λ h. cc), tt) refl
