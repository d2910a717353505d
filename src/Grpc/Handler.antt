-- ===== src/Grpc/Handler.antt =====
-- `ServeHTTP`, `writeError` and `RegisterService`.
use fancy_go.Base.{
  ℕ, suc, Bool, true, false, List, [], ◌∷◌, ◌++◌, Option, none, some, Bytes, codes, eq_bytes,
  if◌then◌else◌, length, drop,
}
use fancy_go.Base.Dict.{Dict, lookup, insert}
use fancy_go.Base.Int.{ℤ, pos, negsuc}
use fancy_go.Base.Strings.{has_prefix}
use fancy_go.Framing.Decimal.{format}
use fancy_go.ErrorCode.Types.{Errors, Err, leaf, error_text, pkg_wrap}
use fancy_go.ErrorCode.Code.{get_code}
use fancy_go.Grpc.Route.{split_name}

-- `fmt.Sprintf("%d", n)` on an int.
unfoldable pub print_int : ℤ → Bytes
print_int (pos n) = format n
print_int (negsuc n) = b'-' ∷ format (suc n)

-- What comes of a call into generated code: a reply, an error, or a panic with an error or with
-- another value, which prints as the given text.
pub data Outcome (lib : Errors) (Msg : Type 0) : Type 0 where
  returns : Msg → Outcome lib Msg
  fails : Err lib → Outcome lib Msg
  panics_error : Err lib → Outcome lib Msg
  panics_value : Bytes → Outcome lib Msg

pub data Either (lib : Errors) (Msg : Type 0) : Type 0 where
  ok : Msg → Either lib Msg
  err : Err lib → Either lib Msg

-- Protocol buffers and the generated handlers, which are not the program's. A reader returns what it
-- has put into the message, and its error. `run` is the handler of a method, given what its decoding
-- function returns.
pub record Rpc (lib : Errors) : Type 1 where
  pub Msg : Type 0
  pub Method : Type 0
  pub read_proto : Method → Bytes → Msg × Option (Err lib)
  pub read_json : Method → Bytes → Msg × Option (Err lib)
  pub print_proto : Msg → Bytes × Option (Err lib)
  pub print_json : Msg → Bytes × Option (Err lib)
  pub run : Method → Either lib Msg → Outcome lib Msg
  -- The JSON text of a code and a message.
  pub error_json : ℤ → Bytes → Bytes

pub record HttpRequest : Type 0 where
  pub path : Bytes
  pub content_type : Bytes
  pub accept : Bytes
  pub body : Option Bytes  -- `none` if reading it fails

pub record HttpResponse : Type 0 where
  pub status : ℕ
  pub headers : Dict Bytes
  pub body : Bytes

abbrev pub json_type : Bytes
json_type = codes "application/json"

abbrev pub plain : ℕ → HttpResponse
plain status = record { status = status; headers = []; body = [] }

module _ {lib : Errors} (rpc : Rpc lib) where
  open rpc use {Msg, Method, read_proto, read_json, print_proto, print_json, run, error_json}

  -- `OnBeforeCall`, if it is set: its error, for a service, a method and the input.
  pub record Config : Type 0 where
    pub prefix : Bytes
    pub on_before_call : Option (Bytes → Bytes → Msg → Option (Err lib))

  -- A service is its methods.
  abbrev pub Services : Type 0
  Services = Dict (Dict Method)

  unfoldable pub add_methods : Dict Method → List (Bytes × Method) → Dict Method
  add_methods methods [] = methods
  add_methods methods ((name, method) ∷ more) = add_methods (insert name method methods) more

  -- The description of a service is its name and its methods; the streams are never used.
  unfoldable pub register_service : Bytes → List (Bytes × Method) → Services → Services
  register_service name desc services = insert name (add_methods [] desc) services

  unfoldable pub write_error : Err lib → ℕ → HttpResponse
  write_error e status = record {
    status = status;
    headers =
        (codes "X-Error-Code", print_int (get_code (some e)))
        ∷ (codes "X-Error-Message", error_text e)
        ∷ (codes "Content-Type", json_type)
        ∷ [];
    body = error_json (get_code (some e)) (error_text e);
  }

  -- `writeError(w, errors.New(s), code)`
  unfoldable pub write_text_error : Bytes → ℕ → HttpResponse
  unfolding write_error
  write_text_error s status = write_error (leaf (lib.new s)) status

  -- The call of `OnBeforeCall` on the input.
  unfoldable pub before_call : Config → Bytes → Bytes → Msg → Either lib Msg
  before_call cfg service method input = elim cfg.on_before_call [
    | none ↦ ok input
    | some cb ↦ elim (cb service method input) [
      | none ↦ ok input
      | some e ↦ err (pkg_wrap e (codes "on before call error"))
    ]
  ]

  -- The decoding function. The error of the JSON reader is not returned.
  unfoldable pub decode :
      Config → Bytes → Bytes → Method → Bool → Option Bytes → Err lib → Either lib Msg
  unfolding before_call
  decode cfg service name method is_json none io_error =
      err (pkg_wrap io_error (codes "read body error"))
  decode cfg service name method true (some bin) io_error =
      before_call cfg service name (read_json method bin).0
  decode cfg service name method false (some bin) io_error = elim (read_proto method bin).1 [
    | some e ↦ err (pkg_wrap e (codes "unmarshal input error"))
    | none ↦ before_call cfg service name (read_proto method bin).0
  ]

  -- `call`: a panic becomes an error.
  unfoldable pub recover_call : Outcome lib Msg → Either lib Msg
  recover_call (returns m) = ok m
  recover_call (fails e) = err e
  recover_call (panics_error e) = err e
  recover_call (panics_value s) = err (leaf (lib.new (codes "panic " ++ s)))

  -- The answer to a reply or an error of the call.
  unfoldable pub answer : Bool → Either lib Msg → HttpResponse
  unfolding write_error
  answer is_json (err e) = write_error e 500
  answer true (ok m) = elim (print_json m).1 [
    | some e ↦ write_error (pkg_wrap e (codes "marshal output error")) 500
    | none ↦ record {
      status = 200;
      headers = (codes "Content-Type", json_type) ∷ [];
      body = (print_json m).0;
    }
  ]
  answer false (ok m) = elim (print_proto m).1 [
    | some e ↦ write_error (pkg_wrap e (codes "marshal output error")) 500
    | none ↦ record {
      status = 200;
      headers = (codes "Content-Type", codes "application/protobuf") ∷ [];
      body = (print_proto m).0;
    }
  ]

  -- The part of `ServeHTTP` behind the lookup of the method. `io_error` is the error of a body that
  -- cannot be read.
  unfoldable pub invoke : Config → Bytes → Bytes → Method → Err lib → HttpRequest → HttpResponse
  unfolding recover_call
  invoke cfg service name method io_error r = answer (eq_bytes r.accept json_type) (
      recover_call (
        run method
          (decode cfg service name method (eq_bytes r.content_type json_type) r.body io_error)))

  -- The part of `ServeHTTP` on a path without the prefix.
  unfoldable pub route : Config → Services → Err lib → HttpRequest → Bytes → HttpResponse
  unfolding write_text_error
  route cfg services io_error r path = elim (split_name path) [
    | none ↦ write_text_error (codes "invalid path") 404
    | some (service, name) ↦ elim (lookup service services) [
      | none ↦ write_text_error (codes "service " ++ (service ++ codes " not found")) 404
      | some methods ↦ elim (lookup name methods) [
        | none ↦ write_text_error (codes "method " ++ (name ++ codes " not found")) 404
        | some method ↦ invoke cfg service name method io_error r
      ]
    ]
  ]

  unfoldable pub serve_http : Config → Services → Err lib → HttpRequest → HttpResponse
  unfolding write_text_error has_prefix
  serve_http cfg services io_error r =
      if has_prefix r.path cfg.prefix
      then (if eq_bytes r.path cfg.prefix
          then plain 200
          else if eq_bytes (drop (length cfg.prefix) r.path) (codes "health")
          then plain 200
          else route cfg services io_error r (drop (length cfg.prefix) r.path))
      else write_text_error (codes "prefix not match") 404
