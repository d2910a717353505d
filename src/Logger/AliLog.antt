-- ===== src/Logger/AliLog.antt =====
-- utils/logger/ali-log.go: the text of a configuration, and the fields of a record that is sent.
pub mod Parse
pub mod Rename
pub mod Fields
pub mod Start
use fancy_go.Base.{
  ℕ, Bool, true, false, List, [], ◌∷◌, ◌++◌, map, Option, none, some, Bytes, codes, if◌then◌else◌,
  eq_bytes,
}
use fancy_go.Base.Dict.{Dict, lookup, insert}
use fancy_go.Base.Strings.{trim_space, is_nil}
use fancy_go.Base.Split.{split_at}

pub record AliLogConfig : Type 0 where
  pub endpoint : Bytes
  pub access_key_id : Bytes
  pub access_key_secret : Bytes
  pub project : Bytes
  pub log_store : Bytes
  pub notify_project : Bytes
  pub notify_store : Bytes
  pub enviroment : Bytes
  pub host : Bytes
  pub service : Bytes

pub data ConfigError : Type 0 where
  invalid_pair : List Bytes → ConfigError
  must_be_set : Bytes → ConfigError

pub data Result (A : Type 0) : Type 0 where
  ok : A → Result A
  err : ConfigError → Result A

-- A read of a key that is not there.
unfoldable pub get : Bytes → Dict Bytes → Bytes
get k mp = elim (lookup k mp) [ none ↦ [] | some v ↦ v ]

-- The loop over the parts.
unfoldable pub read_parts : Dict Bytes → List Bytes → Result (Dict Bytes)
unfolding is_nil trim_space split_at
read_parts mp [] = ok mp
read_parts mp (part ∷ parts) = elim (is_nil (trim_space part)) [
  | true ↦ read_parts mp parts
  | false ↦ elim (split_at b'=' (trim_space part)) [
    | [] ↦ err (invalid_pair [])
    | k ∷ rest ↦ elim rest [
      | [] ↦ err (invalid_pair (k ∷ []))
      | v ∷ more ↦ elim more [
        | [] ↦ read_parts (insert k v mp) parts
        | w ∷ others ↦ err (invalid_pair (k ∷ v ∷ w ∷ others))
      ]
    ]
  ]
]

-- The first of the keys that has no value.
unfoldable pub missing : List Bytes → Dict Bytes → Option Bytes
unfolding get is_nil
missing [] mp = none
missing (k ∷ ks) mp = let rest = missing ks mp in if is_nil (get k mp) then some k else rest

abbrev pub required : List Bytes
required =
    codes "ep" ∷ codes "ak" ∷ codes "sk" ∷ codes "proj" ∷ codes "store" ∷ codes "service" ∷ []

unfoldable pub config_of : Dict Bytes → Result AliLogConfig
unfolding missing get
config_of mp = elim (missing required mp) [
  | some k ↦ err (must_be_set k)
  | none ↦ ok (record {
    endpoint = get (codes "ep") mp;
    access_key_id = get (codes "ak") mp;
    access_key_secret = get (codes "sk") mp;
    project = get (codes "proj") mp;
    log_store = get (codes "store") mp;
    notify_project = get (codes "notifyProj") mp;
    notify_store = get (codes "notifyStore") mp;
    enviroment = get (codes "env") mp;
    host = get (codes "host") mp;
    service = get (codes "service") mp;
  })
]

unfoldable pub ali_log_from_str : Bytes → Result AliLogConfig
unfolding read_parts config_of
ali_log_from_str c = elim (read_parts [] (split_at b'&' c)) [ err e ↦ err e | ok mp ↦ config_of mp ]

-- What `InitAliLog` makes of a configuration; `hostname` is `os.Hostname`.
unfoldable pub with_defaults : Bytes → AliLogConfig → AliLogConfig
unfolding is_nil
with_defaults hostname c = record c {
  notify_project = if is_nil c.notify_project then c.project else c.notify_project;
  notify_store = if is_nil c.notify_store then codes "notify" else c.notify_store;
  host = hostname;
}

-- The fields of `groupHook.Fire` before the data: those of the record, with another name where one
-- of the program's has it. The order in which Go visits a map is that of the list.
unfoldable pub add_fields : Dict Bytes → Dict Bytes → Dict Bytes
add_fields fields [] = fields
add_fields fields ((k, v) ∷ more) = elim (lookup k fields) [
  | none ↦ add_fields (insert k v fields) more
  | some old ↦ add_fields (insert (codes "app_" ++ k) v fields) more
]

unfoldable pub own_fields : AliLogConfig → Bytes → Bytes → Bytes → Dict Bytes
own_fields c message level location =
    (codes "content", message)
    ∷ (codes "environment", c.enviroment)
    ∷ (codes "host", c.host)
    ∷ (codes "level", level)
    ∷ (codes "service", c.service)
    ∷ (codes "location", location)
    ∷ []

-- `data` is the JSON text of the data, if there is any; `hook` is `AliLogHook`.
unfoldable pub fire_fields :
    AliLogConfig
    → Option (Dict Bytes → Dict Bytes)
    → Bytes
    → Bytes
    → Bytes
    → Dict Bytes
    → Option Bytes
    → Dict Bytes
unfolding add_fields own_fields
fire_fields c hook message level location record_fields json =
    let fields = add_fields (own_fields c message level location) record_fields in
    let sent = elim json as (λ _. Dict Bytes) [
      | none ↦ fields
      | some bin ↦ insert (codes "data") bin fields
    ] in
    elim hook [ none ↦ sent | some f ↦ f sent ]

-- The projects and stores that a record is sent to, by the name of its logger.
unfoldable pub destinations : AliLogConfig → Bytes → List (Bytes × Bytes)
destinations c group =
    if eq_bytes group (codes "notify")
    then (c.notify_project, c.notify_store) ∷ (c.project, c.log_store) ∷ []
    else (c.project, c.log_store) ∷ []

-- `Fire`: the project, the store and the fields of each log that is sent. `started` is whether there
-- is a producer.
unfoldable pub fire :
    Bool
    → AliLogConfig
    → Option (Dict Bytes → Dict Bytes)
    → Bytes
    → Bytes
    → Bytes
    → Bytes
    → Dict Bytes
    → Option Bytes
    → List (Bytes × Bytes × Dict Bytes)
unfolding fire_fields destinations
fire false c hook group message level location record_fields json = []
fire true c hook group message level location record_fields json =
    map (λ d. (d.0, d.1, fire_fields c hook message level location record_fields json))
      (destinations c group)
