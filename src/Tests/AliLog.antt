-- ===== src/Tests/AliLog.antt =====
-- The text of a log configuration at concrete inputs.
use fancy_go.Base.{some, none, eq_bytes, Bytes, ◌≡◌, refl, [], ◌∷◌, codes, arith}
use fancy_go.Base.Strings.{is_white}
use fancy_go.Base.Dict.{Dict, lookup, insert}
use fancy_go.Logger.AliLog.{
  AliLogConfig, ali_log_from_str, config_of, add_fields, own_fields, fire_fields,
}
use fancy_go.Logger.AliLog.Rename.{Apart}
use fancy_go.Logger.AliLog.Fields.{expected, fire_fields_lem}
use fancy_go.Logger.AliLog.Parse.{render, table, ali_log_from_str-render}

ali_log_from_str-render_example :
    ali_log_from_str (render ((codes "a", codes "b") ∷ (codes "k", []) ∷ []))
    ≡ config_of (table [] ((codes "a", codes "b") ∷ (codes "k", []) ∷ []))
unfolding is_white
ali_log_from_str-render_example =
    ali_log_from_str-render (codes "a", codes "b") ((codes "k", []) ∷ [])
      (
        (
          ((refl, (λ e. omega arith), (λ e. omega arith)), tt),
          ((refl, (λ e. omega arith), (λ e. omega arith)), tt),
        ),
        ((((refl, (λ e. omega arith), (λ e. omega arith)), tt), tt), tt),
      )

abbrev config : AliLogConfig
config = record {
  endpoint = codes "e";
  access_key_id = codes "a";
  access_key_secret = codes "s";
  project = codes "p";
  log_store = codes "l";
  notify_project = codes "p";
  notify_store = codes "notify";
  enviroment = codes "test";
  host = codes "h";
  service = codes "svc";
}

abbrev fields : Dict Bytes
fields = (codes "level", codes "7") ∷ (codes "user", codes "u") ∷ []

fields-Apart : Apart (own_fields config (codes "m") (codes "INFO") (codes "f:1")) fields
unfolding own_fields lookup eq_bytes
fields-Apart k had there = refl

fire_fields_lem_example :
    lookup
      (codes "app_level")
      (fire_fields config none (codes "m") (codes "INFO") (codes "f:1") fields none)
    ≡ expected
        (own_fields config (codes "m") (codes "INFO") (codes "f:1"))
        fields
        (codes "app_level")
unfolding lookup eq_bytes
fire_fields_lem_example =
    fire_fields_lem config (codes "m") (codes "INFO") (codes "f:1") fields (codes "app_level")
      (refl, (refl, tt)) fields-Apart

-- Two fields of which one gets the name of the other: in one order a value is lost.
level_last :
    lookup (codes "app_level") (
      add_fields
        (own_fields config (codes "m") (codes "INFO") (codes "f:1"))
        ((codes "app_level", codes "8") ∷ (codes "level", codes "7") ∷ []))
    ≡ some (codes "7")
unfolding add_fields own_fields lookup insert eq_bytes
level_last = refl

level_first :
    lookup (codes "app_app_level") (
      add_fields
        (own_fields config (codes "m") (codes "INFO") (codes "f:1"))
        ((codes "level", codes "7") ∷ (codes "app_level", codes "8") ∷ []))
    ≡ some (codes "8")
unfolding add_fields own_fields lookup insert eq_bytes
level_first = refl
