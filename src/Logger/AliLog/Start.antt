-- ===== src/Logger/AliLog/Start.antt =====
-- utils/logger/ali-log.go: `InitAliLog`, which runs once, and the hook that it gives to the end of the
-- process.
use fancy_go.Base.{
  ℕ, suc, ◌≡◌, refl, ap, ◌∙◌, Bool, true, false, List, [], ◌∷◌, Option, none, some, Bytes, codes,
}
use fancy_go.Base.Dict.{Dict}
use fancy_go.ErrorCode.Types.{Errors, Err}
use fancy_go.Logger.AliLog.{AliLogConfig, with_defaults, fire}

-- `aliLogger`: whether `initOnce` has run; the producer, by the configuration that it was started with,
-- and the configuration; and how often a hook was given to `app.OnExit`.
pub record AliLogger : Type 0 where
  pub done : Bool
  pub producer : Option AliLogConfig
  pub config : AliLogConfig
  pub exit_hooks : ℕ

abbrev pub no_config : AliLogConfig
no_config = record {
  endpoint = [];
  access_key_id = [];
  access_key_secret = [];
  project = [];
  log_store = [];
  notify_project = [];
  notify_store = [];
  enviroment = [];
  host = [];
  service = [];
}

abbrev pub ali_logger : AliLogger
ali_logger = record { done = false; producer = none; config = no_config; exit_hooks = 0 }

pub data Init : Type 0 where
  panics : Init
  returns : Option AliLogConfig → Init

-- `InitAliLog`; `hostname` is `os.Hostname`, and `none` its error. `sync.Once` counts a call that
-- panics as done.
unfoldable pub init_ali_log : Option Bytes → AliLogConfig → AliLogger → Init × AliLogger
init_ali_log hostname c l = elim l.done [
  | true ↦ (returns l.producer, l)
  | false ↦ elim hostname [
    | none ↦ (panics, record l { done = true })
    | some h ↦
        let config = with_defaults h c in
        (
          returns (some config),
          record {
            done = true;
            producer = some config;
            config = config;
            exit_hooks = suc l.exit_hooks;
          },
        )
  ]
]

-- `Fire` of a hook for the loggers of a group.
unfoldable pub fire_group :
    AliLogger
    → Option (Dict Bytes → Dict Bytes)
    → Bytes
    → Bytes
    → Bytes
    → Bytes
    → Dict Bytes
    → Option Bytes
    → List (Bytes × Bytes × Dict Bytes)
fire_group l = fire (elim l.producer [ none ↦ false | some p ↦ true ]) l.config

-- What the hook does at the end of the process; an entry of the log has a stage, empty for none.
pub data Closing (lib : Errors) : Type 0 where
  log_error : Bytes → Err lib → Closing lib
  log_info : Bytes → Bytes → Closing lib
  safe_close : Closing lib

unfoldable pub exit_hook : {lib : Errors} → Option (Err lib) → List (Closing lib)
exit_hook none =
    log_info (codes "app-exit") (codes "app exit")
    ∷ log_info [] (codes "ali log closing")
    ∷ safe_close
    ∷ []
exit_hook (some err) =
    log_error (codes "app-exit-with-error") err
    ∷ log_info [] (codes "ali log closing")
    ∷ safe_close
    ∷ []

-- Calls, one after the other.
abbrev pub init_all : List (Option Bytes × AliLogConfig) → AliLogger → AliLogger
init_all [] l = l
init_all ((h, c) ∷ calls) l = init_all calls (init_ali_log h c l).1

init_ali_log-done :
    (host : Option Bytes) (c : AliLogConfig) (l : AliLogger)
    → l.done ≡ true
    → (init_ali_log host c l).1 ≡ l
unfolding init_ali_log
init_ali_log-done host c l h = rw h refl

init_all-done :
    (calls : List (Option Bytes × AliLogConfig)) (l : AliLogger)
    → l.done ≡ true
    → init_all calls l ≡ l
init_all-done [] l h = refl
init_all-done ((host, c) ∷ calls) l h =
    ap (init_all calls) (init_ali_log-done host c l h) ∙ init_all-done calls l h

-- Whatever calls of InitAliLog follow: after a first one that finds the host's name, the producer and
-- the configuration are that of this call, there is one hook at the end of the process, and Fire sends with this configuration.
init_all-first :
    (h : Bytes) (c : AliLogConfig) (calls : List (Option Bytes × AliLogConfig))
    (group message level location : Bytes) (fields : Dict Bytes) (json : Option Bytes)
    → (init_all ((some h, c) ∷ calls) ali_logger ≡ record {
      done = true;
      producer = some (with_defaults h c);
      config = with_defaults h c;
      exit_hooks = 1;
    })
      × (fire_group
            (init_all ((some h, c) ∷ calls) ali_logger)
            none
            group
            message
            level
            location
            fields
            json
          ≡ fire true (with_defaults h c) none group message level location fields json)
unfolding init_ali_log fire_group
init_all-first h c calls group message level location fields json =
    let after : AliLogger = record {
      done = true;
      producer = some (with_defaults h c);
      config = with_defaults h c;
      exit_hooks = 1;
    } in
    let same = init_all-done calls after refl in
    (same, ap (λ (l : AliLogger). fire_group l none group message level location fields json) same)

-- After a first call that does not, no call starts a producer, and Fire sends nothing.
init_all-panics :
    (c : AliLogConfig) (calls : List (Option Bytes × AliLogConfig))
    (hook : Option (Dict Bytes → Dict Bytes)) (group message level location : Bytes)
    (fields : Dict Bytes) (json : Option Bytes)
    → fire_group
        (init_all ((none, c) ∷ calls) ali_logger)
        hook
        group
        message
        level
        location
        fields
        json
      ≡ []
unfolding init_ali_log fire_group fire
init_all-panics c calls hook group message level location fields json =
    ap (λ (l : AliLogger). fire_group l hook group message level location fields json)
      (init_all-done calls (record ali_logger { done = true }) refl)
