-- ===== src/Tests/Loggers.antt =====
-- utils/logger/logger.go at concrete names.
use fancy_go.Base.{◌≡◌, refl, [], ◌∷◌, codes, Bytes, eq_bytes}
use fancy_go.Base.Dict.{lookup, insert}
use fancy_go.Logger.Entry.{logger}
use fancy_go.Logger.Registry.{Registry, no_default_hooks, get_logger, apply_all}
use fancy_go.Tests.Entries.{plain_texts, no_entries}

abbrev no_loggers : Registry Bytes
no_loggers = record { loggers = []; store = no_entries }

-- The second call with a name finds the entry of the first, and its options have no effect.
found_again :
    let first = get_logger plain_texts (λ name. 7) (codes "app") [] no_loggers in
    let second = get_logger plain_texts (λ name. 7) (codes "app") (no_default_hooks ∷ []) first.1 in
    (second.0 ≡ first.0) × ((second.1.store.entries 0).hooks ≡ 7 ∷ [])
unfolding get_logger apply_all logger lookup insert eq_bytes
found_again = (refl, refl)

-- An option of the first call does.
without_hooks :
    ((get_logger plain_texts
        (λ name. 7)
        (codes "app")
        (no_default_hooks ∷ [])
        no_loggers).1.store.entries
      0).hooks
    ≡ []
unfolding get_logger apply_all logger lookup
without_hooks = refl
