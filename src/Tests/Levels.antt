-- ===== src/Tests/Levels.antt =====
-- utils/logger/level-log.go at concrete inputs.
use fancy_go.Base.{◌≡◌, refl, some, codes, eq_bytes}
use fancy_go.Logger.Level.{parse_level, level_of, to_lower}

warn : parse_level (codes "Warn") ≡ some 3
unfolding parse_level level_of to_lower eq_bytes
warn = refl
