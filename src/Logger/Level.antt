-- ===== src/Logger/Level.antt =====
-- utils/logger/level-log.go: the levels, their names, and what `logLevel` passes.
use fancy_go.Base.{
  ℕ, zero, suc, ◌+◌, ◌≤◌, ◌≡◌, refl, Bool, true, false, ◌&&◌, ◌⊎◌, [], ◌∷◌, map, Option, none, some,
  arith, Bytes, codes, eq_bytes, eq_bytes_iff, leb, if◌then◌else◌, ◌∙◌, sym, ap,
}

abbrev pub panic_level : ℕ
panic_level = 0

abbrev pub trace_level : ℕ
trace_level = 6

-- `strings.ToLower` on ASCII.
unfoldable pub lower : ℕ → ℕ
lower c = if leb b'A' c && leb c b'Z' then c + 32 else c

unfoldable pub to_lower : Bytes → Bytes
unfolding lower
to_lower = map lower

-- The switch of `ParseLevel` on the lower-case text; `none` is its error.
unfoldable pub level_of : Bytes → Option ℕ
level_of s =
    if eq_bytes s (codes "panic")
    then some 0
    else if eq_bytes s (codes "fatal")
    then some 1
    else if eq_bytes s (codes "error")
    then some 2
    else if eq_bytes s (codes "warn")
    then some 3
    else if eq_bytes s (codes "warning")
    then some 3
    else if eq_bytes s (codes "info")
    then some 4
    else if eq_bytes s (codes "debug")
    then some 5
    else if eq_bytes s (codes "trace")
    then some 6
    else none

unfoldable pub parse_level : Bytes → Option ℕ
unfolding level_of
parse_level s = level_of (to_lower s)

-- `MarshalText`; `none` is its error.
unfoldable pub marshal_text : ℕ → Option Bytes
marshal_text zero = some (codes "panic")
marshal_text (suc zero) = some (codes "fatal")
marshal_text (suc (suc zero)) = some (codes "error")
marshal_text (suc (suc (suc zero))) = some (codes "warning")
marshal_text (suc (suc (suc (suc zero)))) = some (codes "info")
marshal_text (suc (suc (suc (suc (suc zero))))) = some (codes "debug")
marshal_text (suc (suc (suc (suc (suc (suc zero)))))) = some (codes "trace")
marshal_text (suc (suc (suc (suc (suc (suc (suc l))))))) = none

-- `String`
unfoldable pub level_string : ℕ → Bytes
level_string l = elim (marshal_text l) [ some b ↦ b | none ↦ codes "unknown" ]

-- `UnmarshalText`: the level behind the pointer afterwards, and whether there was an error.
unfoldable pub unmarshal_text : ℕ → Bytes → ℕ × Bool
unmarshal_text level text = elim (parse_level text) [ none ↦ (level, true) | some l ↦ (l, false) ]

-- The round trip at one level, whose name is known.
named :
    (l : ℕ) {name b : Bytes}
    → parse_level name ≡ some l
    → l ≤ trace_level
    → some name ≡ some b
    → (parse_level b ≡ some l) × (l ≤ trace_level)
named l {name} {b} p small h = (ap parse_level (sym same) ∙ p, small)
  where
    same : name ≡ b
    same = cc

-- ParseLevel of a text that MarshalText gives for a level returns that level, which is one of the
-- seven.
parse_level-marshal :
    (l : ℕ) (b : Bytes) → marshal_text l ≡ some b → (parse_level b ≡ some l) × (l ≤ trace_level)
unfolding marshal_text parse_level to_lower eq_bytes
parse_level-marshal zero b h = named 0 refl (omega arith) h
parse_level-marshal (suc zero) b h = named 1 refl (omega arith) h
parse_level-marshal (suc (suc zero)) b h = named 2 refl (omega arith) h
parse_level-marshal (suc (suc (suc zero))) b h = named 3 refl (omega arith) h
parse_level-marshal (suc (suc (suc (suc zero)))) b h = named 4 refl (omega arith) h
parse_level-marshal (suc (suc (suc (suc (suc zero))))) b h = named 5 refl (omega arith) h
parse_level-marshal (suc (suc (suc (suc (suc (suc zero)))))) b h = named 6 refl (omega arith) h
parse_level-marshal (suc (suc (suc (suc (suc (suc (suc l))))))) b h = absurd (cc)

lower_idem : (c : ℕ) → lower (lower c) ≡ lower c
unfolding lower
lower_idem c = ground arith

to_lower_idem : (s : Bytes) → to_lower (to_lower s) ≡ to_lower s
unfolding to_lower
to_lower_idem [] = refl
to_lower_idem (c ∷ s) = cc (lower_idem c, to_lower_idem s)

level_of_sound :
    (t : Bytes) {l : ℕ}
    → level_of t ≡ some l
    → (marshal_text l ≡ some t) ⊎ ((t ≡ codes "warn") × (marshal_text l ≡ some (codes "warning")))
unfolding level_of marshal_text
level_of_sound t h = ground (
  arith,
  eq_bytes_iff t (codes "panic"),
  eq_bytes_iff t (codes "fatal"),
  eq_bytes_iff t (codes "error"),
  eq_bytes_iff t (codes "warn"),
  eq_bytes_iff t (codes "warning"),
  eq_bytes_iff t (codes "info"),
  eq_bytes_iff t (codes "debug"),
  eq_bytes_iff t (codes "trace"),
)

-- If ParseLevel accepts a text as a level, then the text in lower case is what MarshalText gives
-- for that level, or it is "warn" and the level's text is "warning".
parse_level_sound :
    (s : Bytes) {l : ℕ}
    → parse_level s ≡ some l
    → (marshal_text l ≡ some (to_lower s))
      ⊎ ((to_lower s ≡ codes "warn") × (marshal_text l ≡ some (codes "warning")))
unfolding parse_level
parse_level_sound s h = level_of_sound (to_lower s) h
