-- ===== src/Base/Strings.antt =====
-- What the program uses of Go's `strings`, on ASCII texts.
use fancy_go.Base.Tests.{◌==◌, leb, if◌then◌else◌}
use fancy_go.Base.Lists.{length, drop}
use fancy_go.Base.Text.{Bytes}
use Prim.Native.Nat.{ℕ}
use mathlib.Core.Bool.{Bool, true, false, ◌&&◌, ◌||◌}
use mathlib.Core.List.{◌++◌, [], ◌∷◌, reverse}
use mathlib.Core.Option.{Option, none, some}

-- `unicode.IsSpace` on ASCII.
unfoldable pub is_white : ℕ → Bool
is_white c = (leb 9 c && leb c 13) || c == 32

-- A text without its longest prefix of bytes that pass a test.
unfoldable pub drop_while : (ℕ → Bool) → Bytes → Bytes
drop_while p [] = []
drop_while p (c ∷ s) = if p c then drop_while p s else c ∷ s

-- `TrimSpace`
unfoldable pub trim_space : Bytes → Bytes
unfolding is_white drop_while
trim_space s = reverse (drop_while is_white (reverse (drop_while is_white s)))

-- `HasPrefix`
unfoldable pub has_prefix : Bytes → Bytes → Bool
has_prefix s [] = true
has_prefix [] (c ∷ p) = false
has_prefix (d ∷ s) (c ∷ p) = d == c && has_prefix s p

-- `SplitN(s, sep, 2)`, for a separator of one byte that occurs.
unfoldable pub cut : ℕ → Bytes → Option (Bytes × Bytes)
cut sep [] = none
cut sep (c ∷ s) =
    let rest = cut sep s in
    if c == sep then some ([], s) else elim rest [ none ↦ none | some (a, b) ↦ some (c ∷ a, b) ]

unfoldable pub is_nil : Bytes → Bool
is_nil [] = true
is_nil (c ∷ s) = false

-- `Replace(s, old, new, 1)`
unfoldable pub replace_first : Bytes → Bytes → Bytes → Bytes
unfolding has_prefix is_nil
replace_first old new [] = if is_nil old then new else []
replace_first old new (c ∷ s) =
    let rest = replace_first old new s in
    if has_prefix (c ∷ s) old then new ++ drop (length old) (c ∷ s) else c ∷ rest

-- `TrimRight`, of the bytes that pass a test.
unfoldable pub trim_right : (ℕ → Bool) → Bytes → Bytes
unfolding drop_while
trim_right p s = reverse (drop_while p (reverse s))
