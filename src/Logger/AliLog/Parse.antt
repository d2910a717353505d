-- ===== src/Logger/AliLog/Parse.antt =====
-- A configuration that is printed as pairs is read back.
use mathlib.Core.List.{reverse, reverse-cons, reverse-reverse}
use fancy_go.Base.{
  ℕ, ◌≡◌, ◌≢◌, refl, ◌∙◌, false, List, [], ◌∷◌, ◌++◌, map, arith, Bytes, All, All-append,
}
use fancy_go.Base.Dict.{Dict, insert}
use fancy_go.Base.Strings.{trim_space, is_nil, drop_while, is_white}
use fancy_go.Base.Split.{join_by, Free, split_at-join_by, split_at-append, split_at-Free}
use fancy_go.Logger.AliLog.{ok, read_parts, config_of, ali_log_from_str}

-- A byte that may stand in a key or a value: no white space, no ampersand, no equals sign.
abbrev pub Clean : ℕ → Type 0
Clean c = (is_white c ≡ false) × (c ≢ b'&') × (c ≢ b'=')

pub render_pair : Bytes × Bytes → Bytes
render_pair (k, v) = k ++ b'=' ∷ v

-- The pairs with an ampersand between each two.
pub render : List (Bytes × Bytes) → Bytes
unfolding render_pair
render kvs = join_by b'&' (map render_pair kvs)

-- The values of the pairs, the last of a key counting.
pub table : Dict Bytes → List (Bytes × Bytes) → Dict Bytes
table mp [] = mp
table mp ((k, v) ∷ kvs) = table (insert k v mp) kvs

abbrev pub CleanPair : Bytes × Bytes → Type 0
CleanPair (k, v) = All Clean k × All Clean v

abbrev NotWhite : Bytes → Type 0
NotWhite = All (λ c. is_white c ≡ false)

drop_while-NotWhite : (s : Bytes) → NotWhite s → drop_while is_white s ≡ s
unfolding drop_while
drop_while-NotWhite [] h = refl
drop_while-NotWhite (c ∷ s) h = rw h.0 refl

reverse-NotWhite : (s : Bytes) → NotWhite s → NotWhite (reverse s)
reverse-NotWhite [] h = tt
reverse-NotWhite (c ∷ s) h =
    rw (reverse-cons c s)
      (All-append (λ c. is_white c ≡ false) (reverse s) (c ∷ []) (reverse-NotWhite s h.1) (h.0, tt))

trim_space-NotWhite : (s : Bytes) → NotWhite s → trim_space s ≡ s
unfolding trim_space
trim_space-NotWhite s h =
    rw (drop_while-NotWhite s h)
      (rw (drop_while-NotWhite (reverse s) (reverse-NotWhite s h)) (reverse-reverse s))

Clean-NotWhite : (s : Bytes) → All Clean s → NotWhite s
Clean-NotWhite [] h = tt
Clean-NotWhite (c ∷ s) h = (h.0.0, Clean-NotWhite s h.1)

Clean-Free : (s : Bytes) → All Clean s → Free b'&' s × Free b'=' s
Clean-Free [] h = (tt, tt)
Clean-Free (c ∷ s) h = let (a, e) = Clean-Free s h.1 in ((h.0.1, a), (h.0.2, e))

equals_NotWhite : is_white b'=' ≡ false
unfolding is_white
equals_NotWhite = refl

render_pair-NotWhite : (k v : Bytes) → CleanPair (k, v) → NotWhite (render_pair (k, v))
unfolding render_pair
render_pair-NotWhite k v h =
    All-append (λ c. is_white c ≡ false) k (b'=' ∷ v) (Clean-NotWhite k h.0)
      (equals_NotWhite, Clean-NotWhite v h.1)

render_pair-Free : (k v : Bytes) → CleanPair (k, v) → Free b'&' (render_pair (k, v))
unfolding render_pair
render_pair-Free k v h =
    All-append (λ c. c ≢ b'&') k (b'=' ∷ v) (Clean-Free k h.0).0
      ((λ e. omega arith), (Clean-Free v h.1).0)

full : (k v : Bytes) → is_nil (k ++ b'=' ∷ v) ≡ false
unfolding is_nil
full [] v = refl
full (c ∷ k) v = refl

read_parts-pair :
    (mp : Dict Bytes) (k v : Bytes) (parts : List Bytes)
    → CleanPair (k, v)
    → read_parts mp (render_pair (k, v) ∷ parts) ≡ read_parts (insert k v mp) parts
unfolding read_parts render_pair
read_parts-pair mp k v parts h = ground (
  arith,
  trim_space-NotWhite (k ++ b'=' ∷ v) (render_pair-NotWhite k v h),
  full k v,
  split_at-append b'=' k v (Clean-Free k h.0).1,
  split_at-Free b'=' v (Clean-Free v h.1).1,
)

read_parts-render :
    (mp : Dict Bytes) (kvs : List (Bytes × Bytes))
    → All CleanPair kvs
    → read_parts mp (map render_pair kvs) ≡ ok (table mp kvs)
unfolding read_parts table
read_parts-render mp [] h = refl
read_parts-render mp ((k, v) ∷ kvs) h =
    read_parts-pair mp k v (map render_pair kvs) h.0 ∙ read_parts-render (insert k v mp) kvs h.1

parts-Free :
    (kvs : List (Bytes × Bytes)) → All CleanPair kvs → All (Free b'&') (map render_pair kvs)
parts-Free [] h = tt
parts-Free ((k, v) ∷ kvs) h = (render_pair-Free k v h.0, parts-Free kvs h.1)

-- AliLogFromStr of any number of pairs, at least one, each a key and a value without white space,
-- ampersands and equals signs, printed with an equals sign between them and ampersands between
-- the pairs, gives the configuration of the table of these pairs, the last pair of a key
-- counting, or the error that the table lacks a required key.
pub ali_log_from_str-render :
    (kv : Bytes × Bytes) (kvs : List (Bytes × Bytes))
    → All CleanPair (kv ∷ kvs)
    → ali_log_from_str (render (kv ∷ kvs)) ≡ config_of (table [] (kv ∷ kvs))
unfolding ali_log_from_str render
ali_log_from_str-render kv kvs h = ground (
  arith,
  split_at-join_by b'&' (render_pair kv) (map render_pair kvs) (parts-Free (kv ∷ kvs) h),
  read_parts-render [] (kv ∷ kvs) h,
)
