-- ===== src/Base/Dict.antt =====
-- A Go map with text keys, as an association list.
use mathlib.Core.Path.{◌≡◌, refl}
use mathlib.Core.Option.{Option, none, some}
use mathlib.Core.List.{List, [], ◌∷◌}
use native.Mathlib.Omega.{arith}
use fancy_go.Base.Tests.{if◌then◌else◌}
use fancy_go.Base.Text.{Bytes, eq_bytes, eq_bytes_iff}

abbrev pub Dict {ℓ} : Type ℓ → Type ℓ
Dict V = List (Bytes × V)

module _ {ℓ} {V : Type ℓ} where
  -- A lookup in the first dictionary that has the key.
  abbrev pub first_of : Option V → Option V → Option V
  first_of none w = w
  first_of (some v) w = some v

  pub first_of-none : (o : Option V) → first_of o none ≡ o
  first_of-none none = refl
  first_of-none (some v) = refl

  pub first_of_assoc : (o p q : Option V) → first_of o (first_of p q) ≡ first_of (first_of o p) q
  first_of_assoc none p q = refl
  first_of_assoc (some v) p q = refl

  unfoldable pub lookup : Bytes → Dict V → Option V
  lookup k [] = none
  lookup k ((j, v) ∷ m) = if eq_bytes j k then some v else lookup k m

  unfoldable pub insert : Bytes → V → Dict V → Dict V
  insert k v [] = (k, v) ∷ []
  insert k v ((j, w) ∷ m) = if eq_bytes j k then (k, v) ∷ m else (j, w) ∷ insert k v m

  unfoldable pub delete : Bytes → Dict V → Dict V
  delete k [] = []
  delete k ((j, w) ∷ m) = let rest = delete k m in if eq_bytes j k then rest else (j, w) ∷ rest

  pub lookup-nil : (j : Bytes) → lookup j [] ≡ none
  unfolding lookup
  lookup-nil j = refl

  pub lookup-cons :
      (j k : Bytes) (v : V) (m : Dict V)
      → lookup j ((k, v) ∷ m) ≡ (if eq_bytes k j then some v else lookup j m)
  unfolding lookup
  lookup-cons j k v m = refl

  pub lookup-insert :
      (k j : Bytes) (v : V) (m : Dict V)
      → lookup j (insert k v m) ≡ (if eq_bytes k j then some v else lookup j m)
  unfolding lookup insert
  lookup-insert k j v [] = refl
  lookup-insert k j v ((i, w) ∷ m) =
      ground (arith, eq_bytes_iff k j, eq_bytes_iff i k, eq_bytes_iff i j, lookup-insert k j v m)

  pub lookup-delete :
      (k j : Bytes) (m : Dict V)
      → lookup j (delete k m) ≡ (if eq_bytes k j then none else lookup j m)
  unfolding lookup delete
  lookup-delete k j [] = ground arith
  lookup-delete k j ((i, w) ∷ m) =
      ground (arith, eq_bytes_iff k j, eq_bytes_iff i k, eq_bytes_iff i j, lookup-delete k j m)
