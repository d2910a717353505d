-- ===== src/Rpc/Counts.antt =====
-- How many messages of a list pass a test, when some are left out or the order is turned round.
use mathlib.Core.List.{reverse, reverse-cons}
use fancy_go.Base.{
  append-nil, ◌+◌, ◌≤◌, ◌≡◌, refl, sym, ap, ◌∙◌, subst, Bool, true, false, List, [], ◌∷◌, ◌++◌,
  arith, Bool-cases, inl, inr, All, All-append, keep,
}
use fancy_go.Server.Balance.{number}

keep-append {ℓ} :
    {A : Type ℓ} (p : A → Bool) (xs ys : List A) → keep p (xs ++ ys) ≡ keep p xs ++ keep p ys
keep-append p [] ys = refl
keep-append p (x ∷ xs) ys = ground (arith, keep-append p xs ys)

pub number-append {ℓ} :
    {A : Type ℓ} (p : A → Bool) (xs ys : List A) → number p (xs ++ ys) ≡ number p xs + number p ys
unfolding number
number-append p [] ys = omega arith
number-append p (x ∷ xs) ys = omega (arith, number-append p xs ys)

pub keep-reverse {ℓ} :
    {A : Type ℓ} (p : A → Bool) (xs : List A) → keep p (reverse xs) ≡ reverse (keep p xs)
keep-reverse p [] = refl
keep-reverse p (x ∷ xs) =
    ap (keep p) (reverse-cons x xs)
    ∙ (keep-append p (reverse xs) (x ∷ []) ∙ elim (Bool-cases (p x)) [
      | inl passes ↦ ground (arith, passes, keep-reverse p xs, reverse-cons x (keep p xs))
      | inr fails ↦ ground (arith, fails, keep-reverse p xs, append-nil (reverse (keep p xs)))
    ])

pub number-reverse {ℓ} :
    {A : Type ℓ} (p : A → Bool) (xs : List A) → number p (reverse xs) ≡ number p xs
unfolding number
number-reverse p [] = refl
number-reverse p (x ∷ xs) =
    ap (number p) (reverse-cons x xs)
    ∙ (number-append p (reverse xs) (x ∷ []) ∙ omega (arith, number-reverse p xs))

pub All-reverse : {A : Type 0} (P : A → Type 0) (xs : List A) → All P xs → All P (reverse xs)
All-reverse P [] h = tt
All-reverse P (x ∷ xs) h =
    subst (All P) (sym (reverse-cons x xs))
      (All-append P (reverse xs) (x ∷ []) (All-reverse P xs h.1) (h.0, tt))

pub All-keep :
    {A : Type 0} (P : A → Type 0) (p : A → Bool) (xs : List A) → All P xs → All P (keep p xs)
All-keep P p [] h = tt
All-keep P p (x ∷ xs) h = elim (Bool-cases (p x)) [
  | inl passes ↦ subst (All P) (sym (keep-first passes)) (h.0, All-keep P p xs h.1)
  | inr fails ↦ subst (All P) (sym (keep-rest fails)) (All-keep P p xs h.1)
]
  where
    keep-first : p x ≡ true → keep p (x ∷ xs) ≡ x ∷ keep p xs
    keep-first passes = ground (arith, passes)

    keep-rest : p x ≡ false → keep p (x ∷ xs) ≡ keep p xs
    keep-rest fails = ground (arith, fails)

pub number-keep {ℓ} :
    {A : Type ℓ} (q p : A → Bool) (xs : List A) → number q (keep p xs) ≤ number q xs
unfolding number
number-keep q p [] = omega arith
number-keep q p (x ∷ xs) = ground (arith, number-keep q p xs)
