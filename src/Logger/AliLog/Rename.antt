-- ===== src/Logger/AliLog/Rename.antt =====
-- How the hook of utils/logger/ali-log.go names the fields of a record among its own.
use fancy_go.Base.{
  ◌≡◌, ◌≢◌, sym, ap, ◌∙◌, subst, [], ◌∷◌, ◌++◌, Option, none, some, arith, Bytes, codes, eq_bytes,
  eq_bytes_iff, ◌⊎◌, inl, inr, Option-cases, Bool-cases, length, length-append,
}
use fancy_go.Base.Dict.{Dict, lookup, insert, lookup-insert}
use fancy_go.Logger.AliLog.{add_fields}

abbrev pub Has : Bytes → Dict Bytes → Type 0
Has k m = lookup k m ≢ none

-- The name that a field of the record gets.
unfoldable pub renamed : Option Bytes → Bytes → Bytes
renamed none k = k
renamed (some v) k = codes "app_" ++ k

abbrev pub name : Dict Bytes → Bytes → Bytes
name own k = renamed (lookup k own) k

-- A map lists a key once.
abbrev pub IsMap : Dict Bytes → Type 0
IsMap [] = Unit {0}
IsMap ((k, v) ∷ m) = (lookup k m ≡ none) × IsMap m

-- A field that gets another name does not get that of another field.
abbrev pub Apart : Dict Bytes → Dict Bytes → Type 0
Apart own fields = (k : Bytes) → Has k own → Has k fields → lookup (codes "app_" ++ k) fields ≡ none

app-injective : (j k : Bytes) → codes "app_" ++ j ≡ codes "app_" ++ k → j ≡ k
app-injective j k e = cc

app-longer : (k : Bytes) → codes "app_" ++ k ≢ k
app-longer k e = omega (arith, ap length e, length-append (codes "app_") k)

add_fields-name :
    (own more : Dict Bytes) (k v : Bytes)
    → add_fields own ((k, v) ∷ more) ≡ add_fields (insert (name own k) v own) more
unfolding add_fields renamed
add_fields-name own more k v = elim (Option-cases (lookup k own)) [
  | inl new ↦ ground (arith, new)
  | inr (old, e) ↦ ground (arith, e)
]

pub not_both : {o : Option Bytes} {v : Bytes} → o ≡ none → o ≡ some v → ⊥
not_both h g = cc

pub name-cases :
    (own : Dict Bytes) (k : Bytes)
    → ((lookup k own ≡ none) × (name own k ≡ k)) ⊎ (Has k own × (name own k ≡ codes "app_" ++ k))
unfolding renamed
name-cases own k = elim (Option-cases (lookup k own)) [
  | inl new ↦ inl (new, ground (arith, new))
  | inr (old, had) ↦ inr ((λ e. ground (arith, had, e)), ground (arith, had))
]

lookup-first : (k v : Bytes) (more : Dict Bytes) → lookup k ((k, v) ∷ more) ≡ some v
unfolding lookup
lookup-first k v more = ground (arith, eq_bytes_iff k k)

lookup-other :
    (j k v : Bytes) (more : Dict Bytes) → k ≢ j → lookup j ((k, v) ∷ more) ≡ lookup j more
unfolding lookup
lookup-other j k v more h = ground (arith, eq_bytes_iff k j)

insert-other : (j k v : Bytes) (m : Dict Bytes) → k ≢ j → lookup j (insert k v m) ≡ lookup j m
insert-other j k v m h = ground (arith, eq_bytes_iff k j, lookup-insert k j v m)

inserted : (k v : Bytes) (m : Dict Bytes) → lookup k (insert k v m) ≡ some v
inserted k v m = ground (arith, eq_bytes_iff k k, lookup-insert k k v m)

Has-rest :
    (j k v : Bytes) (more : Dict Bytes)
    → lookup k more ≡ none
    → Has j more
    → (k ≢ j) × Has j ((k, v) ∷ more)
Has-rest j k v more once there = (other, λ e. there (sym (lookup-other j k v more other) ∙ e))
  where
    other : k ≢ j
    other e = there (subst (λ (i : Bytes). lookup i more ≡ none) e once)

module _ (own more : Dict Bytes) (k v : Bytes) (once : lookup k more ≡ none)
    (apart : Apart own ((k, v) ∷ more)) where
  -- The name of the first field is not a key of the others.
  name-other : (j : Bytes) → Has j more → name own k ≢ j
  name-other j there e =
      let (other, later) = Has-rest j k v more once there in
      elim (name-cases own k) [
        | inl (new, same) ↦ other (sym same ∙ e)
        | inr (had, longer) ↦ later (
            subst (λ (i : Bytes). lookup i ((k, v) ∷ more) ≡ none) (sym longer ∙ e)
              (apart k had (λ g. not_both g (lookup-first k v more))))
      ]

  own-after : (j : Bytes) → Has j more → lookup j (insert (name own k) v own) ≡ lookup j own
  own-after j there = insert-other j (name own k) v own (name-other j there)

  name-after : (j : Bytes) → Has j more → name (insert (name own k) v own) j ≡ name own j
  name-after j there = ap (λ (o : Option Bytes). renamed o j) (own-after j there)

  Apart-after : Apart (insert (name own k) v own) more
  Apart-after j had there =
      let later = (Has-rest j k v more once there).1 in
      let longer = apart j (λ e. had (own-after j there ∙ e)) later in
      elim (Bool-cases (eq_bytes k (codes "app_" ++ j))) [
        | inl same ↦ absurd (
            not_both
              (ap (λ (i : Bytes). lookup i ((k, v) ∷ more))
                  ((eq_bytes_iff k (codes "app_" ++ j)).0 same)
                ∙ longer)
              (lookup-first k v more))
        | inr other ↦
            sym (
              lookup-other (codes "app_" ++ j) k v more
                (λ e. ground (arith, other, e, eq_bytes_iff k (codes "app_" ++ j))))
            ∙ longer
      ]

  kept-after :
      (j w : Bytes)
      → lookup j own ≡ some w
      → ((i : Bytes) → Has i own → Has i ((k, v) ∷ more) → j ≢ codes "app_" ++ i)
      → lookup j (insert (name own k) v own) ≡ some w
  kept-after j w h free = elim (name-cases own k) [
    | inl (new, same) ↦
        insert-other j (name own k) v own
          (λ e. not_both (ap (λ (i : Bytes). lookup i own) (sym e ∙ same) ∙ new) h)
        ∙ h
    | inr (had, longer) ↦
        insert-other j (name own k) v own
          (λ e. free k had (λ g. not_both g (lookup-first k v more)) (sym e ∙ longer))
        ∙ h
  ]

-- What is there stays, but for the longer names of fields.
pub add_fields-kept :
    (own fields : Dict Bytes) (j w : Bytes)
    → IsMap fields
    → Apart own fields
    → lookup j own ≡ some w
    → ((i : Bytes) → Has i own → Has i fields → j ≢ codes "app_" ++ i)
    → lookup j (add_fields own fields) ≡ some w
unfolding add_fields
add_fields-kept own [] j w once apart h free = h
add_fields-kept own ((k, v) ∷ more) j w once apart h free =
    ap (lookup j) (add_fields-name own more k v)
    ∙ add_fields-kept (insert (name own k) v own) more j w once.1
        (Apart-after own more k v once.0 apart) (kept-after own more k v once.0 apart j w h free)
        (λ i had there.
          free i (λ e. had (own-after own more k v once.0 apart i there ∙ e))
            (Has-rest i k v more once.0 there).1)

-- The name of the first field is not a longer name of another.
name-free :
    (own more : Dict Bytes) (k v : Bytes)
    → lookup k more ≡ none
    → Apart own ((k, v) ∷ more)
    → (i : Bytes) → Has i (insert (name own k) v own)
    → Has i more
    → name own k ≢ codes "app_" ++ i
name-free own more k v once apart i had there e =
    let (other, later) = Has-rest i k v more once there in
    elim (name-cases own k) [
      | inl (new, same) ↦
          not_both
            (ap (λ (x : Bytes). lookup x ((k, v) ∷ more)) (sym same ∙ e)
              ∙ apart i (λ g. had (own-after own more k v once apart i there ∙ g)) later)
            (lookup-first k v more)
      | inr (known, longer) ↦ other (app-injective k i (sym longer ∙ e))
    ]

-- Each field is there, under its name.
pub add_fields-named :
    (own fields : Dict Bytes) (j w : Bytes)
    → IsMap fields
    → Apart own fields
    → lookup j fields ≡ some w
    → lookup (name own j) (add_fields own fields) ≡ some w
unfolding lookup
add_fields-named own [] j w once apart h = absurd (cc)
add_fields-named own ((k, v) ∷ more) j w once apart h = elim (Bool-cases (eq_bytes k j)) [
  | inl same ↦
      let e : k ≡ j = (eq_bytes_iff k j).0 same in
      let value : v ≡ w = ground (arith, same, h) in
      subst (λ (i : Bytes). lookup (name own i) (add_fields own ((k, v) ∷ more)) ≡ some w) e
        (ap (lookup (name own k)) (add_fields-name own more k v)
          ∙ add_fields-kept (insert (name own k) v own) more (name own k) w once.1
              (Apart-after own more k v once.0 apart)
              (inserted (name own k) v own ∙ ap (λ x. some x) value)
              (name-free own more k v once.0 apart))
  | inr other ↦
      let rest : lookup j more ≡ some w = ground (arith, other, h) in
      let there : Has j more = λ e. not_both e rest in
      ap (lookup (name own j)) (add_fields-name own more k v)
      ∙ subst (λ (i : Bytes). lookup i (add_fields (insert (name own k) v own) more) ≡ some w)
          (name-after own more k v once.0 apart j there)
          (add_fields-named (insert (name own k) v own) more j w once.1
            (Apart-after own more k v once.0 apart) rest)
]

-- And nothing else is.
pub add_fields-only :
    (own fields : Dict Bytes) (j : Bytes)
    → IsMap fields
    → Apart own fields
    → Has j (add_fields own fields)
    → Has j own ⊎ ((k : Bytes) × Has k fields × (j ≡ name own k))
unfolding add_fields
add_fields-only own [] j once apart h = inl h
add_fields-only own ((k, v) ∷ more) j once apart h =
    let after = insert (name own k) v own in
    elim (add_fields-only after more j once.1 (Apart-after own more k v once.0 apart)
      (λ e. h (ap (lookup j) (add_fields-name own more k v) ∙ e))) [
        | inl had ↦ elim (Bool-cases (eq_bytes (name own k) j)) [
          | inl same ↦ inr (
            k,
            (λ e. not_both e (lookup-first k v more)),
            sym ((eq_bytes_iff (name own k) j).0 same),
          )
          | inr other ↦ inl (λ e. had (
              insert-other j (name own k) v own
                (λ g. ground (arith, other, g, eq_bytes_iff (name own k) j))
              ∙ e))
        ]
        | inr (i, there, e) ↦ inr (
          i,
          (Has-rest i k v more once.0 there).1,
          e ∙ name-after own more k v once.0 apart i there,
        )
      ]
