-- ===== src/Logger/AliLog/Fields.antt =====
-- The fields of a record among those that the hook sets itself: utils/logger/ali-log.go, `Fire`.
use fancy_go.Base.{
  ◌≡◌, refl, sym, ap, ◌∙◌, ◌++◌, Option, none, some, arith, Bytes, codes, eq_bytes, eq_bytes_iff,
  if◌then◌else◌, inl, inr, Option-cases, Bool-cases, take, drop, take-append-drop,
}
use fancy_go.Base.Dict.{Dict, lookup, first_of}
use fancy_go.Logger.AliLog.{AliLogConfig, add_fields, own_fields, fire_fields}
use fancy_go.Logger.AliLog.Rename.{
  Has, IsMap, Apart, not_both, name-cases, add_fields-kept, add_fields-named, add_fields-only,
}

-- What the name of a renamed field has been.
unfoldable pub after_app : Bytes → Option Bytes
after_app j = if eq_bytes (take 4 j) (codes "app_") then some (drop 4 j) else none

-- The value of the field that is renamed to this.
unfoldable pub moved : Dict Bytes → Dict Bytes → Bytes → Option Bytes
moved own fields j = elim (after_app j) [
  | none ↦ none
  | some k ↦ elim (lookup k own) [ none ↦ none | some v ↦ lookup k fields ]
]

after_app-app : (k : Bytes) → after_app (codes "app_" ++ k) ≡ some k
unfolding after_app eq_bytes
after_app-app k = refl

after_app-some : (j k : Bytes) → after_app j ≡ some k → j ≡ codes "app_" ++ k
unfolding after_app
after_app-some j k h = elim (Bool-cases (eq_bytes (take 4 j) (codes "app_"))) [
  | inl same ↦
      let rest : drop 4 j ≡ k = ground (arith, same, h) in
      sym (take-append-drop 4 j)
      ∙ (ap (λ (x : Bytes). x ++ drop 4 j) ((eq_bytes_iff (take 4 j) (codes "app_")).0 same)
          ∙ ap (λ (x : Bytes). codes "app_" ++ x) rest)
  | inr other ↦ absurd (ground (arith, other, h))
]

moved-app :
    (own fields : Dict Bytes) (k : Bytes)
    → Has k own
    → moved own fields (codes "app_" ++ k) ≡ lookup k fields
unfolding moved
moved-app own fields k had = elim (Option-cases (lookup k own)) [
  | inl new ↦ absurd (had new)
  | inr (v, e) ↦ ground (arith, after_app-app k, e)
]

moved-some :
    (own fields : Dict Bytes) (j w : Bytes)
    → moved own fields j ≡ some w
    → (k : Bytes) × (j ≡ codes "app_" ++ k) × Has k own × (lookup k fields ≡ some w)
unfolding moved
moved-some own fields j w h = elim (Option-cases (after_app j)) [
  | inl plain ↦ absurd (ground (arith, plain, h))
  | inr (k, e) ↦ elim (Option-cases (lookup k own)) [
    | inl new ↦ absurd (ground (arith, e, new, h))
    | inr (v, had) ↦ (k, after_app-some j k e, (λ g. not_both g had), ground (arith, e, had, h))
  ]
]

-- The fields of the hook come first, then the renamed fields, then the others.
unfoldable pub expected : Dict Bytes → Dict Bytes → Bytes → Option Bytes
expected own fields j = first_of (lookup j own) (first_of (moved own fields j) (lookup j fields))

module _ (own fields : Dict Bytes) (once : IsMap fields) (apart : Apart own fields) where
  lookup-new :
      (j : Bytes)
      → lookup j own ≡ none
      → lookup j (add_fields own fields) ≡ first_of (moved own fields j) (lookup j fields)
  lookup-new j new = elim (Option-cases (moved own fields j)) [
    | inr (w, from) ↦
        let (k, e, had, h) = moved-some own fields j w from in
        elim (name-cases own k) [
          | inl (gone, same) ↦ absurd (had gone)
          | inr (known, longer) ↦
              ap (λ (i : Bytes). lookup i (add_fields own fields)) (e ∙ sym longer)
              ∙ (add_fields-named own fields k w once apart h ∙ rw from refl)
        ]
    | inl stays ↦ elim (Option-cases (lookup j fields)) [
      | inr (w, h) ↦ elim (name-cases own j) [
        | inl (gone, same) ↦
            ap (λ (i : Bytes). lookup i (add_fields own fields)) (sym same)
            ∙ (add_fields-named own fields j w once apart h ∙ rw (stays, h) refl)
        | inr (known, longer) ↦ absurd (known new)
      ]
      | inl absent ↦ elim (Option-cases (lookup j (add_fields own fields))) [
        | inl none' ↦ rw (stays, absent) none'
        | inr (w, there) ↦
            absurd (elim (add_fields-only own fields j once apart (λ g. not_both g there)) [
              | inl had ↦ had new
              | inr (k, inside, e) ↦ elim (name-cases own k) [
                | inl (gone, same) ↦
                    inside (ap (λ (i : Bytes). lookup i fields) (sym (e ∙ same)) ∙ absent)
                | inr (known, longer) ↦ inside (
                    sym (moved-app own fields k known)
                    ∙ (ap (moved own fields) (sym (e ∙ longer)) ∙ stays))
              ]
            ])
      ]
    ]
  ]

own_fields-app :
    (c : AliLogConfig) (message level location k : Bytes)
    → lookup (codes "app_" ++ k) (own_fields c message level location) ≡ none
unfolding own_fields lookup eq_bytes
own_fields-app c message level location k = refl

-- Without data and without AliLogHook, for a record whose field names are distinct and none of
-- which is app_ and another that the hook sets itself and the record has too: what is sent under
-- a name is the hook's own field, if it has one; else, if the name is app_ and the name of an own
-- field that the record has too, that field of the record; else the field of the record with the
-- name; and nothing if there is none. So the order in which the map is visited does not matter.
pub fire_fields_lem :
    (c : AliLogConfig) (message level location : Bytes) (fields : Dict Bytes) (j : Bytes)
    → IsMap fields
    → Apart (own_fields c message level location) fields
    → lookup j (fire_fields c none message level location fields none)
      ≡ expected (own_fields c message level location) fields j
unfolding fire_fields expected
fire_fields_lem c message level location fields j once apart =
    let own = own_fields c message level location in
    elim (Option-cases (lookup j own)) [
      | inl new ↦ lookup-new own fields once apart j new ∙ rw new refl
      | inr (w, h) ↦
          add_fields-kept own fields j w once apart h (λ i had there e.
            not_both
              (ap (λ (x : Bytes). lookup x own) e ∙ own_fields-app c message level location i) h)
          ∙ rw h refl
    ]
