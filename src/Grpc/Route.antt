-- ===== src/Grpc/Route.antt =====
-- The service and the method that a path names.
use fancy_go.Base.{
  ◌≡◌, ◌≢◌, refl, sym, ap, ◌∙◌, true, false, List, [], ◌∷◌, ◌++◌, Option, none, some, arith, Bytes,
  ◌==◌, All, append_assoc, append-nil, inl, inr, Bool-cases,
}

-- `strings.Split(s, "/")`
unfoldable pub split : Bytes → Bytes → List Bytes
split cur [] = cur ∷ []
split cur (c ∷ s) = elim (c == b'/') [ true ↦ cur ∷ split [] s | false ↦ split (cur ++ c ∷ []) s ]

-- `strings.Join(parts, "/")`
unfoldable pub join : List Bytes → Bytes
join [] = []
join (p ∷ []) = p
join (p ∷ q ∷ ps) = p ++ b'/' ∷ join (q ∷ ps)

-- All parts but the last, and the last.
unfoldable pub init_last : Bytes → List Bytes → List Bytes × Bytes
init_last p [] = ([], p)
init_last p (q ∷ ps) = let (rest, last) = init_last q ps in (p ∷ rest, last)

-- `serviceName` and `methodName`; `none` if there is only one part.
unfoldable pub split_name : Bytes → Option (Bytes × Bytes)
split_name path = elim (split [] path) [
  | [] ↦ none
  | p ∷ ps ↦ elim ps [
    | [] ↦ none
    | q ∷ qs ↦ some (join (init_last p (q ∷ qs)).0, (init_last p (q ∷ qs)).1)
  ]
]

abbrev pub NoSlash : Bytes → Type 0
NoSlash = All (λ c. c ≢ b'/')

split-NoSlash : (cur m : Bytes) → NoSlash m → split cur m ≡ (cur ++ m) ∷ []
unfolding split
split-NoSlash cur [] h = rw append-nil
split-NoSlash cur (c ∷ m) h =
    ground (arith, h.0, split-NoSlash (cur ++ c ∷ []) m h.1, append_assoc cur (c ∷ []) m)

-- The parts of a text are never none, and spell it.
parts :
    (cur s : Bytes)
    → (p : Bytes) × (ps : List Bytes) × (split cur s ≡ p ∷ ps) × (join (p ∷ ps) ≡ cur ++ s)
unfolding split join
parts cur [] = (cur, [], refl, sym (append-nil cur))
parts cur (c ∷ s) = elim (Bool-cases (c == b'/')) [
  | inl slash ↦
      let (p, ps, e, f) = parts [] s in
      (cur, p ∷ ps, ground (arith, slash, e), ground (arith, slash, f))
  | inr other ↦
      let (p, ps, e, f) = parts (cur ++ c ∷ []) s in
      (p, ps, ground (arith, other, e), f ∙ append_assoc cur (c ∷ []) s)
]

-- A slash and a method behind a text add a part.
split-append : (cur s m : Bytes) → NoSlash m → split cur (s ++ b'/' ∷ m) ≡ split cur s ++ m ∷ []
unfolding split
split-append cur [] m h = ground (arith, split-NoSlash [] m h)
split-append cur (c ∷ s) m h =
    ground (arith, split-append [] s m h, split-append (cur ++ c ∷ []) s m h)

init_last-concat :
    (p : Bytes) (ps : List Bytes) (m : Bytes) → init_last p (ps ++ m ∷ []) ≡ (p ∷ ps, m)
unfolding init_last
init_last-concat p [] m = refl
init_last-concat p (q ∷ ps) m = rw (init_last-concat q ps m)

split_name-parts :
    (path p m : Bytes) (ps : List Bytes)
    → split [] path ≡ p ∷ (ps ++ m ∷ [])
    → split_name path ≡ some (join (p ∷ ps), m)
unfolding split_name
split_name-parts path p m [] e = ground (arith, e, init_last-concat p [] m)
split_name-parts path p m (q ∷ ps) e = ground (arith, e, init_last-concat p (q ∷ ps) m)

-- ServeHTTP splits the text of a service, a slash and a method without a slash back into that
-- service and that method, also if the service has slashes.
pub split_name-join :
    (service method : Bytes)
    → NoSlash method
    → split_name (service ++ b'/' ∷ method) ≡ some (service, method)
split_name-join service method h =
    let (p, ps, e, f) = parts [] service in
    split_name-parts (service ++ b'/' ∷ method) p method ps
      (split-append [] service method h ∙ ap (λ (l : List Bytes). l ++ method ∷ []) e)
    ∙ ap (λ (x : Bytes). some (x, method)) f
