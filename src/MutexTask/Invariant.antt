-- ===== src/MutexTask/Invariant.antt =====
-- Who leads which key and who waits in which list; true at the start and kept by every step.
use native.Mathlib.Decide.{ℕ_discrete}
use fancy_go.Base.{
  ℕ, suc, ◌+◌, ◌≤◌, ◌<◌, ◌≡◌, ◌≢◌, refl, ◌⊎◌, inl, inr, List, [], ◌∷◌, ◌++◌, Option, none, some,
  arith, ◌==◌, if◌then◌else◌,
}
use fancy_go.MutexTask.System.{
  update, Task, Pc, running, recovered, sending, waiting, entry, Move, lead, join, done, panic,
  release, send, finish, receive, Outcome,
}

abbrev pub count : ℕ → List ℕ → ℕ
count w [] = 0
count w (x ∷ xs) = let rest = count w xs in if w == x then suc rest else rest

pub count-join :
    (w i : ℕ) (ws : List ℕ) → count w (ws ++ i ∷ []) ≡ count w ws + (if w == i then 1 else 0)
count-join w i [] = ground arith
count-join w i (x ∷ ws) = ground (arith, count-join w i ws)

module _ (t : Task) where
  open t use {Key, same_key}

  -- The key that a thread leads, the key whose result it waits for, the list it still serves.
  abbrev pub key_led : Pc t → Option Key
  key_led (running k) = some k
  key_led (recovered k sent ret) = some k
  key_led _ = none

  abbrev pub awaits : Pc t → Option Key
  awaits (waiting k) = some k
  awaits _ = none

  abbrev pub pending : Pc t → List ℕ
  pending (sending left sent ret) = left
  pending _ = []

  pub record Inv (m : Key → Option (List ℕ)) (b : ℕ → Option (Outcome t)) (pc : ℕ → Pc t)
      : Type 0 where
    pub owner : (i : ℕ) (k : Key) → key_led (pc i) ≡ some k → m k ≢ none
    pub unique : (i j : ℕ) (k : Key) → key_led (pc i) ≡ some k → key_led (pc j) ≡ some k → i ≡ j
    pub led : (k : Key) → m k ≢ none → (i : ℕ) × (key_led (pc i) ≡ some k)
    pub listed : (w : ℕ) (k : Key) → 0 < count w (entry t (m k)) → awaits (pc w) ≡ some k
    pub listed_empty : (w : ℕ) (k : Key) → 0 < count w (entry t (m k)) → b w ≡ none
    pub queued : (w j : ℕ) → 0 < count w (pending (pc j)) → awaits (pc w) ≢ none
    pub queued_empty : (w j : ℕ) → 0 < count w (pending (pc j)) → b w ≡ none
    pub once_listed : (w : ℕ) (k : Key) → count w (entry t (m k)) ≤ 1
    pub once_queued : (w j : ℕ) → count w (pending (pc j)) ≤ 1
    pub apart : (w j : ℕ) (k : Key) → 0 < count w (entry t (m k)) → count w (pending (pc j)) ≡ 0
    pub alone : (w i j : ℕ) → 0 < count w (pending (pc i)) → 0 < count w (pending (pc j)) → i ≡ j
    pub boxed : (w : ℕ) → awaits (pc w) ≡ none → b w ≡ none
    pub served :
        (i : ℕ) (k : Key)
        → awaits (pc i) ≡ some k
        → b i ≡ none
        → (0 < count i (entry t (m k))) ⊎ ((j : ℕ) × (0 < count i (pending (pc j))))

module _ {t : Task} {m : t.Key → Option (List ℕ)} {b : ℕ → Option (Outcome t)} {pc : ℕ → Pc t}
    (inv : Inv t m b pc) (i : ℕ) where
  open inv use {
    owner, unique, led, listed, listed_empty, queued, queued_empty, once_listed, once_queued, apart,
    alone, boxed, served,
  }

  Move-owner :
      {p p' : Pc t} {m' : t.Key → Option (List ℕ)} {b' : ℕ → Option (Outcome t)}
      → Move t i m b p m' b' p'
      → pc i ≡ p
      → (j : ℕ) (k : t.Key) → key_led t (update pc i p' j) ≡ some k
      → m' k ≢ none
  Move-owner (lead {k = k'} g) e j k h = ground (arith, owner j k)
  Move-owner (join {k = k'} g) e j k h = ground (arith, owner j k)
  Move-owner (done o) e j k h = ground (arith, owner j k)
  Move-owner (panic v) e j k h = ground (arith, owner j k)
  Move-owner (release {k = k'}) e j k h = ground (arith, owner j k, unique i j k)
  Move-owner (send g) e j k h = ground (arith, owner j k)
  Move-owner finish e j k h = ground (arith, owner j k)
  Move-owner (receive g) e j k h = ground (arith, owner j k)

  Move-unique :
      {p p' : Pc t} {m' : t.Key → Option (List ℕ)} {b' : ℕ → Option (Outcome t)}
      → Move t i m b p m' b' p'
      → pc i ≡ p
      → (j j' : ℕ) (k : t.Key) → key_led t (update pc i p' j) ≡ some k
      → key_led t (update pc i p' j') ≡ some k
      → j ≡ j'
  Move-unique (lead {k = k'} g) e j j' k h h' = ground (arith, unique j j' k, owner j k, owner j' k)
  Move-unique (join {k = k'} {ws = ws} g) e j j' k h h' = ground (arith, unique j j' k)
  Move-unique (done o) e j j' k h h' = ground (arith, unique j j' k)
  Move-unique (panic v) e j j' k h h' = ground (arith, unique j j' k)
  Move-unique (release {k = k'}) e j j' k h h' = ground (arith, unique j j' k)
  Move-unique (send {w = w'} {ws = ws} g) e j j' k h h' = ground (arith, unique j j' k)
  Move-unique finish e j j' k h h' = ground (arith, unique j j' k)
  Move-unique (receive {k = k'} g) e j j' k h h' = ground (arith, unique j j' k)

  Move-listed :
      {p p' : Pc t} {m' : t.Key → Option (List ℕ)} {b' : ℕ → Option (Outcome t)}
      → Move t i m b p m' b' p'
      → pc i ≡ p
      → (w : ℕ) (k : t.Key) → 0 < count w (entry t (m' k))
      → awaits t (update pc i p' w) ≡ some k
  Move-listed (lead {k = k'} g) e w k h = ground (arith, listed w k)
  Move-listed (join {k = k'} {ws = ws} g) e w k h = ground (arith, listed w k, count-join w i ws)
  Move-listed (done o) e w k h = ground (arith, listed w k)
  Move-listed (panic v) e w k h = ground (arith, listed w k)
  Move-listed (release {k = k'}) e w k h = ground (arith, listed w k)
  Move-listed (send {w = w'} {ws = ws} g) e w k h = ground (arith, listed w k)
  Move-listed finish e w k h = ground (arith, listed w k)
  Move-listed (receive {k = k'} g) e w k h = ground (arith, listed w k, listed_empty w k)

  Move-listed_empty :
      {p p' : Pc t} {m' : t.Key → Option (List ℕ)} {b' : ℕ → Option (Outcome t)}
      → Move t i m b p m' b' p'
      → pc i ≡ p
      → (w : ℕ) (k : t.Key) → 0 < count w (entry t (m' k))
      → b' w ≡ none
  Move-listed_empty (lead {k = k'} g) e w k h = ground (arith, listed_empty w k)
  Move-listed_empty (join {k = k'} {ws = ws} g) e w k h =
      ground (arith, listed_empty w k, count-join w i ws, boxed i)
  Move-listed_empty (done o) e w k h = ground (arith, listed_empty w k)
  Move-listed_empty (panic v) e w k h = ground (arith, listed_empty w k)
  Move-listed_empty (release {k = k'}) e w k h = ground (arith, listed_empty w k)
  Move-listed_empty (send {w = w'} {ws = ws} g) e w k h =
      ground (arith, listed_empty w k, apart w i k)
  Move-listed_empty finish e w k h = ground (arith, listed_empty w k)
  Move-listed_empty (receive {k = k'} g) e w k h = ground (arith, listed_empty w k)

  Move-queued :
      {p p' : Pc t} {m' : t.Key → Option (List ℕ)} {b' : ℕ → Option (Outcome t)}
      → Move t i m b p m' b' p'
      → pc i ≡ p
      → (w j : ℕ) → 0 < count w (pending t (update pc i p' j))
      → awaits t (update pc i p' w) ≢ none
  Move-queued (lead {k = k'} g) e w j h = ground (arith, queued w j)
  Move-queued (join {k = k'} {ws = ws} g) e w j h = ground (arith, queued w j)
  Move-queued (done o) e w j h = ground (arith, queued w j)
  Move-queued (panic v) e w j h = ground (arith, queued w j)
  Move-queued (release {k = k'}) e w j h = ground (arith, queued w j, listed w k')
  Move-queued (send {w = w'} {ws = ws} g) e w j h = ground (arith, queued w j)
  Move-queued finish e w j h = ground (arith, queued w j)
  Move-queued (receive {k = k'} g) e w j h = ground (arith, queued w j, queued_empty w j)

  Move-queued_empty :
      {p p' : Pc t} {m' : t.Key → Option (List ℕ)} {b' : ℕ → Option (Outcome t)}
      → Move t i m b p m' b' p'
      → pc i ≡ p
      → (w j : ℕ) → 0 < count w (pending t (update pc i p' j))
      → b' w ≡ none
  Move-queued_empty (lead {k = k'} g) e w j h = ground (arith, queued_empty w j)
  Move-queued_empty (join {k = k'} {ws = ws} g) e w j h = ground (arith, queued_empty w j)
  Move-queued_empty (done o) e w j h = ground (arith, queued_empty w j)
  Move-queued_empty (panic v) e w j h = ground (arith, queued_empty w j)
  Move-queued_empty (release {k = k'}) e w j h = ground (arith, queued_empty w j, listed_empty w k')
  Move-queued_empty (send {w = w'} {ws = ws} g) e w j h =
      ground (arith, queued_empty w j, once_queued w i, alone w i j)
  Move-queued_empty finish e w j h = ground (arith, queued_empty w j)
  Move-queued_empty (receive {k = k'} g) e w j h = ground (arith, queued_empty w j)

  Move-once_listed :
      {p p' : Pc t} {m' : t.Key → Option (List ℕ)} {b' : ℕ → Option (Outcome t)}
      → Move t i m b p m' b' p'
      → pc i ≡ p
      → (w : ℕ) (k : t.Key) → count w (entry t (m' k)) ≤ 1
  Move-once_listed (lead {k = k'} g) e w k = ground (arith, once_listed w k)
  Move-once_listed (join {k = k'} {ws = ws} g) e w k =
      ground (arith, once_listed w k, count-join w i ws, listed w k)
  Move-once_listed (done o) e w k = ground (arith, once_listed w k)
  Move-once_listed (panic v) e w k = ground (arith, once_listed w k)
  Move-once_listed (release {k = k'}) e w k = ground (arith, once_listed w k)
  Move-once_listed (send {w = w'} {ws = ws} g) e w k = ground (arith, once_listed w k)
  Move-once_listed finish e w k = ground (arith, once_listed w k)
  Move-once_listed (receive {k = k'} g) e w k = ground (arith, once_listed w k)

  Move-once_queued :
      {p p' : Pc t} {m' : t.Key → Option (List ℕ)} {b' : ℕ → Option (Outcome t)}
      → Move t i m b p m' b' p'
      → pc i ≡ p
      → (w j : ℕ) → count w (pending t (update pc i p' j)) ≤ 1
  Move-once_queued (lead {k = k'} g) e w j = ground (arith, once_queued w j)
  Move-once_queued (join {k = k'} {ws = ws} g) e w j = ground (arith, once_queued w j)
  Move-once_queued (done o) e w j = ground (arith, once_queued w j)
  Move-once_queued (panic v) e w j = ground (arith, once_queued w j)
  Move-once_queued (release {k = k'}) e w j = ground (arith, once_queued w j, once_listed w k')
  Move-once_queued (send {w = w'} {ws = ws} g) e w j = ground (arith, once_queued w j)
  Move-once_queued finish e w j = ground (arith, once_queued w j)
  Move-once_queued (receive {k = k'} g) e w j = ground (arith, once_queued w j)

  Move-apart :
      {p p' : Pc t} {m' : t.Key → Option (List ℕ)} {b' : ℕ → Option (Outcome t)}
      → Move t i m b p m' b' p'
      → pc i ≡ p
      → (w j : ℕ) (k : t.Key) → 0 < count w (entry t (m' k))
      → count w (pending t (update pc i p' j)) ≡ 0
  Move-apart (lead {k = k'} g) e w j k h = ground (arith, apart w j k)
  Move-apart (join {k = k'} {ws = ws} g) e w j k h =
      ground (arith, apart w j k, count-join w i ws, queued w j)
  Move-apart (done o) e w j k h = ground (arith, apart w j k)
  Move-apart (panic v) e w j k h = ground (arith, apart w j k)
  Move-apart (release {k = k'}) e w j k h = ground (arith, apart w j k, listed w k, listed w k')
  Move-apart (send {w = w'} {ws = ws} g) e w j k h = ground (arith, apart w j k, apart w i k)
  Move-apart finish e w j k h = ground (arith, apart w j k)
  Move-apart (receive {k = k'} g) e w j k h = ground (arith, apart w j k)

  Move-alone :
      {p p' : Pc t} {m' : t.Key → Option (List ℕ)} {b' : ℕ → Option (Outcome t)}
      → Move t i m b p m' b' p'
      → pc i ≡ p
      → (w j j' : ℕ) → 0 < count w (pending t (update pc i p' j))
      → 0 < count w (pending t (update pc i p' j'))
      → j ≡ j'
  Move-alone (lead {k = k'} g) e w j j' h h' = ground (arith, alone w j j')
  Move-alone (join {k = k'} {ws = ws} g) e w j j' h h' = ground (arith, alone w j j')
  Move-alone (done o) e w j j' h h' = ground (arith, alone w j j')
  Move-alone (panic v) e w j j' h h' = ground (arith, alone w j j')
  Move-alone (release {k = k'}) e w j j' h h' =
      ground (arith, alone w j j', apart w j k', apart w j' k')
  Move-alone (send {w = w'} {ws = ws} g) e w j j' h h' =
      ground (arith, alone w j j', alone w i j', alone w j i)
  Move-alone finish e w j j' h h' = ground (arith, alone w j j')
  Move-alone (receive {k = k'} g) e w j j' h h' = ground (arith, alone w j j')

  Move-boxed :
      {p p' : Pc t} {m' : t.Key → Option (List ℕ)} {b' : ℕ → Option (Outcome t)}
      → Move t i m b p m' b' p'
      → pc i ≡ p
      → (w : ℕ) → awaits t (update pc i p' w) ≡ none
      → b' w ≡ none
  Move-boxed (lead {k = k'} g) e w h = ground (arith, boxed w)
  Move-boxed (join {k = k'} {ws = ws} g) e w h = ground (arith, boxed w)
  Move-boxed (done o) e w h = ground (arith, boxed w)
  Move-boxed (panic v) e w h = ground (arith, boxed w)
  Move-boxed (release {k = k'}) e w h = ground (arith, boxed w)
  Move-boxed (send {w = w'} {ws = ws} g) e w h = ground (arith, boxed w, queued w i)
  Move-boxed finish e w h = ground (arith, boxed w)
  Move-boxed (receive {k = k'} g) e w h = ground (arith, boxed w)

  Move-led :
      {p p' : Pc t} {m' : t.Key → Option (List ℕ)} {b' : ℕ → Option (Outcome t)}
      → Move t i m b p m' b' p'
      → pc i ≡ p
      → (k : t.Key) → m' k ≢ none
      → (j : ℕ) × (key_led t (update pc i p' j) ≡ some k)
  Move-led (lead {k = k'} g) e k h = elim (t.same_key k' k) [
    | yes same ↦ (i, ground arith)
    | no other ↦ let (j, held) = led k (ground arith) in (j, ground arith)
  ]
  Move-led (join {k = k'} g) e k h =
      let (j, held) = led k (ground (arith, t.same_key k' k)) in (j, ground arith)
  Move-led (done o) e k h = let (j, held) = led k h in (j, ground arith)
  Move-led (panic v) e k h = let (j, held) = led k h in (j, ground arith)
  Move-led (release {k = k'}) e k h = let (j, held) = led k (ground arith) in (j, ground arith)
  Move-led (send g) e k h = let (j, held) = led k h in (j, ground arith)
  Move-led finish e k h = let (j, held) = led k h in (j, ground arith)
  Move-led (receive g) e k h = let (j, held) = led k h in (j, ground arith)

  Move-served :
      {p p' : Pc t} {m' : t.Key → Option (List ℕ)} {b' : ℕ → Option (Outcome t)}
      → Move t i m b p m' b' p'
      → pc i ≡ p
      → (x : ℕ) (k : t.Key) → awaits t (update pc i p' x) ≡ some k
      → b' x ≡ none
      → (0 < count x (entry t (m' k))) ⊎ ((j : ℕ) × (0 < count x (pending t (update pc i p' j))))
  Move-served (lead {k = k'} g) e x k h n = elim (served x k (ground arith) n) [
    | inl list ↦ inl (ground arith)
    | inr (j, q) ↦ inr (j, ground arith)
  ]
  Move-served (join {k = k'} {ws = ws} g) e x k h n = elim (ℕ_discrete i x) [
    | yes self ↦ inl (ground (arith, count-join x i ws))
    | no other ↦ elim (served x k (ground arith) n) [
      | inl list ↦ inl (ground (arith, count-join x i ws))
      | inr (j, q) ↦ inr (j, ground arith)
    ]
  ]
  Move-served (done o) e x k h n = elim (served x k (ground arith) n) [
    | inl list ↦ inl list
    | inr (j, q) ↦ inr (j, ground arith)
  ]
  Move-served (panic v) e x k h n = elim (served x k (ground arith) n) [
    | inl list ↦ inl list
    | inr (j, q) ↦ inr (j, ground arith)
  ]
  Move-served (release {k = k'}) e x k h n = elim (served x k (ground arith) n) [
    | inl list ↦ elim (t.same_key k' k) [
      | yes same ↦ inr (i, ground arith)
      | no other ↦ inl (ground arith)
    ]
    | inr (j, q) ↦ inr (j, ground arith)
  ]
  Move-served (send {w = w'} {ws = ws} g) e x k h n =
      elim (served x k (ground arith) (ground arith)) [
        | inl list ↦ inl list
        | inr (j, q) ↦ inr (j, ground arith)
      ]
  Move-served finish e x k h n = elim (served x k (ground arith) n) [
    | inl list ↦ inl list
    | inr (j, q) ↦ inr (j, ground arith)
  ]
  Move-served (receive g) e x k h n = elim (served x k (ground arith) (ground arith)) [
    | inl list ↦ inl list
    | inr (j, q) ↦ inr (j, ground arith)
  ]

  pub Move-Inv :
      {p' : Pc t} {m' : t.Key → Option (List ℕ)} {b' : ℕ → Option (Outcome t)}
      → Move t i m b (pc i) m' b' p'
      → Inv t m' b' (update pc i p')
  Move-Inv mv = record {
    owner = Move-owner mv refl;
    unique = Move-unique mv refl;
    led = Move-led mv refl;
    listed = Move-listed mv refl;
    listed_empty = Move-listed_empty mv refl;
    queued = Move-queued mv refl;
    queued_empty = Move-queued_empty mv refl;
    once_listed = Move-once_listed mv refl;
    once_queued = Move-once_queued mv refl;
    apart = Move-apart mv refl;
    alone = Move-alone mv refl;
    boxed = Move-boxed mv refl;
    served = Move-served mv refl;
  }
