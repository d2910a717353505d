-- ===== src/Curl/Items.antt =====
-- What the words of a curl command line say, apart from how `CurlToGo` reads them.
use fancy_go.Base.{
  ◌≡◌, refl, sym, ap, ◌↔◌, ◌∙◌, Bool, true, false, List, [], ◌∷◌, Option, none, some, arith, Bytes,
  codes, eq_bytes, if◌then◌else◌, All, ◌⊎◌, inl, inr,
}
use fancy_go.Base.Strings.{trim_space, cut, is_nil}
use fancy_go.Curl.Parse.{
  CurlError, Result, ok, err, Options, query_unescape, handle_arg, option_name, is_option,
  read_args, no_options, remove_blank, curl_to_go,
}

-- A flag, an option with its value, the address, or an option whose value is missing.
pub data Item : Type 0 where
  flag : Item
  opt : Bytes → Bytes → Item
  word : Bytes → Item
  dangling : Bytes → Item

unfoldable pub items : List Bytes → List Item
items [] = []
items (a ∷ []) =
    (if is_option a
      then (if eq_bytes (option_name a) (codes "compressed")
          then flag
          else dangling (option_name a))
      else word a)
    ∷ []
items (a ∷ v ∷ rest) = elim (is_option a) [
  | false ↦ word a ∷ items (v ∷ rest)
  | true ↦ elim (eq_bytes (option_name a) (codes "compressed")) [
    | true ↦ flag ∷ items (v ∷ rest)
    | false ↦ elim (is_option v) [
      | true ↦ dangling (option_name a) ∷ items (v ∷ rest)
      | false ↦ opt (option_name a) v ∷ items rest
    ]
  ]
]

-- A header option that can be read.
unfoldable pub header_reads : Bytes → Bool
header_reads v = elim (cut b':' v) [
  | none ↦ false
  | some (k, s) ↦ elim (query_unescape (trim_space s)) [ none ↦ false | some u ↦ true ]
]

-- An option that the program knows, with a value that it can read.
unfoldable pub is_known : Item → Bool
is_known flag = true
is_known (word w) = true
is_known (dangling n) = false
is_known (opt n v) =
    if eq_bytes n (codes "X")
    then true
    else if eq_bytes n (codes "H")
    then header_reads v
    else false

abbrev pub AllKnown : List Item → Type 0
AllKnown = All (λ i. is_known i ≡ true)

-- The value of the last `-X`.
unfoldable pub last_method : Bytes → List Item → Bytes
last_method m [] = m
last_method m (flag ∷ is) = last_method m is
last_method m (word w ∷ is) = last_method m is
last_method m (dangling n ∷ is) = last_method m is
last_method m (opt n v ∷ is) = last_method (if eq_bytes n (codes "X") then v else m) is

-- The address, given the one that is set already; `none` if a second one comes.
unfoldable pub link_of : Bytes → List Item → Option Bytes
link_of l [] = some l
link_of l (flag ∷ is) = link_of l is
link_of l (opt n v ∷ is) = link_of l is
link_of l (dangling n ∷ is) = link_of l is
link_of l (word w ∷ is) = let rest = link_of w is in if is_nil l then rest else none

Result-cases {ℓ} :
    {A : Type ℓ} (r : Result A) → ((a : A) × (r ≡ ok a)) ⊎ ((e : CurlError) × (r ≡ err e))
Result-cases (ok a) = inl (a, refl)
Result-cases (err e) = inr (e, refl)

-- What an option that was read has changed.
handle_arg-ok :
    (o : Options) (n v : Bytes) {o' : Options}
    → handle_arg o n v ≡ ok o'
    → (is_known (opt n v) ≡ true)
      × (o'.link ≡ o.link)
      × (o'.method ≡ (if eq_bytes n (codes "X") then v else o.method))
unfolding handle_arg is_known header_reads
handle_arg-ok o n v h = ground arith

handle_arg-err :
    (o : Options) (n v : Bytes) {e : CurlError}
    → handle_arg o n v ≡ err e
    → is_known (opt n v) ≡ false
unfolding handle_arg is_known header_reads
handle_arg-err o n v h = ground arith

-- What a successful reading says.
abbrev Agrees : Options → List Item → Options → Type 0
Agrees o is o' =
    AllKnown is × (o'.method ≡ last_method o.method is) × (link_of o.link is ≡ some o'.link)

read_args-ok :
    (o : Options) (args : List Bytes) (o' : Options)
    → read_args o args ≡ ok o'
    → Agrees o (items args) o'
unfolding read_args items last_method link_of is_known
read_args-ok o [] o' h = ground arith
read_args-ok o (a ∷ []) o' h = ground arith
read_args-ok o (a ∷ v ∷ rest) o' h = elim (Result-cases (handle_arg o (option_name a) v)) [
  | inl (o1, e) ↦ ground (
    arith,
    e,
    handle_arg-ok o (option_name a) v e,
    read_args-ok (record o { compressed = true }) (v ∷ rest) o',
    read_args-ok (record o { link = a }) (v ∷ rest) o',
    read_args-ok o1 rest o',
  )
  | inr (e, bad) ↦ ground (
    arith,
    bad,
    read_args-ok (record o { compressed = true }) (v ∷ rest) o',
    read_args-ok (record o { link = a }) (v ∷ rest) o',
  )
]

read_args-err :
    (o : Options) (args : List Bytes) (e : CurlError) (l : Bytes)
    → read_args o args ≡ err e
    → AllKnown (items args)
    → link_of o.link (items args) ≡ some l
    → ⊥
unfolding read_args items link_of is_known
read_args-err o [] e l h known link = cc
read_args-err o (a ∷ []) e l h known link = ground arith
read_args-err o (a ∷ v ∷ rest) e l h known link =
    elim (Result-cases (handle_arg o (option_name a) v)) [
      | inl (o1, good) ↦ ground (
        arith,
        good,
        handle_arg-ok o (option_name a) v good,
        read_args-err (record o { compressed = true }) (v ∷ rest) e l,
        read_args-err (record o { link = a }) (v ∷ rest) e l,
        read_args-err o1 rest e l,
      )
      | inr (e1, bad) ↦ ground (
        arith,
        bad,
        handle_arg-err o (option_name a) v bad,
        read_args-err (record o { compressed = true }) (v ∷ rest) e l,
        read_args-err (record o { link = a }) (v ∷ rest) e l,
      )
    ]

-- The loop over the words of a curl command ends without an error, with a method and an address,
-- exactly if every option is known and has a readable value, the method is the value of the last
-- -X, empty if there is none, and the words that are neither options nor values are the address,
-- empty if there is none, with no second one after an address that is not empty.
pub read_args_accepts :
    (args : List Bytes) (m l : Bytes)
    → ((o : Options) × (read_args no_options args ≡ ok o) × (o.method ≡ m) × (o.link ≡ l)) ↔ (
        AllKnown (items args)
        × (last_method [] (items args) ≡ m)
        × (link_of [] (items args) ≡ some l))
read_args_accepts args m l = (
  λ h. accepted h.0 h.1 h.2 h.3,
  λ h. elim (Result-cases (read_args no_options args)) [
    | inl (o, good) ↦
        let (known, method, link) = read_args-ok no_options args o good in
        (o, good, method ∙ h.1, ground (arith, link, h.2))
    | inr (e, bad) ↦ absurd (read_args-err no_options args e l bad h.0 h.2)
  ],
)
  where
    accepted :
        (o : Options)
        → read_args no_options args ≡ ok o
        → o.method ≡ m
        → o.link ≡ l
        → AllKnown (items args)
          × (last_method [] (items args) ≡ m)
          × (link_of [] (items args) ≡ some l)
    accepted o good em el =
        let (known, method, link) = read_args-ok no_options args o good in
        (known, sym method ∙ em, link ∙ ap (λ (x : Bytes). some x) el)

-- Two command lines whose words are all readable, with the same method and the same address, give
-- the same request template, whatever headers their -H options give.
headers_ignored :
    {Request : Type 0} (shell_words : Bytes → Option (List Bytes))
    (new_request : Bytes → Bytes → Option Request) (cmd cmd' w w' l : Bytes) (xs bs : List Bytes)
    → shell_words cmd ≡ some (w ∷ xs)
    → shell_words cmd' ≡ some (w' ∷ bs)
    → AllKnown (items (remove_blank xs))
    → AllKnown (items (remove_blank bs))
    → last_method [] (items (remove_blank xs)) ≡ last_method [] (items (remove_blank bs))
    → link_of [] (items (remove_blank xs)) ≡ some l
    → link_of [] (items (remove_blank bs)) ≡ some l
    → curl_to_go shell_words new_request cmd ≡ curl_to_go shell_words new_request cmd'
unfolding curl_to_go
headers_ignored shell_words new_request cmd cmd' w w' l xs bs e e' known known' same link link' =
    let m = last_method [] (items (remove_blank bs)) in
    let (o, good, em, el) = (read_args_accepts (remove_blank xs) m l).1 (known, same, link) in
    let (o', good', em', el') = (read_args_accepts (remove_blank bs) m l).1 (known', refl, link') in
    ground (arith, e, e', good, good', em, em', el, el')
