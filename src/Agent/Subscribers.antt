-- ===== src/Agent/Subscribers.antt =====
-- net-filter/ws-agent/ws-log-sub.go: `NewLogSubPoint`, whose clients get what is logged.
use fancy_go.Base.{
  set_at, ℕ, ◌+◌, ◌-◌, ◌≡◌, ◌≢◌, refl, Bool, true, false, List, [], ◌∷◌, ◌++◌, Option, none, some,
  arith, Bytes, ◌==◌, if◌then◌else◌, length, take, drop, All,
}

-- A callback is its client's number. `pointer` is `reflect.ValueOf(cb).Pointer()`.
module _ (pointer : ℕ → ℕ) where
  -- The loop over `logChannels`; `none` is the index -1.
  unfoldable pub find_index : ℕ → ℕ → List ℕ → Option ℕ
  find_index i cb [] = none
  find_index i cb (fn ∷ fns) =
      let rest = find_index (i + 1) cb fns in if pointer fn == pointer cb then some i else rest

  unfoldable pub remove_cb : ℕ → List ℕ → List ℕ
  unfolding find_index
  remove_cb cb log_channels = elim (find_index 0 cb log_channels) [
    | none ↦ log_channels
    | some idx ↦
        if idx == length log_channels - 1
        then take idx log_channels
        else take idx log_channels ++ drop (idx + 1) log_channels
  ]

-- `received` is what was written to a client, newest first; `signalled` whether its channel `signal`
-- is closed; `panicked` whether one was closed twice.
pub record Hub : Type 0 where
  pub log_channels : List ℕ
  pub received : ℕ → List Bytes
  pub signalled : ℕ → Bool
  pub panicked : Bool

abbrev pub new_log_sub_point : Hub
new_log_sub_point = record {
  log_channels = [];
  received = λ n. [];
  signalled = λ n. false;
  panicked = false;
}

-- The handler of a client: it enters first.
unfoldable pub enter : ℕ → Hub → Hub
enter n h = record h { log_channels = h.log_channels ++ n ∷ [] }

module _ (pointer : ℕ → ℕ) where
  -- The callback of a client, whose connection may be broken.
  unfoldable pub write_to : (ℕ → Bool) → Bytes → ℕ → Hub → Hub
  write_to broken bin n h =
      if broken n
      then record h {
        log_channels = remove_cb pointer n h.log_channels;
        signalled = set_at n true h.signalled;
        panicked = if h.signalled n then true else h.panicked;
      }
      else record h { received = set_at n (bin ∷ h.received n) h.received }

  -- The loop over the copy of `logChannels`; a panic ends it.
  unfoldable pub write_all : (ℕ → Bool) → Bytes → List ℕ → Hub → Hub
  unfolding write_to
  write_all broken bin [] h = h
  write_all broken bin (c ∷ cs) h = elim (write_to broken bin c h).panicked [
    | true ↦ write_to broken bin c h
    | false ↦ write_all broken bin cs (write_to broken bin c h)
  ]

  -- `logToClient`, at data that json.Marshal accepts or not.
  unfoldable pub log_to_client : (ℕ → Bool) → Option Bytes → Hub → Hub
  unfolding write_all
  log_to_client broken none h = h
  log_to_client broken (some bin) h = write_all broken bin h.log_channels h

  -- The handler of a client, when its request is done.
  unfoldable pub leave : ℕ → Hub → Hub
  leave n h = record h { log_channels = remove_cb pointer n h.log_channels }

  write_all-others :
      (bin : Bytes) (n : ℕ) (cs : List ℕ) (h : Hub)
      → All (λ c. c ≢ n) cs
      → h.panicked ≡ false
      → ((write_all (λ c. false) bin cs h).received n ≡ h.received n)
  unfolding write_all write_to
  write_all-others bin n [] h away ok = refl
  write_all-others bin n (c ∷ cs) h away ok =
      ground (arith, away.0, write_all-others bin n cs (write_to (λ c. false) bin c h) away.1)

  module _ (same_code : (a b : ℕ) → pointer a ≡ pointer b) where
    remove_cb-cons : (n a : ℕ) (fns : List ℕ) → remove_cb pointer n (a ∷ fns) ≡ fns
    unfolding remove_cb find_index
    remove_cb-cons n a [] = ground (arith, same_code a n)
    remove_cb-cons n a (b ∷ fns) = ground (arith, same_code a n)

    -- If all callbacks have one pointer, a client that leaves removes the first client of the list, which
    -- gets nothing more.
    leave_first :
        (h : Hub) (a n : ℕ) (fns : List ℕ) (bin : Bytes)
        → h.log_channels ≡ a ∷ fns
        → All (λ c. c ≢ a) fns
        → h.panicked ≡ false
        → ((leave n h).log_channels ≡ fns)
          × ((log_to_client (λ c. false) (some bin) (leave n h)).received a ≡ h.received a)
    unfolding leave log_to_client
    leave_first h a n fns bin e away ok =
        ground (arith, e, remove_cb-cons n a fns, write_all-others bin a fns (leave n h) away ok)

    -- A round in which the second callback is the only one that fails.
    write_all-healthy :
        (broken : ℕ → Bool) (bin : Bytes) (cs : List ℕ) (h : Hub)
        → All (λ c. broken c ≡ false) cs
        → h.panicked ≡ false
        → ((write_all broken bin cs h).log_channels ≡ h.log_channels)
          × ((write_all broken bin cs h).signalled ≡ h.signalled)
          × ((write_all broken bin cs h).panicked ≡ false)
    unfolding write_all write_to
    write_all-healthy broken bin [] h well ok = ground arith
    write_all-healthy broken bin (c ∷ cs) h well ok =
        ground (arith, well.0, write_all-healthy broken bin cs (write_to broken bin c h) well.1)

    -- The first round, past the healthy first client and the broken second one.
    first_round :
        (h : Hub) (broken : ℕ → Bool) (a n : ℕ) (fns : List ℕ) (bin : Bytes)
        → h.log_channels ≡ a ∷ n ∷ fns
        → h.panicked ≡ false
        → h.signalled n ≡ false
        → broken a ≡ false
        → broken n ≡ true
        → All (λ c. broken c ≡ false) fns
        → let d = log_to_client broken (some bin) h in
          (d.log_channels ≡ n ∷ fns) × (d.signalled n ≡ true) × (d.panicked ≡ false)
    unfolding log_to_client write_all write_to
    first_round h broken a n fns bin e ok open' fa fn well = ground (
      arith,
      e,
      fa,
      fn,
      remove_cb-cons n a (n ∷ fns),
      write_all-healthy broken bin fns (write_to broken bin n (write_to broken bin a h)) well,
    )

    second_round :
        (h : Hub) (broken : ℕ → Bool) (n : ℕ) (fns : List ℕ) (bin : Bytes)
        → h.log_channels ≡ n ∷ fns
        → h.signalled n ≡ true
        → broken n ≡ true
        → (log_to_client broken (some bin) h).panicked ≡ true
    unfolding log_to_client write_all write_to
    second_round h broken n fns bin e closed fn = ground (arith, e, closed, fn)

    -- If all callbacks have the same code pointer, as closures of one function literal have, and
    -- the second of the clients that get logs is the only broken one, then the data logged next
    -- removes the first client from the list instead, and the data logged after it panics.
    pub log_twice_panics :
        (h : Hub) (broken : ℕ → Bool) (a n : ℕ) (fns : List ℕ) (bin bin' : Bytes)
        → h.log_channels ≡ a ∷ n ∷ fns
        → h.panicked ≡ false
        → h.signalled n ≡ false
        → broken a ≡ false
        → broken n ≡ true
        → All (λ c. broken c ≡ false) fns
        → let d = log_to_client broken (some bin) h in
          (d.log_channels ≡ n ∷ fns) × ((log_to_client broken (some bin') d).panicked ≡ true)
    log_twice_panics h broken a n fns bin bin' e ok open' fa fn well =
        let (first, closed, _) = first_round h broken a n fns bin e ok open' fa fn well in
        (first, second_round (log_to_client broken (some bin) h) broken n fns bin' first closed fn)

  write_all-delivers :
      (bin : Bytes) (n : ℕ) (front back : List ℕ) (h : Hub)
      → All (λ c. c ≢ n) front
      → All (λ c. c ≢ n) back
      → h.panicked ≡ false
      → (write_all (λ c. false) bin (front ++ n ∷ back) h).received n ≡ bin ∷ h.received n
  unfolding write_all write_to
  write_all-delivers bin n [] back h away away' ok =
      ground (arith, write_all-others bin n back (write_to (λ c. false) bin n h) away')
  write_all-delivers bin n (c ∷ front) back h away away' ok = ground (
    arith,
    away.0,
    write_all-delivers bin n front back (write_to (λ c. false) bin c h) away.1 away',
  )

  -- A client in the list, once, gets data that is logged once, if no connection is broken.
  log_to_client_delivers :
      (h : Hub) (bin : Bytes) (n : ℕ) (front back : List ℕ)
      → h.log_channels ≡ front ++ n ∷ back
      → All (λ c. c ≢ n) front
      → All (λ c. c ≢ n) back
      → h.panicked ≡ false
      → (log_to_client (λ c. false) (some bin) h).received n ≡ bin ∷ h.received n
  unfolding log_to_client
  log_to_client_delivers h bin n front back e away away' ok =
      simp e (write_all-delivers bin n front back h away away' ok)
