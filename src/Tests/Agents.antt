-- ===== src/Tests/Agents.antt =====
-- net-filter/ws-agent at concrete inputs.
use fancy_go.Base.{
  ◌==◌, ℕ, ◌≡◌, ◌⊎◌, refl, Bool, true, [], ◌∷◌, ◌++◌, List, Option, none, some, Bytes, codes,
}
use fancy_go.ErrorCode.Types.{Err, pkg_wrap}
use fancy_go.Agent.Subscribers.{Hub, new_log_sub_point, enter, log_to_client, log_twice_panics}
use fancy_go.Agent.Pipe.{Read, message, fails, ended, pipe, converted, pipe_lem}
use fancy_go.Tests.Errors.{plain_errors, timeout}

abbrev three_clients : Hub
unfolding enter
three_clients = enter 2 (enter 1 (enter 0 new_log_sub_point))

abbrev second_broken : ℕ → Bool
second_broken n = n == 1

-- The second of three clients has gone.
log_twice_panics_example :
    let d = log_to_client (λ n. 0) second_broken (some (codes "x")) three_clients in
    (d.log_channels ≡ 1 ∷ 2 ∷ [])
    × ((log_to_client (λ n. 0) second_broken (some (codes "y")) d).panicked ≡ true)
unfolding enter
log_twice_panics_example =
    log_twice_panics (λ n. 0) (λ a b. refl) three_clients second_broken 0 1 (2 ∷ []) (codes "x")
      (codes "y") refl refl refl refl refl (refl, tt)

abbrev reads : List (Read plain_errors)
reads =
    message 1 (some (codes "a"))
    ∷ message 2 none
    ∷ message 1 (some (codes "b"))
    ∷ fails timeout
    ∷ []

-- The second message written fails.
abbrev one_accepted : List (ℕ × Option Bytes) → ℕ × Option Bytes → Option (Err plain_errors)
one_accepted [] m = none
one_accepted (x ∷ xs) m = some timeout

pipe_lem_example :
    (back : List (ℕ × Option Bytes)) × ((pipe none one_accepted reads []).1 ++ back
      ≡ [] ++ converted none reads)
    × ((back ≡ [])
        ⊎ ((e : Err plain_errors) × (m : ℕ × Option Bytes) × (one_accepted
                (pipe none one_accepted reads []).1
                m
              ≡ some e)
            × ((pipe none one_accepted reads []).0 ≡ ended (pkg_wrap e (codes "write error")))))
pipe_lem_example = pipe_lem none one_accepted reads
