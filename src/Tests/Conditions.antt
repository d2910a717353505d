-- ===== src/Tests/Conditions.antt =====
-- cond-chan/cond-chan.go at concrete inputs.
use fancy_go.Base.{◌≡◌, refl, true, [], ◌∷◌}
use fancy_go.CondChan.{
  new_cond, wait, take_first, signal, close_channel, broadcast, receive, signals, broadcasts,
  receives, use_all,
}
use fancy_go.CondChan.Wakes.{has, broadcast_wakes}

-- Without a broadcast, a signal is kept for the next receive.
kept : (receive 0 7 (signal new_cond)).woken ≡ 7 ∷ []
unfolding receive signal take_first
kept = refl

-- After one it is lost.
lost : (receive 1 7 (signal (broadcast new_cond))).blocked ≡ (1, 7) ∷ []
unfolding receive signal take_first broadcast close_channel
lost = refl

broadcast_wakes_example :
    let c = use_all (receives 0 5 ∷ signals ∷ broadcasts ∷ []) new_cond in
    let d = use_all (receives 1 8 ∷ signals ∷ []) (receive (wait c) 7 c) in
    let e = use_all (signals ∷ broadcasts ∷ []) (broadcast d) in
    (has 7 e.woken ≡ true) × ((receive (wait c) 9 e).woken ≡ 9 ∷ e.woken)
broadcast_wakes_example =
    broadcast_wakes (receives 0 5 ∷ signals ∷ broadcasts ∷ []) (receives 1 8 ∷ signals ∷ [])
      (signals ∷ broadcasts ∷ []) 7 9
