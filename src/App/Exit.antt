-- ===== src/App/Exit.antt =====
-- When the process ends, with which code, and which error it was given.
use fancy_go.Base.{
  ◌≡◌, ◌∙◌, true, false, List, [], ◌∷◌, Option, some, arith, ◌⊎◌, inl, inr, Option-cases,
}
use fancy_go.Base.Int.{ℤ, pos, negsuc}
use fancy_go.ErrorCode.Types.{Errors, Err}
use fancy_go.App.{
  running, waiting_hooks, exited, App, is_running, exit_with, Event, on_exit, act, step, run,
}

-- What holds between the steps.
pub record Inv {lib : Errors} (a : App lib) : Type 0 where
  pub hooks_over : a.hooks_done ≡ true → a.hooks_left ≡ 0
  pub begun :
      is_running a.phase ≡ true
      → (a.tasks_done ≡ false) × (a.hooks_done ≡ false) × (a.timed_out ≡ false)
  pub stopped : is_running a.phase ≡ false → a.cancelled ≡ true
  pub tasks_over : a.phase ≡ waiting_hooks → a.tasks_done ≡ true
  pub code :
      (c : ℤ)
      → a.phase ≡ exited c
      → ((c ≡ pos 0) × (a.tasks_done ≡ true) × (a.hooks_done ≡ true))
        ⊎ ((c ≡ negsuc 0) × (a.timed_out ≡ true))

module _ {lib : Errors} where
  step-exit_err :
      (e : Event lib) (a b : App lib)
      → step e a ≡ some b
      → is_running a.phase ≡ false
      → (is_running b.phase ≡ false) × (b.exit_err ≡ a.exit_err)
  unfolding step act
  step-exit_err on_exit a b h r = ground arith
  step-exit_err _ a b h r = ground arith

  run-exit_err :
      (es : List (Event lib)) (a b : App lib)
      → run es a ≡ some b
      → is_running a.phase ≡ false
      → b.exit_err ≡ a.exit_err
  unfolding run
  run-exit_err [] a b h r = ground arith
  run-exit_err (e ∷ es) a b h r = elim (Option-cases (step e a)) [
    | inl stuck ↦ absurd (ground (arith, stuck))
    | inr (d, taken) ↦
        let (r', same) = step-exit_err e a d taken r in
        run-exit_err es d b (ground (arith, taken)) r' ∙ same
  ]

  -- After the first Exit or ExitWithErr, no step changes the error.
  exit_err_first :
      (err : Option (Err lib)) (a b : App lib) (es : List (Event lib))
      → a.phase ≡ running
      → run es (exit_with err a) ≡ some b
      → b.exit_err ≡ err
  exit_err_first err a b es r h =
      run-exit_err es (exit_with err a) b h (stops err a r) ∙ sets err a r
    where
      stops :
          (err : Option (Err lib)) (a : App lib)
          → a.phase ≡ running
          → is_running (exit_with err a).phase ≡ false
      stops err a r = unfold exit_with in ground arith

      sets :
          (err : Option (Err lib)) (a : App lib)
          → a.phase ≡ running
          → (exit_with err a).exit_err ≡ err
      sets err a r = unfold exit_with in ground arith
