-- ===== src/App/Ends.antt =====
-- An exit that has begun comes to an end, in time or by the timeout.
use fancy_go.Base.{
  repeat, ℕ, zero, suc, ◌≡◌, refl, ◌∙◌, ap, true, false, List, [], ◌∷◌, some, arith,
}
use fancy_go.Base.Int.{pos, negsuc}
use fancy_go.ErrorCode.Types.{Errors}
use fancy_go.App.{
  Phase, running, waiting_hooks, is_running, has_ended, running, waiting_tasks, exited, App, Event,
  task_end, hook_end, see_tasks, see_hooks, timeout, choose_timeout, choose_done, select_done,
  select_timeout, act, step, run,
}

module _ {lib : Errors} where
  -- What is left of `doExit` in a phase, when nothing has to be waited for any more.
  abbrev pub choices : Phase → List (Event lib)
  choices waiting_tasks = choose_done ∷ choose_done ∷ []
  choices waiting_hooks = choose_done ∷ []
  choices _ = []

  -- All tasks and hooks end, and `doExit` sees that.
  abbrev pub all_end : App lib → List (Event lib)
  all_end a =
      repeat a.tasks task_end
        (repeat a.hooks_left hook_end (see_tasks ∷ see_hooks ∷ choices a.phase))

  tasks_end :
      (n : ℕ) (a : App lib) (es : List (Event lib))
      → has_ended a.phase ≡ false
      → a.tasks ≡ n
      → run (repeat n task_end es) a ≡ run es (record a { tasks = 0 })
  unfolding run step act
  tasks_end zero a es h e = ap (run es) (cc)
  tasks_end (suc n) a es h e = ground (arith, h, e, tasks_end n (record a { tasks = n }) es h refl)

  hooks_end :
      (n : ℕ) (a : App lib) (es : List (Event lib))
      → has_ended a.phase ≡ false
      → a.hooks_left ≡ n
      → run (repeat n hook_end es) a ≡ run es (record a { hooks_left = 0 })
  unfolding run step act
  hooks_end zero a es h e = ap (run es) (cc)
  hooks_end (suc n) a es h e =
      ground (arith, h, e, hooks_end n (record a { hooks_left = n }) es h refl)

  all_seen :
      (p : Phase) (a : App lib)
      → a.phase ≡ p
      → is_running p ≡ false
      → has_ended p ≡ false
      → (b : App lib) × (run
            (see_tasks ∷ see_hooks ∷ choices p)
            (record a { tasks = 0; hooks_left = 0 })
          ≡ some b)
        × (b.phase ≡ exited (pos 0))
  unfolding run step act select_done
  all_seen running a e r h = absurd (cc)
  all_seen waiting_tasks a e r h = (
    record a {
      tasks = 0;
      hooks_left = 0;
      tasks_done = true;
      hooks_done = true;
      phase = exited (pos 0);
    },
    ground (arith, e),
    refl,
  )
  all_seen waiting_hooks a e r h = (
    record a {
      tasks = 0;
      hooks_left = 0;
      tasks_done = true;
      hooks_done = true;
      phase = exited (pos 0);
    },
    ground (arith, e),
    refl,
  )
  all_seen (exited c) a e r h = absurd (cc)

  gives_up :
      (p : Phase) (a : App lib)
      → a.phase ≡ p
      → is_running p ≡ false
      → has_ended p ≡ false
      → (b : App lib) × (run (timeout ∷ choose_timeout ∷ []) a ≡ some b)
        × (b.phase ≡ exited (negsuc 0))
  unfolding run step act select_timeout
  gives_up running a e r h = absurd (cc)
  gives_up (exited c) a e r h = absurd (cc)
  gives_up _ a e r h =
      (record a { timed_out = true; phase = exited (negsuc 0) }, ground (arith, e), refl)

  -- From every state in which an exit has begun and the process not ended, whether it waits for
  -- the tasks or for the hooks and however many there are: if all of them end, the steps in which
  -- doExit sees this end the process with code 0, and if the timeout passes first, the next
  -- branch ends it with code -1.
  pub exit_ends :
      (a : App lib)
      → is_running a.phase ≡ false
      → has_ended a.phase ≡ false
      → ((b : App lib) × (run (all_end a) a ≡ some b) × (b.phase ≡ exited (pos 0)))
        × ((b : App lib) × (run (timeout ∷ choose_timeout ∷ []) a ≡ some b)
            × (b.phase ≡ exited (negsuc 0)))
  exit_ends a r h =
      let (b, ran, over) = all_seen a.phase a refl r h in
      (
        (
          b,
          tasks_end a.tasks a _ h refl
              ∙ (hooks_end a.hooks_left (record a { tasks = 0 }) _ h refl ∙ ran),
          over,
        ),
        gives_up a.phase a refl r h,
      )
