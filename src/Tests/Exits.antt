-- ===== src/Tests/Exits.antt =====
-- utils/app/app.go on a concrete schedule: one task, one hook.
use fancy_go.Base.{◌≡◌, refl, false, [], ◌∷◌, List, none, some}
use fancy_go.Base.Int.{pos, negsuc}
use fancy_go.App.{
  is_running, has_ended, timeout, choose_timeout, App, exited, new_app, exit_with, select_done,
  select_timeout, Event, on_exit, task_start, task_end, exit, hook_end, see_tasks, see_hooks,
  choose_done, act, step, run,
}
use fancy_go.App.Ends.{all_end, exit_ends}
use fancy_go.Tests.Errors.{plain_errors}
use fancy_go.Tests.Errors

abbrev orderly : List (Event plain_errors)
orderly =
    on_exit
    ∷ task_start
    ∷ exit (some Errors.timeout)
    ∷ hook_end
    ∷ see_hooks
    ∷ task_end
    ∷ exit none
    ∷ see_tasks
    ∷ choose_done
    ∷ choose_done
    ∷ []

abbrev ended :
    (a : App plain_errors) × (run orderly new_app ≡ some a)
    × (a.phase ≡ exited (pos 0))
    × (a.exit_err ≡ some Errors.timeout)
unfolding run step act exit_with select_done select_timeout
ended = (_, refl, refl, refl)

-- Two tasks and a hook when the exit begins.
abbrev busy : App plain_errors
busy = record new_app { tasks = 2; hooks = 1 }

-- The second `select` with a slow hook: the tasks have been seen to be over.
abbrev slow :
    (a : App plain_errors) × (run
        (exit none ∷ task_end ∷ task_end ∷ see_tasks ∷ choose_done ∷ [])
        busy
      ≡ some a)
    × (is_running a.phase ≡ false)
    × (has_ended a.phase ≡ false)
unfolding run step act exit_with select_done select_timeout
slow = (_, refl, refl, refl)

exit_ends_example :
    ((b : App plain_errors) × (run (all_end slow.0) slow.0 ≡ some b) × (b.phase ≡ exited (pos 0)))
    × ((b : App plain_errors) × (run (timeout ∷ choose_timeout ∷ []) slow.0 ≡ some b)
        × (b.phase ≡ exited (negsuc 0)))
exit_ends_example = exit_ends slow.0 slow.2 slow.3
