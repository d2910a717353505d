-- ===== src/App.antt =====
-- utils/app/app.go: tasks, exit hooks, and the end of the process.
pub mod Exit
pub mod Ends
use fancy_go.Base.{
  ℕ, zero, suc, ◌+◌, ◌-◌, ◌<◌, ◌≤◌, ◌≡◌, ◌≢◌, refl, sym, ◌∙◌, subst, Bool, true, false, List, [],
  ◌∷◌, Option, none, some, arith, ltb, ◌==◌, ◌⊎◌, inl, inr, if◌then◌else◌, Option-cases,
}
use fancy_go.Base.Int.{ℤ, pos, negsuc}
use fancy_go.ErrorCode.Types.{Errors, Err}

-- `doExit` has not begun, waits for the tasks, waits for the hooks, or has ended the process.
pub data Phase : Type 0 where
  running : Phase
  waiting_tasks : Phase
  waiting_hooks : Phase
  exited : ℤ → Phase

-- `tasks` counts `taskWg`; `hooks` the exit hooks; `hooks_left` those that `doExit` waits for. The
-- goroutines of `waitWg` have closed their channels if `tasks_done` and `hooks_done`.
pub record App (lib : Errors) : Type 0 where
  pub tasks : ℕ
  pub hooks : ℕ
  pub hooks_left : ℕ
  pub tasks_done : Bool
  pub hooks_done : Bool
  pub timed_out : Bool
  pub cancelled : Bool
  pub exit_err : Option (Err lib)
  pub phase : Phase

abbrev pub is_running : Phase → Bool
is_running running = true
is_running _ = false

module _ {lib : Errors} where
  abbrev pub new_app : App lib
  new_app = record {
    tasks = 0;
    hooks = 0;
    hooks_left = 0;
    tasks_done = false;
    hooks_done = false;
    timed_out = false;
    cancelled = false;
    exit_err = none;
    phase = running;
  }

  -- `ExitWithErr` with an error, or `Exit`: only the first call does anything, the others wait for it.
  unfoldable pub exit_with : Option (Err lib) → App lib → App lib
  exit_with err a =
      if is_running a.phase
      then record a {
        exit_err = err;
        cancelled = true;
        hooks_left = a.hooks;
        phase = waiting_tasks;
      }
      else a

abbrev pub has_ended : Phase → Bool
has_ended (exited c) = true
has_ended _ = false

-- The steps: `OnExit`; `TaskStart`; the first call of the function that it returned; `Exit` or
-- `ExitWithErr`; a hook returns; a `waitWg` sees that its group is empty; the timeout of three
-- seconds; and a branch of one of the two `select`s.
pub data Event (lib : Errors) : Type 0 where
  on_exit : Event lib
  task_start : Event lib
  task_end : Event lib
  exit : Option (Err lib) → Event lib
  hook_end : Event lib
  see_tasks : Event lib
  see_hooks : Event lib
  timeout : Event lib
  choose_timeout : Event lib
  choose_done : Event lib

module _ {lib : Errors} where
  -- The branch of a `select` whose other channel is closed.
  unfoldable pub select_done : App lib → Phase → Option (App lib)
  select_done a running = none
  select_done a waiting_tasks =
      if a.tasks_done then some (record a { phase = waiting_hooks }) else none
  select_done a waiting_hooks =
      if a.hooks_done then some (record a { phase = exited (pos 0) }) else none
  select_done a (exited c) = none

  unfoldable pub select_timeout : App lib → Phase → Option (App lib)
  select_timeout a running = none
  select_timeout a waiting_tasks =
      if a.timed_out then some (record a { phase = exited (negsuc 0) }) else none
  select_timeout a waiting_hooks =
      if a.timed_out then some (record a { phase = exited (negsuc 0) }) else none
  select_timeout a (exited c) = none

  -- `none` for a step that is not possible; a process that has ended takes none.
  unfoldable pub act : Event lib → App lib → Option (App lib)
  unfolding exit_with select_done select_timeout
  act on_exit a = some (record a { hooks = a.hooks + 1 })
  act task_start a = some (record a { tasks = a.tasks + 1 })
  act task_end a = if ltb 0 a.tasks then some (record a { tasks = a.tasks - 1 }) else none
  act (exit err) a = some (exit_with err a)
  act hook_end a =
      if ltb 0 a.hooks_left then some (record a { hooks_left = a.hooks_left - 1 }) else none
  act see_tasks a =
      if is_running a.phase
      then none
      else if a.tasks == 0
      then some (record a { tasks_done = true })
      else none
  act see_hooks a =
      if is_running a.phase
      then none
      else if a.hooks_left == 0
      then some (record a { hooks_done = true })
      else none
  act timeout a = if is_running a.phase then none else some (record a { timed_out = true })
  act choose_timeout a = select_timeout a a.phase
  act choose_done a = select_done a a.phase

  unfoldable pub step : Event lib → App lib → Option (App lib)
  step e a = if has_ended a.phase then none else act e a

  unfoldable pub run : List (Event lib) → App lib → Option (App lib)
  run [] a = some a
  run (e ∷ es) a = elim (step e a) [ none ↦ none | some b ↦ run es b ]
