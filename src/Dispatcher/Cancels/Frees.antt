-- ===== src/Dispatcher/Cancels/Frees.antt =====
-- A reset from the web UI frees the issue and marks its runs as cancelled (internal/dispatcher/dispatcher.go).
use matea.Base.{
  ℕ, String, Bool, false, not, ◌&&◌, ◌||◌, ◌==◌, find_first, Option, none, some, [], ◌∷◌, ◌≡◌, ◌≢◌,
  ◌⊎◌, refl, arith, any, select, eq_iff, inl, inr,
}
use matea.Store.Tasks.Resets.{reset_tasks_by_issue-frees}
use matea.Dispatcher.State.{State}
use matea.Dispatcher.Pipeline.Locks.{is_locked-unlock}
use matea.Dispatcher.Lifecycle.{reset_issue}
use matea.Dispatcher.Execution.Ends.{IsFree}
use matea.Dispatcher.Cancels.{
  RunningTasks, RunningTask, is_external, unregister_running, cancelled, runs_for,
  reset_issue_and_tasks,
}

-- an entry of the issue that is not marked
abbrev pub loud : String → ℕ → RunningTask → Bool
loud repo n r = runs_for repo n r && not r.external

none_loud :
    (repo : String) (n : ℕ) (g : RunningTasks)
    → any (loud repo n) (cancelled (runs_for repo n) g) ≡ false
none_loud repo n [] = refl
none_loud repo n (r ∷ g) = ground (arith, none_loud repo n g)

others_kept :
    (repo : String) (n : ℕ) (other : String) (m : ℕ) (g : RunningTasks)
    → (other ≢ repo) ⊎ (m ≢ n)
    → select (runs_for other m) (cancelled (runs_for repo n) g) ≡ select (runs_for other m) g
others_kept repo n other m [] ne = refl
others_kept repo n other m (r ∷ g) (inl ne) =
    ground (arith, eq_iff r.repo repo, eq_iff r.repo other, others_kept repo n other m g (inl ne))
others_kept repo n other m (r ∷ g) (inr ne) = ground (arith, others_kept repo n other m g (inr ne))

-- what the registry holds of a task is a run for the issue
abbrev pub is_run_of : String → ℕ → Option RunningTask → Bool
is_run_of repo n none = false
is_run_of repo n (some r) = runs_for repo n r

marked_found :
    (repo : String) (n id : ℕ) (g : RunningTasks)
    → is_external
        (find_first (λ (r : RunningTask). r.task_id == id) (cancelled (runs_for repo n) g))
      ≡ (is_run_of repo n (find_first (λ (r : RunningTask). r.task_id == id) g)
          || is_external (find_first (λ (r : RunningTask). r.task_id == id) g))
marked_found repo n id [] = refl
marked_found repo n id (r ∷ g) = ground (arith, marked_found repo n id g)

module _ (now : ℕ) (repo : String) (n : ℕ) (s : State) (g : RunningTasks) where
  -- A reset of an issue from the web UI that the database lets through leaves the issue unlocked and with no
  -- pending or running task, marks each run that is registered for it as cancelled, and leaves the runs of
  -- another issue alone. If the run of a task leaves the registry then, it is taken as aborted exactly if it
  -- was registered for the issue or had been marked before.
  pub reset_issue_and_tasks-frees :
      (other : String) (m id : ℕ)
      → (other ≢ repo) ⊎ (m ≢ n)
      → IsFree repo n (reset_issue_and_tasks false now repo n s g).1
        × (any (loud repo n) (reset_issue_and_tasks false now repo n s g).2 ≡ false)
        × (select (runs_for other m) (reset_issue_and_tasks false now repo n s g).2
            ≡ select (runs_for other m) g)
        × ((unregister_running id (reset_issue_and_tasks false now repo n s g).2).0 ≡ (
            is_run_of repo n (find_first (λ (r : RunningTask). r.task_id == id) g)
            || (unregister_running id g).0))
  unfolding reset_issue_and_tasks reset_issue unregister_running
  reset_issue_and_tasks-frees other m id ne =
      let freed =
        reset_tasks_by_issue-frees now repo n "workflow reset from web UI" s.tasks other m ne in
      (
        record {
          idle = ground (arith, freed.0);
          unlocked = ground (arith, is_locked-unlock (repo, n) s.in_flight);
        },
        none_loud repo n g,
        others_kept repo n other m g ne,
        marked_found repo n id g,
      )
