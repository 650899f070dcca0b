-- ===== src/Dispatcher/Executor/Endings.antt =====
-- What the end of a task leaves (finalizeTaskResult of internal/dispatcher/executor.go).
use matea.Base.{
  ℕ, ◌≤◌, String, true, false, Option, none, some, List, [], ◌∷◌, ◌≡◌, ◌≢◌, refl, arith, any, map,
  find_first, Bool-cases, Option-cases, inl, inr, if◌then◌else◌, ◌==◌,
}
use matea.Store.Types.{Task, TaskStatus, success, failed, partial}
use matea.Store.Contexts.{get_workflow_context}
use matea.Store.Tasks.{is_live, is_live_of, update_task_status}
use matea.Store.Tasks.Live.{live_count}
use matea.Dispatcher.State.{State, Settings, unlock}
use matea.Dispatcher.Executor.{
  Delivery, WritebackError, on_complete, on_failed, write_back_to_gitea, write_failure_to_gitea,
  write_partial_failure_comment, post_l3_notification, release_issue_lock, finalize_task_result,
}
use matea.Dispatcher.Pipeline.Frame.{SameStore}

-- the row of a task whose end is saved
abbrev pub saved : ℕ → TaskStatus → String → String → Task → Task
saved id status result error r =
    if r.id == id then record r { status = status; result = result; error = error } else r

module _ (repo : String) (n id : ℕ) (status : TaskStatus) (result error : String)
    (ended : is_live status ≡ false) where
  saved_live :
      (r : Task)
      → is_live_of repo n (saved id status result error r)
        ≡ (if r.id == id then false else is_live_of repo n r)
  saved_live r = ground arith

  pub saved_count :
      (rows : List Task)
      → live_count repo n (map (saved id status result error) rows) ≤ live_count repo n rows
  saved_count [] = omega arith
  saved_count (r ∷ rows) = ground (arith, saved_live r, saved_count rows)

  found_counts :
      (rows : List Task) (row : Task)
      → find_first (λ r. r.id == id) rows ≡ some row
      → is_live_of repo n row ≡ true
      → 1 ≤ live_count repo n rows
  found_counts [] row h live = absurd (cc)
  found_counts (r ∷ rows) row h live = elim (Bool-cases (r.id == id)) [
    | inl e ↦ let same : some r ≡ some row = rw e at h in ground arith
    | inr e ↦ ground (arith, found_counts rows row (rw e at h) live)
  ]

  pub saved_idle :
      (rows : List Task) (row : Task)
      → live_count repo n rows ≤ 1
      → find_first (λ r. r.id == id) rows ≡ some row
      → is_live_of repo n row ≡ true
      → live_count repo n (map (saved id status result error) rows) ≡ 0
  saved_idle [] row le h live = refl
  saved_idle (r ∷ rows) row le h live = elim (Bool-cases (r.id == id)) [
    | inl e ↦
        let same : some r ≡ some row = rw e at h in ground (arith, saved_live r, saved_count rows)
    | inr e ↦
        ground (arith, saved_live r, found_counts rows row (rw e at h) live, saved_idle rows row)
  ]

-- No row of an issue is live exactly if none counts.
pub none_counted :
    (repo : String) (n : ℕ) (rows : List Task)
    → live_count repo n rows ≡ 0
    → any (is_live_of repo n) rows ≡ false
none_counted repo n [] h = refl
none_counted repo n (r ∷ rows) h = ground (arith, none_counted repo n rows)

module _ (c : Settings) (d : Delivery) (now : ℕ) (task : Task) where
  pub write_back-SameStore : (s : State) → SameStore s (write_back_to_gitea c d now task s).1
  unfolding write_back_to_gitea
  write_back-SameStore s = ground arith

  pub write_failure-SameStore : (s : State) → SameStore s (write_failure_to_gitea c d now task s)
  unfolding write_failure_to_gitea
  write_failure-SameStore s = ground arith

  pub write_partial-SameStore :
      (s : State) → SameStore s (write_partial_failure_comment c d now task s)
  unfolding write_partial_failure_comment
  write_partial-SameStore s = ground arith

  post_l3-SameStore : (s : State) → SameStore s (post_l3_notification c d now task s)
  unfolding post_l3_notification
  post_l3-SameStore s = ground arith

  on_failed-tasks : (s : State) → (on_failed c d now task s).tasks ≡ s.tasks
  unfolding on_failed
  on_failed-tasks s = ground arith

  on_complete-tasks : (s : State) → (on_complete c d now task s).tasks ≡ s.tasks
  unfolding on_complete
  on_complete-tasks s = ground arith

  on_failed-in_flight :
      (s : State)
      → (on_failed c d now task s).in_flight ≡ unlock (task.repo, task.issue_id) s.in_flight
  unfolding on_failed release_issue_lock
  on_failed-in_flight s = ground arith

  on_complete-in_flight :
      (s : State)
      → d.context_fails ≡ false
      → get_workflow_context task.repo task.issue_id s.contexts ≢ none
      → (on_complete c d now task s).in_flight ≡ unlock (task.repo, task.issue_id) s.in_flight
  unfolding on_complete release_issue_lock post_l3_notification
  on_complete-in_flight s reads ne = ground arith

  -- the lock after the end of a task, whatever the run and the delivery made of it
  pub finalize-in_flight :
      (run_error : Option String) (s : State)
      → d.context_fails ≡ false
      → get_workflow_context task.repo task.issue_id s.contexts ≢ none
      → (finalize_task_result c d now task run_error s).in_flight
        ≡ unlock (task.repo, task.issue_id) s.in_flight
  unfolding finalize_task_result
  finalize-in_flight (some error) s reads ne = ground (
    arith,
    write_failure-SameStore s,
    on_failed-in_flight (write_failure_to_gitea c d now task s),
  )
  finalize-in_flight none s reads ne =
      let x : Option WritebackError × State = write_back_to_gitea c d now task s in
      elim (Option-cases x.0) [
        | inl e ↦ ground (arith, write_back-SameStore s, on_complete-in_flight x.1)
        | inr (e, h) ↦ ground (
          arith,
          write_back-SameStore s,
          write_partial-SameStore x.1,
          on_failed-in_flight (write_partial_failure_comment c d now task x.1),
        )
      ]

  -- how the end of a task is saved, if it is
  pub finalize-tasks :
      (run_error : Option String) (s : State)
      → (status : TaskStatus) × (result : String) × (error : String) × (is_live status ≡ false)
        × ((finalize_task_result c d now task run_error s).tasks ≡ (
            if d.save_fails status
            then s.tasks
            else update_task_status task.id status result error s.tasks))
  unfolding finalize_task_result
  finalize-tasks (some error) s = (
    failed,
    "",
    error,
    refl,
    ground
        (arith, write_failure-SameStore s, on_failed-tasks (write_failure_to_gitea c d now task s)),
  )
  finalize-tasks none s =
      let x : Option WritebackError × State = write_back_to_gitea c d now task s in
      elim (Option-cases x.0) [
        | inl e ↦ (
          success,
          task.result,
          "",
          refl,
          ground (arith, write_back-SameStore s, on_complete-tasks x.1),
        )
        | inr (e, h) ↦ (
          partial,
          task.result,
          d.say e,
          refl,
          ground (
            arith,
            write_back-SameStore s,
            write_partial-SameStore x.1,
            on_failed-tasks (write_partial_failure_comment c d now task x.1),
          ),
        )
      ]
