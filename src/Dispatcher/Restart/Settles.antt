-- ===== src/Dispatcher/Restart/Settles.antt =====
-- After a restart no task is running (Dispatcher.Start of internal/dispatcher/dispatcher.go).
use matea.Base.{
  ℕ, String, Bool, false, not, ◌&&◌, ◌||◌, List, [], ◌∷◌, ◌≡◌, refl, ◌∙◌, arith, any, select, map,
  ◌==◌, if◌then◌else◌,
}
use matea.Store.Types.{Task}
use matea.Store.Tasks.{fail_orphaned_running_tasks_except_hub, failed_at}
use matea.Store.Handles.{
  HubHandle, Handles, is_live_handle, insert_by_creation, by_creation,
  list_non_terminal_hub_handles, has_non_terminal_hub_handle,
}
use matea.Dispatcher.Restart.{Restart, RestartFaults, reattach_hub_handles, start}
use matea.Dispatcher.Restart.Resumes.{
  HasDistinctTasks, HasNoTask, is_running, waiting, resumed, named_by, loop-rows,
}

module _ (p : HubHandle → Bool) where
  any-insert_by_creation :
      (x : HubHandle) (t : Handles) → any p (insert_by_creation x t) ≡ (p x || any p t)
  any-insert_by_creation x [] = refl
  any-insert_by_creation x (y ∷ t) = ground (arith, any-insert_by_creation x t)

  any-by_creation : (t : Handles) → any p (by_creation t) ≡ any p t
  any-by_creation [] = refl
  any-by_creation (x ∷ t) =
      any-insert_by_creation x (by_creation t) ∙ ground (arith, any-by_creation t)

-- The handles that are listed for a task are those that it owns.
named_by-list :
    (t : Handles) (r : Task)
    → named_by (list_non_terminal_hub_handles t) r ≡ has_non_terminal_hub_handle r.id t
unfolding list_non_terminal_hub_handles has_non_terminal_hub_handle
named_by-list t r = any-by_creation (λ (h : HubHandle). h.task_id == r.id) (select is_live_handle t)

abbrev pub restarted : String
restarted = "matea restarted; interrupted running task"

-- what becomes of a row
abbrev pub settled : ℕ → Handles → Task → Task
settled now handles r =
    if not (is_running r)
    then r
    else if has_non_terminal_hub_handle r.id handles
    then waiting r
    else failed_at now restarted r

abbrev orphaned : ℕ → Handles → Task → Task
orphaned now handles r =
    if is_running r && not (has_non_terminal_hub_handle r.id handles)
    then failed_at now restarted r
    else r

settled_row :
    (now : ℕ) (handles : Handles) (r : Task)
    → resumed (named_by (list_non_terminal_hub_handles handles)) (orphaned now handles r)
      ≡ settled now handles r
settled_row now handles r =
    ground (arith, named_by-list handles r, named_by-list handles (failed_at now restarted r))

settled_rows :
    (now : ℕ) (handles : Handles) (rows : List Task)
    → map
        (resumed (named_by (list_non_terminal_hub_handles handles)))
        (map (orphaned now handles) rows)
      ≡ map (settled now handles) rows
settled_rows now handles [] = refl
settled_rows now handles (r ∷ rows) =
    ground (arith, settled_row now handles r, settled_rows now handles rows)

orphaned-HasNoTask :
    (now : ℕ) (handles : Handles) (id : ℕ) (rows : List Task)
    → HasNoTask id rows
    → HasNoTask id (map (orphaned now handles) rows)
orphaned-HasNoTask now handles id [] h = tt
orphaned-HasNoTask now handles id (r ∷ rows) h =
    (λ e. h.0 (ground (arith, e)), orphaned-HasNoTask now handles id rows h.1)

orphaned-HasDistinctTasks :
    (now : ℕ) (handles : Handles) (rows : List Task)
    → HasDistinctTasks rows
    → HasDistinctTasks (map (orphaned now handles) rows)
orphaned-HasDistinctTasks now handles [] d = tt
orphaned-HasDistinctTasks now handles (r ∷ rows) d =
    let same : (orphaned now handles r).id ≡ r.id = ground arith in
    (
      rw same (orphaned-HasNoTask now handles r.id rows d.0),
      orphaned-HasDistinctTasks now handles rows d.1,
    )

abbrev pub no_restart_faults : RestartFaults
no_restart_faults = record { orphans_fail = false; pending_fail = false; handles_fail = false }

-- A restart on which no query fails settles every task that the last process left running, in a table
-- whose ids are distinct: it is pending again if it owns a hub handle that is not terminal, and failed
-- otherwise. Every other task is as it was.
pub start-settles :
    (now size : ℕ) (s : Restart)
    → HasDistinctTasks s.tasks.rows
    → (start now size no_restart_faults s).1.tasks.rows ≡ map (settled now s.handles) s.tasks.rows
unfolding start reattach_hub_handles fail_orphaned_running_tasks_except_hub
start-settles now size s d =
    loop-rows now size (list_non_terminal_hub_handles s.handles) _
      (orphaned-HasDistinctTasks now s.handles s.tasks.rows d)
    ∙ settled_rows now s.handles s.tasks.rows
