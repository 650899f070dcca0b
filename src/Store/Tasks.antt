-- ===== src/Store/Tasks.antt =====
-- The table tasks of internal/store/task.go. Rows are kept in the order of their ids. The time at
-- which a statement runs is its argument `now`. A missing row or a refusal is `none`.
pub mod Live
pub mod Stale
pub mod Resets
use matea.Base.{
  ℕ, suc, ◌+◌, String, Bool, true, false, not, ◌&&◌, ◌||◌, Option, none, some, List, [], ◌∷◌, ◌++◌,
  map, ◌==◌, ltb, leb, str_eq, any, select, find_first, length, if◌then◌else◌,
}
use matea.Store.Types.{Task, TaskStatus, pending, running, success, failed, partial, status_eq}

pub record Tasks : Type 0 where
  pub rows : List Task
  pub next_id : ℕ

unfoldable pub delivery_exists : String → Tasks → Bool
delivery_exists delivery_id t = any (λ (r : Task). str_eq r.delivery_id delivery_id) t.rows

abbrev pub is_empty_string : String → Bool
is_empty_string s = str_eq s ""

-- the row that INSERT makes of a task: columns that it does not name have their defaults
abbrev pub inserted : ℕ → ℕ → Task → Task
inserted id now t = record t {
  id = id;
  created_at = now;
  started_at = none;
  finished_at = none;
  result = "";
  error = "";
  status_comment_id = 0;
}

-- CreateTask: the task with its id and the table, or the error for a delivery that is there already
unfoldable pub create_task : ℕ → Task → Tasks → Option (Task × Tasks)
unfolding delivery_exists
create_task now task t =
    if not (is_empty_string task.delivery_id) && delivery_exists task.delivery_id t
    then none
    else some (
      record task { id = t.next_id },
      record { rows = t.rows ++ inserted t.next_id now task ∷ []; next_id = t.next_id + 1 },
    )

abbrev pub update_where : (Task → Bool) → (Task → Task) → Tasks → Tasks
update_where p f t = record t { rows = map (λ (r : Task). if p r then f r else r) t.rows }

-- UpdateTaskStatus. Its first statement has two CASE expressions where SET wants assignments, which
-- SQLite refuses, so what takes effect is the second one, which sets no time.
unfoldable pub update_task_status : ℕ → TaskStatus → String → String → Tasks → Tasks
update_task_status id status result error t =
    update_where (λ (r : Task). r.id == id)
      (λ (r : Task). record r { status = status; result = result; error = error }) t

unfoldable pub update_task_status_comment_id : ℕ → ℕ → Tasks → Tasks
update_task_status_comment_id id comment_id t =
    update_where (λ (r : Task). r.id == id)
      (λ (r : Task). record r { status_comment_id = comment_id }) t

unfoldable pub get_task : ℕ → Tasks → Option Task
get_task id t = find_first (λ (r : Task). r.id == id) t.rows

-- one row of ORDER BY priority DESC, created_at ASC before the other
abbrev pub comes_before : Task → Task → Bool
comes_before a b =
    ltb b.priority a.priority || (a.priority == b.priority && leb a.created_at b.created_at)

abbrev pub insert_ordered : Task → List Task → List Task
insert_ordered x [] = x ∷ []
insert_ordered x (y ∷ ys) =
    let rest = insert_ordered x ys in if comes_before x y then x ∷ y ∷ ys else y ∷ rest

unfoldable pub order_tasks : List Task → List Task
order_tasks [] = []
order_tasks (x ∷ xs) = insert_ordered x (order_tasks xs)

unfoldable pub list_pending_tasks : Tasks → List Task
unfolding order_tasks
list_pending_tasks t = order_tasks (select (λ (r : Task). status_eq r.status pending) t.rows)

unfoldable pub has_running_task_for_agent : ℕ → ℕ → Tasks → Bool
has_running_task_for_agent agent_id exclude_id t =
    any
      (λ (r : Task).
        r.agent_id == agent_id && status_eq r.status running && not (r.id == exclude_id))
      t.rows

abbrev first : List Task → Option Task
first [] = none
first (x ∷ xs) = some x

unfoldable pub next_pending_task_for_agent : ℕ → Tasks → Option Task
unfolding order_tasks
next_pending_task_for_agent agent_id t = first (
    order_tasks
      (select (λ (r : Task). r.agent_id == agent_id && status_eq r.status pending) t.rows))

abbrev pub is_live : TaskStatus → Bool
is_live s = status_eq s pending || status_eq s running

abbrev pub of_issue : String → ℕ → Task → Bool
of_issue repo issue_id r = str_eq r.repo repo && r.issue_id == issue_id

abbrev pub is_live_of : String → ℕ → Task → Bool
is_live_of repo issue_id r = of_issue repo issue_id r && is_live r.status

unfoldable pub has_pending_or_running_task : String → ℕ → Tasks → Bool
has_pending_or_running_task repo issue_id t = any (is_live_of repo issue_id) t.rows

abbrev pub is_resettable : TaskStatus → Bool
is_resettable s = is_live s || status_eq s partial

abbrev pub failed_at : ℕ → String → Task → Task
failed_at now reason r = record r { status = failed; error = reason; finished_at = some now }

abbrev pub reason_or : String → String → String
reason_or reason default = if is_empty_string reason then default else reason

-- ResetTask: `none` if there is no such task, or it is terminal
unfoldable pub reset_task : ℕ → ℕ → String → Tasks → Option Tasks
unfolding get_task
reset_task now id reason t = elim (get_task id t) [
  | none ↦ none
  | some task ↦
      if not (is_resettable task.status)
      then none
      else some (
          update_where (λ (r : Task). r.id == id && is_resettable r.status)
            (failed_at now (reason_or reason "manually reset")) t)
]

abbrev pub is_reset_of : String → ℕ → Task → Bool
is_reset_of repo issue_id r = of_issue repo issue_id r && is_resettable r.status

-- ResetTasksByIssue: the table and the number of rows changed
unfoldable pub reset_tasks_by_issue : ℕ → String → ℕ → String → Tasks → Tasks × ℕ
reset_tasks_by_issue now repo issue_id reason t = (
  update_where (is_reset_of repo issue_id) (failed_at now (reason_or reason "manually reset")) t,
  length (select (is_reset_of repo issue_id) t.rows),
)

abbrev pub orphan_reason : String
orphan_reason = "matea restarted; interrupted running task"

unfoldable pub fail_orphaned_running_tasks : ℕ → String → Tasks → Tasks × ℕ
fail_orphaned_running_tasks now reason t = (
  update_where (λ (r : Task). status_eq r.status running)
      (failed_at now (reason_or reason orphan_reason)) t,
  length (select (λ (r : Task). status_eq r.status running) t.rows),
)

-- started_at < cutoff, which is not true of NULL
abbrev pub started_before : ℕ → Option ℕ → Bool
started_before cutoff none = false
started_before cutoff (some s) = ltb s cutoff

abbrev pub requeued : Task → Task
requeued r = record r { status = pending; started_at = none }

abbrev pub is_stale : ℕ → Task → Bool
is_stale cutoff r = status_eq r.status running && started_before cutoff r.started_at

unfoldable pub reset_stale_running_tasks : ℕ → Tasks → Tasks × ℕ
reset_stale_running_tasks cutoff t =
    (update_where (is_stale cutoff) requeued t, length (select (is_stale cutoff) t.rows))

-- The task ids that own a hub handle that is not terminal are an argument.
abbrev pub is_stale_except : ℕ → (ℕ → Bool) → Task → Bool
is_stale_except cutoff owns_handle r = is_stale cutoff r && not (owns_handle r.id)

unfoldable pub reset_stale_running_tasks_except_hub : ℕ → (ℕ → Bool) → Tasks → Tasks × ℕ
reset_stale_running_tasks_except_hub cutoff owns_handle t = (
  update_where (is_stale_except cutoff owns_handle) requeued t,
  length (select (is_stale_except cutoff owns_handle) t.rows),
)

unfoldable pub fail_orphaned_running_tasks_except_hub : ℕ → String → (ℕ → Bool) → Tasks → Tasks × ℕ
fail_orphaned_running_tasks_except_hub now reason owns_handle t =
    let p : Task → Bool = λ r. status_eq r.status running && not (owns_handle r.id) in
    (update_where p (failed_at now (reason_or reason orphan_reason)) t, length (select p t.rows))
