-- ===== src/Store/Tasks/Stale.antt =====
-- The start time of a task in the table, and with it the reset of stale tasks
-- (UpdateTaskStatus and ResetStaleRunningTasks of internal/store/task.go).
use matea.Base.{
  ℕ, String, Bool, none, some, List, [], ◌∷◌, ◌++◌, ◌≡◌, refl, arith, All, All-append, All-map,
  select, length, map, if◌then◌else◌, ◌==◌, ◌&&◌, not, Option-cases, inl, inr,
}
use matea.Store.Types.{Task, TaskStatus, running, status_eq}
use matea.Store.Tasks.{
  Tasks, create_task, inserted, update_where, update_task_status, update_task_status_comment_id,
  reset_task, reset_tasks_by_issue, fail_orphaned_running_tasks,
  fail_orphaned_running_tasks_except_hub, reset_stale_running_tasks,
  reset_stale_running_tasks_except_hub, is_stale, is_stale_except, requeued, failed_at, reason_or,
  orphan_reason, is_resettable, is_reset_of, get_task,
}

-- Every statement of the program that writes to the table.
pub data Write (now : ℕ) (t u : Tasks) : Type 0 where
  create : (task task' : Task) → create_task now task t ≡ some (task', u) → Write now t u
  set_status :
      (id : ℕ) (status : TaskStatus) (result error : String)
      → u ≡ update_task_status id status result error t
      → Write now t u
  set_comment :
      (id comment_id : ℕ) → u ≡ update_task_status_comment_id id comment_id t → Write now t u
  reset : (id : ℕ) (reason : String) → reset_task now id reason t ≡ some u → Write now t u
  reset_all_of :
      (repo : String) (n : ℕ) (reason : String)
      → u ≡ (reset_tasks_by_issue now repo n reason t).0
      → Write now t u
  fail_orphaned :
      (reason : String) → u ≡ (fail_orphaned_running_tasks now reason t).0 → Write now t u
  fail_orphaned_except :
      (reason : String) (owns : ℕ → Bool)
      → u ≡ (fail_orphaned_running_tasks_except_hub now reason owns t).0
      → Write now t u
  requeue_stale : (cutoff : ℕ) → u ≡ (reset_stale_running_tasks cutoff t).0 → Write now t u
  requeue_stale_except :
      (cutoff : ℕ) (owns : ℕ → Bool)
      → u ≡ (reset_stale_running_tasks_except_hub cutoff owns t).0
      → Write now t u

pub data Writes (t : Tasks) : Tasks → Type 0 where
  here : Writes t t
  next : {u w : Tasks} (now : ℕ) → Writes t u → Write now u w → Writes t w

abbrev NoStart : Task → Type 0
NoStart r = r.started_at ≡ none

pub record NeverStarted (t : Tasks) : Type 0 where
  pub rows : All NoStart t.rows

update-NeverStarted :
    (p : Task → Bool) (f : Task → Task) (t : Tasks)
    → ((r : Task) → NoStart r → NoStart (f r))
    → NeverStarted t
    → NeverStarted (update_where p f t)
update-NeverStarted p f t keeps v = record {
  rows =
      All-map NoStart NoStart (λ (r : Task). if p r then f r else r)
        (λ r h. ground (arith, keeps r)) t.rows v.rows;
}

create-NeverStarted :
    (now : ℕ) (task task' : Task) (t u : Tasks)
    → create_task now task t ≡ some (task', u)
    → NeverStarted t
    → NeverStarted u
unfolding create_task
create-NeverStarted now task task' t u e v =
    let same : u.rows ≡ t.rows ++ inserted t.next_id now task ∷ [] = ground arith in
    record {
      rows =
          rw same (All-append NoStart t.rows (inserted t.next_id now task ∷ []) v.rows (refl, tt));
    }

abbrev reset_test : ℕ → Task → Bool
reset_test id r = r.id == id && is_resettable r.status

reset_writes :
    (now id : ℕ) (reason : String) (t u : Tasks)
    → reset_task now id reason t ≡ some u
    → u ≡ update_where (reset_test id) (failed_at now (reason_or reason "manually reset")) t
unfolding reset_task
reset_writes now id reason t u e = elim (Option-cases (get_task id t)) [
  | inl n ↦ ground arith
  | inr (task, n) ↦ ground arith
]

Write-NeverStarted : (now : ℕ) (t u : Tasks) → Write now t u → NeverStarted t → NeverStarted u
unfolding update_task_status update_task_status_comment_id reset_tasks_by_issue
    fail_orphaned_running_tasks fail_orphaned_running_tasks_except_hub reset_stale_running_tasks
    reset_stale_running_tasks_except_hub
Write-NeverStarted now t u (create task task' e) v = create-NeverStarted now task task' t u e v
Write-NeverStarted now t u (set_status id status result error e) v = rw e (
    update-NeverStarted (λ r. r.id == id)
      (λ r. record r { status = status; result = result; error = error }) t (λ r h. h) v)
Write-NeverStarted now t u (set_comment id comment_id e) v = rw e (
    update-NeverStarted (λ r. r.id == id) (λ r. record r { status_comment_id = comment_id }) t
      (λ r h. h) v)
Write-NeverStarted now t u (reset id reason e) v = rw (reset_writes now id reason t u e) (
    update-NeverStarted (reset_test id) (failed_at now (reason_or reason "manually reset")) t
      (λ r h. h) v)
Write-NeverStarted now t u (reset_all_of repo n reason e) v = rw e (
    update-NeverStarted (is_reset_of repo n) (failed_at now (reason_or reason "manually reset")) t
      (λ r h. h) v)
Write-NeverStarted now t u (fail_orphaned reason e) v = rw e (
    update-NeverStarted (λ r. status_eq r.status running)
      (failed_at now (reason_or reason orphan_reason)) t (λ r h. h) v)
Write-NeverStarted now t u (fail_orphaned_except reason owns e) v = rw e (
    update-NeverStarted (λ r. status_eq r.status running && not (owns r.id))
      (failed_at now (reason_or reason orphan_reason)) t (λ r h. h) v)
Write-NeverStarted now t u (requeue_stale cutoff e) v =
    rw e (update-NeverStarted (is_stale cutoff) requeued t (λ r h. refl) v)
Write-NeverStarted now t u (requeue_stale_except cutoff owns e) v =
    rw e (update-NeverStarted (is_stale_except cutoff owns) requeued t (λ r h. refl) v)

Writes-NeverStarted : {t u : Tasks} → Writes t u → NeverStarted t → NeverStarted u
Writes-NeverStarted here v = v
Writes-NeverStarted (next {u = u} {w = w} now ws w1) v =
    Write-NeverStarted now u w w1 (Writes-NeverStarted ws v)

none_stale :
    (cutoff : ℕ) (owns : ℕ → Bool) (rows : List Task)
    → All NoStart rows
    → (map (λ (r : Task). if is_stale_except cutoff owns r then requeued r else r) rows ≡ rows)
      × (length (select (is_stale_except cutoff owns) rows) ≡ 0)
none_stale cutoff owns [] h = (refl, refl)
none_stale cutoff owns (r ∷ rows) h =
    let e : NoStart r = h.0 in
    let ih = none_stale cutoff owns rows h.1 in (ground arith, ground arith)

-- The scanner's reset of stale tasks never resets one: from an empty table, by whatever writes, no row
-- comes to have a start time, so no task counts as running for too long.
pub stale_reset_idle :
    (next_id cutoff : ℕ) (owns : ℕ → Bool) {t : Tasks}
    → Writes (record { rows = []; next_id = next_id }) t
    → reset_stale_running_tasks_except_hub cutoff owns t ≡ (t, 0)
unfolding reset_stale_running_tasks_except_hub
stale_reset_idle next_id cutoff owns {t} ws =
    let v : NeverStarted t = Writes-NeverStarted ws (record { rows = tt }) in
    let h = none_stale cutoff owns t.rows v.rows in ground arith
