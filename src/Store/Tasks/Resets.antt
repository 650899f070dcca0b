-- ===== src/Store/Tasks/Resets.antt =====
-- What the resets of tasks leave (internal/store/task.go).
use matea.Base.{
  ℕ, String, Bool, false, not, ◌&&◌, List, [], ◌∷◌, ◌≡◌, ◌≢◌, ◌⊎◌, inl, inr, refl, arith, any,
  select, map, eq_iff, if◌then◌else◌,
}
use matea.Store.Types.{Task, running, status_eq}
use matea.Store.Tasks.{
  Tasks, of_issue, is_live_of, is_reset_of, failed_at, has_pending_or_running_task,
  reset_tasks_by_issue, reason_or, orphan_reason, fail_orphaned_running_tasks_except_hub,
}

module _ (now : ℕ) (repo : String) (n : ℕ) (reason : String) where
  abbrev reset_row : Task → Task
  reset_row r = if is_reset_of repo n r then failed_at now reason r else r

  none_live : (rows : List Task) → any (is_live_of repo n) (map reset_row rows) ≡ false
  none_live [] = refl
  none_live (r ∷ rows) = ground (arith, none_live rows)

  others_same :
      (other : String) (m : ℕ) (rows : List Task)
      → (other ≢ repo) ⊎ (m ≢ n)
      → select (of_issue other m) (map reset_row rows) ≡ select (of_issue other m) rows
  others_same other m [] ne = refl
  others_same other m (r ∷ rows) (inl ne) =
      ground (arith, eq_iff r.repo repo, eq_iff r.repo other, others_same other m rows (inl ne))
  others_same other m (r ∷ rows) (inr ne) = ground (arith, others_same other m rows (inr ne))

-- After a reset by issue no task of the issue is pending or running, so that a new one may be queued,
-- and the tasks of every other issue are as they were.
pub reset_tasks_by_issue-frees :
    (now : ℕ) (repo : String) (n : ℕ) (reason : String) (t : Tasks) (other : String) (m : ℕ)
    → (other ≢ repo) ⊎ (m ≢ n)
    → (has_pending_or_running_task repo n (reset_tasks_by_issue now repo n reason t).0 ≡ false)
      × (select (of_issue other m) (reset_tasks_by_issue now repo n reason t).0.rows
          ≡ select (of_issue other m) t.rows)
unfolding has_pending_or_running_task reset_tasks_by_issue
reset_tasks_by_issue-frees now repo n reason t other m ne = (
  none_live now repo n (reason_or reason "manually reset") t.rows,
  others_same now repo n (reason_or reason "manually reset") other m t.rows ne,
)

-- the running rows that own no handle
abbrev pub is_orphan : (ℕ → Bool) → Task → Bool
is_orphan owns r = status_eq r.status running && not (owns r.id)

no_orphan :
    (now : ℕ) (reason : String) (owns : ℕ → Bool) (rows : List Task)
    → any
        (is_orphan owns)
        (map (λ (r : Task). if is_orphan owns r then failed_at now reason r else r) rows)
      ≡ false
no_orphan now reason owns [] = refl
no_orphan now reason owns (r ∷ rows) = ground (arith, no_orphan now reason owns rows)

-- After a restart every task that is still marked as running owns a hub handle that is not terminal,
-- so that its run can be taken up again.
pub restart-leaves_handles :
    (now : ℕ) (reason : String) (owns : ℕ → Bool) (t : Tasks)
    → any (is_orphan owns) (fail_orphaned_running_tasks_except_hub now reason owns t).0.rows ≡ false
unfolding fail_orphaned_running_tasks_except_hub
restart-leaves_handles now reason owns t =
    no_orphan now (reason_or reason orphan_reason) owns t.rows
