-- ===== src/Dispatcher/Execution/Retries.antt =====
-- The retries of a task (Executor.execute of internal/dispatcher/executor.go).
use matea.Base.{ℕ, zero, suc, Bool, true, false, ◌||◌, not, Option, none, some, ◌≡◌, refl}
use matea.Store.Types.{Task}
use matea.Dispatcher.Execution.{
  Run, ran, run_failed, Attempt, RunError, run_task, retry, run_attempts,
}

abbrev pub succeeds : Run → Bool
succeeds (ran content pr_id) = true
succeeds (run_failed e) = false

-- one of the attempts n, ..., n + left succeeds
abbrev pub one_succeeds : (ℕ → Attempt) → ℕ → ℕ → Bool
one_succeeds attempts zero n = succeeds (attempts n).run
one_succeeds attempts (suc left) n = succeeds (attempts n).run || one_succeeds attempts left (suc n)

abbrev pub has_failed : Option RunError → Bool
has_failed none = false
has_failed (some e) = true

-- nothing cancels the task
pub record Undisturbed (attempts : ℕ → Attempt) : Type 0 where
  pub before : (n : ℕ) → (attempts n).cancelled_before ≡ false
  pub waiting : (n : ℕ) → (attempts n).cancelled_waiting ≡ false
  pub after : (n : ℕ) → (attempts n).cancelled_after ≡ false

module _ (attempts : ℕ → Attempt) where
  retry_lem :
      Undisturbed attempts
      → (left n : ℕ) (task : Task)
      → has_failed (retry attempts left n (run_task (attempts n).run task)).0
        ≡ not (one_succeeds attempts left n)
  unfolding retry run_task
  retry_lem u left n task = go left n task (attempts n).run refl
    where
      go :
          (left n : ℕ) (task : Task) (r : Run)
          → (attempts n).run ≡ r
          → has_failed (retry attempts left n (run_task r task)).0
            ≡ not (one_succeeds attempts left n)
      go zero n task (ran content pr_id) e = rw e refl
      go (suc left) n task (ran content pr_id) e = rw e refl
      go zero n task (run_failed x) e = rw e refl
      go (suc left) n task (run_failed x) e =
          rw (u.after n, u.before (suc n), u.waiting (suc n), e)
            (go left (suc n) task (attempts (suc n)).run refl)

  -- If nothing cancels it, a task fails exactly if its first attempt and all the retries that are
  -- configured would fail: one success among them is enough.
  pub run_attempts-fails :
      (retry_count : ℕ) (task : Task)
      → Undisturbed attempts
      → has_failed (run_attempts attempts retry_count task).0
        ≡ not (one_succeeds attempts retry_count 0)
  unfolding run_attempts
  run_attempts-fails retry_count task u = retry_lem u retry_count 0 task
