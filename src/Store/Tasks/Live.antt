-- ===== src/Store/Tasks/Live.antt =====
-- How many tasks of an issue are pending or running.
use matea.Base.{
  ℕ, ◌+◌, ◌≤◌, String, Bool, false, List, [], ◌∷◌, ◌++◌, ◌≡◌, refl, arith, any, select, length,
  if◌then◌else◌, eq_iff,
}
use matea.Store.Types.{Task}
use matea.Store.Tasks.{Tasks, is_live_of, has_pending_or_running_task}

abbrev pub live_count : String → ℕ → List Task → ℕ
live_count repo n rows = length (select (is_live_of repo n) rows)

-- No issue has two live tasks.
pub record OneLive (t : Tasks) : Type 0 where
  pub one : (repo : String) (n : ℕ) → live_count repo n t.rows ≤ 1

module _ (p : Task → Bool) where
  pub length-select-append :
      (xs : List Task) (x : Task)
      → length (select p (xs ++ x ∷ [])) ≡ length (select p xs) + (if p x then 1 else 0)
  length-select-append [] x = ground arith
  length-select-append (y ∷ xs) x = ground (arith, length-select-append xs x)

  pub length-select-none : (xs : List Task) → any p xs ≡ false → length (select p xs) ≡ 0
  length-select-none [] h = refl
  length-select-none (x ∷ xs) h = ground (arith, length-select-none xs)

-- A new task of an issue that has no live one leaves no issue with two.
pub append-OneLive :
    (t : Tasks) (task : Task) (next : ℕ)
    → has_pending_or_running_task task.repo task.issue_id t ≡ false
    → OneLive t
    → OneLive (record { rows = t.rows ++ task ∷ []; next_id = next })
unfolding has_pending_or_running_task
append-OneLive t task next idle v = record {
  one = λ repo n. ground (
    arith,
    length-select-append (is_live_of repo n) t.rows task,
    v.one repo n,
    eq_iff task.repo repo,
    eq_iff task.repo task.repo,
    length-select-none (is_live_of task.repo task.issue_id) t.rows,
  );
}
