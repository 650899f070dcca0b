-- ===== src/Tests/OfStore.antt =====
-- internal/store.
use matea.Base.{false, ◌≡◌, refl, [], arith}
use matea.Store.Types.{running}
use matea.Store.Contexts.Laws.{IsValid}
use matea.Store.Tasks.{Tasks, update_task_status, reset_stale_running_tasks_except_hub, create_task}
use matea.Store.Tasks.Stale.{Writes, here, next, create, set_status, stale_reset_idle}
use matea.Tests.Samples.{one_context, one_task, task_1}

one_context-IsValid : IsValid one_context
one_context-IsValid = record { below = (omega arith, tt); distinct = (tt, tt) }

abbrev ran : Tasks
ran = update_task_status 1 running "" "" one_task

ran_is_written : Writes (record { rows = []; next_id = 1 }) ran
unfolding create_task
ran_is_written = next 5 (next 3 here (create task_1 task_1 refl)) (set_status 1 running "" "" refl)

stale_reset_idle_example : reset_stale_running_tasks_except_hub 1000 (λ id. false) ran ≡ (ran, 0)
stale_reset_idle_example = stale_reset_idle 1 1000 (λ id. false) ran_is_written
