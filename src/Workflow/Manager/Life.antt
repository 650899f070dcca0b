-- ===== src/Workflow/Manager/Life.antt =====
-- The life of a workflow context: every write that the program makes to one, as a step relation, and
-- what holds of a context between two of them.
use matea.Base.{ℕ, String, ◌≡◌, Bool, true, false, some, arith, ◌⊎◌}
use matea.Store.Types.{Stage, Role, TaskType, WorkflowContext}
use matea.Store.Contexts.{staged, fresh_context}
use matea.Workflow.Manager.{transition, completed, failed_context, reverted}
use matea.Workflow.Manager.Rollback.{started}

-- start: handleEventV2 applies an allowed transition. finish, fail: the executor's callbacks.
-- close: OnIssueClosed. reset: resetIssue.
pub data Move (c d : WorkflowContext) : Type 0 where
  start :
      (agent_id : ℕ) (role : Role) (session_id : String)
      → (transition c role).allowed ≡ true
      → d ≡ started c agent_id role session_id
      → Move c d
  finish : (task_type : TaskType) (pr_id : ℕ) → d ≡ completed task_type pr_id c → Move c d
  fail : (task_type : TaskType) → failed_context task_type c ≡ some d → Move c d
  close : d ≡ record c { stage = Stage.done } → Move c d
  reset : d ≡ reverted c Stage.idle → Move c d

pub data Reach (c : WorkflowContext) : WorkflowContext → Type 0 where
  here : Reach c c
  next : {d e : WorkflowContext} → Reach c d → Move d e → Reach c e

abbrev pub is_known : Stage → Bool
is_known Stage.unset = false
is_known (Stage.other s) = false
is_known _ = true

pub record IsSound (c : WorkflowContext) : Type 0 where
  -- the stage is one of the six constants
  pub known : is_known c.stage ≡ true
  -- and so is the stage to go back to, if there is one
  pub known_previous : (c.previous_stage ≡ Stage.unset) ⊎ (is_known c.previous_stage ≡ true)
  -- an analysis is marked as running only for an analyzing agent
  pub analyzing_owner : c.stage ≡ Stage.analyzing → c.active_role ≡ Role.analyze
  -- and only a reviewer can have interrupted one
  pub interrupted : c.previous_stage ≡ Stage.analyzing → c.active_role ≡ Role.review

pub fresh-IsSound : (repo : String) (n id : ℕ) → IsSound (fresh_context repo n id)
fresh-IsSound repo n id = ground arith

start-IsSound :
    (c : WorkflowContext) (agent_id : ℕ) (role : Role) (session_id : String)
    → (transition c role).allowed ≡ true
    → IsSound c
    → IsSound (started c agent_id role session_id)
unfolding transition staged
start-IsSound c agent_id role session_id h s = ground arith

finish-IsSound :
    (c : WorkflowContext) (task_type : TaskType) (pr_id : ℕ)
    → IsSound c
    → IsSound (completed task_type pr_id c)
unfolding completed
finish-IsSound c task_type pr_id s = ground arith

fail-IsSound :
    (c d : WorkflowContext) (task_type : TaskType)
    → failed_context task_type c ≡ some d
    → IsSound c
    → IsSound d
unfolding failed_context
fail-IsSound c d task_type h s = ground arith

pub Move-IsSound : (c d : WorkflowContext) → Move c d → IsSound c → IsSound d
Move-IsSound c d (start agent_id role session_id h e) s =
    rw e (start-IsSound c agent_id role session_id h s)
Move-IsSound c d (finish task_type pr_id e) s = rw e (finish-IsSound c task_type pr_id s)
Move-IsSound c d (fail task_type h) s = fail-IsSound c d task_type h s
Move-IsSound c d (close e) s = rw e (ground arith)
Move-IsSound c d (reset e) s = rw e (ground arith)

-- In every context that the program reaches from a new one the stage is one of the six constants,
-- so is the stage kept for a rollback if there is one, analyzing is marked only while an analyzing
-- agent owns the issue, and a kept stage is analyzing only while a reviewer owns it.
pub Reach-IsSound :
    (repo : String) (n id : ℕ) {d : WorkflowContext} → Reach (fresh_context repo n id) d → IsSound d
Reach-IsSound repo n id here = fresh-IsSound repo n id
Reach-IsSound repo n id (next {d = d} {e = e} r m) = Move-IsSound d e m (Reach-IsSound repo n id r)
