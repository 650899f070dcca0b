-- ===== src/Store/Contexts.antt =====
-- The table workflow_contexts of internal/store/workflow.go. A row id comes from AUTOINCREMENT, so
-- the table keeps the next one. A query that finds no row, an error in the source, is `none`; that
-- the database itself may fail is decided by the callers' fault flags.
pub mod Laws
pub mod Isolation
use matea.Base.{
  ℕ, ◌+◌, String, ◌≡◌, Bool, ◌&&◌, Option, none, some, List, [], ◌∷◌, ◌++◌, map, ◌==◌, str_eq, not,
  find_first, if◌then◌else◌,
}
use matea.Store.Types.{Stage, Role, WorkflowContext, stage_eq}

pub record Contexts : Type 0 where
  pub rows : List WorkflowContext
  pub next_id : ℕ

abbrev pub has_key : String → ℕ → WorkflowContext → Bool
has_key repo issue_id row = str_eq row.repo repo && row.issue_id == issue_id

unfoldable pub get_workflow_context : String → ℕ → Contexts → Option WorkflowContext
get_workflow_context repo issue_id t = find_first (has_key repo issue_id) t.rows

abbrev pub fresh_context : String → ℕ → ℕ → WorkflowContext
fresh_context repo issue_id id = record {
  id = id;
  repo = repo;
  issue_id = issue_id;
  pr_id = 0;
  stage = Stage.idle;
  previous_stage = Stage.unset;
  active_agent_id = 0;
  active_role = Role.unset;
  session_id = "";
}

unfoldable pub get_or_create_workflow_context : String → ℕ → Contexts → WorkflowContext × Contexts
get_or_create_workflow_context repo issue_id t = elim (get_workflow_context repo issue_id t) [
  | some ctx ↦ (ctx, t)
  | none ↦ (
    fresh_context repo issue_id t.next_id,
    record { rows = t.rows ++ fresh_context repo issue_id t.next_id ∷ []; next_id = t.next_id + 1 },
  )
]

-- the columns that UPDATE sets, on the row that it selects by id
abbrev pub overwrite : WorkflowContext → WorkflowContext → WorkflowContext
overwrite ctx row =
    if row.id == ctx.id
    then record row {
      pr_id = ctx.pr_id;
      stage = ctx.stage;
      previous_stage = ctx.previous_stage;
      active_agent_id = ctx.active_agent_id;
      active_role = ctx.active_role;
      session_id = ctx.session_id;
    }
    else row

unfoldable pub update_workflow_context : WorkflowContext → Contexts → Contexts
update_workflow_context ctx t = record t { rows = map (overwrite ctx) t.rows }

-- What TransitionStage writes into the context before it saves it.
unfoldable pub staged : WorkflowContext → Stage → ℕ → Role → String → WorkflowContext
staged ctx stage agent_id role session_id = record ctx {
  previous_stage = if not (stage_eq stage ctx.stage) then ctx.stage else Stage.unset;
  stage = stage;
  active_agent_id = agent_id;
  active_role = role;
  session_id = session_id;
}

unfoldable pub transition_stage :
    WorkflowContext → Stage → ℕ → Role → String → Contexts → WorkflowContext × Contexts
unfolding staged
transition_stage ctx stage agent_id role session_id t =
    let ctx' = staged ctx stage agent_id role session_id in (ctx', update_workflow_context ctx' t)
