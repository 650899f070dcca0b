-- ===== src/Workflow/Sessions.antt =====
-- SessionService of internal/workflow/session.go. The short random id of a new session comes from a
-- library and is an argument.
pub mod Archive
use matea.Base.{ℕ, String, Option, none, some, List, [], ◌∷◌, str_eq, if◌then◌else◌}
use matea.Store.Types.{AgentSession, SessionStatus, Role}
use matea.Store.Sessions.{
  Sessions, create_session, get_session_by_repo_issue_agent_role, list_sessions_by_issue,
  archive_session, update_session,
}

abbrev pub new_session : ℕ → String → String → ℕ → ℕ → Role → AgentSession
new_session now new_id repo issue_id agent_id role = record {
  id = new_id;
  repo = repo;
  issue_id = issue_id;
  pr_id = 0;
  agent_id = agent_id;
  role = role;
  status = SessionStatus.active;
  branch = "";
  workspace_path = "";
  last_head = "";
  memory = "";
  last_task_id = 0;
  message_count = 0;
  last_active_at = now;
  created_at = now;
}

abbrev with_table : AgentSession → Option Sessions → Option (AgentSession × Sessions)
with_table s none = none
with_table s (some t) = some (s, t)

unfoldable pub get_or_create :
    ℕ → String → String → ℕ → ℕ → Role → Sessions → Option (AgentSession × Sessions)
get_or_create now new_id repo issue_id agent_id role t =
    elim (get_session_by_repo_issue_agent_role repo issue_id agent_id role t) [
      | some s ↦ some (s, t)
      | none ↦
          let s = new_session now new_id repo issue_id agent_id role in
          with_table s (create_session s t)
    ]

abbrev or_keep : String → String → String
or_keep new old = if str_eq new "" then old else new

abbrev pr_or_keep : Option ℕ → ℕ → ℕ
pr_or_keep none old = old
pr_or_keep (some n) old = n

-- The PR is `none` where its text is empty or no number.
unfoldable pub complete_task :
    ℕ → AgentSession → ℕ → String → Option ℕ → Sessions → AgentSession × Sessions
complete_task now s task_id branch pr t =
    let s' : AgentSession = record s {
      status = SessionStatus.idle;
      last_task_id = task_id;
      last_active_at = now;
      branch = or_keep branch s.branch;
      pr_id = pr_or_keep pr s.pr_id;
    } in
    (s', update_session now s' t)

unfoldable pub archive_all : ℕ → List AgentSession → Sessions → Sessions
archive_all now [] t = t
archive_all now (s ∷ rest) t = archive_all now rest (archive_session now s.id t)

unfoldable pub archive_by_issue : ℕ → String → ℕ → Sessions → Sessions
unfolding archive_all
archive_by_issue now repo issue_id t = archive_all now (list_sessions_by_issue repo issue_id t) t
