-- ===== src/Store/Sessions.antt =====
-- The table agent_sessions of internal/store/session.go. The newest of several sessions is the one
-- with the latest last_active_at, the first row of them if several have it.
pub mod Laws
use matea.Base.{
  ℕ, String, Bool, true, false, not, ◌&&◌, Option, none, some, List, [], ◌∷◌, ◌++◌, map, ◌==◌, leb,
  ltb, str_eq, any, select, find_first, if◌then◌else◌,
}
use matea.Store.Types.{AgentSession, SessionStatus, active, archived, Role, role_eq}

abbrev pub Sessions : Type 0
Sessions = List AgentSession

abbrev pub session_status_eq : SessionStatus → SessionStatus → Bool
session_status_eq SessionStatus.active SessionStatus.active = true
session_status_eq SessionStatus.idle SessionStatus.idle = true
session_status_eq SessionStatus.archived SessionStatus.archived = true
session_status_eq _ _ = false

-- the primary key is the id: a second row of one id is the error
unfoldable pub create_session : AgentSession → Sessions → Option Sessions
create_session s t =
    if any (λ (r : AgentSession). str_eq r.id s.id) t then none else some (t ++ s ∷ [])

unfoldable pub get_session : String → Sessions → Option AgentSession
get_session id t = find_first (λ (r : AgentSession). str_eq r.id id) t

abbrev pub newer : AgentSession → Option AgentSession → AgentSession
newer s none = s
newer s (some r) = if ltb s.last_active_at r.last_active_at then r else s

-- ORDER BY last_active_at DESC LIMIT 1
abbrev pub newest : Sessions → Option AgentSession
newest [] = none
newest (s ∷ t) = some (newer s (newest t))

abbrev pub is_open : AgentSession → Bool
is_open r = not (session_status_eq r.status SessionStatus.archived)

abbrev pub is_of : String → ℕ → AgentSession → Bool
is_of repo issue_id r = str_eq r.repo repo && r.issue_id == issue_id && is_open r

abbrev pub is_of_agent : String → ℕ → ℕ → Role → AgentSession → Bool
is_of_agent repo issue_id agent_id role r =
    is_of repo issue_id r && r.agent_id == agent_id && role_eq r.role role

unfoldable pub get_session_by_repo_issue_agent_role :
    String → ℕ → ℕ → Role → Sessions → Option AgentSession
get_session_by_repo_issue_agent_role repo issue_id agent_id role t =
    newest (select (is_of_agent repo issue_id agent_id role) t)

unfoldable pub get_active_session_for_issue : String → ℕ → Sessions → Option AgentSession
get_active_session_for_issue repo issue_id t = newest (select (is_of repo issue_id) t)

-- the rows, without their order, which no caller uses
unfoldable pub list_sessions_by_issue : String → ℕ → Sessions → List AgentSession
list_sessions_by_issue repo issue_id t = select (is_of repo issue_id) t

abbrev pub saved : ℕ → AgentSession → AgentSession → AgentSession
saved now s r =
    if str_eq r.id s.id
    then record r {
      pr_id = s.pr_id;
      role = s.role;
      status = s.status;
      branch = s.branch;
      workspace_path = s.workspace_path;
      last_head = s.last_head;
      memory = s.memory;
      last_task_id = s.last_task_id;
      message_count = s.message_count;
      last_active_at = now;
    }
    else r

unfoldable pub update_session : ℕ → AgentSession → Sessions → Sessions
update_session now s t = map (saved now s) t

abbrev pub archived_at : ℕ → String → AgentSession → AgentSession
archived_at now id r =
    if str_eq r.id id then record r { status = SessionStatus.archived; last_active_at = now } else r

unfoldable pub archive_session : ℕ → String → Sessions → Sessions
archive_session now id t = map (archived_at now id) t

unfoldable pub list_idle_sessions_older_than : ℕ → Sessions → List AgentSession
list_idle_sessions_older_than cutoff t =
    select
      (λ (r : AgentSession).
        session_status_eq r.status SessionStatus.idle && ltb r.last_active_at cutoff)
      t

unfoldable pub list_archived_sessions_with_workspace : Sessions → List AgentSession
list_archived_sessions_with_workspace t =
    select
      (λ (r : AgentSession).
        session_status_eq r.status SessionStatus.archived && not (str_eq r.workspace_path ""))
      t
