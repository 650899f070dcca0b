-- ===== src/Workflow/Sessions/Archive.antt =====
-- Archiving by issue, and the reuse of sessions (SessionService of internal/workflow/session.go).
use matea.Base.{ℕ, String, List, [], ◌∷◌, ◌≡◌, All, All-map, select}
use matea.Store.Types.{AgentSession}
use matea.Store.Sessions.{Sessions, is_of, archive_session, archived_at, list_sessions_by_issue}
use matea.Store.Sessions.Laws.{IsCovered, self-IsCovered, archived-IsCovered, select-none}
use matea.Workflow.Sessions.{archive_all, archive_by_issue}

archive_all-closes :
    (repo : String) (n now : ℕ) (l : List AgentSession) (t : Sessions)
    → All (IsCovered repo n l) t
    → select (is_of repo n) (archive_all now l t) ≡ []
unfolding archive_all archive_session
archive_all-closes repo n now [] t h = select-none repo n t h
archive_all-closes repo n now (s ∷ l) t h =
    archive_all-closes repo n now l (archive_session now s.id t) (
      All-map (IsCovered repo n (s ∷ l)) (IsCovered repo n l) (archived_at now s.id)
        (archived-IsCovered repo n now s l) t h)

-- When the sessions of an issue have been archived, it has no open session.
pub archive_by_issue-closes :
    (repo : String) (n now : ℕ) (t : Sessions)
    → list_sessions_by_issue repo n (archive_by_issue now repo n t) ≡ []
unfolding list_sessions_by_issue archive_by_issue
archive_by_issue-closes repo n now t =
    archive_all-closes repo n now (select (is_of repo n) t) t (self-IsCovered repo n t)
