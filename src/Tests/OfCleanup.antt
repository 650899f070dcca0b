-- ===== src/Tests/OfCleanup.antt =====
-- The cleanups of internal/workflow/lifecycle.go.
use matea.Base.{refl, codes, false, some, [], ◌∷◌, ◌≡◌}
use matea.Store.Types.{AgentSession, SessionStatus}
use matea.Workflow.Cleanup.{
  Workspaces, is_under, remove_all, clean_each, CleanupFaults, cleanup_archived_workspaces,
  enforce_disk_limit,
}
use matea.Workflow.Cleanup.Spares.{file_at, cleanups_spare}
use matea.Store.Sessions.{list_archived_sessions_with_workspace}
use matea.Tests.Samples.{session_a}

abbrev archived_a : AgentSession
archived_a = record session_a { status = SessionStatus.archived; workspace_path = "/ws/a" }

abbrev active_b : AgentSession
active_b = record session_a { id = "s2"; status = SessionStatus.active; workspace_path = "/ws/b" }

abbrev full : Workspaces
full = record {
  sessions = archived_a ∷ active_b ∷ [];
  disk = ("/ws/a/.git/config", 6) ∷ ("/ws/b/main.go", 6) ∷ [];
}

abbrev nothing_fails : CleanupFaults
nothing_fails = record { save_fails = λ id. false; remove_fails = λ path. false }

apart : is_under "/ws/a" "/ws/b/main.go" ≡ false
apart = refl

-- the file below the archived workspace goes with it
removed :
    (cleanup_archived_workspaces 9 nothing_fails (some 1) full).1.disk ≡ ("/ws/b/main.go", 6) ∷ []
unfolding cleanup_archived_workspaces clean_each list_archived_sessions_with_workspace remove_all
removed = refl

cleanups_spare_example :
    (file_at "/ws/b/main.go" (cleanup_archived_workspaces 9 nothing_fails (some 1) full).1.disk
      ≡ some 6)
    × (file_at "/ws/b/main.go"
          (enforce_disk_limit 9 nothing_fails
            (some (7, codes "B"))
            (some ("/ws/a" ∷ "/ws/b" ∷ []))
            full).1.disk
        ≡ some 6)
cleanups_spare_example =
    cleanups_spare 9 nothing_fails "/ws/b/main.go" (some 1) (some (7, codes "B"))
      (some ("/ws/a" ∷ "/ws/b" ∷ [])) full ((λ a e. apart), ((λ a e. absurd (cc a)), tt))
