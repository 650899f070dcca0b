-- ===== src/Workflow/Cleanup/Spares.antt =====
-- Which workspaces the cleanups remove (internal/workflow/lifecycle.go).
use matea.Base.{
  ℕ, ◌-◌, String, Text, true, false, Option, ap, if◌then◌else◌, none, some, List, [], ◌∷◌, All,
  str_eq, eq_iff, leb, ◌≡◌, inl, inr, refl, ◌∙◌, Bool-cases,
}
use matea.Store.Types.{AgentSession, SessionStatus}
use matea.Store.Sessions.{Sessions, session_status_eq, list_archived_sessions_with_workspace}
use matea.Workflow.Cleanup.{
  Disk, Workspaces, is_under, dir_size, remove_all, CleanupFaults, cleared, is_expired, clean_each,
  cleanup_archived_workspaces, is_victim, evict_each, enforce, parse_size, get_repo_workspace_size,
  enforce_disk_limit,
}

-- the workspace of no session of the list is the path or above it
abbrev pub HasNoPath : String → List AgentSession → Type 0
HasNoPath path xs = All (λ (r : AgentSession). is_under r.workspace_path path ≡ false) xs

-- the workspace of no archived session is the path or above it; the empty path is no workspace
abbrev pub IsInUse : String → Sessions → Type 0
IsInUse path t =
    All
      (λ (r : AgentSession).
        session_status_eq r.status SessionStatus.archived ≡ true
        → str_eq r.workspace_path "" ≡ false
        → is_under r.workspace_path path ≡ false)
      t

-- the size of the file at a path, if there is one
abbrev pub file_at : String → Disk → Option ℕ
file_at path [] = none
file_at path ((q, size) ∷ disk) =
    let rest = file_at path disk in if str_eq q path then some size else rest

IsInUse-HasNoPath :
    (path : String) (t : Sessions)
    → IsInUse path t
    → HasNoPath path (list_archived_sessions_with_workspace t)
unfolding list_archived_sessions_with_workspace
IsInUse-HasNoPath path [] h = tt
IsInUse-HasNoPath path (r ∷ t) (here, rest) =
    let others = IsInUse-HasNoPath path t rest in
    elim (Bool-cases (session_status_eq r.status SessionStatus.archived)) [
      | inr e ↦ rw e others
      | inl e ↦ elim (Bool-cases (str_eq r.workspace_path "")) [
        | inl g ↦ rw (e, g) others
        | inr g ↦ rw (e, g) (here e g, others)
      ]
    ]

remove_all-other :
    (directory path : String) (disk : Disk)
    → is_under directory path ≡ false
    → file_at path (remove_all directory disk) ≡ file_at path disk
unfolding remove_all
remove_all-other directory path [] h = refl
remove_all-other directory path ((q, size) ∷ disk) h =
    let rest = remove_all-other directory path disk h in
    elim (Bool-cases (str_eq q path)) [
      | inl e ↦
          let kept : is_under directory q ≡ false =
            ap (is_under directory) ((eq_iff q path).0 e) ∙ h in
          rw (kept, e) refl
      | inr e ↦ elim (Bool-cases (is_under directory q)) [
        | inl u ↦ rw (u, e) rest
        | inr u ↦ rw (u, e) rest
      ]
    ]

module _ (now : ℕ) (f : CleanupFaults) (path : String) where
  clean_each-spares :
      (retention : ℕ) (xs : List AgentSession) (s : Workspaces)
      → HasNoPath path xs
      → file_at path (clean_each now f retention xs s).1.disk ≡ file_at path s.disk
  unfolding clean_each
  clean_each-spares retention [] s h = refl
  clean_each-spares retention (x ∷ xs) s (here, rest) =
      elim (Bool-cases (is_expired now f retention x)) [
        | inl e ↦ rw e (
            clean_each-spares retention xs (cleared now f x s) rest
            ∙ remove_all-other x.workspace_path path s.disk here)
        | inr e ↦ rw e (clean_each-spares retention xs s rest)
      ]

  evict_each-spares :
      (max current : ℕ) (xs : List AgentSession) (s : Workspaces)
      → HasNoPath path xs
      → file_at path (evict_each now f max current xs s).2.disk ≡ file_at path s.disk
  unfolding evict_each
  evict_each-spares max current [] s h = refl
  evict_each-spares max current (x ∷ xs) s (here, rest) =
      elim (Bool-cases (is_victim now f max current x)) [
        | inl e ↦ rw e (
            evict_each-spares max (current - dir_size x.workspace_path s.disk) xs
              (cleared now f x s) rest
            ∙ remove_all-other x.workspace_path path s.disk here)
        | inr e ↦ rw e (evict_each-spares max current xs s rest)
      ]

  enforce-spares :
      (limit : Option ℕ) (directories : Option (List String)) (s : Workspaces)
      → IsInUse path s.sessions
      → file_at path (enforce now f limit directories s).1.disk ≡ file_at path s.disk
  enforce-spares none directories s h = refl
  enforce-spares (some max) none s h = refl
  enforce-spares (some max) (some ds) s h =
      let current = get_repo_workspace_size s.disk ds in
      elim (Bool-cases (leb current max)) [
        | inl l ↦ rw l refl
        | inr l ↦ rw l (
            evict_each-spares max current (list_archived_sessions_with_workspace s.sessions) s
              (IsInUse-HasNoPath path s.sessions h))
      ]

  -- Neither the removal of expired workspaces nor the eviction at the limit of the disk touches a file that is not
  -- in the workspace of an archived session, however deep in it, whatever the settings are and whichever removals
  -- and writes fail, where a removal that fails removes nothing.
  pub cleanups_spare :
      (retention : Option ℕ) (limit : Option (ℕ × Text)) (directories : Option (List String))
      (s : Workspaces)
      → IsInUse path s.sessions
      → (file_at path (cleanup_archived_workspaces now f retention s).1.disk ≡ file_at path s.disk)
        × (file_at path (enforce_disk_limit now f limit directories s).1.disk ≡ file_at path s.disk)
  unfolding cleanup_archived_workspaces enforce_disk_limit
  cleanups_spare none limit directories s h =
      (refl, enforce-spares (parse_size limit) directories s h)
  cleanups_spare (some retention) limit directories s h = (
    clean_each-spares retention (list_archived_sessions_with_workspace s.sessions) s
        (IsInUse-HasNoPath path s.sessions h),
    enforce-spares (parse_size limit) directories s h,
  )
