-- ===== src/Workflow/Cleanup.antt =====
-- The cleanups of SessionLifecycle (internal/workflow/lifecycle.go). The disk is the list of its files, by their
-- full paths, with their sizes. A path ends in no slash and has no part that is a dot, two dots or a link.
-- Parsing a duration, scanning the text of a size and listing the directories are the library's, and arguments.
-- A removal that fails removes nothing.
pub mod Spares
pub mod Ends
use matea.Base.{
  ℕ, suc, ◌+◌, ◌-◌, ◌*◌, String, Text, codes, text_eq, Bool, true, false, not, ◌&&◌, ◌||◌, Option,
  none, some, List, [], ◌∷◌, ◌++◌, has_prefix, select, str_eq, ltb, leb, if◌then◌else◌,
}
use matea.Store.Types.{AgentSession}
use matea.Store.Sessions.{
  Sessions, archive_session, update_session, list_idle_sessions_older_than,
  list_archived_sessions_with_workspace,
}

abbrev pub Disk : Type 0
Disk = List (String × ℕ)

-- the path itself, or one below it
abbrev pub is_under : String → String → Bool
is_under directory path =
    str_eq path directory || has_prefix (codes path) (codes directory ++ codes "/")

-- the sum over the files below a directory
unfoldable pub dir_size : String → Disk → ℕ
dir_size directory [] = 0
dir_size directory ((path, size) ∷ disk) =
    let rest = dir_size directory disk in if is_under directory path then size + rest else rest

pub record Workspaces : Type 0 where
  pub sessions : Sessions
  pub disk : Disk

-- os.RemoveAll, which removes a directory with all that is in it
unfoldable pub remove_all : String → Disk → Disk
remove_all directory disk = select (λ (r : String × ℕ). not (is_under directory r.0)) disk

-- which rows cannot be written, by id, and which directories cannot be removed
pub record CleanupFaults : Type 0 where
  pub save_fails : String → Bool
  pub remove_fails : String → Bool

abbrev archive_each : ℕ → CleanupFaults → List AgentSession → Sessions → ℕ × Sessions
archive_each now f [] t = (0, t)
archive_each now f (x ∷ xs) t =
    let t' = if f.save_fails x.id then t else archive_session now x.id t in
    let (n, t'') = archive_each now f xs t' in (if f.save_fails x.id then n else suc n, t'')

-- `none` is a duration that does not parse
unfoldable pub cleanup_idle_sessions : ℕ → Option ℕ → CleanupFaults → Sessions → Option ℕ × Sessions
cleanup_idle_sessions now none f t = (none, t)
cleanup_idle_sessions now (some idle_ttl) f t =
    let (n, t') = archive_each now f (list_idle_sessions_older_than (now - idle_ttl) t) t in
    (some n, t')

module _ (now : ℕ) (f : CleanupFaults) where
  -- the directory is removed, and the path of the row cleared
  abbrev pub cleared : AgentSession → Workspaces → Workspaces
  cleared x s = record {
    sessions =
        if f.save_fails x.id
        then s.sessions
        else update_session now (record x { workspace_path = "" }) s.sessions;
    disk = remove_all x.workspace_path s.disk;
  }

  abbrev pub is_expired : ℕ → AgentSession → Bool
  is_expired retention x =
      not (ltb now (x.last_active_at + retention))
      && not (str_eq x.workspace_path "")
      && not (f.remove_fails x.workspace_path)

  unfoldable pub clean_each : ℕ → List AgentSession → Workspaces → ℕ × Workspaces
  unfolding remove_all
  clean_each retention [] s = (0, s)
  clean_each retention (x ∷ xs) s =
      let takes = is_expired retention x in
      let (n, s') = clean_each retention xs (if takes then cleared x s else s) in
      (if takes then suc n else n, s')

  unfoldable pub cleanup_archived_workspaces : Option ℕ → Workspaces → Option ℕ × Workspaces
  unfolding clean_each
  cleanup_archived_workspaces none s = (none, s)
  cleanup_archived_workspaces (some retention) s =
      let (n, s') = clean_each retention (list_archived_sessions_with_workspace s.sessions) s in
      (some n, s')

  abbrev pub is_victim : ℕ → ℕ → AgentSession → Bool
  is_victim max current x =
      not (leb current max)
      && not (str_eq x.workspace_path "")
      && not (f.remove_fails x.workspace_path)

  -- The loop, with the size that is left: how many workspaces were removed, that size at the end, and the state.
  -- Once the size fits, no session is taken any more.
  unfoldable pub evict_each : ℕ → ℕ → List AgentSession → Workspaces → ℕ × ℕ × Workspaces
  unfolding remove_all dir_size
  evict_each max current [] s = (0, current, s)
  evict_each max current (x ∷ xs) s =
      let takes = is_victim max current x in
      let (n, left, s') =
        evict_each max (if takes then current - dir_size x.workspace_path s.disk else current) xs
          (if takes then cleared x s else s) in
      (if takes then suc n else n, left, s')

-- parseSize, after Sscanf, for sizes below 2 ^ 63
unfoldable pub parse_size : Option (ℕ × Text) → Option ℕ
parse_size none = none
parse_size (some (size, unit)) =
    if text_eq unit (codes "GB") || text_eq unit (codes "gb")
    then some (size * 1024 * 1024 * 1024)
    else if text_eq unit (codes "MB") || text_eq unit (codes "mb")
    then some (size * 1024 * 1024)
    else if text_eq unit (codes "KB") || text_eq unit (codes "kb")
    then some (size * 1024)
    else some size

-- the sum over the directories under sessions
unfoldable pub get_repo_workspace_size : Disk → List String → ℕ
unfolding dir_size
get_repo_workspace_size disk [] = 0
get_repo_workspace_size disk (d ∷ ds) = dir_size d disk + get_repo_workspace_size disk ds

abbrev pub enforce :
    ℕ → CleanupFaults → Option ℕ → Option (List String) → Workspaces → Option ℕ × Workspaces
enforce now f none directories s = (none, s)
enforce now f (some max) none s = (none, s)
enforce now f (some max) (some ds) s =
    let current = get_repo_workspace_size s.disk ds in
    let (n, left, s') =
      evict_each now f max current (list_archived_sessions_with_workspace s.sessions) s in
    if leb current max then (some 0, s) else (some n, s')

-- EnforceDiskLimit with a limit and a base directory set; `none` is an error
unfoldable pub enforce_disk_limit :
    ℕ
    → CleanupFaults
    → Option (ℕ × Text)
    → Option (List String)
    → Workspaces
    → Option ℕ × Workspaces
unfolding parse_size get_repo_workspace_size evict_each
enforce_disk_limit now f limit directories s = enforce now f (parse_size limit) directories s
