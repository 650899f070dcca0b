-- ===== src/Agents/GitSync/Transport.antt =====
-- The transport git_sync of internal/agents/workspace_transport.go: Prepare, the evidence that Approve
-- fetches, and its validation. What the Gitea server and git answer are arguments. The texts of errors, the
-- temporary directory and the opening of the pull request are left out.
use matea.Base.{
  ◌⊎◌, inl, inr, ℕ, suc, Text, text_eq, is_empty, contains, Bool, true, false, not, ◌&&◌, ◌||◌,
  Option, none, some, List, [], ◌∷◌, map, select, length, split_on, trim_space, if◌then◌else◌,
}
use matea.Store.Types.{Task}
use matea.Gitea.PullRequest.{Object}
use matea.Agents.DiffPolicy.{DiffPolicy, violations}
use matea.Agents.GitSync.{
  GitSyncInfo, GitSyncResult, Lookup, anchor, draft_branch_name, required_footer,
  resolve_git_sync_base_branch, resolve_git_sync_draft_branch, DraftBranchChoice,
}

pub record RepoInfo : Type 0 where
  pub ssh_url : Text
  pub default_branch : Text

-- what Prepare meets: the issuer and the client, the repository, its pull requests, the heads of its branches
-- and the id of the key that is issued; `none` is an error
pub record Server : Type 0 where
  pub has_issuer : Bool
  pub has_client : Bool
  pub repo : Option RepoInfo
  pub pr : ℕ → Option Object
  pub branch_head : Text → Option Text
  pub issue_key : Option ℕ

abbrev pub lookup_of : Server → RepoInfo → Lookup
lookup_of g repo = record { available = true; pr = g.pr; repo = some repo.default_branch }

abbrev pub chosen : Task → DraftBranchChoice → Text
chosen task choice = if is_empty choice.branch then draft_branch_name task.id else choice.branch

abbrev pub prepared_info : Task → DraftBranchChoice → Text → Text → GitSyncInfo
prepared_info task choice base head = record {
  draft_branch = chosen task choice;
  draft_branch_head = choice.head;
  base_branch = base;
  base_head = head;
  anchor_head = [];
  required_footer = required_footer task.id;
}

unfoldable pub prepare_in : Server → Task → RepoInfo → Option (GitSyncInfo × ℕ)
prepare_in g task repo =
    if is_empty repo.ssh_url
    then none
    else elim (resolve_git_sync_base_branch (lookup_of g repo) task repo.default_branch) [
      | none ↦ none
      | some base ↦ elim (g.branch_head base) [
        | none ↦ none
        | some head ↦ elim g.issue_key [
          | none ↦ none
          | some key ↦ some (
            prepared_info task (resolve_git_sync_draft_branch (lookup_of g repo) task) base head,
            key,
          )
        ]
      ]
    ]

unfoldable pub prepare : Server → Task → Option (GitSyncInfo × ℕ)
unfolding prepare_in
prepare g task =
    if not g.has_issuer || not g.has_client
    then none
    else elim g.repo [ none ↦ none | some repo ↦ prepare_in g task repo ]

pub record FetchedDraft : Type 0 where
  pub draft_head : Text
  pub base_head : Text
  pub is_ancestor : Bool
  pub new_commit_msgs : List Text
  pub changed_paths : List Text
  pub started_from_base : Bool
  pub merge_base : Text

-- the answers of git, `none` and `false` where a command fails: of fetching the draft, of rev-parse, of fetching
-- and parsing the base, of merge-base, of log and of diff
pub record GitAnswers : Type 0 where
  pub set_up : Bool
  pub fetches_draft : Bool
  pub draft_rev : Option Text
  pub base_rev : Option Text
  pub anchor_is_ancestor : Bool
  pub base_is_ancestor : Bool
  pub common_base : Option Text
  pub log : Option Text
  pub diff : Option Text

abbrev pub trimmed_or_empty : Option Text → Text
trimmed_or_empty none = []
trimmed_or_empty (some t) = trim_space t

-- the parts of the log between its NUL characters that are not blank
abbrev pub messages_of : Option Text → List Text
messages_of none = []
messages_of (some logs) = select (λ (m : Text). not (is_empty (trim_space m))) (split_on 0 logs)

abbrev pub paths_of : Option Text → List Text
paths_of none = []
paths_of (some names) = select (λ (n : Text). not (is_empty n)) (map trim_space (split_on 10 names))

abbrev pub not_pushed : FetchedDraft
not_pushed = record {
  draft_head = [];
  base_head = [];
  is_ancestor = false;
  new_commit_msgs = [];
  changed_paths = [];
  started_from_base = false;
  merge_base = [];
}

abbrev pub evidence : GitAnswers → GitSyncInfo → Text → FetchedDraft
evidence a info head = record {
  draft_head = trim_space head;
  base_head = trimmed_or_empty a.base_rev;
  is_ancestor = a.anchor_is_ancestor;
  new_commit_msgs = if a.anchor_is_ancestor then messages_of a.log else [];
  changed_paths = if a.anchor_is_ancestor then paths_of a.diff else [];
  started_from_base = not (is_empty info.base_head) && a.base_is_ancestor;
  merge_base = if is_empty (anchor info) then [] else trimmed_or_empty a.common_base;
}

-- `none` is an error
unfoldable pub fetch_draft : GitAnswers → GitSyncInfo → Option FetchedDraft
fetch_draft a info =
    if not a.set_up
    then none
    else if not a.fetches_draft
    then some not_pushed
    else elim a.draft_rev [ none ↦ none | some head ↦ some (evidence a info head) ]

pub data DraftError : Type 0 where
  no_result wrong_branch not_found head_mismatch no_new_commits started_from_base no_shared_history
        not_descended base_drifted no_commits not_fetched no_client :
      DraftError
  lacks_footer : ℕ → ℕ → DraftError
  diff_policy_violation : List Text → DraftError

-- the position of the first message without the footer, counted from `i`
unfoldable pub unsigned : ℕ → Text → List Text → Option ℕ
unsigned i footer [] = none
unsigned i footer (m ∷ msgs) =
    let rest = unsigned (suc i) footer msgs in if contains m footer then rest else some i

module _ (matches : Text → Text → Bool) (base_name : Text → Text) where
  -- elements 3 and 4
  abbrev pub check_paths : List Text → Option DraftError
  check_paths [] = none
  check_paths (p ∷ bad) = some (diff_policy_violation (p ∷ bad))

  abbrev pub check_footers : Option ℕ → DiffPolicy → FetchedDraft → Option DraftError
  check_footers (some i) policy fetched = some (lacks_footer i (length fetched.new_commit_msgs))
  check_footers none policy fetched =
      check_paths (violations matches base_name policy fetched.changed_paths)

  abbrev pub check_messages :
      GitSyncInfo → FetchedDraft → DiffPolicy → List Text → Option DraftError
  check_messages info fetched policy [] = some no_commits
  check_messages info fetched policy (m ∷ msgs) =
      check_footers (unsigned 1 info.required_footer (m ∷ msgs)) policy fetched

  abbrev pub check_contents : GitSyncInfo → FetchedDraft → DiffPolicy → Option DraftError
  check_contents info fetched policy = check_messages info fetched policy fetched.new_commit_msgs

  -- why a draft does not descend from the anchor
  abbrev pub wrong_start : FetchedDraft → DraftError
  wrong_start fetched =
      if fetched.started_from_base
      then started_from_base
      else if is_empty fetched.merge_base
      then no_shared_history
      else not_descended

  abbrev pub validate_result :
      GitSyncInfo → GitSyncResult → FetchedDraft → DiffPolicy → Option DraftError
  validate_result info result fetched policy =
      if is_empty result.draft_branch
      then some no_result
      else if not (text_eq result.draft_branch info.draft_branch)
      then some wrong_branch
      else if is_empty fetched.draft_head
      then some not_found
      else if not (is_empty result.draft_head) && not (text_eq result.draft_head fetched.draft_head)
      then some head_mismatch
      else if text_eq fetched.draft_head (anchor info)
      then some no_new_commits
      else if not fetched.is_ancestor
      then some (wrong_start fetched)
      else if not (is_empty fetched.base_head) && not (text_eq fetched.base_head info.base_head)
      then some base_drifted
      else check_contents info fetched policy

  -- `none` is no error
  unfoldable pub validate_git_sync_draft :
      GitSyncInfo → Option GitSyncResult → FetchedDraft → DiffPolicy → Option DraftError
  unfolding unsigned
  validate_git_sync_draft info none fetched policy = some no_result
  validate_git_sync_draft info (some result) fetched policy =
      validate_result info result fetched policy

  -- Approve up to the opening of the pull request: the error, or the head that was fetched
  unfoldable pub approve :
      Bool → GitAnswers → GitSyncInfo → GitSyncResult → DiffPolicy → DraftError ⊎ Text
  unfolding fetch_draft validate_git_sync_draft
  approve has_client a info result policy =
      if not has_client then inl no_client else elim (fetch_draft a info) [
        | none ↦ inl not_fetched
        | some fetched ↦ elim (validate_git_sync_draft info (some result) fetched policy) [
          | some e ↦ inl e
          | none ↦ inr fetched.draft_head
        ]
      ]
