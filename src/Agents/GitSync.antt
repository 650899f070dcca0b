-- ===== src/Agents/GitSync.antt =====
-- The contract of a hub that pushes a draft branch: the names and records of
-- internal/agents/workspace_transport.go, and the choice of its branches. The lookup answers each
-- question alike however often it is asked, as its memory does.
pub mod Transport
pub mod Drafts
pub mod Approval
pub mod Blind
pub mod Footers
use matea.Base.{
  ℕ, zero, Text, codes, text_eq, is_empty, Bool, true, false, not, ◌&&◌, ◌||◌, Option, none, some,
  List, [], ◌∷◌, ◌++◌, ◌==◌, leb, has_prefix, trim_space, decimal, if◌then◌else◌,
}
use matea.Store.Types.{Task}
use matea.Gitea.PullRequest.{Object, pr_state, pr_head_ref, pr_head_sha, pr_base_ref}

abbrev pub draft_branch_prefix : Text
draft_branch_prefix = codes "matea/hub-"

unfoldable pub draft_branch_name : ℕ → Text
draft_branch_name task_id = draft_branch_prefix ++ decimal task_id

unfoldable pub required_footer : ℕ → Text
required_footer task_id = codes "matea-task-id: " ++ decimal task_id

unfoldable pub is_draft_branch : Text → Bool
is_draft_branch ref = has_prefix ref draft_branch_prefix

-- what a hub is given; the URL, the author and the key are left out
pub record GitSyncInfo : Type 0 where
  pub draft_branch : Text
  pub draft_branch_head : Text
  pub base_branch : Text
  pub base_head : Text
  pub anchor_head : Text
  pub required_footer : Text

-- what a hub reports back
pub record GitSyncResult : Type 0 where
  pub draft_branch : Text
  pub draft_head : Text

unfoldable pub anchor : GitSyncInfo → Text
anchor i = if not (is_empty i.anchor_head) then i.anchor_head else i.base_head

unfoldable pub continuation_anchor : Text → Text → Text
continuation_anchor session_last_head draft_branch_head =
    if not (is_empty session_last_head) then session_last_head else draft_branch_head

unfoldable pub effective_draft_branch : Text → Text → ℕ → Text
unfolding draft_branch_name
effective_draft_branch prepared anchor task_id =
    if is_empty prepared || text_eq prepared (draft_branch_name task_id)
    then prepared
    else if is_empty anchor
    then draft_branch_name task_id
    else prepared

-- prLookup: `repo` is the default branch of the repository
pub record Lookup : Type 0 where
  pub available : Bool
  pub pr : ℕ → Option Object
  pub repo : Option Text

-- conversationIDs (internal/agents/conversation.go)
unfoldable pub conversation_ids : Task → Bool → List ℕ
conversation_ids task pr_first =
    if leb task.pr_id 0 && leb task.issue_id 0
    then []
    else if leb task.pr_id 0
    then task.issue_id ∷ []
    else if leb task.issue_id 0
    then task.pr_id ∷ []
    else if task.pr_id == task.issue_id
    then task.pr_id ∷ []
    else if pr_first
    then task.pr_id ∷ task.issue_id ∷ []
    else task.issue_id ∷ task.pr_id ∷ []

-- draftBranchChoice: the empty branch asks for a fresh one
pub record DraftBranchChoice : Type 0 where
  pub branch : Text
  pub head : Text

abbrev pub fresh : DraftBranchChoice
fresh = record { branch = []; head = [] }

-- the branch of an open pull request, from its state, head and tip
abbrev pub draft_of : Option Text → Option Text → Option Text → Option DraftBranchChoice
draft_of (some state) (some head) (some sha) =
    if not (text_eq state (codes "open")) || not (is_draft_branch head)
    then none
    else some (record { branch = head; head = sha })
draft_of _ _ _ = none

-- the body of the loop; `none` goes on to the next id
unfoldable pub draft_of_pr : Option Object → Option DraftBranchChoice
unfolding is_draft_branch
draft_of_pr none = none
draft_of_pr (some pr) = draft_of (pr_state pr) (pr_head_ref pr) (pr_head_sha pr)

abbrev pub or_else : Option DraftBranchChoice → DraftBranchChoice → DraftBranchChoice
or_else none c = c
or_else (some c) _ = c

abbrev pub first_draft : Lookup → List ℕ → DraftBranchChoice
first_draft lookup [] = fresh
first_draft lookup (id ∷ ids) = or_else (draft_of_pr (lookup.pr id)) (first_draft lookup ids)

unfoldable pub resolve_git_sync_draft_branch : Lookup → Task → DraftBranchChoice
unfolding conversation_ids draft_of_pr
resolve_git_sync_draft_branch lookup task =
    if lookup.available then first_draft lookup (conversation_ids task true) else fresh

-- a branch that a draft may be merged into
abbrev pub usable : Text → Bool
usable ref = not (is_empty ref) && not (is_draft_branch ref)

abbrev pub base_of_pr : Option Object → Option Text
base_of_pr none = none
base_of_pr (some pr) = elim (pr_base_ref pr) [
  | none ↦ none
  | some ref ↦ if is_draft_branch ref then none else some ref
]

abbrev pub base_of_repo : Option Text → Option Text
base_of_repo none = none
base_of_repo (some default_branch) =
    let b = trim_space default_branch in if usable b then some b else none

abbrev pub or_branch : Option Text → Option Text → Option Text
or_branch none o = o
or_branch (some b) _ = some b

unfoldable pub resolve_git_sync_base_branch : Lookup → Task → Text → Option Text
unfolding is_draft_branch
resolve_git_sync_base_branch lookup task repo_default =
    or_branch
      (if lookup.available && not (leb task.pr_id 0)
        then base_of_pr (lookup.pr task.pr_id)
        else none)
      (or_branch (base_of_repo (some repo_default))
        (if lookup.available then base_of_repo lookup.repo else none))
