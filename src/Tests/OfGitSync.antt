-- ===== src/Tests/OfGitSync.antt =====
-- Draft branches of hubs and their keys: internal/agents/workspace_transport.go and gitsync_sweep.go.
use matea.Base.{Text, codes, true, false, none, some, [], ◌∷◌, ◌≡◌, ◌↔◌, All, refl, text_eq, arith}
use matea.Store.Types.{Task}
use matea.Gitea.PullRequest.{Json, Object, pr_string}
use matea.Store.Tasks.{Tasks, get_task}
use matea.Store.Handles.{HubStatus, Handles, has_non_terminal_hub_handle}
use matea.Base.Decimals.{decimal}
use matea.Agents.DiffPolicy.{DiffPolicy, violations, diff_pattern_matches, is_recursive}
use matea.Agents.GitSync.{
  GitSyncInfo, GitSyncResult, is_draft_branch, effective_draft_branch, required_footer,
  resolve_git_sync_draft_branch, resolve_git_sync_base_branch, conversation_ids, draft_of_pr,
  anchor,
}
use matea.Agents.GitSync.Transport.{
  Server, GitAnswers, FetchedDraft, prepare, prepare_in, unsigned, validate_git_sync_draft,
}
use matea.Agents.GitSync.Drafts.{IsScoped, prepare-IsScoped}
use matea.Agents.GitSync.Approval.{IsSound, validate_git_sync_draft_iff}
use matea.Agents.GitSync.Footers.{foreign_footers-pass}
use matea.Agents.KeySweep.{
  SweepAnswers, deploy_key_title, deploy_key_task_id, sweep_orphaned_deploy_keys,
}
use matea.Agents.KeySweep.Spares.{
  IsOther, deploy_key_task_id-deploy_key_title, sweep_orphaned_deploy_keys-IsOther,
}
use matea.Tests.Samples.{task_1}

abbrev open_pr : Object
open_pr = Object.field (codes "state") (Json.text (codes "open")) (
    Object.field (codes "head")
      (Json.object (
        Object.field (codes "sha") (Json.text (codes "c0ffee"))
          (Object.field (codes "ref") (Json.text (codes "matea/hub-14")) Object.empty)))
      (Object.field (codes "base")
        (Json.object (Object.field (codes "ref") (Json.text (codes "main")) Object.empty))
        Object.empty))

abbrev server : Server
server = record {
  has_issuer = true;
  has_client = true;
  repo = some (record { ssh_url = codes "git@host:o/r.git"; default_branch = codes "main" });
  pr = λ id. some open_pr;
  branch_head = λ name. some (codes "beef");
  issue_key = some 31;
}

-- a task on the pull request 9, whose head is the draft branch of the task 14
abbrev on_pr : Task
on_pr = record task_1 { id = 17; repo = "acme/app"; issue_id = 9; pr_id = 9 }

abbrev info : GitSyncInfo
info = record {
  draft_branch = codes "matea/hub-14";
  draft_branch_head = codes "c0ffee";
  base_branch = codes "main";
  base_head = codes "beef";
  anchor_head = [];
  required_footer = required_footer 17;
}

prepared_on_pr : prepare server on_pr ≡ some (info, 31)
unfolding prepare prepare_in resolve_git_sync_base_branch resolve_git_sync_draft_branch
    conversation_ids draft_of_pr pr_string is_draft_branch required_footer
prepared_on_pr = refl

prepare-IsScoped_example :
    IsScoped info
    × (is_draft_branch (effective_draft_branch info.draft_branch (codes "c0ffee") 17) ≡ true)
prepare-IsScoped_example = prepare-IsScoped server on_pr info 31 (codes "c0ffee") prepared_on_pr

abbrev report : GitSyncResult
report = record { draft_branch = codes "matea/hub-14"; draft_head = codes "f00d" }

-- two signed commits on top of the base
abbrev fetched : FetchedDraft
fetched = record {
  draft_head = codes "f00d";
  base_head = codes "beef";
  is_ancestor = true;
  new_commit_msgs = codes "fix\nmatea-task-id: 17" ∷ codes "test\nmatea-task-id: 17" ∷ [];
  changed_paths = codes "src/main.go" ∷ [];
  started_from_base = true;
  merge_base = codes "beef";
}

abbrev same_name : Text → Text
same_name p = p

abbrev policy : DiffPolicy
policy = record { allowed = []; denied = [] }

validate_git_sync_draft_iff_example :
    (validate_git_sync_draft text_eq same_name info (some report) fetched policy ≡ none)
    ↔ IsSound text_eq same_name info report fetched policy
validate_git_sync_draft_iff_example =
    validate_git_sync_draft_iff text_eq same_name info report fetched policy

accepted : validate_git_sync_draft text_eq same_name info (some report) fetched policy ≡ none
unfolding validate_git_sync_draft unsigned required_footer violations diff_pattern_matches
    is_recursive anchor decimal
accepted = refl

foreign_footers-pass_example :
    unsigned 1 (required_footer 1) (codes "x\nmatea-task-id: 14" ∷ []) ≡ none
unfolding required_footer decimal
foreign_footers-pass_example =
    foreign_footers-pass 1 4 1 (codes "x\nmatea-task-id: 14" ∷ []) (omega arith) (omega arith)
      (refl, tt)

-- git answers, but for the list of the changed paths
abbrev answers : GitAnswers
answers = record {
  set_up = true;
  fetches_draft = true;
  draft_rev = some (codes "f00d");
  base_rev = some (codes "beef");
  anchor_is_ancestor = true;
  base_is_ancestor = true;
  common_base = some (codes "beef");
  log = some (codes "fix matea-task-id: 17");
  diff = none;
}

abbrev nothing_but_docs : DiffPolicy
nothing_but_docs = record { allowed = codes "docs/*" ∷ []; denied = [] }

-- the task 17 has a handle that still runs, and its key is on the server beside an orphan
abbrev tasks : Tasks
tasks = record { rows = on_pr ∷ []; next_id = 18 }

abbrev handles : Handles
handles =
    record {
      task_id = 17;
      backend = "hermes";
      remote_id = "r1";
      idempotency_key = "k";
      status = HubStatus.running;
      draft_branch = codes "matea/hub-14";
      base_branch = codes "main";
      base_head = codes "beef";
      anchor_head = [];
      deploy_key_id = 31;
      created_at = 5;
      updated_at = 5;
    }
    ∷ []

abbrev sweep : SweepAnswers
sweep = record {
  repos_fail = false;
  ids_fail = λ repo. false;
  keys = λ repo. some (
      record { id = 31; title = deploy_key_title 17; created_at = some 5 }
      ∷ record { id = 30; title = deploy_key_title 16; created_at = some 4 }
      ∷ []);
  revoke_fails = λ repo id. false;
}

deploy_key_task_id-deploy_key_title_example : deploy_key_task_id (deploy_key_title 17) ≡ some 17
deploy_key_task_id-deploy_key_title_example =
    deploy_key_task_id-deploy_key_title 17 (omega arith) (omega arith)

sweep_orphaned_deploy_keys-IsOther_example :
    All (IsOther 17 "acme/app") (sweep_orphaned_deploy_keys 100 30 sweep tasks handles).1
unfolding has_non_terminal_hub_handle get_task
sweep_orphaned_deploy_keys-IsOther_example =
    sweep_orphaned_deploy_keys-IsOther 100 30 sweep 17 "acme/app" tasks handles refl refl
      (omega arith) (omega arith)
