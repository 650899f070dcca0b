-- ===== src/Agents/HubRun.antt =====
-- runViaHub of internal/agents/hub_run.go: a task that a hub executes. The hub, the transport of the workspace
-- and what they answer are arguments. A poll loop meets a list of answers; at its end the context of the loop
-- is done, which its timeout brings about. The texts of errors, the conversation log, the memory of the session
-- and the delivery of events are left out.
pub mod Settles
pub mod Retries
use matea.Base.{
  Text, text_eq, is_empty, ℕ, suc, ◌+◌, String, Bool, true, false, not, ◌&&◌, Option, none, some,
  List, [], ◌∷◌, ◌==◌, str_eq, if◌then◌else◌,
}
use matea.Agents.GitSync.{GitSyncInfo, continuation_anchor, effective_draft_branch, required_footer}
use matea.Store.Handles.{
  HubStatus, HubHandle, Handles, is_terminal_hub_status, get_hub_handle, save_hub_handle,
  update_hub_handle_status,
}

-- what Submit returns
pub record Handle : Type 0 where
  pub backend : String
  pub remote_id : String
  pub idempotency_key : String

-- an answer of Poll: still running, an error while the context lives, or a terminal state
pub data Poll : Type 0 where
  running broken failed canceled done : Poll

pub record HubRun : Type 0 where
  pub task_id : ℕ
  -- a write task whose backend has the transport git_sync
  pub write_via_git_sync : Bool
  pub lookup_fails : Bool
  -- `none` is an error; the number is the deploy key
  pub prepare : Option (GitSyncInfo × ℕ)
  pub session_last_head : Text
  pub resolve_base : Option Text
  pub submit : Option Handle
  pub save_fails : Bool
  -- the handle cannot be marked as ended, which is only logged
  pub mark_fails : Bool
  pub polls : List Poll
  pub approves : Bool

pub data HubEnd : Type 0 where
  prepare_failed base_unresolved submit_failed : HubEnd
  reported_failure reported_cancel no_prepare_state approve_failed poll_failed aborted : HubEnd
  approved commented : HubEnd

-- the handles, the number of submissions and of Cancel calls, and the deploy keys that were revoked
pub record HubState : Type 0 where
  pub handles : Handles
  pub submits : ℕ
  pub cancels : ℕ
  pub revoked : List ℕ

-- the handle that a run takes up again
abbrev pub live_or_none : Option HubHandle → Option HubHandle
live_or_none none = none
live_or_none (some h) = if is_terminal_hub_status h.status then none else some h

module _ (now : ℕ) (c : HubRun) where
  abbrev pub persisted : HubState → Option HubHandle
  persisted s = if c.lookup_fails then none else live_or_none (get_hub_handle c.task_id s.handles)

  -- after Prepare
  unfoldable pub anchored : GitSyncInfo → GitSyncInfo
  unfolding continuation_anchor effective_draft_branch
  anchored info =
      let anchor = continuation_anchor c.session_last_head info.draft_branch_head in
      let settled = effective_draft_branch info.draft_branch anchor c.task_id in
      record info {
        anchor_head = if is_empty anchor then info.anchor_head else anchor;
        draft_branch = settled;
        draft_branch_head =
            if text_eq settled info.draft_branch then info.draft_branch_head else [];
      }

  abbrev pub row_of : Handle → Option GitSyncInfo → ℕ → HubHandle
  row_of h none key = record {
    task_id = c.task_id;
    backend = h.backend;
    remote_id = h.remote_id;
    idempotency_key = h.idempotency_key;
    status = HubStatus.running;
    draft_branch = [];
    base_branch = [];
    base_head = [];
    anchor_head = [];
    deploy_key_id = key;
    created_at = 0;
    updated_at = 0;
  }
  row_of h (some info) key = record {
    task_id = c.task_id;
    backend = h.backend;
    remote_id = h.remote_id;
    idempotency_key = h.idempotency_key;
    status = HubStatus.running;
    draft_branch = info.draft_branch;
    base_branch = info.base_branch;
    base_head = info.base_head;
    anchor_head = info.anchor_head;
    deploy_key_id = key;
    created_at = 0;
    updated_at = 0;
  }

  -- key 0: no key was issued
  unfoldable pub cleanup_git_sync_key : ℕ → HubState → HubState
  cleanup_git_sync_key key s = if key == 0 then s else record s { revoked = key ∷ s.revoked }

  unfoldable pub mark_hub_handle_terminal : HubStatus → HubState → HubState
  mark_hub_handle_terminal status s =
      if c.mark_fails
      then s
      else record s { handles = update_hub_handle_status now c.task_id status s.handles }

  unfoldable pub abort_hub_run : HubState → HubState
  unfolding mark_hub_handle_terminal
  abort_hub_run s =
      mark_hub_handle_terminal HubStatus.canceled (record s { cancels = suc s.cancels })

  abbrev pub end_with : HubStatus → ℕ → HubEnd → HubState → HubEnd × HubState
  end_with status key end s = (end, cleanup_git_sync_key key (mark_hub_handle_terminal status s))

  -- StateDone
  abbrev pub finish : Option GitSyncInfo → ℕ → HubState → HubEnd × HubState
  finish none key s =
      if c.write_via_git_sync
      then end_with HubStatus.failed key no_prepare_state s
      else (commented, mark_hub_handle_terminal HubStatus.done s)
  finish (some info) key s =
      if c.approves
      then end_with HubStatus.done key approved s
      else end_with HubStatus.failed key approve_failed s

  unfoldable pub poll_all : Option GitSyncInfo → ℕ → List Poll → HubState → HubEnd × HubState
  unfolding cleanup_git_sync_key mark_hub_handle_terminal abort_hub_run
  poll_all info key [] s = (aborted, abort_hub_run (cleanup_git_sync_key key s))
  poll_all info key (Poll.running ∷ polls) s = poll_all info key polls s
  poll_all info key (Poll.broken ∷ polls) s = (poll_failed, s)
  poll_all info key (Poll.failed ∷ polls) s = end_with HubStatus.failed key reported_failure s
  poll_all info key (Poll.canceled ∷ polls) s = end_with HubStatus.canceled key reported_cancel s
  poll_all info key (Poll.done ∷ polls) s = finish info key s

  abbrev pub save_row : HubHandle → HubState → HubState
  save_row row s =
      if c.save_fails then s else record s { handles = save_hub_handle now row s.handles }

  -- no handle is taken up: submit, save, poll
  abbrev pub submitted : Option Handle → Option GitSyncInfo → ℕ → HubState → HubEnd × HubState
  submitted none info key s = (submit_failed, cleanup_git_sync_key key s)
  submitted (some h) info key s =
      poll_all info key c.polls
        (save_row (row_of h info key) (record s { submits = suc s.submits }))

  abbrev pub prepared : Option (GitSyncInfo × ℕ) → HubState → HubEnd × HubState
  prepared none s = (prepare_failed, s)
  prepared (some (info, key)) s = submitted c.submit (some (anchored info)) key s

  abbrev pub info_of : HubHandle → Text → GitSyncInfo
  info_of row base = record {
    draft_branch = row.draft_branch;
    draft_branch_head = [];
    base_branch = base;
    base_head = row.base_head;
    anchor_head = row.anchor_head;
    required_footer = required_footer c.task_id;
  }

  abbrev pub with_base : HubHandle → Option Text → HubState → HubEnd × HubState
  with_base row none s = (base_unresolved, s)
  with_base row (some base) s = poll_all (some (info_of row base)) row.deploy_key_id c.polls s

  abbrev pub reattached : HubHandle → HubState → HubEnd × HubState
  reattached row s =
      if c.write_via_git_sync && not (is_empty row.draft_branch)
      then with_base row (if is_empty row.base_branch then c.resolve_base else some row.base_branch)
          s
      else poll_all none 0 c.polls s

  abbrev pub entered : Option HubHandle → HubState → HubEnd × HubState
  entered none s =
      if c.write_via_git_sync then prepared c.prepare s else submitted c.submit none 0 s
  entered (some row) s = reattached row s

  unfoldable pub run_via_hub : HubState → HubEnd × HubState
  unfolding anchored poll_all
  run_via_hub s = entered (persisted s) s
