-- ===== src/Agents/HubRun/Settles.antt =====
-- How a run through a hub ends, and what a retry does (internal/agents/hub_run.go).
use matea.Base.{
  Text, is_empty, ℕ, suc, Bool, true, false, not, ◌&&◌, Option, none, some, List, [], ◌∷◌, ◌≡◌, ◌⊎◌,
  inl, inr, refl, ◌∙◌, ap, arith, ◌==◌, Bool-cases, if◌then◌else◌,
}
use matea.Store.Handles.{
  HubStatus, HubHandle, Handles, is_terminal_hub_status, update_hub_handle_status,
  has_non_terminal_hub_handle,
}
use matea.Agents.GitSync.{GitSyncInfo}
use matea.Agents.HubRun.{
  HubRun, HubState, HubEnd, no_prepare_state, approve_failed, approved, reported_failure,
  reported_cancel, end_with, prepare_failed, base_unresolved, submit_failed, poll_failed, Handle,
  Poll, persisted, anchored, poll_all, cleanup_git_sync_key, mark_hub_handle_terminal,
  abort_hub_run, submitted, prepared, with_base, entered, run_via_hub, finish,
}

update-settles :
    (now id : ℕ) (status : HubStatus) (t : Handles)
    → is_terminal_hub_status status ≡ true
    → has_non_terminal_hub_handle id (update_hub_handle_status now id status t) ≡ false
unfolding has_non_terminal_hub_handle update_hub_handle_status is_terminal_hub_status
update-settles now id status [] h = refl
update-settles now id status (r ∷ t) h = elim (Bool-cases (r.task_id == id)) [
  | inl e ↦ rw (e, h) (update-settles now id status t h)
  | inr e ↦ rw e (ground (arith, e, update-settles now id status t h))
]

-- a property of both branches
pub if-both {ℓ κ} :
    {A : Type ℓ} (P : A → Type κ) (b : Bool) (x y : A) → P x → P y → P (if b then x else y)
if-both P true x y px py = px
if-both P false x y px py = py

module _ (now : ℕ) (c : HubRun) where
  -- the ends before the loop of polls, and the one that leaves the hub running
  abbrev pub is_unsettled : HubEnd → Bool
  is_unsettled prepare_failed = true
  is_unsettled base_unresolved = true
  is_unsettled submit_failed = true
  is_unsettled poll_failed = true
  is_unsettled _ = false

  abbrev pub IsSettled : HubEnd × HubState → Type 0
  IsSettled r =
      (is_unsettled r.0 ≡ true) ⊎ (has_non_terminal_hub_handle c.task_id r.1.handles ≡ false)

  cleanup-handles :
      (key : ℕ) (s : HubState) → (cleanup_git_sync_key now c key s).handles ≡ s.handles
  unfolding cleanup_git_sync_key
  cleanup-handles key s = elim (Bool-cases (key == 0)) [ inl e ↦ rw e refl | inr e ↦ rw e refl ]

  pub cleanup-submits :
      (key : ℕ) (s : HubState) → (cleanup_git_sync_key now c key s).submits ≡ s.submits
  unfolding cleanup_git_sync_key
  cleanup-submits key s = elim (Bool-cases (key == 0)) [ inl e ↦ rw e refl | inr e ↦ rw e refl ]

  pub mark-submits :
      (status : HubStatus) (s : HubState)
      → (mark_hub_handle_terminal now c status s).submits ≡ s.submits
  unfolding mark_hub_handle_terminal
  mark-submits status s = elim (Bool-cases c.mark_fails) [ inl e ↦ rw e refl | inr e ↦ rw e refl ]

module _ (now : ℕ) (c : HubRun) (marks : c.mark_fails ≡ false) where
  mark-settles :
      (status : HubStatus) (s : HubState)
      → is_terminal_hub_status status ≡ true
      → has_non_terminal_hub_handle c.task_id (mark_hub_handle_terminal now c status s).handles
        ≡ false
  unfolding mark_hub_handle_terminal
  mark-settles status s h = rw marks (update-settles now c.task_id status s.handles h)

  end_with-IsSettled :
      (status : HubStatus) (key : ℕ) (end : HubEnd) (s : HubState)
      → is_terminal_hub_status status ≡ true
      → IsSettled now c (end_with now c status key end s)
  end_with-IsSettled status key end s h = inr (
      ap (has_non_terminal_hub_handle c.task_id)
        (cleanup-handles now c key (mark_hub_handle_terminal now c status s))
      ∙ mark-settles status s h)

  finish-IsSettled :
      (info : Option GitSyncInfo) (key : ℕ) (s : HubState)
      → IsSettled now c (finish now c info key s)
  unfolding is_terminal_hub_status
  finish-IsSettled none key s =
      if-both (IsSettled now c) c.write_via_git_sync _ _
        (end_with-IsSettled HubStatus.failed key no_prepare_state s refl)
        (inr (mark-settles HubStatus.done s refl))
  finish-IsSettled (some info) key s =
      if-both (IsSettled now c) c.approves _ _
        (end_with-IsSettled HubStatus.done key approved s refl)
        (end_with-IsSettled HubStatus.failed key approve_failed s refl)

  poll_all-IsSettled :
      (info : Option GitSyncInfo) (key : ℕ) (polls : List Poll) (s : HubState)
      → IsSettled now c (poll_all now c info key polls s)
  unfolding poll_all abort_hub_run is_terminal_hub_status
  poll_all-IsSettled info key [] s = inr (
      mark-settles HubStatus.canceled
        (record (cleanup_git_sync_key now c key s) {
          cancels = suc (cleanup_git_sync_key now c key s).cancels;
        })
        refl)
  poll_all-IsSettled info key (Poll.running ∷ polls) s = poll_all-IsSettled info key polls s
  poll_all-IsSettled info key (Poll.broken ∷ polls) s = inl refl
  poll_all-IsSettled info key (Poll.failed ∷ polls) s =
      end_with-IsSettled HubStatus.failed key reported_failure s refl
  poll_all-IsSettled info key (Poll.canceled ∷ polls) s =
      end_with-IsSettled HubStatus.canceled key reported_cancel s refl
  poll_all-IsSettled info key (Poll.done ∷ polls) s = finish-IsSettled info key s

  submitted-IsSettled :
      (h : Option Handle) (info : Option GitSyncInfo) (key : ℕ) (s : HubState)
      → IsSettled now c (submitted now c h info key s)
  submitted-IsSettled none info key s = inl refl
  submitted-IsSettled (some h) info key s = poll_all-IsSettled info key c.polls _

  prepared-IsSettled :
      (p : Option (GitSyncInfo × ℕ)) (s : HubState) → IsSettled now c (prepared now c p s)
  prepared-IsSettled none s = inl refl
  prepared-IsSettled (some (info, key)) s =
      submitted-IsSettled c.submit (some (anchored now c info)) key s

  with_base-IsSettled :
      (row : HubHandle) (base : Option Text) (s : HubState)
      → IsSettled now c (with_base now c row base s)
  with_base-IsSettled row none s = inl refl
  with_base-IsSettled row (some base) s = poll_all-IsSettled _ row.deploy_key_id c.polls s

  entered-IsSettled : (h : Option HubHandle) (s : HubState) → IsSettled now c (entered now c h s)
  entered-IsSettled none s =
      if-both (IsSettled now c) c.write_via_git_sync _ _ (prepared-IsSettled c.prepare s)
        (submitted-IsSettled c.submit none 0 s)
  entered-IsSettled (some row) s =
      if-both (IsSettled now c) (c.write_via_git_sync && not (is_empty row.draft_branch)) _ _
        (with_base-IsSettled row
          (if is_empty row.base_branch then c.resolve_base else some row.base_branch) s)
        (poll_all-IsSettled none 0 c.polls s)

  -- A run that polls the hub, and that can mark the handle of its task as ended, leaves no live handle of the
  -- task, unless a poll fails while the context lives, whatever the hub answers and however long it runs.
  pub run_via_hub-IsSettled : (s : HubState) → IsSettled now c (run_via_hub now c s)
  unfolding run_via_hub
  run_via_hub-IsSettled s = entered-IsSettled (persisted now c s) s
