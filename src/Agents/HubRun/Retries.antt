-- ===== src/Agents/HubRun/Retries.antt =====
-- A retry after a failed poll takes the run up again (internal/agents/hub_run.go).
use matea.Base.{
  Text, is_empty, ℕ, suc, Bool, true, false, not, ◌&&◌, Option, none, some, List, [], ◌∷◌, ◌≡◌, inl,
  inr, refl, sym, ◌∙◌, ap, subst, ◌==◌, ==_refl, Bool-cases, if◌then◌else◌,
}
use matea.Store.Handles.{
  HubHandle, Handles, is_terminal_hub_status, status_or_running, get_hub_handle, save_hub_handle,
}
use matea.Agents.GitSync.{GitSyncInfo}
use matea.Agents.HubRun.{
  HubRun, HubState, HubEnd, poll_failed, Handle, Poll, live_or_none, persisted, anchored, row_of,
  poll_all, mark_hub_handle_terminal, abort_hub_run, save_row, submitted, prepared, with_base,
  reattached, entered, run_via_hub, finish,
}
use matea.Agents.HubRun.Settles.{if-both, cleanup-submits, mark-submits}

unless-some {ℓ} :
    {A : Type ℓ} (b : Bool) (x : Option A) (a : A) → (if b then none else x) ≡ some a → x ≡ some a
unless-some true x a e = absurd (cc e)
unless-some false x a e = e

unless-false {ℓ} : {A : Type ℓ} (b : Bool) (x : Option A) → b ≡ false → (if b then none else x) ≡ x
unless-false true x e = absurd (cc e)
unless-false false x e = refl

get-save :
    (now : ℕ) (row : HubHandle) (t : Handles)
    → get_hub_handle row.task_id (save_hub_handle now row t)
      ≡ some
          (record row { status = status_or_running row.status; created_at = now; updated_at = now })
unfolding get_hub_handle save_hub_handle
get-save now row [] = rw (==_refl row.task_id) refl
get-save now row (r ∷ t) = elim (Bool-cases (r.task_id == row.task_id)) [
  | inl e ↦ rw e (get-save now row t)
  | inr e ↦ rw (e, e) (get-save now row t)
]

module _ (now : ℕ) (c : HubRun) where
  -- nothing is submitted; where the end is a failed poll, nothing has changed at all
  abbrev pub IsQuiet : HubState → HubEnd × HubState → Type 0
  IsQuiet s r = (r.1.submits ≡ s.submits) × (r.0 ≡ poll_failed → r.1 ≡ s)

  finish-IsQuiet :
      (info : Option GitSyncInfo) (key : ℕ) (s : HubState) → IsQuiet s (finish now c info key s)
  unfolding mark_hub_handle_terminal
  finish-IsQuiet none key s =
      if-both (IsQuiet s) c.write_via_git_sync _ _
        (cleanup-submits now c key _ ∙ mark-submits now c _ s, λ e. absurd (cc e))
        (mark-submits now c _ s, λ e. absurd (cc e))
  finish-IsQuiet (some info) key s =
      if-both (IsQuiet s) c.approves _ _
        (cleanup-submits now c key _ ∙ mark-submits now c _ s, λ e. absurd (cc e))
        (cleanup-submits now c key _ ∙ mark-submits now c _ s, λ e. absurd (cc e))

  poll_all-IsQuiet :
      (info : Option GitSyncInfo) (key : ℕ) (polls : List Poll) (s : HubState)
      → IsQuiet s (poll_all now c info key polls s)
  unfolding poll_all abort_hub_run mark_hub_handle_terminal
  poll_all-IsQuiet info key [] s =
      (mark-submits now c _ _ ∙ cleanup-submits now c key s, λ e. absurd (cc e))
  poll_all-IsQuiet info key (Poll.running ∷ polls) s = poll_all-IsQuiet info key polls s
  poll_all-IsQuiet info key (Poll.broken ∷ polls) s = (refl, λ e. refl)
  poll_all-IsQuiet info key (Poll.failed ∷ polls) s =
      (cleanup-submits now c key _ ∙ mark-submits now c _ s, λ e. absurd (cc e))
  poll_all-IsQuiet info key (Poll.canceled ∷ polls) s =
      (cleanup-submits now c key _ ∙ mark-submits now c _ s, λ e. absurd (cc e))
  poll_all-IsQuiet info key (Poll.done ∷ polls) s = finish-IsQuiet info key s

  with_base-IsQuiet :
      (row : HubHandle) (base : Option Text) (s : HubState) → IsQuiet s (with_base now c row base s)
  with_base-IsQuiet row none s = (refl, λ e. refl)
  with_base-IsQuiet row (some base) s = poll_all-IsQuiet _ row.deploy_key_id c.polls s

  reattached-IsQuiet : (row : HubHandle) (s : HubState) → IsQuiet s (reattached now c row s)
  reattached-IsQuiet row s =
      if-both (IsQuiet s) (c.write_via_git_sync && not (is_empty row.draft_branch)) _ _
        (with_base-IsQuiet row
          (if is_empty row.base_branch then c.resolve_base else some row.base_branch) s)
        (poll_all-IsQuiet none 0 c.polls s)

  -- a live handle of the task is found
  abbrev pub IsHeld : HubState → Type 0
  IsHeld s = (row : HubHandle) × (live_or_none (get_hub_handle c.task_id s.handles) ≡ some row)

  save_row-handles :
      (row : HubHandle) (s : HubState)
      → c.save_fails ≡ false
      → (save_row now c row s).handles ≡ save_hub_handle now row s.handles
  save_row-handles row s saves = rw saves refl

  save_row-IsHeld :
      (h : Handle) (info : Option GitSyncInfo) (key : ℕ) (s : HubState)
      → c.save_fails ≡ false
      → IsHeld (save_row now c (row_of now c h info key) s)
  unfolding is_terminal_hub_status
  save_row-IsHeld h none key s saves = (
    _,
    ap (λ t. live_or_none (get_hub_handle c.task_id t))
          (save_row-handles (row_of now c h none key) s saves)
        ∙ ap live_or_none (get-save now (row_of now c h none key) s.handles),
  )
  save_row-IsHeld h (some info) key s saves = (
    _,
    ap (λ t. live_or_none (get_hub_handle c.task_id t))
          (save_row-handles (row_of now c h (some info) key) s saves)
        ∙ ap live_or_none (get-save now (row_of now c h (some info) key) s.handles),
  )

  -- a failed poll leaves the handle
  abbrev pub LeavesHandle : HubEnd × HubState → Type 0
  LeavesHandle r = r.0 ≡ poll_failed → IsHeld r.1

  submitted-LeavesHandle :
      (h : Option Handle) (info : Option GitSyncInfo) (key : ℕ) (s : HubState)
      → c.save_fails ≡ false
      → LeavesHandle (submitted now c h info key s)
  submitted-LeavesHandle none info key s saves = λ e. absurd (cc e)
  submitted-LeavesHandle (some h) info key s saves =
      let s' = save_row now c (row_of now c h info key) (record s { submits = suc s.submits }) in
      λ e.
        subst IsHeld (sym ((poll_all-IsQuiet info key c.polls s').1 e))
          (save_row-IsHeld h info key (record s { submits = suc s.submits }) saves)

  prepared-LeavesHandle :
      (p : Option (GitSyncInfo × ℕ)) (s : HubState)
      → c.save_fails ≡ false
      → LeavesHandle (prepared now c p s)
  prepared-LeavesHandle none s saves = λ e. absurd (cc e)
  prepared-LeavesHandle (some (info, key)) s saves =
      submitted-LeavesHandle c.submit (some (anchored now c info)) key s saves

  run-LeavesHandle :
      (s : HubState) (h : Option HubHandle)
      → persisted now c s ≡ h
      → c.save_fails ≡ false
      → LeavesHandle (entered now c h s)
  run-LeavesHandle s none e saves =
      if-both LeavesHandle c.write_via_git_sync _ _ (prepared-LeavesHandle c.prepare s saves)
        (submitted-LeavesHandle c.submit none 0 s saves)
  run-LeavesHandle s (some row) e saves = λ failed.
      subst IsHeld (sym ((reattached-IsQuiet row s).1 failed))
        (row, unless-some c.lookup_fails _ row e)

-- A run whose poll fails while its context lives, and whose handle could be saved, is taken up again by the next
-- run of the task that can read the handle: that run submits nothing, whatever else has changed between them in
-- its settings or in what the hub answers.
pub retry_submits_nothing :
    (now later : ℕ) (c d : HubRun) (s : HubState)
    → (run_via_hub now c s).0 ≡ poll_failed
    → c.save_fails ≡ false
    → d.task_id ≡ c.task_id
    → d.lookup_fails ≡ false
    → (run_via_hub later d (run_via_hub now c s).1).1.submits ≡ (run_via_hub now c s).1.submits
unfolding run_via_hub
retry_submits_nothing now later c d s failed saves same reads =
    let (row, held) = run-LeavesHandle now c s (persisted now c s) refl saves failed in
    let found : persisted later d (run_via_hub now c s).1 ≡ some row =
      unless-false d.lookup_fails _ reads
      ∙ ap (λ id. live_or_none (get_hub_handle id (run_via_hub now c s).1.handles)) same
      ∙ held in
    ap (λ h. (entered later d h (run_via_hub now c s).1).1.submits) found
    ∙ (reattached-IsQuiet later d row (run_via_hub now c s).1).0
