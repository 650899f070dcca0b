-- ===== src/Agents/GitSync/Approval.antt =====
-- Which drafts are approved (internal/agents/workspace_transport.go).
use matea.Base.{
  ℕ, suc, Text, is_empty, contains, Bool, true, false, Option, none, some, List, [], ◌∷◌, ◌≡◌, ◌≢◌,
  ◌↔◌, ◌⊎◌, inl, inr, refl, All, arith, Bool-cases, text_eq_iff,
}
use matea.Agents.DiffPolicy.{DiffPolicy, violations}
use matea.Agents.GitSync.{GitSyncInfo, GitSyncResult, anchor}
use matea.Agents.GitSync.Transport.{
  FetchedDraft, unsigned, check_paths, check_footers, check_messages, check_contents,
  validate_result, validate_git_sync_draft,
}

pub unsigned_iff :
    (i : ℕ) (footer : Text) (msgs : List Text)
    → (unsigned i footer msgs ≡ none) ↔ All (λ (m : Text). contains m footer ≡ true) msgs
unfolding unsigned
unsigned_iff i footer [] = (λ h. tt, λ h. refl)
unsigned_iff i footer (m ∷ msgs) = elim (Bool-cases (contains m footer)) [
  | inl e ↦ rw e (
    λ h. (refl, (unsigned_iff (suc i) footer msgs).0 h),
    λ h. (unsigned_iff (suc i) footer msgs).1 h.1,
  )
  | inr e ↦ rw e (λ h. absurd (cc h), λ h. absurd (cc h.0))
]

module _ (matches : Text → Text → Bool) (base_name : Text → Text) where
  -- what the contract asks of a draft
  pub record IsSound (info : GitSyncInfo) (result : GitSyncResult) (fetched : FetchedDraft)
      (policy : DiffPolicy) : Type 0 where
    pub named : is_empty result.draft_branch ≡ false
    pub exclusive : result.draft_branch ≡ info.draft_branch
    pub pushed : is_empty fetched.draft_head ≡ false
    pub honest : (is_empty result.draft_head ≡ true) ⊎ (result.draft_head ≡ fetched.draft_head)
    pub moved : fetched.draft_head ≢ anchor info
    pub anchored : fetched.is_ancestor ≡ true
    pub undrifted : (is_empty fetched.base_head ≡ true) ⊎ (fetched.base_head ≡ info.base_head)
    pub committed : fetched.new_commit_msgs ≢ []
    pub signed : All (λ (m : Text). contains m info.required_footer ≡ true) fetched.new_commit_msgs
    pub allowed : violations matches base_name policy fetched.changed_paths ≡ []

  check_paths_iff : (bad : List Text) → (check_paths matches base_name bad ≡ none) ↔ (bad ≡ [])
  check_paths_iff [] = (λ h. refl, λ h. refl)
  check_paths_iff (p ∷ bad) = (λ h. absurd (cc h), λ h. absurd (cc h))

  check_footers_iff :
      (unsigned_at : Option ℕ) (fetched : FetchedDraft) (policy : DiffPolicy)
      → (check_footers matches base_name unsigned_at policy fetched ≡ none)
        ↔ ((unsigned_at ≡ none) × (violations matches base_name policy fetched.changed_paths ≡ []))
  check_footers_iff (some i) fetched policy = (λ h. absurd (cc h), λ h. absurd (cc h.0))
  check_footers_iff none fetched policy =
      let paths = check_paths_iff (violations matches base_name policy fetched.changed_paths) in
      (λ h. (refl, paths.0 h), λ h. paths.1 h.1)

  check_messages_iff :
      (info : GitSyncInfo) (fetched : FetchedDraft) (policy : DiffPolicy) (msgs : List Text)
      → (check_messages matches base_name info fetched policy msgs ≡ none) ↔ (
          (msgs ≢ [])
          × All (λ (m : Text). contains m info.required_footer ≡ true) msgs
          × (violations matches base_name policy fetched.changed_paths ≡ []))
  check_messages_iff info fetched policy [] = (λ h. absurd (cc h), λ h. absurd (h.0 refl))
  check_messages_iff info fetched policy (m ∷ msgs) =
      let signed = unsigned_iff 1 info.required_footer (m ∷ msgs) in
      let footers = check_footers_iff (unsigned 1 info.required_footer (m ∷ msgs)) fetched policy in
      (
        λ h. (λ e. absurd (cc e), signed.0 (footers.0 h).0, (footers.0 h).1),
        λ h. footers.1 (signed.1 h.1, h.2),
      )

  validate_result_iff :
      (info : GitSyncInfo) (result : GitSyncResult) (fetched : FetchedDraft) (policy : DiffPolicy)
      → (validate_result matches base_name info result fetched policy ≡ none)
        ↔ IsSound info result fetched policy
  validate_result_iff info result fetched policy =
      let contents = check_messages_iff info fetched policy fetched.new_commit_msgs in
      (
        λ h.
            let passed : check_contents matches base_name info fetched policy ≡ none =
              ground (arith, h) in
            record {
              named = ground (arith, h);
              exclusive = ground (arith, h, text_eq_iff result.draft_branch info.draft_branch);
              pushed = ground (arith, h);
              honest = ground (arith, h, text_eq_iff result.draft_head fetched.draft_head);
              moved = λ e. ground (arith, h, text_eq_iff fetched.draft_head (anchor info), e);
              anchored = ground (arith, h);
              undrifted = ground (arith, h, text_eq_iff fetched.base_head info.base_head);
              committed = (contents.0 passed).0;
              signed = (contents.0 passed).1;
              allowed = (contents.0 passed).2;
            },
        λ s. ground (
          arith,
          contents.1 (s.committed, s.signed, s.allowed),
          s.named,
          s.pushed,
          s.anchored,
          s.exclusive,
          s.honest,
          s.moved,
          s.undrifted,
          text_eq_iff result.draft_branch info.draft_branch,
          text_eq_iff result.draft_head fetched.draft_head,
          text_eq_iff fetched.draft_head (anchor info),
          text_eq_iff fetched.base_head info.base_head,
        ),
      )

  -- The validation of a draft finds no error exactly when the draft is sound: the hub reported the branch that
  -- it was given, which was pushed and has new commits on top of the anchor; a head that it reported is the
  -- one that was fetched; the base branch has not moved, if it could be fetched; every new commit carries
  -- the footer; and the policy of paths has nothing against the changed paths.
  pub validate_git_sync_draft_iff :
      (info : GitSyncInfo) (result : GitSyncResult) (fetched : FetchedDraft) (policy : DiffPolicy)
      → (validate_git_sync_draft matches base_name info (some result) fetched policy ≡ none)
        ↔ IsSound info result fetched policy
  unfolding validate_git_sync_draft
  validate_git_sync_draft_iff info result fetched policy =
      validate_result_iff info result fetched policy
