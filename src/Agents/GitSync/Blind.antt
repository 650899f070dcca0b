-- ===== src/Agents/GitSync/Blind.antt =====
-- What the policy of paths sees when git cannot list them (internal/agents/workspace_transport.go).
use matea.Base.{
  arith, Text, Bool, none, List, [], ◌∷◌, ◌≡◌, refl, ap, inl, inr, Bool-cases, Option-cases,
}
use matea.Agents.DiffPolicy.{DiffPolicy, violations}
use matea.Agents.GitSync.{GitSyncInfo, GitSyncResult}
use matea.Agents.GitSync.Transport.{
  FetchedDraft, GitAnswers, evidence, paths_of, fetch_draft, unsigned, check_paths, check_messages,
  validate_result, validate_git_sync_draft, approve,
}

module _ (matches : Text → Text → Bool) (base_name : Text → Text) (p q : DiffPolicy) where
  no_paths :
      (f : FetchedDraft)
      → f.changed_paths ≡ []
      → violations matches base_name p f.changed_paths
        ≡ violations matches base_name q f.changed_paths
  unfolding violations
  no_paths f h = rw h refl

  check_messages-no_paths :
      (info : GitSyncInfo) (f : FetchedDraft) (msgs : List Text)
      → f.changed_paths ≡ []
      → check_messages matches base_name info f p msgs
        ≡ check_messages matches base_name info f q msgs
  check_messages-no_paths info f [] h = refl
  check_messages-no_paths info f (m ∷ msgs) h =
      elim (Option-cases (unsigned 1 info.required_footer (m ∷ msgs))) [
        | inl e ↦ rw e (ap (check_paths matches base_name) (no_paths f h))
        | inr (i, e) ↦ rw e refl
      ]

  validate-no_paths :
      (info : GitSyncInfo) (result : GitSyncResult) (f : FetchedDraft)
      → f.changed_paths ≡ []
      → validate_result matches base_name info result f p
        ≡ validate_result matches base_name info result f q
  validate-no_paths info result f h =
      let same = check_messages-no_paths info f f.new_commit_msgs h in rw same refl

  evidence-no_paths :
      (a : GitAnswers) (info : GitSyncInfo) (head : Text)
      → a.diff ≡ none
      → (evidence a info head).changed_paths ≡ []
  evidence-no_paths a info head h = elim (Bool-cases a.anchor_is_ancestor) [
    | inl e ↦ rw e (ap paths_of h)
    | inr e ↦ rw e refl
  ]

  -- If git fails to list the changed paths, the outcome of the approval is the same with any two policies
  -- of paths.
  pub approve-unseen :
      (has_client : Bool) (a : GitAnswers) (info : GitSyncInfo) (result : GitSyncResult)
      → a.diff ≡ none
      → approve matches base_name has_client a info result p
        ≡ approve matches base_name has_client a info result q
  unfolding approve fetch_draft validate_git_sync_draft
  approve-unseen has_client a info result h = elim (Option-cases a.draft_rev) [
    | inl e ↦ ground (arith, e)
    | inr (head, e) ↦
        let same =
          validate-no_paths info result (evidence a info head) (evidence-no_paths a info head h) in
        ground (arith, e, same)
  ]
