-- ===== src/Agents/GitSync/Drafts.antt =====
-- Which branches a hub is given (internal/agents/workspace_transport.go).
use matea.Base.{
  ℕ, Text, codes, text_eq, is_empty, Bool, true, false, not, ◌&&◌, ◌||◌, Option, none, some, List,
  [], ◌∷◌, ◌≡◌, ◌⊎◌, inl, inr, refl, sym, ◌∙◌, ap, arith, Option-cases, if◌then◌else◌,
  has_prefix-append, leb, decimal,
}
use mathlib.Core.Option.{some-injective}
use matea.Store.Types.{Task}
use matea.Gitea.PullRequest.{Object, pr_state, pr_head_ref, pr_head_sha}
use matea.Agents.GitSync.{
  GitSyncInfo, Lookup, DraftBranchChoice, draft_branch_name, draft_branch_prefix, is_draft_branch,
  effective_draft_branch, draft_of, draft_of_pr, first_draft, or_else, conversation_ids,
  resolve_git_sync_draft_branch, base_of_pr, base_of_repo, or_branch, resolve_git_sync_base_branch,
}
use matea.Agents.GitSync.Transport.{Server, RepoInfo, lookup_of, chosen, prepare_in, prepare}

draft_branch_name-IsDraft : (id : ℕ) → is_draft_branch (draft_branch_name id) ≡ true
unfolding is_draft_branch draft_branch_name
draft_branch_name-IsDraft id = has_prefix-append draft_branch_prefix (decimal id)

-- fresh, or a draft branch
abbrev pub IsDraftChoice : DraftBranchChoice → Type 0
IsDraftChoice c = (is_empty c.branch ≡ true) ⊎ (is_draft_branch c.branch ≡ true)

negated : (a b : Bool) → (not a || not b) ≡ false → b ≡ true
negated true true h = refl
negated true false h = absurd (cc h)
negated false b h = absurd (cc h)

if_some {ℓ} :
    {A : Type ℓ} (b : Bool) (x a : A)
    → (if b then none else some x) ≡ some a
    → (b ≡ false) × (x ≡ a)
if_some true x a h = absurd (cc h)
if_some false x a h = (refl, some-injective x a h)

draft_of-IsDraft :
    (state head sha : Option Text) (c : DraftBranchChoice)
    → draft_of state head sha ≡ some c
    → is_draft_branch c.branch ≡ true
draft_of-IsDraft (some state) (some head) (some sha) c h =
    let (open_draft, same) =
      if_some (not (text_eq state (codes "open")) || not (is_draft_branch head))
        (record { branch = head; head = sha }) c h in
    ap (λ d. is_draft_branch d.branch) (sym same)
    ∙ negated (text_eq state (codes "open")) (is_draft_branch head) open_draft
draft_of-IsDraft none head sha c h = absurd (cc h)
draft_of-IsDraft (some state) none sha c h = absurd (cc h)
draft_of-IsDraft (some state) (some head) none c h = absurd (cc h)

draft_of_pr-IsDraft :
    (pr : Option Object) (c : DraftBranchChoice)
    → draft_of_pr pr ≡ some c
    → is_draft_branch c.branch ≡ true
unfolding draft_of_pr
draft_of_pr-IsDraft none c h = absurd (cc h)
draft_of_pr-IsDraft (some pr) c h =
    draft_of-IsDraft (pr_state pr) (pr_head_ref pr) (pr_head_sha pr) c h

or_else-IsDraft :
    (o : Option DraftBranchChoice) (c : DraftBranchChoice)
    → ((d : DraftBranchChoice) → o ≡ some d → is_draft_branch d.branch ≡ true)
    → IsDraftChoice c
    → IsDraftChoice (or_else o c)
or_else-IsDraft none c h hc = hc
or_else-IsDraft (some d) c h hc = inr (h d refl)

first_draft-IsDraft : (lookup : Lookup) (ids : List ℕ) → IsDraftChoice (first_draft lookup ids)
first_draft-IsDraft lookup [] = inl refl
first_draft-IsDraft lookup (id ∷ ids) =
    or_else-IsDraft (draft_of_pr (lookup.pr id)) (first_draft lookup ids)
      (draft_of_pr-IsDraft (lookup.pr id)) (first_draft-IsDraft lookup ids)

chosen-IsDraft :
    (g : Server) (repo : RepoInfo) (task : Task)
    → is_draft_branch (chosen task (resolve_git_sync_draft_branch (lookup_of g repo) task)) ≡ true
unfolding resolve_git_sync_draft_branch
chosen-IsDraft g repo task =
    let c = first_draft (lookup_of g repo) (conversation_ids task true) in
    ground (
      arith,
      first_draft-IsDraft (lookup_of g repo) (conversation_ids task true),
      draft_branch_name-IsDraft task.id,
    )

-- no result, or a branch that is no draft
abbrev pub IsTarget : Option Text → Type 0
IsTarget o = (b : Text) → o ≡ some b → is_draft_branch b ≡ false

base_of_pr-IsTarget : (pr : Option Object) → IsTarget (base_of_pr pr)
base_of_pr-IsTarget none b h = absurd (cc h)
base_of_pr-IsTarget (some pr) b h = ground (arith, h)

base_of_repo-IsTarget : (r : Option Text) → IsTarget (base_of_repo r)
base_of_repo-IsTarget none b h = absurd (cc h)
base_of_repo-IsTarget (some t) b h = ground (arith, h)

or_branch-IsTarget : (o p : Option Text) → IsTarget o → IsTarget p → IsTarget (or_branch o p)
or_branch-IsTarget none p ho hp = hp
or_branch-IsTarget (some a) p ho hp = ho

if_none-IsTarget : (b : Bool) (o : Option Text) → IsTarget o → IsTarget (if b then o else none)
if_none-IsTarget true o h = h
if_none-IsTarget false o h = λ b e. absurd (cc e)

resolve-IsTarget :
    (lookup : Lookup) (task : Task) (repo_default : Text)
    → IsTarget (resolve_git_sync_base_branch lookup task repo_default)
unfolding resolve_git_sync_base_branch
resolve-IsTarget lookup task repo_default =
    or_branch-IsTarget _ _
      (if_none-IsTarget (lookup.available && not (leb task.pr_id 0)) _
        (base_of_pr-IsTarget (lookup.pr task.pr_id)))
      (or_branch-IsTarget _ _ (base_of_repo-IsTarget (some repo_default))
        (if_none-IsTarget lookup.available _ (base_of_repo-IsTarget lookup.repo)))

-- a hub may push to the draft branch only, and it is merged into one that is no draft
pub record IsScoped (info : GitSyncInfo) : Type 0 where
  pub pushes : is_draft_branch info.draft_branch ≡ true
  pub merges : is_draft_branch info.base_branch ≡ false

prepare_in-IsScoped :
    (g : Server) (task : Task) (repo : RepoInfo) (info : GitSyncInfo) (key : ℕ)
    → prepare_in g task repo ≡ some (info, key)
    → IsScoped info
unfolding prepare_in
prepare_in-IsScoped g task repo info key h =
    let base = resolve_git_sync_base_branch (lookup_of g repo) task repo.default_branch in
    elim (Option-cases base) [
      | inl e ↦ absurd (ground (arith, h, e))
      | inr (b, e) ↦ record {
        pushes = ground (arith, h, e, chosen-IsDraft g repo task);
        merges =
            ground (arith, h, e, resolve-IsTarget (lookup_of g repo) task repo.default_branch b e);
      }
    ]

-- Whatever the server answers, a preparation that succeeds lets the hub push to a draft branch only, to be
-- merged into a branch that is no draft; and so it stays when the start of the work is settled, with whatever
-- anchor.
pub prepare-IsScoped :
    (g : Server) (task : Task) (info : GitSyncInfo) (key : ℕ) (anchor : Text)
    → prepare g task ≡ some (info, key)
    → IsScoped info
      × (is_draft_branch (effective_draft_branch info.draft_branch anchor task.id) ≡ true)
unfolding prepare effective_draft_branch
prepare-IsScoped g task info key anchor h = elim (Option-cases g.repo) [
  | inl e ↦ absurd (ground (arith, h, e))
  | inr (repo, e) ↦
      let scoped = prepare_in-IsScoped g task repo info key (ground (arith, h, e)) in
      (scoped, ground (arith, scoped.pushes, draft_branch_name-IsDraft task.id))
]
