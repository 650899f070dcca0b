-- ===== src/Agents/KeySweep/Spares.antt =====
-- Which keys the sweep leaves alone (internal/agents/gitsync_sweep.go).
use matea.Base.{
  ℕ, ◌^◌, ◌<◌, String, Bool, true, false, not, ◌&&◌, Option, none, some, List, [], ◌∷◌, any, All,
  All-append, ◌==◌, str_eq, eq_refl, eq_iff, has_prefix-append, drop-append, decimal, decimal-head,
  digits_value, digits_value-decimal, ◌≡◌, ◌≢◌, ◌⊎◌, inl, inr, refl, sym, ◌∙◌, ap, arith,
  Bool-cases, if◌then◌else◌,
}
use matea.Store.Tasks.{Tasks}
use matea.Store.Handles.{
  Handles, HubHandle, repo_of, is_repo, is_terminal_hub_status, has_non_terminal_hub_handle,
  list_hub_handle_repos, list_non_terminal_hub_task_ids_by_repo,
}
use matea.Agents.KeySweep.{
  deploy_key_title_prefix, deploy_key_title, parse_id, deploy_key_task_id, DeployKey, is_young,
  is_protected, is_orphan, SweepAnswers, sweep_keys, sweep_repo, sweep_repos,
  sweep_orphaned_deploy_keys,
}

parse_id-decimal : (n : ℕ) → 0 < n → n < 2 ^ 63 → parse_id (decimal n) ≡ some n
parse_id-decimal n pos small =
    let (c, t, same, low) = decimal-head n in
    let value : digits_value 0 (c ∷ t) ≡ some n =
      ap (digits_value 0) (sym same) ∙ digits_value-decimal n in
    ap parse_id same ∙ ground (arith, low, value, pos, small)

if-true {ℓ} : {A : Type ℓ} (b : Bool) (x y : A) → b ≡ true → (if b then x else y) ≡ x
if-true true x y e = refl
if-true false x y e = absurd (cc e)

-- The id of a task, a positive number of 63 bits, is read back from the title of its deploy key.
pub deploy_key_task_id-deploy_key_title :
    (id : ℕ) → 0 < id → id < 2 ^ 63 → deploy_key_task_id (deploy_key_title id) ≡ some id
unfolding deploy_key_task_id deploy_key_title
deploy_key_task_id-deploy_key_title id pos small =
    if-true _ _ none (has_prefix-append deploy_key_title_prefix (decimal id))
    ∙ ap parse_id (drop-append deploy_key_title_prefix (decimal id))
    ∙ parse_id-decimal id pos small

-- one row of the handles, for the task that is looked for
head-listed :
    (id : ℕ) (repo : String) (tasks : Tasks) (r : HubHandle)
    → repo_of id tasks ≡ some repo
    → (r.task_id == id) ≡ true
    → is_repo repo (repo_of r.task_id tasks) ≡ true
head-listed id repo tasks r of same =
    let at : r.task_id ≡ id = ground (arith, same) in
    ap (λ i. is_repo repo (repo_of i tasks)) at ∙ ap (is_repo repo) of ∙ eq_refl repo

live-listed :
    (id : ℕ) (repo : String) (tasks : Tasks) (t : Handles)
    → repo_of id tasks ≡ some repo
    → has_non_terminal_hub_handle id t ≡ true
    → any (λ (i : ℕ). i == id) (list_non_terminal_hub_task_ids_by_repo repo tasks t) ≡ true
unfolding has_non_terminal_hub_handle list_non_terminal_hub_task_ids_by_repo is_terminal_hub_status
live-listed id repo tasks [] of h = absurd (cc h)
live-listed id repo tasks (r ∷ t) of h = elim (Bool-cases (r.task_id == id)) [
  | inl e ↦ ground (arith, live-listed id repo tasks t of, head-listed id repo tasks r of e, h)
  | inr e ↦ ground (arith, live-listed id repo tasks t of, e, h)
]

and-fst : (b c : Bool) → (b && c) ≡ true → b ≡ true
and-fst true c h = refl
and-fst false c h = h

spared :
    (now grace : ℕ) (ids : List ℕ) (k : DeployKey) (id : ℕ)
    → any (λ (i : ℕ). i == id) ids ≡ true
    → deploy_key_task_id k.title ≡ some id
    → is_orphan now grace ids k ≡ false
unfolding is_orphan
spared now grace ids k id live at =
    let kept : is_protected ids (deploy_key_task_id k.title) ≡ true =
      ap (is_protected ids) at ∙ live in
    ap (λ b. not b && not (is_young now grace k.created_at)) kept

-- not the key of the task on the repository
abbrev pub IsOther : ℕ → String → String × DeployKey → Type 0
IsOther id repo r = (r.0 ≢ repo) ⊎ (r.1.title ≢ deploy_key_title id)

module _ (now grace : ℕ) (a : SweepAnswers) (id : ℕ) (repo : String) where
  orphan-IsOther :
      (on : String) (ids : List ℕ) (k : DeployKey)
      → 0 < id
      → id < 2 ^ 63
      → (on ≢ repo) ⊎ (any (λ (i : ℕ). i == id) ids ≡ true)
      → is_orphan now grace ids k ≡ true
      → IsOther id repo (on, k)
  unfolding is_orphan
  orphan-IsOther on ids k pos small (inl other) h = inl other
  orphan-IsOther on ids k pos small (inr live) h = inr (λ same.
      let kept =
        spared now grace ids k id live
          (ap deploy_key_task_id same ∙ deploy_key_task_id-deploy_key_title id pos small) in
      absurd (cc (kept, h)))

  sweep_keys-IsOther :
      (on : String) (ids : List ℕ) (keys : List DeployKey)
      → 0 < id
      → id < 2 ^ 63
      → (on ≢ repo) ⊎ (any (λ (i : ℕ). i == id) ids ≡ true)
      → All (IsOther id repo) (sweep_keys now grace a on ids keys)
  unfolding sweep_keys is_orphan
  sweep_keys-IsOther on ids [] pos small h = tt
  sweep_keys-IsOther on ids (k ∷ keys) pos small h =
      let rest = sweep_keys-IsOther on ids keys pos small h in
      elim (Bool-cases (is_orphan now grace ids k && not (a.revoke_fails on k.id))) [
        | inl e ↦ rw e (orphan-IsOther on ids k pos small h (and-fst _ _ e), rest)
        | inr e ↦ rw e rest
      ]

  sweep_repo-IsOther :
      (on : String) (ids : List ℕ) (keys : Option (List DeployKey))
      → 0 < id
      → id < 2 ^ 63
      → (on ≢ repo) ⊎ (any (λ (i : ℕ). i == id) ids ≡ true)
      → All (IsOther id repo) (sweep_repo now grace a on ids keys)
  sweep_repo-IsOther on ids none pos small h = tt
  sweep_repo-IsOther on ids (some keys) pos small h = sweep_keys-IsOther on ids keys pos small h

  module _ (tasks : Tasks) (t : Handles) where
    here-or-other :
        (on : String)
        → repo_of id tasks ≡ some repo
        → has_non_terminal_hub_handle id t ≡ true
        → (on ≢ repo)
          ⊎ (any (λ (i : ℕ). i == id) (list_non_terminal_hub_task_ids_by_repo on tasks t) ≡ true)
    here-or-other on of h = elim (Bool-cases (str_eq on repo)) [
      | inl e ↦ inr (live-listed id on tasks t (of ∙ ap some (sym ((eq_iff on repo).0 e))) h)
      | inr e ↦ inl (λ same. let yes = (eq_iff on repo).1 same in absurd (cc (yes, e)))
    ]

    sweep_repos-IsOther :
        (repos : List String)
        → repo_of id tasks ≡ some repo
        → has_non_terminal_hub_handle id t ≡ true
        → 0 < id
        → id < 2 ^ 63
        → All (IsOther id repo) (sweep_repos now grace a tasks t repos).1
    unfolding sweep_repos
    sweep_repos-IsOther [] of h pos small = tt
    sweep_repos-IsOther (on ∷ repos) of h pos small =
        let rest = sweep_repos-IsOther repos of h pos small in
        let ids = list_non_terminal_hub_task_ids_by_repo on tasks t in
        let here = sweep_repo-IsOther on ids (a.keys on) pos small (here-or-other on of h) in
        elim (Bool-cases (a.ids_fail on)) [
          | inl e ↦ rw e tt
          | inr e ↦
              rw e (
                All-append (IsOther id repo) (sweep_repo now grace a on ids (a.keys on)) _ here
                  rest)
        ]

    -- If a task whose id is a positive number of 63 bits has a handle that is not terminal, the sweep does not
    -- revoke a key with its title on its repository, whatever the server answers and which
    -- queries fail.
    pub sweep_orphaned_deploy_keys-IsOther :
        repo_of id tasks ≡ some repo
        → has_non_terminal_hub_handle id t ≡ true
        → 0 < id
        → id < 2 ^ 63
        → All (IsOther id repo) (sweep_orphaned_deploy_keys now grace a tasks t).1
    unfolding sweep_orphaned_deploy_keys
    sweep_orphaned_deploy_keys-IsOther of h pos small = elim (Bool-cases a.repos_fail) [
      | inl e ↦ rw e tt
      | inr e ↦ rw e (sweep_repos-IsOther (list_hub_handle_repos tasks t) of h pos small)
    ]
