-- ===== src/Agents/KeySweep.antt =====
-- The sweep of orphaned deploy keys: internal/agents/gitsync_sweep.go. What the Gitea server answers, and
-- which queries and revocations fail, are arguments; a key without a date has `none`.
pub mod Spares
use matea.Base.{
  ℕ, ◌+◌, ◌-◌, ◌^◌, String, Text, codes, Bool, true, false, not, ◌&&◌, ◌||◌, Option, none, some,
  List, [], ◌∷◌, ◌++◌, map, any, drop, length, ltb, leb, ◌==◌, has_prefix, decimal, digits_value,
  is_empty, if◌then◌else◌,
}
use matea.Store.Tasks.{Tasks}
use matea.Store.Handles.{Handles, list_hub_handle_repos, list_non_terminal_hub_task_ids_by_repo}

abbrev pub deploy_key_title_prefix : Text
deploy_key_title_prefix = codes "matea-hub-task-"

-- the title that Prepare gives (internal/agents/workspace_transport.go)
unfoldable pub deploy_key_title : ℕ → Text
deploy_key_title task_id = deploy_key_title_prefix ++ decimal task_id

-- an id of 64 bits
abbrev pub bounded : Option ℕ → Option ℕ
bounded none = none
bounded (some n) = if ltb n (2 ^ 63) then some n else none

abbrev pub unsigned_value : Text → Option ℕ
unsigned_value [] = none
unsigned_value (c ∷ t) = bounded (digits_value 0 (c ∷ t))

-- strconv.ParseInt, where a negative number and zero are no id
abbrev pub positive : Option ℕ → Option ℕ
positive none = none
positive (some n) = if leb n 0 then none else some n

abbrev pub parse_id : Text → Option ℕ
parse_id [] = none
parse_id (c ∷ t) =
    if c == b'-' then none else positive (unsigned_value (if c == b'+' then t else c ∷ t))

-- the position after the prefix is its length
unfoldable pub deploy_key_task_id : Text → Option ℕ
deploy_key_task_id title =
    if has_prefix title deploy_key_title_prefix
    then parse_id (drop (length deploy_key_title_prefix) title)
    else none

pub record DeployKey : Type 0 where
  pub id : ℕ
  pub title : Text
  pub created_at : Option ℕ

-- inside the window between the issuing of a key and the saving of its id
abbrev pub is_young : ℕ → ℕ → Option ℕ → Bool
is_young now grace none = false
is_young now grace (some created_at) = ltb now (created_at + grace)

abbrev pub is_protected : List ℕ → Option ℕ → Bool
is_protected ids none = true
is_protected ids (some id) = any (λ (i : ℕ). i == id) ids

unfoldable pub is_orphan : ℕ → ℕ → List ℕ → DeployKey → Bool
unfolding deploy_key_task_id
is_orphan now grace ids k =
    not (is_protected ids (deploy_key_task_id k.title)) && not (is_young now grace k.created_at)

-- which queries and revocations fail, and the keys of a repository, `none` if they cannot be listed
pub record SweepAnswers : Type 0 where
  pub repos_fail : Bool
  pub ids_fail : String → Bool
  pub keys : String → Option (List DeployKey)
  pub revoke_fails : String → ℕ → Bool

module _ (now grace : ℕ) (a : SweepAnswers) where
  -- the loop over the keys: those that are revoked
  unfoldable pub sweep_keys : String → List ℕ → List DeployKey → List (String × DeployKey)
  unfolding is_orphan
  sweep_keys repo ids [] = []
  sweep_keys repo ids (k ∷ ks) =
      let rest = sweep_keys repo ids ks in
      if is_orphan now grace ids k && not (a.revoke_fails repo k.id) then (repo, k) ∷ rest else rest

  abbrev pub sweep_repo : String → List ℕ → Option (List DeployKey) → List (String × DeployKey)
  sweep_repo repo ids none = []
  sweep_repo repo ids (some keys) = sweep_keys repo ids keys

  -- the loop over the repositories: whether it ends without an error, and the keys that were revoked
  unfoldable pub sweep_repos : Tasks → Handles → List String → Bool × List (String × DeployKey)
  unfolding sweep_keys
  sweep_repos tasks handles [] = (true, [])
  sweep_repos tasks handles (repo ∷ repos) =
      let ids = list_non_terminal_hub_task_ids_by_repo repo tasks handles in
      let (ok, rest) = sweep_repos tasks handles repos in
      if a.ids_fail repo then (false, []) else (ok, sweep_repo repo ids (a.keys repo) ++ rest)

  unfoldable pub sweep_orphaned_deploy_keys : Tasks → Handles → Bool × List (String × DeployKey)
  unfolding sweep_repos
  sweep_orphaned_deploy_keys tasks handles =
      if a.repos_fail
      then (false, [])
      else sweep_repos tasks handles (list_hub_handle_repos tasks handles)
