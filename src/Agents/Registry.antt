-- ===== src/Agents/Registry.antt =====
-- internal/agents/registry.go: the active agents in memory, by id and by Gitea user name. The two maps
-- are guarded by one mutex, so every method is one step.
pub mod Renames
use matea.Base.{
  is_empty, ℕ, Text, text_eq, Bool, true, false, not, ◌&&◌, Option, none, some, List, [], ◌∷◌, ◌==◌,
  if◌then◌else◌, select,
}
use matea.Base.Maps
use matea.Store.Types.{Agent, Role, role_eq}

abbrev pub nat_eq : ℕ → ℕ → Bool
nat_eq a b = a == b

pub record Registry : Type 0 where
  pub agents : List (ℕ × Agent)
  pub by_user : List (Text × Agent)

abbrev pub empty : Registry
empty = record { agents = []; by_user = [] }

unfoldable pub get_by_id : ℕ → Registry → Option Agent
get_by_id id r = Maps.get nat_eq id r.agents

unfoldable pub get_by_gitea_username : Text → Registry → Option Agent
get_by_gitea_username username r = Maps.get text_eq username r.by_user

unfoldable pub refresh : Agent → Registry → Registry
refresh agent r =
    if agent.is_active
    then record {
      agents = Maps.put nat_eq agent.id agent r.agents;
      by_user = Maps.put text_eq agent.gitea_username agent r.by_user;
    }
    else record {
      agents = Maps.delete nat_eq agent.id r.agents;
      by_user = Maps.delete text_eq agent.gitea_username r.by_user;
    }

unfoldable pub remove : ℕ → Registry → Registry
remove id r = elim (Maps.get nat_eq id r.agents) [
  | none ↦ r
  | some a ↦ record {
    agents = Maps.delete nat_eq id r.agents;
    by_user = Maps.delete text_eq a.gitea_username r.by_user;
  }
]

-- LoadFromDB: only active agents are entered, in the order of the rows.
unfoldable pub load_from_db : List Agent → Registry → Registry
unfolding refresh
load_from_db [] r = r
load_from_db (a ∷ rows) r = load_from_db rows (if a.is_active then refresh a r else r)

abbrev usernames : Role → List (ℕ × Agent) → List Text
usernames role [] = []
usernames role ((id, a) ∷ rest) =
    let more = usernames role rest in
    if role_eq a.role role && not (is_empty a.gitea_username) then a.gitea_username ∷ more else more

unfoldable pub gitea_usernames_by_role : Role → Registry → List Text
gitea_usernames_by_role Role.unset r = []
gitea_usernames_by_role role r = usernames role r.agents
