-- ===== src/Agents/Registry/Renames.antt =====
-- What the registry answers after a change of one agent.
use matea.Base.{
  ℕ, Text, text_eq, text_eq_iff, ◌≡◌, ◌≢◌, true, false, none, some, arith, ==_iff, ◌==◌,
  if◌then◌else◌,
}
use matea.Base.Maps
use matea.Store.Types.{Agent}
use matea.Agents.Registry.{Registry, nat_eq, get_by_id, get_by_gitea_username, refresh, remove}

-- An active agent is found after its refresh under its id and its user name, and the answers for all
-- other ids and names are as before.
pub get-refresh_active :
    (a : Agent) (r : Registry) (id : ℕ) (username : Text)
    → a.is_active ≡ true
    → (get_by_id id (refresh a r) ≡ (if a.id == id then some a else get_by_id id r))
      × (get_by_gitea_username username (refresh a r) ≡ (
          if text_eq a.gitea_username username then some a else get_by_gitea_username username r))
unfolding get_by_id get_by_gitea_username refresh
get-refresh_active a r id username h = (
  simp h (Maps.get-put nat_eq ==_iff a.id id a r.agents),
  simp h (Maps.get-put text_eq text_eq_iff a.gitea_username username a r.by_user),
)

-- An agent that is not active is found neither under its id nor under its user name after a refresh.
pub get-refresh_inactive :
    (a : Agent) (r : Registry) (id : ℕ) (username : Text)
    → a.is_active ≡ false
    → (get_by_id id (refresh a r) ≡ (if a.id == id then none else get_by_id id r))
      × (get_by_gitea_username username (refresh a r)
          ≡ (if text_eq a.gitea_username username then none else get_by_gitea_username username r))
unfolding get_by_id get_by_gitea_username refresh
get-refresh_inactive a r id username h = (
  simp h (Maps.get-delete nat_eq ==_iff a.id id r.agents),
  simp h (Maps.get-delete text_eq text_eq_iff a.gitea_username username r.by_user),
)

-- An active agent that is refreshed under a new user name stays reachable under the old one, as the
-- agent that it was before, and removing it by its id does not end that.
pub renamed_agent_stays :
    (old new : Agent) (r : Registry)
    → new.is_active ≡ true
    → new.gitea_username ≢ old.gitea_username
    → get_by_gitea_username old.gitea_username r ≡ some old
    → (get_by_gitea_username old.gitea_username (refresh new r) ≡ some old)
      × (get_by_gitea_username old.gitea_username (remove new.id (refresh new r)) ≡ some old)
unfolding get_by_gitea_username refresh remove
renamed_agent_stays old new r active ne h = (
  ground (
    arith,
    Maps.get-put text_eq text_eq_iff new.gitea_username old.gitea_username new r.by_user,
    text_eq_iff new.gitea_username old.gitea_username,
  ),
  ground (
    arith,
    Maps.get-put nat_eq ==_iff new.id new.id new r.agents,
    Maps.get-put text_eq text_eq_iff new.gitea_username old.gitea_username new r.by_user,
    Maps.get-delete text_eq text_eq_iff new.gitea_username old.gitea_username
        (Maps.put text_eq new.gitea_username new r.by_user),
    text_eq_iff new.gitea_username old.gitea_username,
  ),
)
