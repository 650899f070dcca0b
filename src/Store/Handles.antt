-- ===== src/Store/Handles.antt =====
-- The table hub_handles of internal/store/hub_handle.go: the runs that were submitted to a hub, one for
-- each task. Rows are kept in the order of their saving.
use matea.Base.{
  some, none, str_eq, ◌&&◌, Text, ℕ, String, Bool, true, false, not, Option, List, [], ◌∷◌, ◌++◌,
  map, ◌==◌, leb, any, select, find_first, if◌then◌else◌,
}
use mathlib.Core.Option
use matea.Store.Types.{Task}
use matea.Store.Tasks.{Tasks, get_task}

pub data HubStatus : Type 0 where
  unset pending running done failed canceled : HubStatus

unfoldable pub is_terminal_hub_status : HubStatus → Bool
is_terminal_hub_status HubStatus.done = true
is_terminal_hub_status HubStatus.failed = true
is_terminal_hub_status HubStatus.canceled = true
is_terminal_hub_status _ = false

pub record HubHandle : Type 0 where
  pub task_id : ℕ
  pub backend : String
  pub remote_id : String
  pub idempotency_key : String
  pub status : HubStatus
  pub draft_branch : Text
  pub base_branch : Text
  pub base_head : Text
  pub anchor_head : Text
  pub deploy_key_id : ℕ
  pub created_at : ℕ
  pub updated_at : ℕ

abbrev pub Handles : Type 0
Handles = List HubHandle

abbrev pub status_or_running : HubStatus → HubStatus
status_or_running HubStatus.unset = HubStatus.running
status_or_running s = s

-- INSERT OR REPLACE under the primary key task_id
unfoldable pub save_hub_handle : ℕ → HubHandle → Handles → Handles
save_hub_handle now h t =
    select (λ (r : HubHandle). not (r.task_id == h.task_id)) t
    ++ record h { status = status_or_running h.status; created_at = now; updated_at = now } ∷ []

unfoldable pub get_hub_handle : ℕ → Handles → Option HubHandle
get_hub_handle id t = find_first (λ (r : HubHandle). r.task_id == id) t

unfoldable pub update_hub_handle_status : ℕ → ℕ → HubStatus → Handles → Handles
update_hub_handle_status now id status t =
    map
      (λ (r : HubHandle).
        if r.task_id == id then record r { status = status; updated_at = now } else r)
      t

abbrev pub is_live_handle : HubHandle → Bool
is_live_handle r = not (is_terminal_hub_status r.status)

abbrev pub insert_by_creation : HubHandle → Handles → Handles
insert_by_creation x [] = x ∷ []
insert_by_creation x (y ∷ ys) =
    let rest = insert_by_creation x ys in
    if leb x.created_at y.created_at then x ∷ y ∷ ys else y ∷ rest

abbrev pub by_creation : Handles → Handles
by_creation [] = []
by_creation (x ∷ xs) = insert_by_creation x (by_creation xs)

-- ORDER BY created_at ASC
unfoldable pub list_non_terminal_hub_handles : Handles → Handles
unfolding is_terminal_hub_status
list_non_terminal_hub_handles t = by_creation (select is_live_handle t)

unfoldable pub has_non_terminal_hub_handle : ℕ → Handles → Bool
unfolding is_terminal_hub_status
has_non_terminal_hub_handle id t =
    any (λ (r : HubHandle). r.task_id == id) (select is_live_handle t)

unfoldable pub delete_hub_handle : ℕ → Handles → Handles
delete_hub_handle id t = select (λ (r : HubHandle). not (r.task_id == id)) t

-- the join with the tasks: the repository of the task, if there is one
abbrev pub repo_of : ℕ → Tasks → Option String
repo_of id t = Option.map (λ (r : Task). r.repo) (get_task id t)

abbrev pub add_distinct : Option String → List String → List String
add_distinct none repos = repos
add_distinct (some repo) repos =
    if any (λ (r : String). str_eq r repo) repos then repos else repo ∷ repos

-- SELECT DISTINCT, in no particular order
unfoldable pub list_hub_handle_repos : Tasks → Handles → List String
list_hub_handle_repos tasks [] = []
list_hub_handle_repos tasks (h ∷ t) =
    add_distinct (repo_of h.task_id tasks) (list_hub_handle_repos tasks t)

abbrev pub is_repo : String → Option String → Bool
is_repo repo none = false
is_repo repo (some r) = str_eq r repo

unfoldable pub list_non_terminal_hub_task_ids_by_repo : String → Tasks → Handles → List ℕ
unfolding is_terminal_hub_status
list_non_terminal_hub_task_ids_by_repo repo tasks t =
    map (λ (h : HubHandle). h.task_id)
      (select (λ (h : HubHandle). is_repo repo (repo_of h.task_id tasks) && is_live_handle h) t)
