-- ===== src/Store/Memories.antt =====
-- The memories that tasks of an issue share: internal/store/memory.go. A row is that of a repository, an issue
-- and a key, with the times of its making and of its last change.
pub mod Shared
use matea.Base.{
  ℕ, String, str_eq, Bool, true, false, ◌&&◌, Option, none, some, List, [], ◌∷◌, ◌==◌, find_first,
  if◌then◌else◌,
}
use matea.Base.Maps.{put}

pub record Memory : Type 0 where
  pub repo : String
  pub issue_id : ℕ
  pub key : String
  pub value : String
  pub created_at : ℕ
  pub updated_at : ℕ

abbrev pub Memories : Type 0
Memories = List Memory

abbrev pub is_memory : String → ℕ → String → Memory → Bool
is_memory repo issue_id key r = str_eq r.repo repo && r.issue_id == issue_id && str_eq r.key key

-- an insertion, or on a conflict an update of the value and its time
unfoldable pub set_memory : ℕ → String → ℕ → String → String → Memories → Memories
set_memory now repo issue_id key value [] =
    record {
      repo = repo;
      issue_id = issue_id;
      key = key;
      value = value;
      created_at = now;
      updated_at = now;
    }
    ∷ []
set_memory now repo issue_id key value (r ∷ t) =
    let rest = set_memory now repo issue_id key value t in
    if is_memory repo issue_id key r
    then record r { value = value; updated_at = now } ∷ t
    else r ∷ rest

abbrev pub value_or_empty : Option Memory → String
value_or_empty none = ""
value_or_empty (some r) = r.value

unfoldable pub get_memory : String → ℕ → String → Memories → String
get_memory repo issue_id key t = value_or_empty (find_first (is_memory repo issue_id key) t)

-- a map, whose keys differ as the rows are unique
unfoldable pub get_all_memory : String → ℕ → Memories → List (String × String)
get_all_memory repo issue_id [] = []
get_all_memory repo issue_id (r ∷ t) =
    let rest = get_all_memory repo issue_id t in
    if str_eq r.repo repo && r.issue_id == issue_id then (r.key, r.value) ∷ rest else rest
