-- ===== src/Config/Manager.antt =====
-- The changes of the settings at run time: internal/config/manager.go, with its table
-- (internal/store/system_config.go). A Go map of entries is a list, for UpdateBatch in the order of its sorted
-- keys; which statements fail are arguments.
pub mod Batches
pub mod Deletes
use matea.Base.{
  String, Text, str_eq, Bool, true, false, not, ◌&&◌, Option, none, some, List, [], ◌∷◌,
  if◌then◌else◌,
}
use matea.Base.Maps.{get, put, delete}
use matea.Config.Schema.{Config}
use matea.Config.Values.{Codecs}
use matea.Config.Keys.{key_of, apply_key, apply_config_entry, get_config_entry}

abbrev pub Rows : Type 0
Rows = List (String × Text)

unfoldable pub get_config : String → Rows → Option Text
get_config key t = get str_eq key t

unfoldable pub set_config : String → Text → Rows → Rows
set_config key value t = put str_eq key value t

unfoldable pub delete_config : String → Rows → Rows
delete_config key t = delete str_eq key t

-- `store` is `none` before SetStore
pub record ConfigManager : Type 0 where
  pub base : Config
  pub active : Config
  pub store : Option Rows

pub record StoreFaults : Type 0 where
  pub list_fails : Bool
  pub set_fails : String → Bool
  pub delete_fails : String → Bool

unfoldable pub new_config_manager : Config → ConfigManager
new_config_manager c = record { base = c; active = c; store = none }

abbrev pub is_some {ℓ} : {A : Type ℓ} → Option A → Bool
is_some none = false
is_some (some a) = true

-- the loop over the persisted entries
abbrev pub put_row : String → Text → Option Rows → Option Rows
put_row key value none = none
put_row key value (some t) = some (set_config key value t)

abbrev pub drop_row : String → Option Rows → Option Rows
drop_row key none = none
drop_row key (some t) = some (delete_config key t)

module _ (l : Codecs) where
  abbrev pub merge : Config → Rows → Config
  merge c [] = c
  merge c ((key, value) ∷ entries) =
      merge (if is_some (key_of key) then (apply_config_entry l c key value).0 else c) entries

  -- the validation of a batch, up to its first error
  abbrev pub apply_all : Config → Rows → Config × Bool
  apply_all c [] = (c, true)
  apply_all c ((key, value) ∷ entries) =
      let next = apply_config_entry l c key value in
      let rest = apply_all next.0 entries in if next.1 then rest else (next.0, false)

module _ (d : StoreFaults) where
  -- the loop that persists a batch, up to its first error
  abbrev pub persist : Rows → Rows → Bool × Rows
  persist [] t = (true, t)
  persist ((key, value) ∷ entries) t =
      let rest = persist entries (set_config key value t) in
      if d.set_fails key then (false, t) else rest

  abbrev pub persist_in : Rows → Option Rows → Bool × Option Rows
  persist_in entries none = (true, none)
  persist_in entries (some t) = let r = persist entries t in (r.0, some r.1)

module _ (l : Codecs) (d : StoreFaults) where
  abbrev pub merged_from : Option Rows → ConfigManager → Bool × ConfigManager
  merged_from none m = (true, m)
  merged_from (some t) m =
      if d.list_fails then (false, m) else (true, record m { active = merge l m.active t })

  unfoldable pub apply_db_overrides : ConfigManager → Bool × ConfigManager
  unfolding key_of apply_config_entry
  apply_db_overrides m = merged_from m.store m

  unfoldable pub update : String → Text → ConfigManager → Bool × ConfigManager
  unfolding apply_config_entry set_config
  update key value m =
      if (apply_config_entry l m.active key value).1
      then if is_some m.store && d.set_fails key then (false, m) else (
        true,
        record m {
          store = put_row key value m.store;
          active = (apply_config_entry l m.active key value).0;
        },
      )
      else (false, m)

  unfoldable pub update_batch : Rows → ConfigManager → Bool × ConfigManager
  unfolding apply_config_entry set_config
  update_batch entries m =
      let saved = persist_in d entries m.store in
      if not (apply_all l m.active entries).1
      then (false, m)
      else if not saved.0
      then (false, record m { store = saved.1 })
      else (true, record m { store = saved.1; active = (apply_all l m.active entries).0 })

  unfoldable pub delete_entry : String → ConfigManager → Bool × ConfigManager
  unfolding apply_config_entry get_config_entry delete_config
  delete_entry key m =
      if is_some m.store && d.delete_fails key
      then (false, m)
      else let store = drop_row key m.store in
        let next = apply_config_entry l m.active key (get_config_entry l m.base key) in
        if next.1
        then (true, record m { store = store; active = next.0 })
        else (false, record m { store = store })
