-- ===== src/Config/Manager/Deletes.antt =====
-- What becomes of the settings of the workflow that are reverted (internal/config/manager.go).
use matea.Base.{
  String, Bool, true, false, ◌&&◌, Option, none, some, [], ◌≡◌, ◌≢◌, refl, sym, ◌∙◌, ap, eq_refl,
  Bool-cases, inl, inr, str_eq, eq_iff, if◌then◌else◌,
}
use matea.Base.Maps.{get, get-delete}
use matea.Config.Schema.{Config}
use matea.Config.Values.{Codecs}
use matea.Config.Keys.{key_of, apply_key, get_key, apply_config_entry, get_config_entry}
use matea.Config.Keys.Reverts.{IsFaithful, IsLoaded, apply_config_entry-get_config_entry}
use matea.Config.Manager.{
  is_some, Rows, get_config, delete_config, ConfigManager, StoreFaults, drop_row, delete_entry,
}

module _ (l : Codecs) where
  -- the setting is that of the file, a preset is empty, and there is no row
  pub record IsReverted (key : String) (m : ConfigManager) (r : ConfigManager) : Type 0 where
    pub value :
        key ≢ "workflow.preset"
        → key ≢ "workflow.gates"
        → get_config_entry l r.active key ≡ get_config_entry l m.base key
    pub preset : key ≡ "workflow.preset" → r.active.workflow.preset ≡ []
    pub gone : (t : Rows) → r.store ≡ some t → get_config key t ≡ none

  apply-preset :
      (c base : Config) (key : String)
      → key ≡ "workflow.preset"
      → (apply_config_entry l c key (get_config_entry l base key)).0.workflow.preset ≡ []
  unfolding apply_config_entry get_config_entry key_of apply_key get_key
  apply-preset c base key e = rw e refl

  drop_row-gone :
      (key : String) (o : Option Rows) (t : Rows)
      → drop_row key o ≡ some t
      → get_config key t ≡ none
  unfolding get_config delete_config
  drop_row-gone key none t e = absurd (cc e)
  drop_row-gone key (some rows) t e =
      let same : delete_config key rows ≡ t = cc e in
      ap (get str_eq key) (sym same)
      ∙ (get-delete str_eq eq_iff key key rows
          ∙ ap (λ b. if b then none else get str_eq key rows) (eq_refl key))

  -- A setting that is reverted without an error has no row any more. Each but the preset and the gates of the
  -- workflow then reads as that of the file, and the preset is empty instead, whatever the file holds. For this
  -- the integers of the file have 64 bits, those that have a default are not the zero that asks for it, and the
  -- libraries read back the temperature, the commands and the Booleans that they print of the file.
  pub delete_entry-IsReverted :
      (d : StoreFaults) (key : String) (m : ConfigManager)
      → IsFaithful l m.base
      → IsLoaded m.base
      → (delete_entry l d key m).0 ≡ true
      → IsReverted key m (delete_entry l d key m).1
  unfolding delete_entry
  delete_entry-IsReverted d key m faithful loaded done =
      let value = get_config_entry l m.base key in
      elim (Bool-cases (is_some m.store && d.delete_fails key)) [
        | inl p ↦ absurd (cc (rw p at done))
        | inr p ↦ elim (Bool-cases (apply_config_entry l m.active key value).1) [
          | inl v ↦
              rw (p, v)
                (record {
                  value = λ p g.
                      apply_config_entry-get_config_entry l m.base faithful m.active key loaded v;
                  preset = apply-preset m.active m.base key;
                  gone = drop_row-gone key m.store;
                })
          | inr v ↦ absurd (cc (rw (p, v) at done))
        ]
      ]

module _ (l : Codecs) (d : StoreFaults) (m : ConfigManager) (t : Rows) where
  -- the overrides of the gates are gone from the table and still active
  pub record IsHalfReverted (r : Bool × ConfigManager) : Type 0 where
    pub refused : r.0 ≡ false
    pub unchanged : r.1.active ≡ m.active
    pub table : Rows
    pub saved : r.1.store ≡ some table
    pub gone : get_config "workflow.gates" table ≡ none

  -- Where JSON does not decode an empty text, the reverting of workflow.gates, whose deletion in the table
  -- succeeds, ends with an error and leaves the active gates, whatever the file holds, although their row
  -- is gone.
  pub delete_entry-IsHalfReverted :
      l.parse_gates [] ≡ none
      → m.store ≡ some t
      → d.delete_fails "workflow.gates" ≡ false
      → IsHalfReverted (delete_entry l d "workflow.gates" m)
  unfolding delete_entry apply_config_entry get_config_entry key_of apply_key get_key get_config
      delete_config
  delete_entry-IsHalfReverted undecoded at h =
      rw (at, h, undecoded)
        (record {
          refused = refl;
          unchanged = refl;
          table = delete_config "workflow.gates" t;
          saved = refl;
          gone = get-delete str_eq eq_iff "workflow.gates" "workflow.gates" t;
        })
