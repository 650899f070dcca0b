-- ===== src/Config/Manager/Batches.antt =====
-- What a batch of settings does, and that the settings of the agent loop stay within their bounds
-- (internal/config/manager.go).
use matea.Base.{
  String, Text, Bool, true, false, ◌&&◌, Option, none, some, List, [], ◌∷◌, ◌≡◌, refl, sym, ap,
  subst, Bool-cases, inl, inr,
}
use matea.Config.Schema.{Config}
use matea.Config.Values.{Codecs}
use matea.Config.Keys.{apply_config_entry, get_config_entry}
use matea.Config.Keys.Bounds.{IsBounded, apply_config_entry-IsBounded}
use matea.Config.Manager.{
  Rows, set_config, ConfigManager, StoreFaults, is_some, update, apply_all, persist, persist_in,
  update_batch, delete_entry,
}

-- a call of the web API
pub data Change : Type 0 where
  sets : String → Text → StoreFaults → Change
  batch : Rows → StoreFaults → Change
  reverts : String → StoreFaults → Change

abbrev pub put_all : Rows → Rows → Rows
put_all [] t = t
put_all ((key, value) ∷ entries) t = put_all entries (set_config key value t)

abbrev pub put_all_in : Rows → Option Rows → Option Rows
put_all_in entries none = none
put_all_in entries (some t) = some (put_all entries t)

persist-all :
    (d : StoreFaults) (entries t : Rows)
    → (persist d entries t).0 ≡ true
    → (persist d entries t).1 ≡ put_all entries t
persist-all d [] t h = refl
persist-all d ((key, value) ∷ entries) t h = elim (Bool-cases (d.set_fails key)) [
  | inl e ↦ absurd (cc (rw e at h))
  | inr e ↦ rw e (persist-all d entries (set_config key value t) (rw e at h))
]

persist_in-all :
    (d : StoreFaults) (entries : Rows) (o : Option Rows)
    → (persist_in d entries o).0 ≡ true
    → (persist_in d entries o).1 ≡ put_all_in entries o
persist_in-all d entries none h = refl
persist_in-all d entries (some t) h = ap some (persist-all d entries t h)

module _ (l : Codecs) where
  abbrev pub make : ConfigManager → Change → ConfigManager
  make m (Change.sets key value d) = (update l d key value m).1
  make m (Change.batch entries d) = (update_batch l d entries m).1
  make m (Change.reverts key d) = (delete_entry l d key m).1

  abbrev pub make_all : ConfigManager → List Change → ConfigManager
  make_all m [] = m
  make_all m (c ∷ changes) = make_all (make m c) changes

  apply_all-IsBounded :
      (c : Config) (entries : Rows)
      → IsBounded l c
      → (apply_all l c entries).1 ≡ true
      → IsBounded l (apply_all l c entries).0
  apply_all-IsBounded c [] h e = h
  apply_all-IsBounded c ((key, value) ∷ entries) h e =
      elim (Bool-cases (apply_config_entry l c key value).1) [
        | inl t ↦ rw t (
            apply_all-IsBounded (apply_config_entry l c key value).0 entries
              (apply_config_entry-IsBounded l c key value h t) (rw t at e))
        | inr t ↦ absurd (cc (rw t at e))
      ]

  -- what a batch comes to
  pub record IsBatch (d : StoreFaults) (entries : Rows) (m : ConfigManager)
      (r : Bool × ConfigManager) : Type 0 where
    pub rejected : (apply_all l m.active entries).1 ≡ false → r ≡ (false, m)
    pub failed : r.0 ≡ false → r.1.active ≡ m.active
    pub applied : r.0 ≡ true → r.1.active ≡ (apply_all l m.active entries).0
    pub stored : r.0 ≡ true → r.1.store ≡ put_all_in entries m.store
    pub same_base : r.1.base ≡ m.base

  pub update_batch-IsBatch :
      (d : StoreFaults) (entries : Rows) (m : ConfigManager)
      → IsBatch d entries m (update_batch l d entries m)
  unfolding update_batch
  update_batch-IsBatch d entries m = elim (Bool-cases (apply_all l m.active entries).1) [
    | inl v ↦ elim (Bool-cases (persist_in d entries m.store).0) [
      | inl p ↦
          rw (v, p)
            (record {
              rejected = λ e. absurd (cc (v, e));
              failed = λ e. absurd (cc e);
              applied = λ e. refl;
              stored = λ e. persist_in-all d entries m.store p;
              same_base = refl;
            })
      | inr p ↦
          rw (v, p)
            (record {
              rejected = λ e. absurd (cc (v, e));
              failed = λ e. refl;
              applied = λ e. absurd (cc e);
              stored = λ e. absurd (cc e);
              same_base = refl;
            })
    ]
    | inr v ↦ rw v (record {
      rejected = λ e. refl;
      failed = λ e. refl;
      applied = λ e. absurd (cc e);
      stored = λ e. absurd (cc e);
      same_base = refl;
    })
  ]

  update-IsBounded :
      (d : StoreFaults) (key : String) (value : Text) (m : ConfigManager)
      → IsBounded l m.active
      → IsBounded l (update l d key value m).1.active
  unfolding update
  update-IsBounded d key value m h = elim (Bool-cases (apply_config_entry l m.active key value).1) [
    | inl v ↦ elim (Bool-cases (is_some m.store && d.set_fails key)) [
      | inl p ↦ rw (v, p) h
      | inr p ↦ rw (v, p) (apply_config_entry-IsBounded l m.active key value h v)
    ]
    | inr v ↦ rw v h
  ]

  update_batch-IsBounded :
      (d : StoreFaults) (entries : Rows) (m : ConfigManager)
      → IsBounded l m.active
      → IsBounded l (update_batch l d entries m).1.active
  update_batch-IsBounded d entries m h =
      let r = update_batch l d entries m in
      let b = update_batch-IsBatch d entries m in
      elim (Bool-cases r.0) [
        | inr e ↦ subst (IsBounded l) (sym (b.failed e)) h
        | inl e ↦ elim (Bool-cases (apply_all l m.active entries).1) [
          | inl v ↦
              subst (IsBounded l) (sym (b.applied e)) (apply_all-IsBounded m.active entries h v)
          | inr v ↦ subst (IsBounded l) (sym (ap (λ x. x.1.active) (b.rejected v))) h
        ]
      ]

  delete_entry-IsBounded :
      (d : StoreFaults) (key : String) (m : ConfigManager)
      → IsBounded l m.active
      → IsBounded l (delete_entry l d key m).1.active
  unfolding delete_entry
  delete_entry-IsBounded d key m h =
      let value = get_config_entry l m.base key in
      elim (Bool-cases (is_some m.store && d.delete_fails key)) [
        | inl p ↦ rw p h
        | inr p ↦ elim (Bool-cases (apply_config_entry l m.active key value).1) [
          | inl v ↦ rw (p, v) (apply_config_entry-IsBounded l m.active key value h v)
          | inr v ↦ rw (p, v) h
        ]
      ]

  make-IsBounded :
      (m : ConfigManager) (c : Change) → IsBounded l m.active → IsBounded l (make m c).active
  make-IsBounded m (Change.sets key value d) h = update-IsBounded d key value m h
  make-IsBounded m (Change.batch entries d) h = update_batch-IsBounded d entries m h
  make-IsBounded m (Change.reverts key d) h = delete_entry-IsBounded d key m h

  -- However the settings are changed, one by one, in batches or by reverting them, and whatever the table
  -- refuses, the number of rounds of the agent loop stays between 1 and 100 and its timeout between a minute
  -- and an hour, if they were so at first.
  pub make_all-IsBounded :
      (m : ConfigManager) (changes : List Change)
      → IsBounded l m.active
      → IsBounded l (make_all m changes).active
  make_all-IsBounded m [] h = h
  make_all-IsBounded m (c ∷ changes) h =
      make_all-IsBounded (make m c) changes (make-IsBounded m c h)
