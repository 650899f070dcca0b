-- ===== src/Store/Contexts/Laws.antt =====
-- What a client sees of the table of contexts: reads after writes, and the invariant of the ids.
use mathlib.Core.Option
use matea.Base.{
  ℕ, ◌+◌, ◌<◌, String, ◌≡◌, refl, ◌≢◌, none, some, List, [], ◌∷◌, ◌++◌, map, eq_iff, arith, All,
  find_first, All-append, All-imp, All-map, find_first-eq-true, find_first-append, Option-cases,
  inl, inr,
}
use matea.Store.Types.{WorkflowContext}
use matea.Store.Contexts.{
  Contexts, get_workflow_context, get_or_create_workflow_context, update_workflow_context, has_key,
  overwrite, fresh_context,
}

has_key-overwrite :
    (repo : String) (n : ℕ) (ctx row : WorkflowContext)
    → has_key repo n (overwrite ctx row) ≡ has_key repo n row
has_key-overwrite repo n ctx row = ground arith

find-map-overwrite :
    (repo : String) (n : ℕ) (ctx : WorkflowContext) (rows : List WorkflowContext)
    → find_first (has_key repo n) (map (overwrite ctx) rows)
      ≡ Option.map (overwrite ctx) (find_first (has_key repo n) rows)
find-map-overwrite repo n ctx [] = refl
find-map-overwrite repo n ctx (row ∷ rows) =
    ground (arith, has_key-overwrite repo n ctx row, find-map-overwrite repo n ctx rows)

-- A read of any key after an update.
pub get-update :
    (repo : String) (n : ℕ) (ctx : WorkflowContext) (t : Contexts)
    → get_workflow_context repo n (update_workflow_context ctx t)
      ≡ Option.map (overwrite ctx) (get_workflow_context repo n t)
unfolding get_workflow_context update_workflow_context
get-update repo n ctx t = find-map-overwrite repo n ctx t.rows

pub find-has_key :
    (repo : String) (n : ℕ) (rows : List WorkflowContext) (row : WorkflowContext)
    → find_first (has_key repo n) rows ≡ some row
    → (row.repo ≡ repo) × (row.issue_id ≡ n)
find-has_key repo n rows row h =
    ground (arith, eq_iff row.repo repo, find_first-eq-true (has_key repo n) rows row h)

-- The ids of the rows are distinct and lie below the next id.
abbrev HasNoId : ℕ → List WorkflowContext → Type 0
HasNoId n = All (λ row. row.id ≢ n)

abbrev pub HasDistinctIds : List WorkflowContext → Type 0
HasDistinctIds [] = Unit
HasDistinctIds (row ∷ rows) = HasNoId row.id rows × HasDistinctIds rows

pub record IsValid (t : Contexts) : Type 0 where
  pub below : All (λ row. row.id < t.next_id) t.rows
  pub distinct : HasDistinctIds t.rows

HasNoId-map :
    (n : ℕ) (ctx : WorkflowContext) (rows : List WorkflowContext)
    → HasNoId n rows
    → HasNoId n (map (overwrite ctx) rows)
HasNoId-map n ctx rows h =
    All-map (λ row. row.id ≢ n) (λ row. row.id ≢ n) (overwrite ctx) (λ row e. ground arith) rows h

id-overwrite : (ctx row : WorkflowContext) → (overwrite ctx row).id ≡ row.id
id-overwrite ctx row = ground arith

HasDistinctIds-map :
    (ctx : WorkflowContext) (rows : List WorkflowContext)
    → HasDistinctIds rows
    → HasDistinctIds (map (overwrite ctx) rows)
HasDistinctIds-map ctx [] h = tt
HasDistinctIds-map ctx (row ∷ rows) h =
    (rw (id-overwrite ctx row) (HasNoId-map row.id ctx rows h.0), HasDistinctIds-map ctx rows h.1)

pub update-IsValid :
    (ctx : WorkflowContext) (t : Contexts) → IsValid t → IsValid (update_workflow_context ctx t)
unfolding update_workflow_context
update-IsValid ctx t v = record {
  below =
      All-map (λ row. row.id < t.next_id) (λ row. row.id < t.next_id) (overwrite ctx)
        (λ row lt. rw (id-overwrite ctx row) lt) t.rows v.below;
  distinct = HasDistinctIds-map ctx t.rows v.distinct;
}

HasDistinctIds-append :
    (rows : List WorkflowContext) (row : WorkflowContext)
    → All (λ x. x.id < row.id) rows
    → HasDistinctIds rows
    → HasDistinctIds (rows ++ row ∷ [])
HasDistinctIds-append [] row below h = (tt, tt)
HasDistinctIds-append (x ∷ rows) row below h = (
  All-append (λ y. y.id ≢ x.id) rows (row ∷ []) h.0 ((λ e. omega (arith, below.0)), tt),
  HasDistinctIds-append rows row below.1 h.1,
)

abbrev pub created : String → ℕ → Contexts → Contexts
created repo n t = record {
  rows = t.rows ++ fresh_context repo n t.next_id ∷ [];
  next_id = t.next_id + 1;
}

module _ (repo : String) (n : ℕ) (t : Contexts) where
  pub get_or_create-found :
      (ctx : WorkflowContext)
      → get_workflow_context repo n t ≡ some ctx
      → get_or_create_workflow_context repo n t ≡ (ctx, t)
  unfolding get_or_create_workflow_context
  get_or_create-found ctx e = rw (e, get_or_create_workflow_context)

  pub get_or_create-missing :
      get_workflow_context repo n t ≡ none
      → get_or_create_workflow_context repo n t ≡ (fresh_context repo n t.next_id, created repo n t)
  unfolding get_or_create_workflow_context
  get_or_create-missing e = rw (e, get_or_create_workflow_context)

  created-IsValid : IsValid t → IsValid (created repo n t)
  created-IsValid v = record {
    below =
        All-append (λ row. row.id < t.next_id + 1) t.rows (fresh_context repo n t.next_id ∷ [])
          (All-imp (λ row. row.id < t.next_id) (λ row. row.id < t.next_id + 1)
            (λ row lt. omega arith) t.rows v.below)
          (omega arith, tt);
    distinct = HasDistinctIds-append t.rows (fresh_context repo n t.next_id) v.below v.distinct;
  }

  -- If the table of contexts is well formed (ids below the next one, and all distinct), it is so after the context of an issue has been read or created.
  pub get_or_create-IsValid : IsValid t → IsValid (get_or_create_workflow_context repo n t).1
  get_or_create-IsValid v = elim (Option-cases (get_workflow_context repo n t)) [
    | inl e ↦ rw (get_or_create-missing e) (created-IsValid v)
    | inr (ctx, e) ↦ rw (get_or_create-found ctx e) v
  ]

  get-created :
      get_workflow_context repo n t ≡ none
      → get_workflow_context repo n (created repo n t) ≡ some (fresh_context repo n t.next_id)
  unfolding get_workflow_context
  get-created e =
      rw (find_first-append (has_key repo n) t.rows (fresh_context repo n t.next_id) e)
        (ground (arith, eq_iff repo repo))

  -- What is created is found under its key.
  pub get-get_or_create :
      get_workflow_context repo n (get_or_create_workflow_context repo n t).1
      ≡ some (get_or_create_workflow_context repo n t).0
  get-get_or_create = elim (Option-cases (get_workflow_context repo n t)) [
    | inl e ↦ rw (get_or_create-missing e) (get-created e)
    | inr (ctx, e) ↦ rw (get_or_create-found ctx e) e
  ]
