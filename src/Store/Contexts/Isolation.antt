-- ===== src/Store/Contexts/Isolation.antt =====
-- A write to one issue's context leaves the contexts of the other issues as they were.
use matea.Base.{
  ℕ, String, ◌≡◌, sym, ◌∙◌, ◌≢◌, Bool, some, List, [], ◌∷◌, ap, arith, All-find_first, find_first,
  Bool-cases, Option-cases, inl, inr, ◌⊎◌,
}
use matea.Store.Types.{WorkflowContext}
use matea.Store.Contexts.{Contexts, get_workflow_context, has_key, update_workflow_context}
use matea.Store.Contexts.Laws.{IsValid, HasDistinctIds, get-update, find-has_key}

-- Among rows of distinct ids, two searches that find one id find one row.
find_first-inj_id :
    (p q : WorkflowContext → Bool) (rows : List WorkflowContext) (a b : WorkflowContext)
    → HasDistinctIds rows
    → find_first p rows ≡ some a
    → find_first q rows ≡ some b
    → a.id ≡ b.id
    → a ≡ b
find_first-inj_id p q [] a b d ea eb e = absurd (cc)
find_first-inj_id p q (row ∷ rows) a b d ea eb e = elim (Bool-cases (p row)) [
  | inl tp ↦ elim (Bool-cases (q row)) [
    | inl tq ↦
        let ra : some row ≡ some a = rw tp at ea in let rb : some row ≡ some b = rw tq at eb in cc
    | inr fq ↦
        let ra : some row ≡ some a = rw tp at ea in
        let apart : b.id ≢ row.id =
          All-find_first (λ x. x.id ≢ row.id) q rows b d.0 (rw fq at eb) in
        absurd (apart (cc))
  ]
  | inr fp ↦ elim (Bool-cases (q row)) [
    | inl tq ↦
        let rb : some row ≡ some b = rw tq at eb in
        let apart : a.id ≢ row.id =
          All-find_first (λ x. x.id ≢ row.id) p rows a d.0 (rw fp at ea) in
        absurd (apart (cc))
    | inr fq ↦ find_first-inj_id p q rows a b d.1 (rw fp at ea) (rw fq at eb) e
  ]
]

module _ (t : Contexts) (v : IsValid t) (repo : String) (n : ℕ) (ctx : WorkflowContext)
    (found : get_workflow_context repo n t ≡ some ctx) where
  apart_ids :
      (other : String) (m : ℕ) (row : WorkflowContext)
      → (other ≢ repo) ⊎ (m ≢ n)
      → get_workflow_context other m t ≡ some row
      → row.id ≢ ctx.id
  unfolding get_workflow_context
  apart_ids other m row apart e same =
      let one : row ≡ ctx =
        find_first-inj_id (has_key other m) (has_key repo n) t.rows row ctx v.distinct e found
          same in
      let kr : (row.repo ≡ other) × (row.issue_id ≡ m) = find-has_key other m t.rows row e in
      let kc : (ctx.repo ≡ repo) × (ctx.issue_id ≡ n) = find-has_key repo n t.rows ctx found in
      elim apart [
        | inl ne ↦ ne (sym kr.0 ∙ ap (λ (c : WorkflowContext). c.repo) one ∙ kc.0)
        | inr ne ↦ ne (sym kr.1 ∙ ap (λ (c : WorkflowContext). c.issue_id) one ∙ kc.1)
      ]

  -- In a well-formed table, an update of the row that holds an issue's context leaves the contexts of
  -- all other issues as they were.
  pub get-update_other :
      (ctx' : WorkflowContext) (other : String) (m : ℕ)
      → ctx'.id ≡ ctx.id
      → (other ≢ repo) ⊎ (m ≢ n)
      → get_workflow_context other m (update_workflow_context ctx' t)
        ≡ get_workflow_context other m t
  get-update_other ctx' other m same apart = elim (Option-cases (get_workflow_context other m t)) [
    | inl e ↦ get-update other m ctx' t ∙ rw e
    | inr (row, e) ↦
        let ne : row.id ≢ ctx.id = apart_ids other m row apart e in
        get-update other m ctx' t ∙ rw e (ground arith)
  ]

  -- In a well-formed table, an update of the row that holds an issue's context, under the same key, is
  -- what is read next for the issue.
  pub get-update_self :
      (ctx' : WorkflowContext)
      → ctx'.id ≡ ctx.id
      → ctx'.repo ≡ ctx.repo
      → ctx'.issue_id ≡ ctx.issue_id
      → get_workflow_context repo n (update_workflow_context ctx' t) ≡ some ctx'
  get-update_self ctx' same same_repo same_issue =
      get-update repo n ctx' t ∙ rw found (ground arith)
