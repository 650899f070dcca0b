-- ===== src/Dispatcher/Lifecycle/Reset.antt =====
-- What /matea reset leaves of an issue (resetIssue of internal/dispatcher/pipeline.go), and what the
-- closing of an issue does (OnIssueClosed of internal/workflow/lifecycle.go).
use mathlib.Core.Option
use matea.Base.{
  ℕ, String, false, Option, none, some, [], ◌≡◌, ◌≢◌, ◌⊎◌, refl, sym, ◌∙◌, ap, arith, inl, inr,
  Option-cases,
}
use matea.Store.Types.{Stage, WorkflowContext}
use matea.Store.Contexts.{get_workflow_context, update_workflow_context}
use matea.Store.Contexts.Laws.{IsValid}
use matea.Store.Contexts.Isolation.{get-update_other, get-update_self}
use matea.Store.Sessions.{list_sessions_by_issue}
use matea.Workflow.Manager.{reverted}
use matea.Workflow.Sessions.Archive.{archive_by_issue-closes}
use matea.Dispatcher.State.{State, is_locked}
use matea.Dispatcher.Lifecycle.{reset_issue, on_issue_closed}
use matea.Dispatcher.Pipeline.Locks.{is_locked-unlock}

abbrev pub reverted_to : Stage → Option WorkflowContext → Option WorkflowContext
reverted_to stage = Option.map (λ (c : WorkflowContext). reverted c stage)

-- What an operation on one issue that goes back to the given contexts leaves: this issue's context as
-- given, all others as they were, no open session of the issue, and the tasks as they were.
pub record Closes (repo : String) (n : ℕ) (own : Option WorkflowContext) (s t : State)
    : Type 0 where
  pub own_context : get_workflow_context repo n t.contexts ≡ own
  pub other_contexts :
      (other : String) (m : ℕ)
      → (other ≢ repo) ⊎ (m ≢ n)
      → get_workflow_context other m t.contexts ≡ get_workflow_context other m s.contexts
  pub no_session : list_sessions_by_issue repo n t.sessions ≡ []
  pub tasks : t.tasks ≡ s.tasks

module _ (now : ℕ) (repo : String) (n : ℕ) (s : State) (v : IsValid s.contexts) where
  reset_none :
      get_workflow_context repo n s.contexts ≡ none
      → (reset_issue now repo n s).contexts ≡ s.contexts
  unfolding reset_issue
  reset_none e = ground arith

  reset_some :
      (ctx : WorkflowContext)
      → get_workflow_context repo n s.contexts ≡ some ctx
      → (reset_issue now repo n s).contexts
        ≡ update_workflow_context (reverted ctx Stage.idle) s.contexts
  unfolding reset_issue
  reset_some ctx e = ground arith

  reset_sessions : list_sessions_by_issue repo n (reset_issue now repo n s).sessions ≡ []
  unfolding reset_issue
  reset_sessions = ground (arith, archive_by_issue-closes repo n now s.sessions)

  reset_unlocks : is_locked (repo, n) (reset_issue now repo n s).in_flight ≡ false
  unfolding reset_issue
  reset_unlocks = ground (arith, is_locked-unlock (repo, n) s.in_flight)

  reset_tasks : (reset_issue now repo n s).tasks ≡ s.tasks
  unfolding reset_issue
  reset_tasks = ground arith

  -- A reset leaves the issue idle and with no owner, if it had a context, without an open session and
  -- unlocked, and it changes neither a task nor another issue's context.
  pub reset_issue-Closes :
      Closes repo n
        (reverted_to Stage.idle (get_workflow_context repo n s.contexts))
        s
        (reset_issue now repo n s)
      × (is_locked (repo, n) (reset_issue now repo n s).in_flight ≡ false)
  reset_issue-Closes = elim (Option-cases (get_workflow_context repo n s.contexts)) [
    | inl e ↦ (
      record {
        own_context =
            ap (get_workflow_context repo n) (reset_none e)
            ∙ e
            ∙ sym (ap (reverted_to Stage.idle) e);
        other_contexts = λ other m ne. ap (get_workflow_context other m) (reset_none e);
        no_session = reset_sessions;
        tasks = reset_tasks;
      },
      reset_unlocks,
    )
    | inr (ctx, e) ↦ (
      record {
        own_context =
            ap (get_workflow_context repo n) (reset_some ctx e)
            ∙ get-update_self s.contexts v repo n ctx e (reverted ctx Stage.idle) refl refl refl
            ∙ sym (ap (reverted_to Stage.idle) e);
        other_contexts = λ other m ne.
            ap (get_workflow_context other m) (reset_some ctx e)
            ∙ get-update_other s.contexts v repo n ctx e (reverted ctx Stage.idle) other m refl ne;
        no_session = reset_sessions;
        tasks = reset_tasks;
      },
      reset_unlocks,
    )
  ]

  closed_contexts :
      (ctx : WorkflowContext)
      → get_workflow_context repo n s.contexts ≡ some ctx
      → (on_issue_closed now repo n s).contexts
        ≡ update_workflow_context (record ctx { stage = Stage.done }) s.contexts
  unfolding on_issue_closed
  closed_contexts ctx e = ground arith

  closed_sessions :
      (ctx : WorkflowContext)
      → get_workflow_context repo n s.contexts ≡ some ctx
      → list_sessions_by_issue repo n (on_issue_closed now repo n s).sessions ≡ []
  unfolding on_issue_closed
  closed_sessions ctx e = ground (arith, archive_by_issue-closes repo n now s.sessions)

  closed_tasks : (on_issue_closed now repo n s).tasks ≡ s.tasks
  unfolding on_issue_closed
  closed_tasks = ground arith

  -- The closing of an issue that has a context marks it done and archives its sessions, and changes
  -- neither a task nor another issue's context.
  pub on_issue_closed-Closes :
      (ctx : WorkflowContext)
      → get_workflow_context repo n s.contexts ≡ some ctx
      → Closes repo n (some (record ctx { stage = Stage.done })) s (on_issue_closed now repo n s)
  on_issue_closed-Closes ctx e = record {
    own_context =
        ap (get_workflow_context repo n) (closed_contexts ctx e)
        ∙ get-update_self s.contexts v repo n ctx e (record ctx { stage = Stage.done }) refl refl
            refl;
    other_contexts = λ other m ne.
        ap (get_workflow_context other m) (closed_contexts ctx e)
        ∙ get-update_other s.contexts v repo n ctx e (record ctx { stage = Stage.done }) other m
            refl ne;
    no_session = closed_sessions ctx e;
    tasks = closed_tasks;
  }
