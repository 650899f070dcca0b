-- ===== src/Dispatcher/Pipeline/Frame.antt =====
-- The parts of the pipeline that only post leave the queue, the locks and the tables as they were.
use matea.Base.{ℕ, String, Bool, List, [], ◌∷◌, ◌≡◌, arith, Bool-cases, inl, inr}
use matea.Store.Types.{Agent, WorkflowContext}
use matea.Workflow.Policy.{WorkflowPolicy, GateId, GateEvaluateResult}
use matea.Dispatcher.State.{State, Settings, Notice}
use matea.Dispatcher.Gates.{post_gate_comment, unassign_previous_agent}
use matea.Dispatcher.Pipeline.{run_gates, after_gate, verdict_of, goes_on}

-- Everything but what has been posted is the same.
pub record SameStore (s t : State) : Type 0 where
  pub contexts : t.contexts ≡ s.contexts
  pub tasks : t.tasks ≡ s.tasks
  pub sessions : t.sessions ≡ s.sessions
  pub in_flight : t.in_flight ≡ s.in_flight
  pub channel : t.channel ≡ s.channel

pub SameStore-refl : (s : State) → SameStore s s
SameStore-refl s = ground arith

pub SameStore-trans : {s t u : State} → SameStore s t → SameStore t u → SameStore s u
SameStore-trans h k = ground arith

pub post-SameStore :
    (repo : String) (agent : Agent) (target : ℕ) (notice : Notice) (s : State)
    → SameStore s (post_gate_comment repo agent target notice s)
unfolding post_gate_comment
post-SameStore repo agent target notice s = ground arith

pub unassign-SameStore :
    (c : Settings) (fails : Bool) (repo : String) (issue_id pr_id prev new : ℕ) (s : State)
    → SameStore s (unassign_previous_agent c fails repo issue_id pr_id prev new s)
unfolding unassign_previous_agent
unassign-SameStore c fails repo issue_id pr_id prev new s = ground arith

module _ (repo : String) (agent : Agent) (reply_to : ℕ) (ctx : WorkflowContext)
    (force is_draft : Bool) (policy : WorkflowPolicy) where
  after_gate-SameStore :
      (gate : GateId) (g : GateEvaluateResult) (s : State)
      → SameStore s (after_gate repo agent reply_to ctx force is_draft policy gate g s)
  unfolding after_gate
  after_gate-SameStore gate g s = ground arith

  pub run_gates-SameStore :
      (gates : List GateId) (s : State)
      → SameStore s (run_gates repo agent reply_to ctx force is_draft policy gates s).1
  unfolding run_gates
  run_gates-SameStore [] s = SameStore-refl s
  run_gates-SameStore (gate ∷ gates) s =
      let g = verdict_of repo agent reply_to ctx force is_draft policy gate in
      let s' = after_gate repo agent reply_to ctx force is_draft policy gate g s in
      let step : SameStore s s' = after_gate-SameStore gate g s in
      elim (Bool-cases (goes_on repo agent reply_to ctx force is_draft g)) [
        | inl e ↦ rw e (SameStore-trans step (run_gates-SameStore gates s'))
        | inr e ↦ rw e step
      ]
