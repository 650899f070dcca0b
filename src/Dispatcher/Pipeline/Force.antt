-- ===== src/Dispatcher/Pipeline/Force.antt =====
-- What stops a task at the configurable gates, and what /force changes of that.
use matea.Base.{ℕ, String, Bool, false, not, some, List, [], ◌∷◌, ◌≡◌, refl, arith, any}
use matea.Store.Types.{Agent, WorkflowContext}
use matea.Workflow.Policy.{WorkflowPolicy, GateId, evaluate_gate}
use matea.Workflow.Policy.Verdicts.{evaluate_gate-denies}
use matea.Dispatcher.State.{State}
use matea.Dispatcher.Pipeline.{run_gates, after_gate, verdict_of, goes_on}

module _ (repo : String) (agent : Agent) (reply_to : ℕ) (ctx : WorkflowContext) (is_draft : Bool)
    (policy : WorkflowPolicy) where
  abbrev pub stops : GateId → Bool
  stops gate = not (evaluate_gate (some policy) gate ctx agent.id is_draft).allowed

  goes_on-force :
      (force : Bool) (gate : GateId)
      → goes_on repo agent reply_to ctx force is_draft
          (verdict_of repo agent reply_to ctx force is_draft policy gate)
        ≡ not (stops gate)
  goes_on-force force gate =
      ground (arith, evaluate_gate-denies gate ctx agent.id is_draft (some policy))

  after_gate-force :
      (force : Bool) (gate : GateId) (s : State)
      → after_gate repo agent reply_to ctx force is_draft policy gate
          (verdict_of repo agent reply_to ctx force is_draft policy gate)
          s
        ≡ after_gate repo agent reply_to ctx false is_draft policy gate
            (verdict_of repo agent reply_to ctx false is_draft policy gate)
            s
  unfolding after_gate
  after_gate-force force gate s =
      ground (arith, evaluate_gate-denies gate ctx agent.id is_draft (some policy))

  -- A task is stopped exactly if one of the gates of its transition does not allow it.
  pub run_gates_stop :
      (force : Bool) (gates : List GateId) (s : State)
      → (run_gates repo agent reply_to ctx force is_draft policy gates s).0 ≡ any stops gates
  unfolding run_gates
  run_gates_stop force [] s = refl
  run_gates_stop force (gate ∷ gates) s = ground (
    arith,
    goes_on-force force gate,
    run_gates_stop force gates (
        after_gate repo agent reply_to ctx force is_draft policy gate
          (verdict_of repo agent reply_to ctx force is_draft policy gate) s),
  )

  -- /force changes nothing: with it and without it the same tasks are stopped and the same is posted,
  -- since a soft gate never stops a task and a hard gate is not skipped.
  pub run_gates-force :
      (force : Bool) (gates : List GateId) (s : State)
      → run_gates repo agent reply_to ctx force is_draft policy gates s
        ≡ run_gates repo agent reply_to ctx false is_draft policy gates s
  unfolding run_gates
  run_gates-force force [] s = refl
  run_gates-force force (gate ∷ gates) s = ground (
    arith,
    goes_on-force force gate,
    goes_on-force false gate,
    after_gate-force force gate s,
    run_gates-force force gates (
        after_gate repo agent reply_to ctx false is_draft policy gate
          (verdict_of repo agent reply_to ctx false is_draft policy gate) s),
  )
