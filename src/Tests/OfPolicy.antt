-- ===== src/Tests/OfPolicy.antt =====
-- internal/workflow/policy.go and the gates of internal/dispatcher.
use matea.Base.{false, ◌≡◌, refl, some, List, [], ◌∷◌}
use matea.Workflow.Policy.{GateId, GateValue, denied, evaluate_gate, preset_strict, Gates}
use matea.Workflow.Policy.Verdicts.{evaluate_gate-eq-outcome}
use matea.Tests.Samples.{idle_context}

evaluate_gate-eq-outcome_example :
    evaluate_gate (some preset_strict) GateId.coder_requires_analyzed idle_context 2 false
    ≡ record { allowed = false; level = denied; code = GateId.coder_requires_analyzed }
evaluate_gate-eq-outcome_example =
    evaluate_gate-eq-outcome GateId.coder_requires_analyzed idle_context 2 false
      (some preset_strict)

strict_stops_coder :
    (evaluate_gate (some preset_strict) GateId.coder_requires_analyzed idle_context 2 false).allowed
    ≡ false
unfolding evaluate_gate
strict_stops_coder = refl

abbrev overrides : Gates
overrides =
    (GateId.rerun_same_stage, GateValue.hard)
    ∷ (GateId.coder_switch_agent, GateValue.other "  ")
    ∷ []

abbrev gates : List GateId
gates = GateId.coder_requires_analyzed ∷ GateId.rerun_same_stage ∷ []
