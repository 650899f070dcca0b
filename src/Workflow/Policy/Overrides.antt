-- ===== src/Workflow/Policy/Overrides.antt =====
-- What the overrides of a repository make of a preset (BuildPolicy of internal/workflow/policy.go).
use matea.Base.{
  true, ◌||◌, ◌≡◌, refl, ◌↔◌, Option, none, some, [], ◌∷◌, arith, eq_iff, if◌then◌else◌,
}
use matea.Workflow.Policy.{
  GateId, GateValue, Gates, Preset, gate_eq, blank_id, blank_value, lookup, set_gate,
  apply_overrides, build_policy, get_preset,
}

gate_eq_sound : (a b : GateId) → gate_eq a b ≡ true → a ≡ b
gate_eq_sound (GateId.other s) (GateId.other t) h = ground (arith, eq_iff s t)
gate_eq_sound _ _ h = ground arith

gate_eq_refl : (a : GateId) → gate_eq a a ≡ true
gate_eq_refl (GateId.other s) = ground (arith, eq_iff s s)
gate_eq_refl _ = refl

gate_eq_iff : (a b : GateId) → (gate_eq a b ≡ true) ↔ (a ≡ b)
gate_eq_iff a b = (gate_eq_sound a b, λ e. rw e (gate_eq_refl b))

pub lookup-set_gate :
    (k g : GateId) (v : GateValue) (gates : Gates)
    → lookup g (set_gate k v gates) ≡ (if gate_eq k g then some v else lookup g gates)
lookup-set_gate k g v [] = refl
lookup-set_gate k g v ((j, w) ∷ gates) =
    ground (arith, gate_eq_iff k g, gate_eq_iff j k, gate_eq_iff j g, lookup-set_gate k g v gates)

-- The last override of a gate that is not blank.
abbrev pub last_override : GateId → Gates → Option GateValue
last_override g [] = none
last_override g ((k, v) ∷ overrides) = elim (last_override g overrides) [
  | some w ↦ some w
  | none ↦ if blank_id k || blank_value v then none else if gate_eq k g then some v else none
]

abbrev pub or_else : Option GateValue → Option GateValue → Option GateValue
or_else (some v) d = some v
or_else none d = d

lookup-apply_overrides :
    (g : GateId) (overrides gates : Gates)
    → lookup g (apply_overrides overrides gates)
      ≡ or_else (last_override g overrides) (lookup g gates)
unfolding apply_overrides
lookup-apply_overrides g [] gates = refl
lookup-apply_overrides g ((k, v) ∷ overrides) gates = ground (
  arith,
  lookup-apply_overrides g overrides gates,
  lookup-apply_overrides g overrides (set_gate k v gates),
  lookup-set_gate k g v gates,
)

-- The value of a gate under a built policy is that of its last override that is not blank, and the
-- preset's where it has none. A gate that the source does not know can be overridden too.
pub lookup-build_policy :
    (preset : Preset) (overrides : Gates) (g : GateId)
    → lookup g (build_policy preset overrides).gates
      ≡ or_else (last_override g overrides) (lookup g (get_preset preset).gates)
unfolding build_policy
lookup-build_policy preset overrides g =
    lookup-apply_overrides g overrides (get_preset preset).gates
