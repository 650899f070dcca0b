-- ===== src/Workflow/Manager/Admission.antt =====
-- Which role may start work in which stage (Transition of internal/workflow/context.go).
use matea.Base.{◌≡◌, refl, ◌≢◌, ◌↔◌, true}
use matea.Store.Types.{Stage, Role, WorkflowContext}
use matea.Workflow.Manager.{by_role, transition}

-- The stages that the code names as constants.
pub data Known : Stage → Type 0 where
  idle_known : Known Stage.idle
  analyzing_known : Known Stage.analyzing
  analyzed_known : Known Stage.analyzed
  developing_known : Known Stage.developing
  reviewing_known : Known Stage.reviewing
  done_known : Known Stage.done

-- The stage in which a role works.
pub data WorksIn : Role → Stage → Type 0 where
  analyze_works : WorksIn Role.analyze Stage.analyzing
  coder_works : WorksIn Role.coder Stage.developing
  review_works : WorksIn Role.review Stage.reviewing

-- When a role may start: a reviewer always, the other two in a known stage but analyzing.
pub data MayStart : Role → Stage → Type 0 where
  analyze_starts : {s : Stage} → Known s → s ≢ Stage.analyzing → MayStart Role.analyze s
  coder_starts : {s : Stage} → Known s → s ≢ Stage.analyzing → MayStart Role.coder s
  review_starts : {s : Stage} → MayStart Role.review s

admits :
    (role : Role) (stage : Stage)
    → (by_role role stage).allowed ≡ true
    → MayStart role stage × WorksIn role (by_role role stage).new_stage
unfolding by_role
admits Role.analyze Stage.analyzing h = absurd (cc)
admits Role.analyze Stage.unset h = absurd (cc)
admits Role.analyze (Stage.other s) h = absurd (cc)
admits Role.analyze Stage.idle h = (analyze_starts idle_known (λ e. cc), analyze_works)
admits Role.analyze Stage.analyzed h = (analyze_starts analyzed_known (λ e. cc), analyze_works)
admits Role.analyze Stage.developing h = (analyze_starts developing_known (λ e. cc), analyze_works)
admits Role.analyze Stage.reviewing h = (analyze_starts reviewing_known (λ e. cc), analyze_works)
admits Role.analyze Stage.done h = (analyze_starts done_known (λ e. cc), analyze_works)
admits Role.coder Stage.analyzing h = absurd (cc)
admits Role.coder Stage.unset h = absurd (cc)
admits Role.coder (Stage.other s) h = absurd (cc)
admits Role.coder Stage.idle h = (coder_starts idle_known (λ e. cc), coder_works)
admits Role.coder Stage.analyzed h = (coder_starts analyzed_known (λ e. cc), coder_works)
admits Role.coder Stage.developing h = (coder_starts developing_known (λ e. cc), coder_works)
admits Role.coder Stage.reviewing h = (coder_starts reviewing_known (λ e. cc), coder_works)
admits Role.coder Stage.done h = (coder_starts done_known (λ e. cc), coder_works)
admits Role.review stage h = (review_starts, review_works)
admits Role.unset stage h = absurd (cc)
admits (Role.other r) stage h = absurd (cc)

admitted : (role : Role) (stage : Stage) → MayStart role stage → (by_role role stage).allowed ≡ true
unfolding by_role
admitted Role.analyze _ (analyze_starts analyzing_known ne) = absurd (ne refl)
admitted Role.analyze _ (analyze_starts _ ne) = refl
admitted Role.coder _ (coder_starts analyzing_known ne) = absurd (ne refl)
admitted Role.coder _ (coder_starts _ ne) = refl
admitted Role.review _ review_starts = refl
admitted Role.unset stage m = elim m [ ]
admitted (Role.other r) stage m = elim m [ ]

-- A transition is allowed exactly when the role may start in the stage of the context: an analyzing
-- agent and a coder in each of the six known stages but analyzing, a reviewer in any stage.
pub transition_iff :
    (ctx : WorkflowContext) (role : Role)
    → ((transition ctx role).allowed ≡ true) ↔ MayStart role ctx.stage
unfolding transition
transition_iff ctx role = ((λ h. (admits role ctx.stage h).0), (λ m. admitted role ctx.stage m))

-- The stage that an allowed transition leads to.
pub transition-WorksIn :
    (ctx : WorkflowContext) (role : Role)
    → (transition ctx role).allowed ≡ true
    → WorksIn role (transition ctx role).new_stage
unfolding transition
transition-WorksIn ctx role h = (admits role ctx.stage h).1
