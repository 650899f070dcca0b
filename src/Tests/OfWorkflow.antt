-- ===== src/Tests/OfWorkflow.antt =====
-- internal/workflow/context.go and session.go.
use matea.Base.{true, ◌≡◌, ◌↔◌, refl}
use matea.Store.Types.{Stage, Role, reply_comment, solve_comment}
use matea.Workflow.Manager.{transition, completed}
use matea.Workflow.Manager.Admission.{MayStart, transition_iff}
use matea.Workflow.Manager.Rollback.{started, reply-restores_stage}
use matea.Workflow.Manager.Life.{here, next, start, IsSound, Reach-IsSound}
use matea.Tests.Samples.{idle_context}

analyze_starts_idle : (transition idle_context Role.analyze).allowed ≡ true
unfolding transition
analyze_starts_idle = refl

transition_iff_example :
    ((transition idle_context Role.coder).allowed ≡ true) ↔ MayStart Role.coder Stage.idle
transition_iff_example = transition_iff idle_context Role.coder

reply-restores_stage_example :
    ((completed reply_comment 0 (started idle_context 1 Role.analyze "s")).stage ≡ Stage.idle)
    × ((completed solve_comment 0 (started idle_context 1 Role.analyze "s")).stage ≡ Stage.idle)
reply-restores_stage_example =
    reply-restores_stage idle_context 1 Role.analyze "s" 0 (λ e. cc) analyze_starts_idle

Reach-IsSound_example : IsSound (started idle_context 1 Role.analyze "s")
Reach-IsSound_example =
    Reach-IsSound "acme/app" 7 1 (next here (start 1 Role.analyze "s" analyze_starts_idle refl))
