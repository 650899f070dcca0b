-- ===== src/Workflow/TaskTypes/Coverage.antt =====
-- Which triggers lead to which task (TaskTypeTable and ResolveTaskType).
use matea.Base.{true, ◌≡◌, refl, ◌⊎◌, inl, inr, some, arith}
use matea.Store.Types.{Role, reply_comment, solve_comment, fix_bug, review_pr}
use matea.Ingress.Event.{WebhookEvent}
use matea.Workflow.TaskTypes.{
  Surface, issue, pr, Intent, assign, review_requested, mention, slash_dev, slash_reply,
  labelled_bug, resolve_task_type,
}

pub data HasTable : Role → Type 0 where
  analyze_has : HasTable Role.analyze
  coder_has : HasTable Role.coder
  review_has : HasTable Role.review

module _ (surface : Surface) (evt : WebhookEvent) where
  -- For each of the three roles, on issues and on PRs, /dev makes a comment to solve and /reply a
  -- reply, and a plain mention is solved by a coder and answered by the others.
  pub comment_intents :
      (role : Role)
      → HasTable role
      → (resolve_task_type role surface slash_dev evt ≡ some solve_comment)
        × (resolve_task_type role surface slash_reply evt ≡ some reply_comment)
        × ((resolve_task_type role surface mention evt ≡ some reply_comment)
            ⊎ (role ≡ Role.coder)
              × (resolve_task_type role surface mention evt ≡ some solve_comment))
  unfolding resolve_task_type
  comment_intents Role.analyze analyze_has = (ground arith, ground arith, inl (ground arith))
  comment_intents Role.coder coder_has = (ground arith, ground arith, inr (refl, ground arith))
  comment_intents Role.review review_has = (ground arith, ground arith, inl (ground arith))
  comment_intents Role.unset h = elim h [ ]
  comment_intents (Role.other r) h = elim h [ ]

  -- A review task comes only of a review request to a reviewer on a PR, never of a mention.
  pub review_pr_only :
      (role : Role) (intent : Intent)
      → resolve_task_type role surface intent evt ≡ some review_pr
      → (role ≡ Role.review) × (surface ≡ pr) × (intent ≡ review_requested)
  unfolding resolve_task_type
  review_pr_only role intent h = (ground arith, ground arith, ground arith)

  -- A bug is fixed only by a coder who is assigned, on an issue with the label bug.
  pub fix_bug_only :
      (role : Role) (intent : Intent)
      → resolve_task_type role surface intent evt ≡ some fix_bug
      → (role ≡ Role.coder)
        × (surface ≡ issue)
        × (intent ≡ assign)
        × (labelled_bug evt.issue ≡ true)
  unfolding resolve_task_type
  fix_bug_only role intent h = (ground arith, ground arith, ground arith, ground arith)
