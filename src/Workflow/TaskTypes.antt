-- ===== src/Workflow/TaskTypes.antt =====
-- internal/workflow/tasktype_table.go: the task type of a role, a surface and an intent.
pub mod Coverage
use matea.Base.{
  Bool, true, false, ◌&&◌, String, Option, none, some, List, [], ◌∷◌, str_eq, if◌then◌else◌,
}
use matea.Store.Types.{
  Role, TaskType, analyze_issue, reply_comment, solve_comment, solve_issue, fix_bug, review_pr,
}
use matea.Ingress.Event.{WebhookEvent, Issue, PullRequest, Label, is_pull_request, has_label}

pub data Surface : Type 0 where
  issue pr : Surface

pub data Intent : Type 0 where
  assign review_requested mention slash_dev slash_reply : Intent

-- The map TaskTypeTable; `none` is a missing key.
unfoldable pub task_type_table : Role → Surface → Intent → Option TaskType
task_type_table Role.analyze issue assign = some analyze_issue
task_type_table Role.analyze issue mention = some reply_comment
task_type_table Role.analyze issue slash_dev = some solve_comment
task_type_table Role.analyze issue slash_reply = some reply_comment
task_type_table Role.analyze pr mention = some reply_comment
task_type_table Role.analyze pr slash_dev = some solve_comment
task_type_table Role.analyze pr slash_reply = some reply_comment
task_type_table Role.coder issue assign = some solve_issue
task_type_table Role.coder issue mention = some solve_comment
task_type_table Role.coder issue slash_dev = some solve_comment
task_type_table Role.coder issue slash_reply = some reply_comment
task_type_table Role.coder pr mention = some solve_comment
task_type_table Role.coder pr slash_dev = some solve_comment
task_type_table Role.coder pr slash_reply = some reply_comment
task_type_table Role.review pr review_requested = some review_pr
task_type_table Role.review pr mention = some reply_comment
task_type_table Role.review pr slash_dev = some solve_comment
task_type_table Role.review pr slash_reply = some reply_comment
task_type_table Role.review issue mention = some reply_comment
task_type_table Role.review issue slash_dev = some solve_comment
task_type_table Role.review issue slash_reply = some reply_comment
task_type_table _ _ _ = none

abbrev pub labelled_bug : Option Issue → Bool
labelled_bug none = false
labelled_bug (some i) = has_label "bug" i.labels

abbrev pub is_bug_case : Role → Surface → Intent → Bool
is_bug_case Role.coder issue assign = true
is_bug_case _ _ _ = false

-- `none` stands for the empty task type.
unfoldable pub resolve_task_type : Role → Surface → Intent → WebhookEvent → Option TaskType
unfolding task_type_table has_label
resolve_task_type role surface intent evt = elim (task_type_table role surface intent) [
  | none ↦ none
  | some task_type ↦
      some
        (if is_bug_case role surface intent && labelled_bug evt.issue then fix_bug else task_type)
]

abbrev pub issue_surface : Option Issue → Surface
issue_surface none = issue
issue_surface (some i) = if is_pull_request i then pr else issue

abbrev pub surface_of : Option PullRequest → Option Issue → Surface
surface_of (some p) i = pr
surface_of none i = issue_surface i

unfoldable pub determine_surface : WebhookEvent → Surface
determine_surface evt = surface_of evt.pr evt.issue
