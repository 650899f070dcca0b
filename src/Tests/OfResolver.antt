-- ===== src/Tests/OfResolver.antt =====
-- internal/workflow/resolver.go, tasktype_table.go and internal/agents/registry.go.
use matea.Base.{codes, true, false, ◌≡◌, refl, some, none, [], ◌∷◌}
use matea.Store.Types.{Agent, Role, fix_bug}
use matea.Ingress.Event.{Comment, is_pull_request}
use matea.Agents.Registry.{get_by_gitea_username}
use matea.Workflow.TaskTypes.{resolve_task_type}
use matea.Workflow.Comments.{
  format_agent_comment, extract_linked_issue, has_slash_command, mentions,
}
use matea.Workflow.Resolver.{resolve, task_result, resolve_logic_issue_and_pr}
use matea.Workflow.TaskTypes.{determine_surface}
use matea.Workflow.Resolver.Loops.{resolve-agent_comment}
use matea.Workflow.Resolver.Grounded.{IsGrounded, resolve-IsGrounded}
use matea.Tests.Samples.{registry, coder_agent, assigned_to, commented, alice}

closing_beats_reference : extract_linked_issue (codes "Done. Refs #7, ClosEs  #12") ≡ 12
unfolding extract_linked_issue
closing_beats_reference = refl

huge_number_skipped : extract_linked_issue (codes "fixes #9223372036854775808 refs #3") ≡ 3
unfolding extract_linked_issue
huge_number_skipped = refl

no_reference : extract_linked_issue (codes "fixing#7 prefix # 7 refs") ≡ 0
unfolding extract_linked_issue
no_reference = refl

command_in_code :
    has_slash_command (codes "see ```\n/dev\n``` and\n/reply now") (codes "dev") ≡ false
unfolding has_slash_command
command_in_code = refl

command_at_line : has_slash_command (codes "see `x`\n/reply now") (codes "reply") ≡ true
unfolding has_slash_command
command_at_line = refl

names_mentioned :
    mentions (codes "hi @matea-coder, not me@x.y @-z") ≡ codes "matea-coder" ∷ codes "x" ∷ []
unfolding mentions
names_mentioned = refl

resolve-agent_comment_example :
    resolve registry (commented (format_agent_comment (codes "@matea-coder done"))) ≡ none
resolve-agent_comment_example =
    resolve-agent_comment registry (commented (format_agent_comment (codes "@matea-coder done")))
      (record { body = format_agent_comment (codes "@matea-coder done"); user = alice })
      (codes "@matea-coder done") refl refl refl

bug_assigned :
    resolve registry (assigned_to (codes "matea-coder"))
    ≡ some (task_result coder_agent fix_bug Role.coder 7 0 false)
unfolding resolve resolve_task_type determine_surface resolve_logic_issue_and_pr
    get_by_gitea_username is_pull_request
bug_assigned = refl

resolve-IsGrounded_example :
    IsGrounded registry (task_result coder_agent fix_bug Role.coder 7 0 false)
resolve-IsGrounded_example =
    resolve-IsGrounded registry (assigned_to (codes "matea-coder"))
      (task_result coder_agent fix_bug Role.coder 7 0 false) bug_assigned

abbrev plain_comment : Comment
plain_comment = record { body = codes "@plain help"; user = alice }

abbrev renamed : Agent
renamed = record coder_agent { gitea_username = codes "dev-bot" }
