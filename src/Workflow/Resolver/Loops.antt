-- ===== src/Workflow/Resolver/Loops.antt =====
-- The comments that the resolver ignores, so that the program does not answer itself
-- (internal/workflow/resolver.go, gate_l1.go).
use matea.Base.{
  Text, String, Bool, true, false, none, some, ◌∷◌, ◌≡◌, arith, str_eq, eq_iff, has_prefix-append,
  ◌∙◌, ap, ◌||◌,
}
use matea.Ingress.Event.{WebhookEvent, Comment}
use matea.Agents.Registry.{Registry}
use matea.Workflow.Comments.{format_agent_comment, is_agent_comment, agent_comment_marker}
use matea.Workflow.Resolver.{resolve, resolve_comment}

-- A comment that the program has formatted itself is recognised as such.
pub is_agent_comment-format : (body : Text) → is_agent_comment (format_agent_comment body) ≡ true
unfolding is_agent_comment format_agent_comment
is_agent_comment-format body = has_prefix-append agent_comment_marker (10 ∷ body)

abbrev pub is_comment_event : String → Bool
is_comment_event event = str_eq event "issue_comment" || str_eq event "pull_request_comment"

names_apart :
    (event : String)
    → is_comment_event event ≡ true
    → (str_eq event "issues" ≡ false) × (str_eq event "pull_request" ≡ false)
names_apart event h = (
  ground (
    arith,
    eq_iff event "issue_comment",
    eq_iff event "pull_request_comment",
    eq_iff event "issues",
    eq_iff "issue_comment" "issues",
    eq_iff "pull_request_comment" "issues",
  ),
  ground (
    arith,
    eq_iff event "issue_comment",
    eq_iff event "pull_request_comment",
    eq_iff event "pull_request",
    eq_iff "issue_comment" "pull_request",
    eq_iff "pull_request_comment" "pull_request",
  ),
)

pub resolve-comment_event :
    (registry : Registry) (evt : WebhookEvent)
    → is_comment_event evt.event ≡ true
    → resolve registry evt ≡ resolve_comment registry evt evt.comment
unfolding resolve
resolve-comment_event registry evt h = ground (arith, names_apart evt.event)

agent_comment_ignored :
    (registry : Registry) (evt : WebhookEvent) (c : Comment)
    → is_agent_comment c.body ≡ true
    → resolve_comment registry evt (some c) ≡ none
unfolding resolve_comment
agent_comment_ignored registry evt c h = ground arith

-- A comment event whose comment the program has marked as its own is resolved to nothing, whoever is
-- mentioned in it.
pub resolve-agent_comment :
    (registry : Registry) (evt : WebhookEvent) (c : Comment) (body : Text)
    → is_comment_event evt.event ≡ true
    → evt.comment ≡ some c
    → c.body ≡ format_agent_comment body
    → resolve registry evt ≡ none
resolve-agent_comment registry evt c body event comment written =
    resolve-comment_event registry evt event
    ∙ ap (resolve_comment registry evt) comment
    ∙ agent_comment_ignored registry evt c
        (ap is_agent_comment written ∙ is_agent_comment-format body)
