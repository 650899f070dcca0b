-- ===== src/Tests/Samples.antt =====
-- Agents, events and tables for the tests.
use matea.Base.{Text, codes, true, none, some, [], ◌∷◌}
use matea.Store.Types.{
  Agent, AgentSession, SessionStatus, Role, Task, TaskType, running, WorkflowContext,
}
use matea.Store.Contexts.{Contexts, fresh_context}
use matea.Store.Tasks.{Tasks}
use matea.Ingress.Event.{WebhookEvent, Issue, User}
use matea.Agents.Registry.{Registry}
use matea.Workflow.Policy.{preset_standard}
use matea.Dispatcher.State.{State, Settings}

abbrev pub analyst : Agent
analyst = record {
  id = 1;
  name = "analyst";
  gitea_username = codes "matea-analyst";
  gitea_token = "t1";
  role = Role.analyze;
  is_active = true;
}

abbrev pub coder_agent : Agent
coder_agent = record {
  id = 2;
  name = "coder";
  gitea_username = codes "matea-coder";
  gitea_token = "t2";
  role = Role.coder;
  is_active = true;
}

abbrev pub roleless : Agent
roleless = record {
  id = 4;
  name = "plain";
  gitea_username = codes "plain";
  gitea_token = "t4";
  role = Role.unset;
  is_active = true;
}

abbrev pub registry : Registry
registry = record {
  agents = (1, analyst) ∷ (2, coder_agent) ∷ (4, roleless) ∷ [];
  by_user =
      (codes "matea-analyst", analyst)
      ∷ (codes "matea-coder", coder_agent)
      ∷ (codes "plain", roleless)
      ∷ [];
}

abbrev pub alice : User
alice = record { login = codes "alice" }

abbrev pub issue_7 : Issue
issue_7 = record {
  number = 7;
  title = codes "Crash";
  body = codes "It crashes";
  state = "open";
  user = alice;
  assignee = none;
  assignees = [];
  labels = record { name = "bug" } ∷ [];
  html_url = codes "/issues/7";
  pull_request = [];
}

abbrev pub assigned_to : Text → WebhookEvent
assigned_to login = record {
  delivery_id = "d1";
  event = "issues";
  action = "assigned";
  repo = "acme/app";
  issue = some issue_7;
  pr = none;
  comment = none;
  assignee = some (record { login = login });
  requested_reviewer = none;
  sender = alice;
}

abbrev pub commented : Text → WebhookEvent
commented body = record {
  delivery_id = "d2";
  event = "issue_comment";
  action = "created";
  repo = "acme/app";
  issue = some issue_7;
  pr = none;
  comment = some (record { body = body; user = alice });
  assignee = none;
  requested_reviewer = none;
  sender = alice;
}

abbrev pub settings : Settings
settings = record {
  policy = some preset_standard;
  repo_policy = λ repo. none;
  agent_row = λ id. none;
  queue_size = 4;
}

abbrev pub empty_state : State
empty_state = record {
  contexts = record { rows = []; next_id = 1 };
  tasks = record { rows = []; next_id = 1 };
  sessions = [];
  in_flight = [];
  channel = [];
  effects = [];
}

abbrev pub idle_context : WorkflowContext
idle_context = fresh_context "acme/app" 7 1

abbrev pub one_context : Contexts
one_context = record { rows = idle_context ∷ []; next_id = 2 }

abbrev pub task_1 : Task
task_1 = record {
  id = 1;
  event = "issues";
  repo = "acme/app";
  issue_id = 7;
  pr_id = 0;
  agent_id = 1;
  task_type = TaskType.analyze_issue;
  context = "";
  status = running;
  priority = 10;
  delivery_id = "d0";
  base_branch = [];
  session_id = "s";
  role = Role.analyze;
  created_at = 3;
  started_at = none;
  finished_at = none;
  result = "";
  error = "";
  status_comment_id = 0;
}

abbrev pub one_task : Tasks
one_task = record { rows = task_1 ∷ []; next_id = 2 }

abbrev pub session_a : AgentSession
session_a = record {
  id = "s1";
  repo = "acme/app";
  issue_id = 7;
  pr_id = 0;
  agent_id = 2;
  role = Role.coder;
  status = SessionStatus.idle;
  branch = "fix-7";
  workspace_path = "";
  last_head = "";
  memory = "";
  last_task_id = 0;
  message_count = 0;
  last_active_at = 2;
  created_at = 1;
}
