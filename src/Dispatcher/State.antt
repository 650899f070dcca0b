-- ===== src/Dispatcher/State.antt =====
-- What the dispatcher reads and changes: the tables, the in-flight locks, the channel of the queue, and
-- what it posts to Gitea. A lock's key is the pair that the source writes as the text repo#issue.
use matea.Base.{
  ℕ, String, Bool, Option, List, ◌∷◌, [], ◌++◌, str_eq, ◌&&◌, ◌==◌, any, not, false, select,
}
use matea.Store.Types.{Agent, Task}
use matea.Store.Contexts.{Contexts}
use matea.Store.Tasks.{Tasks}
use matea.Store.Sessions.{Sessions}
use matea.Workflow.Policy.{WorkflowPolicy, Preset, Gates, GateId, Verdict}
use matea.Workflow.Manager.{Reason}

abbrev pub LockKey : Type 0
LockKey = String × ℕ

-- Why the structural gate refuses a review.
pub data L1Code : Type 0 where
  review_on_closed_pr review_requires_pr no_pr_or_issue : L1Code

-- A comment's content, named by what it says.
pub data Notice : Type 0 where
  l1_rejected : L1Code → Notice
  transition_blocked : Reason → Notice
  gate_notice : GateId → Verdict → Notice
  gate_skipped : GateId → Notice
  lock_held : Notice
  task_pending : Notice
  unassign_failed : Notice

pub data Effect : Type 0 where
  -- a comment by the agent, under the number
  comment : Agent → ℕ → Notice → Effect
  -- the agent's assignment under the number is removed
  unassign : Agent → ℕ → Effect
  -- the status card of the task with the id, under the number
  status_card : ℕ → ℕ → Effect
  -- the outbound event pr_merged with the PR and the issue
  pr_merged : ℕ → ℕ → Effect
  -- the result of the task, as a comment by the agent under the number
  result_comment : Agent → ℕ → ℕ → Effect
  -- the status card of the task turns to done, or to failed
  card_done card_failed : ℕ → ℕ → Effect
  -- the failure of the task as a comment by the agent, and its undelivered result by the administrator
  failure_comment : Agent → ℕ → ℕ → Effect
  undelivered_comment : ℕ → ℕ → Effect

pub record State : Type 0 where
  pub contexts : Contexts
  pub tasks : Tasks
  pub sessions : Sessions
  pub in_flight : List LockKey
  pub channel : List Task
  pub effects : List Effect

-- Settings: the global policy, the policies of repositories in the database (`none` if there is none
-- or it cannot be read), the agents' rows, and the size of the queue's channel.
pub record Settings : Type 0 where
  pub policy : Option WorkflowPolicy
  pub repo_policy : String → Option (Preset × Gates)
  pub agent_row : ℕ → Option Agent
  pub queue_size : ℕ

-- Which of the calls that can fail does so: of the database, and of Gitea.
pub record Faults : Type 0 where
  pub context_fails : Bool
  pub pending_fails : Bool
  pub session_fails : Bool
  pub apply_fails : Bool
  pub enqueue_fails : Bool
  pub unassign_fails : Bool

abbrev pub no_faults : Faults
no_faults = record {
  context_fails = false;
  pending_fails = false;
  session_fails = false;
  apply_fails = false;
  enqueue_fails = false;
  unassign_fails = false;
}

abbrev pub key_eq : LockKey → LockKey → Bool
key_eq (r, n) (s, m) = str_eq r s && n == m

unfoldable pub is_locked : LockKey → List LockKey → Bool
is_locked k locks = any (λ (j : LockKey). key_eq j k) locks

-- inFlight.Delete
unfoldable pub unlock : LockKey → List LockKey → List LockKey
unlock k locks = select (λ (j : LockKey). not (key_eq j k)) locks

-- inFlight.LoadOrStore, where nothing was loaded
unfoldable pub lock : LockKey → List LockKey → List LockKey
lock k locks = k ∷ locks

abbrev pub emit : Effect → State → State
emit e s = record s { effects = s.effects ++ e ∷ [] }
