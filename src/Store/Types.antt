-- ===== src/Store/Types.antt =====
-- The rows of internal/store: workflow contexts, agents, sessions and tasks, with the enumerations
-- that the code writes as string constants. A column may hold any string, so an enumeration has a
-- constructor `unset` for the empty string and `other` for every string that is no constant.
-- Row ids, issue numbers and times are natural numbers. Display-only columns are left out.
use matea.Base.{ℕ, String, Text, ◌≡◌, refl, Bool, true, false, Option, arith, str_eq, eq_iff}

pub data Stage : Type 0 where
  unset idle analyzing analyzed developing reviewing done : Stage
  other : String → Stage

pub data Role : Type 0 where
  unset analyze coder review : Role
  other : String → Role

pub data TaskType : Type 0 where
  analyze_issue reply_comment solve_comment solve_issue fix_bug review_pr : TaskType
  other : String → TaskType

pub data TaskStatus : Type 0 where
  pending running success failed partial : TaskStatus

pub data SessionStatus : Type 0 where
  active idle archived : SessionStatus

-- Go's `==` on the strings that the constructors stand for
abbrev pub stage_eq : Stage → Stage → Bool
stage_eq unset unset = true
stage_eq idle idle = true
stage_eq analyzing analyzing = true
stage_eq analyzed analyzed = true
stage_eq developing developing = true
stage_eq reviewing reviewing = true
stage_eq done done = true
stage_eq (other s) (other t) = str_eq s t
stage_eq _ _ = false

pub stage_eq_refl : (s : Stage) → stage_eq s s ≡ true
stage_eq_refl (other s) = ground (arith, eq_iff s s)
stage_eq_refl _ = refl

pub stage_eq_sound : (s t : Stage) → stage_eq s t ≡ true → s ≡ t
stage_eq_sound (other s) (other t) h = ground (arith, eq_iff s t)
stage_eq_sound _ _ h = ground arith

abbrev pub role_eq : Role → Role → Bool
role_eq unset unset = true
role_eq analyze analyze = true
role_eq coder coder = true
role_eq review review = true
role_eq (other s) (other t) = str_eq s t
role_eq _ _ = false

pub role_eq_refl : (r : Role) → role_eq r r ≡ true
role_eq_refl (other s) = ground (arith, eq_iff s s)
role_eq_refl _ = refl

pub role_eq_sound : (r q : Role) → role_eq r q ≡ true → r ≡ q
role_eq_sound (other s) (other t) h = ground (arith, eq_iff s t)
role_eq_sound _ _ h = ground arith

abbrev pub status_eq : TaskStatus → TaskStatus → Bool
status_eq pending pending = true
status_eq running running = true
status_eq success success = true
status_eq failed failed = true
status_eq partial partial = true
status_eq _ _ = false

pub record WorkflowContext : Type 0 where
  pub id : ℕ
  pub repo : String
  pub issue_id : ℕ
  pub pr_id : ℕ
  pub stage : Stage
  pub previous_stage : Stage
  pub active_agent_id : ℕ
  pub active_role : Role
  pub session_id : String

-- An agent, with what the dispatch path reads of it.
pub record Agent : Type 0 where
  pub id : ℕ
  pub name : String
  pub gitea_username : Text
  pub gitea_token : String
  pub role : Role
  pub is_active : Bool

pub record AgentSession : Type 0 where
  pub id : String
  pub repo : String
  pub issue_id : ℕ
  pub pr_id : ℕ
  pub agent_id : ℕ
  pub role : Role
  pub status : SessionStatus
  pub branch : String
  pub workspace_path : String
  pub last_head : String
  pub memory : String
  pub last_task_id : ℕ
  pub message_count : ℕ
  pub last_active_at : ℕ
  pub created_at : ℕ

pub record Task : Type 0 where
  pub id : ℕ
  pub event : String
  pub repo : String
  pub issue_id : ℕ
  pub pr_id : ℕ
  pub agent_id : ℕ
  pub task_type : TaskType
  pub context : String
  pub status : TaskStatus
  pub priority : ℕ
  pub delivery_id : String
  pub base_branch : Text
  pub session_id : String
  pub role : Role
  pub created_at : ℕ
  pub started_at : Option ℕ
  pub finished_at : Option ℕ
  pub result : String
  pub error : String
  pub status_comment_id : ℕ
