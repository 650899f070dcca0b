-- ===== src/Agent/Loop.antt =====
-- AgentLoop.Run of internal/agent/loop.go: the rounds between the model and its tools. What the model and
-- the tools answer, the workspace's fingerprint after a round, and when the task's context is done are
-- arguments, all by the number of the round.
pub mod Bounds
use matea.Base.{
  ℕ, zero, suc, ◌+◌, Text, codes, String, Bool, true, false, not, ◌&&◌, ◌||◌, Option, none, some,
  List, [], ◌∷◌, ◌++◌, ltb, leb, str_eq, if◌then◌else◌,
}
use matea.Agent.Messages.{Message, ToolCall}
use matea.Agent.Truncate.{Truncated, ok, err, TruncateError, truncate_messages}

pub record Response : Type 0 where
  pub content : Text
  pub tool_calls : List ToolCall

-- What one round meets: `none` is an error of the model.
pub record Round : Type 0 where
  pub cancelled : Bool
  pub cancelled_waiting : Bool
  pub response : Option Response
  pub tool_result : ToolCall → Text
  pub snapshot : String

pub record LoopConfig : Type 0 where
  pub max_iterations : ℕ
  pub waits : Bool
  pub max_input_tokens : ℕ
  pub tool_tokens : ℕ
  pub supports_tools : Bool
  pub no_progress_limit : ℕ
  pub watched : Bool

pub data LoopResult : Type 0 where
  answered : Text → LoopResult
  loop_cancelled truncate_failed model_failed pseudo_tool_call no_progress out_of_rounds :
      LoopResult

pub record Progress : Type 0 where
  pub last_snapshot : String
  pub stalls : ℕ

-- checkNoProgress: the state after it, and whether the loop has to stop
unfoldable pub check_no_progress : LoopConfig → String → Progress → Progress × Bool
check_no_progress c snapshot p =
    let same = not (str_eq p.last_snapshot "") && str_eq snapshot p.last_snapshot in
    let stalls = if same then p.stalls + 1 else 0 in
    if not c.watched || leb c.no_progress_limit 0
    then (p, false)
    else if same && leb c.no_progress_limit stalls
    then (record p { stalls = stalls }, true)
    else (record { last_snapshot = snapshot; stalls = stalls }, false)

abbrev pub assistant_message : Response → Message
assistant_message r = record {
  role = codes "assistant";
  content = r.content;
  tool_calls = r.tool_calls;
  tool_call_id = [];
}

abbrev pub tool_message : (ToolCall → Text) → ToolCall → Message
tool_message result call = record {
  role = codes "tool";
  content = result call;
  tool_calls = [];
  tool_call_id = call.id;
}

abbrev pub tool_messages : (ToolCall → Text) → List ToolCall → List Message
tool_messages result [] = []
tool_messages result (c ∷ cs) = tool_message result c ∷ tool_messages result cs

-- The conversations that were sent to the model, in order, and the result.
abbrev pub Outcome : Type 0
Outcome = List (List Message) × LoopResult

abbrev pub sent : List Message → Outcome → Outcome
sent messages (requests, result) = (messages ∷ requests, result)

module _ (cjk_bytes : Text → ℕ) (is_pseudo : Text → Bool) (c : LoopConfig)
    (rounds : ℕ → Round) where
  abbrev pub reply : Text → LoopResult
  reply content = if is_pseudo content then pseudo_tool_call else answered content

  -- The rounds i, ..., of which `left` are left.
  unfoldable pub run_rounds : ℕ → ℕ → Progress → List Message → Outcome
  unfolding check_no_progress
  run_rounds zero i p messages = ([], out_of_rounds)
  run_rounds (suc left) i p messages =
      let r = rounds i in
      if r.cancelled || ltb 0 i && c.waits && r.cancelled_waiting
      then ([], loop_cancelled)
      else elim (truncate_messages cjk_bytes c.tool_tokens c.supports_tools c.max_input_tokens
          messages) [
            | err e ↦ ([], truncate_failed)
            | ok trimmed ↦ elim r.response [
              | none ↦ (trimmed ∷ [], model_failed)
              | some answer ↦ elim answer.tool_calls [
                | [] ↦ (trimmed ∷ [], reply answer.content)
                | call ∷ calls ↦
                    let more =
                      trimmed
                      ++ (assistant_message answer ∷ tool_messages r.tool_result (call ∷ calls)) in
                    let (p', stops) = check_no_progress c r.snapshot p in
                    let rest = sent trimmed (run_rounds left (suc i) p' more) in
                    if stops then (trimmed ∷ [], no_progress) else rest
              ]
            ]
          ]

  unfoldable pub run : List Message → Outcome
  unfolding run_rounds
  run messages = run_rounds c.max_iterations 0 (record { last_snapshot = ""; stalls = 0 }) messages
