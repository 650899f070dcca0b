-- ===== src/Agent/Messages.antt =====
-- llm.Message of internal/llm/provider.go, and its size in tokens (internal/agent/truncate.go and
-- estimateTokens of internal/agent/context.go). A text is the list of its bytes. How many bytes of it stand
-- in runs of CJK characters is what a regular expression over Unicode tables answers, and an argument.
use matea.Base.{ℕ, ◌+◌, ◌-◌, ◌/◌, Text, List, [], ◌∷◌, length}

pub record ToolCall : Type 0 where
  pub id : Text
  pub call_type : Text
  pub name : Text
  pub arguments : Text

pub record Message : Type 0 where
  pub role : Text
  pub content : Text
  pub tool_calls : List ToolCall
  pub tool_call_id : Text

module _ (cjk_bytes : Text → ℕ) where
  unfoldable pub estimate_tokens : Text → ℕ
  estimate_tokens s = cjk_bytes s / 2 + (length s - cjk_bytes s) / 4

  unfoldable pub call_tokens : List ToolCall → ℕ
  unfolding estimate_tokens
  call_tokens [] = 0
  call_tokens (c ∷ cs) =
      estimate_tokens c.id
      + estimate_tokens c.call_type
      + estimate_tokens c.name
      + estimate_tokens c.arguments
      + call_tokens cs

  unfoldable pub message_tokens : Message → ℕ
  message_tokens m =
      estimate_tokens m.content
      + estimate_tokens m.role
      + estimate_tokens m.tool_call_id
      + call_tokens m.tool_calls

  abbrev pub total_message_tokens : List Message → ℕ
  total_message_tokens [] = 0
  total_message_tokens (m ∷ ms) = message_tokens m + total_message_tokens ms
