-- ===== src/Agent/Truncate.antt =====
-- TruncateMessages of internal/agent/truncate.go. The tokens of the tools, whose JSON a library writes, are
-- an argument. A loop that drops messages takes their number as fuel: each turn drops one.
pub mod Drops
pub mod Fits
use matea.Base.{
  is_empty, take, ℕ, zero, suc, ◌+◌, ◌-◌, ◌*◌, Text, codes, text_eq, Bool, true, false, not, ◌&&◌,
  ◌||◌, Option, none, some, List, [], ◌∷◌, ◌++◌, map, ltb, leb, select, length, if◌then◌else◌,
}
use matea.Agent.Messages.{Message, ToolCall, estimate_tokens, message_tokens, total_message_tokens}

abbrev pub is_role : Text → Message → Bool
is_role r m = text_eq m.role r

abbrev has_calls : List ToolCall → Bool
has_calls [] = false
has_calls (c ∷ cs) = true

module _ {ℓ} {A : Type ℓ} where
  abbrev pub get_elem? : List A → ℕ → Option A
  get_elem? [] i = none
  get_elem? (x ∷ xs) zero = some x
  get_elem? (x ∷ xs) (suc i) = get_elem? xs i

  abbrev pub remove_at : ℕ → List A → List A
  remove_at i [] = []
  remove_at zero (x ∷ xs) = xs
  remove_at (suc i) (x ∷ xs) = x ∷ remove_at i xs

  abbrev pub set : List A → ℕ → A → List A
  set [] i v = []
  set (x ∷ xs) zero v = v ∷ xs
  set (x ∷ xs) (suc i) v = x ∷ set xs i v

-- for a model that does not support tools
unfoldable pub strip_tools : List Message → List Message
strip_tools ms =
    map (λ (m : Message). record m { tool_calls = [] })
      (select (λ (m : Message). not (is_role (codes "tool") m)) ms)

abbrev pub is_turn : Message → Bool
is_turn m = is_role (codes "tool") m || is_role (codes "assistant") m && has_calls m.tool_calls

-- the first message of a turn with tools, the last message excluded; `i` counts the messages before
unfoldable pub first_turn : ℕ → List Message → Option ℕ
first_turn i [] = none
first_turn i (m ∷ []) = none
first_turn i (m ∷ n ∷ ms) =
    let rest = first_turn (suc i) (n ∷ ms) in if is_turn m then some i else rest

abbrev or_index : ℕ → Option ℕ → ℕ
or_index start none = start
or_index start (some i) = i

-- findOldestDroppableTurn: `none` for -1
unfoldable pub find_oldest_droppable_turn : List Message → Option ℕ
unfolding first_turn
find_oldest_droppable_turn [] = none
find_oldest_droppable_turn (m ∷ ms) =
    if leb (length (m ∷ ms)) 2
    then none
    else if is_role (codes "system") m
    then some (or_index 1 (first_turn 1 ms))
    else some (or_index 0 (first_turn 0 (m ∷ ms)))

-- the last message of the user that has a content
unfoldable pub last_user : ℕ → List Message → Option ℕ
last_user i [] = none
last_user i (m ∷ ms) =
    let here = if is_role (codes "user") m && not (is_empty m.content) then some i else none in
    elim (last_user (suc i) ms) [ some j ↦ some j | none ↦ here ]

abbrev pub marker : Text
marker = codes "\n...[truncated]"

pub data TruncateError : Type 0 where
  tools_too_large tools_and_system_too_large unable_to_fit : TruncateError

pub data Truncated : Type 0 where
  ok : List Message → Truncated
  err : TruncateError → Truncated

module _ (cjk_bytes : Text → ℕ) where
  -- what is cut off a content so that `remain` tokens of four bytes are left
  unfoldable pub cut_content : ℕ → Text → Text
  cut_content remain content =
      let max_chars = remain * 4 in
      if leb remain 0
      then []
      else if leb (length content) max_chars
      then content
      else if ltb max_chars 20
      then take max_chars content
      else take (max_chars - 14) content ++ marker

  unfoldable pub truncate_content_to_budget : ℕ → Message → ℕ → Text
  unfolding cut_content
  truncate_content_to_budget other m budget =
      let overhead =
        estimate_tokens cjk_bytes m.role + estimate_tokens cjk_bytes m.tool_call_id + 4 in
      cut_content (budget - other - overhead) m.content

  -- out[i].Content = truncateContentToBudget(out, i, budget)
  abbrev pub truncate_at : ℕ → ℕ → List Message → Option Message → List Message
  truncate_at budget i out none = out
  truncate_at budget i out (some m) = set out i (record m {
    content =
        truncate_content_to_budget (total_message_tokens cjk_bytes (remove_at i out)) m budget;
  })

  unfoldable pub drop_turns : ℕ → ℕ → List Message → List Message
  drop_turns zero budget out = out
  drop_turns (suc fuel) budget out =
      if leb (total_message_tokens cjk_bytes out) budget
      then out
      else elim (find_oldest_droppable_turn out) [
        | none ↦ out
        | some i ↦ drop_turns fuel budget (remove_at i out)
      ]

  abbrev pub truncate_last_user : ℕ → List Message → List Message
  truncate_last_user budget out = elim (last_user 0 out) [
    | none ↦ out
    | some i ↦ truncate_at budget i out (get_elem? out i)
  ]

  abbrev pub truncate_system_at : ℕ → ℕ → List Message → Option Message → List Message
  truncate_system_at budget i out none = out
  truncate_system_at budget i out (some m) =
      if is_role (codes "system") m && not (is_empty m.content)
      then truncate_at budget i out (some m)
      else out

  -- the loop over the messages i, ..., of which `left` are left
  unfoldable pub truncate_systems : ℕ → ℕ → ℕ → List Message → List Message
  truncate_systems zero i budget out = out
  truncate_systems (suc left) i budget out =
      truncate_systems left (suc i) budget (truncate_system_at budget i out (get_elem? out i))

  abbrev system_tokens : List Message → ℕ
  system_tokens out = total_message_tokens cjk_bytes (select (is_role (codes "system")) out)

  abbrev pub fitting : ℕ → ℕ → List Message → Truncated
  fitting tools budget out =
      if leb (total_message_tokens cjk_bytes out) budget
      then ok out
      else if ltb budget (tools + system_tokens out)
      then err tools_and_system_too_large
      else err unable_to_fit

  -- steps 1 to 3, each only if the budget is still exceeded
  unfoldable pub shrink : ℕ → ℕ → List Message → Truncated
  unfolding drop_turns truncate_systems
  shrink tools budget out =
      let dropped = drop_turns (length out) budget out in
      let cut = truncate_last_user budget dropped in
      let last = truncate_systems (length cut) 0 budget cut in
      if leb (total_message_tokens cjk_bytes out) budget
      then ok out
      else if leb (total_message_tokens cjk_bytes dropped) budget
      then ok dropped
      else if leb (total_message_tokens cjk_bytes cut) budget
      then ok cut
      else fitting tools budget last

  -- `tools` are the tokens of the tools, `supports` whether the model takes any
  unfoldable pub truncate_messages : ℕ → Bool → ℕ → List Message → Truncated
  unfolding shrink strip_tools
  truncate_messages tools supports max_input_tokens ms =
      let used = if supports then tools else 0 in
      let out = if supports then ms else strip_tools ms in
      if leb max_input_tokens 0
      then ok ms
      else if leb max_input_tokens used
      then err tools_too_large
      else shrink used (max_input_tokens - used) out
