-- ===== src/Tests/OfAgent.antt =====
-- The agent's loop, the retries of a model, the token of the setup, the sandbox and the policy of paths:
-- internal/agent, internal/llm, internal/api, internal/sandbox and internal/agents.
use matea.Base.{
  ℕ, ◌≤◌, Text, codes, text_eq, false, true, none, some, List, [], ◌∷◌, ◌≡◌, ◌⊎◌, arith, length,
  get_last?, select, leb, if◌then◌else◌,
}
use matea.Agent.Messages.{Message, total_message_tokens}
use matea.Agent.Truncate.{drop_turns}
use matea.Agent.Truncate.Drops.{system_head, drop_turns_lem}
use matea.Agent.Loop.{LoopConfig, Round, run}
use matea.Agent.Loop.Bounds.{IsBounded, run-IsBounded}
use matea.Agents.DiffPolicy.{DiffPolicy, violations}
use matea.Agents.DiffPolicy.Verdicts.{is_forbidden, violations-eq-select}
use matea.Model.RateLimit.{Answer, response, failure, chat_completion}
use matea.Model.RateLimit.Attempts.{IsSettled, chat_completion-IsSettled}
use matea.Api.SetupToken.{SetupTokenManager, regenerate, current_token, validate, invalidate}
use matea.Api.SetupToken.OneTime.{Calls, invalidate-closes}

abbrev said : Text → Text → Message
said role content = record { role = role; content = content; tool_calls = []; tool_call_id = [] }

abbrev conversation : List Message
conversation =
    said (codes "system") (codes "You are a coder.")
    ∷ said (codes "user") (codes "Fix it.")
    ∷ said (codes "tool") (codes "a long result of a tool")
    ∷ said (codes "user") (codes "Go on.")
    ∷ []

abbrev no_cjk : Text → ℕ
no_cjk t = 0

abbrev all_cjk : Text → ℕ
all_cjk t = length t

drop_turns_lem_example :
    ((total_message_tokens no_cjk (drop_turns no_cjk (length conversation) 12 conversation) ≤ 12)
      ⊎ (length (drop_turns no_cjk (length conversation) 12 conversation) ≤ 2))
    × (get_last? (drop_turns no_cjk (length conversation) 12 conversation) ≡ get_last? conversation)
    × ((system_head conversation ≡ none)
        ⊎ (system_head (drop_turns no_cjk (length conversation) 12 conversation)
            ≡ system_head conversation))
drop_turns_lem_example = drop_turns_lem no_cjk 12 conversation

abbrev long_text : Text
long_text = codes "0123456789012345678901234567890123456789"

abbrev loop_config : LoopConfig
loop_config = record {
  max_iterations = 3;
  waits = true;
  max_input_tokens = 100;
  tool_tokens = 10;
  supports_tools = true;
  no_progress_limit = 2;
  watched = true;
}

abbrev quiet_round : ℕ → Round
quiet_round i = record {
  cancelled = false;
  cancelled_waiting = false;
  response = some (record { content = codes "done"; tool_calls = [] });
  tool_result = λ call. [];
  snapshot = "";
}

run-IsBounded_example :
    IsBounded no_cjk loop_config 3 (run no_cjk (λ t. false) loop_config quiet_round conversation).0
run-IsBounded_example =
    run-IsBounded no_cjk (λ t. false) loop_config quiet_round (λ e. omega (arith, e)) conversation

abbrev docs_only : DiffPolicy
docs_only = record { allowed = codes "docs/*" ∷ []; denied = [] }

abbrev changed_paths : List Text
changed_paths = codes "docs/a.md" ∷ codes "docs/.env" ∷ codes "main.go" ∷ []

-- a matcher of equal texts only, and a base of everything but the first five bytes
abbrev after_docs : Text → Text
after_docs p = if text_eq p (codes "docs/.env") then codes ".env" else p

violations-eq-select_example :
    violations text_eq after_docs docs_only changed_paths
    ≡ select (is_forbidden text_eq after_docs docs_only) changed_paths
violations-eq-select_example = violations-eq-select text_eq after_docs docs_only changed_paths

-- a provider that answers at the third attempt
abbrev third_answers : ℕ → Answer ℕ
third_answers n = if leb 2 n then response 5 else failure (codes "API error 429: slow down")

chat_completion-IsSettled_example :
    IsSettled third_answers
      (λ n. false)
      (if leb 1 0 then 0 else 3)
      0
      (chat_completion third_answers (λ n. false) 1 3)
chat_completion-IsSettled_example = chat_completion-IsSettled third_answers (λ n. false) 1 3

abbrev issued : SetupTokenManager
issued = regenerate 5 (some (codes "a1b2"))

after_a_try : Calls (invalidate issued) (validate 6 none (codes "a1b2") (invalidate issued)).1
after_a_try = Calls.tried 6 none (codes "a1b2") Calls.done

invalidate-closes_example :
    (validate 7 none (codes "a1b2") (validate 6 none (codes "a1b2") (invalidate issued)).1
      ≡ (false, (validate 6 none (codes "a1b2") (invalidate issued)).1))
    × (current_token 7 none (validate 6 none (codes "a1b2") (invalidate issued)).1
        ≡ ([], (validate 6 none (codes "a1b2") (invalidate issued)).1))
invalidate-closes_example =
    invalidate-closes issued (validate 6 none (codes "a1b2") (invalidate issued)).1 after_a_try 7
      none (codes "a1b2")
