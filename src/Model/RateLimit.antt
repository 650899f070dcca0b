-- ===== src/Model/RateLimit.antt =====
-- The retries of internal/llm/ratelimit.go. The answers of the provider and the cancellations in the pauses
-- are arguments, by the number of the attempt; the pause is one of backoffSec seconds.
pub mod Attempts
use matea.Base.{
  ℕ, zero, suc, ◌+◌, Text, codes, Bool, true, false, not, ◌||◌, List, contains, leb, if◌then◌else◌,
}

pub data Answer {ℓ} (A : Type ℓ) : Type ℓ where
  response : A → Answer A
  failure : Text → Answer A
  backoff_cancelled : Answer A

-- on the text of the error
unfoldable pub is_rate_limit_error : Text → Bool
is_rate_limit_error msg =
    contains msg (codes "API error 429:") || contains msg (codes "status code 429")

module _ {ℓ} {A : Type ℓ} (ask : ℕ → Answer A) (cancelled : ℕ → Bool) where
  abbrev pub retried : Answer A → Bool
  retried (response r) = false
  retried (failure msg) = is_rate_limit_error msg
  retried backoff_cancelled = false

  -- The attempts from the given number on, `left` of them behind it: how many are made, and the answer.
  unfoldable pub attempts : ℕ → ℕ → ℕ × Answer A
  unfolding is_rate_limit_error
  attempts zero n = (1, ask n)
  attempts (suc left) n =
      let (made, answer) = attempts left (suc n) in
      let rest : ℕ × Answer A = (made + 1, answer) in
      if not (retried (ask n))
      then (1, ask n)
      else if cancelled n
      then (1, backoff_cancelled)
      else rest

  -- NewRateLimitRetryProvider does not wrap at a backoff of 0
  unfoldable pub chat_completion : ℕ → ℕ → ℕ × Answer A
  unfolding attempts
  chat_completion backoff_sec max_retries =
      if leb backoff_sec 0 then (1, ask 0) else attempts max_retries 0
