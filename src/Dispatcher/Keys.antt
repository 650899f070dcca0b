-- ===== src/Dispatcher/Keys.antt =====
-- internal/dispatcher/issue_key.go, conversation_target.go and writebackTargetID of executor.go: the
-- number that keys storage, and the number that a reader is answered under.
use matea.Base.{ℕ, Option, none, some, ltb, if◌then◌else◌, ◌≡◌, arith}
use matea.Store.Types.{Task}

unfoldable pub effective_issue_key : ℕ → ℕ → ℕ
effective_issue_key logic_issue_id pr_id =
    if ltb 0 logic_issue_id then logic_issue_id else if ltb 0 pr_id then pr_id else 0

unfoldable pub conversation_target : ℕ → ℕ → ℕ
conversation_target issue_id pr_id = if ltb 0 pr_id then pr_id else issue_id

unfoldable pub writeback_target_id : Task → Option ℕ
unfolding conversation_target
writeback_target_id task =
    let id = conversation_target task.issue_id task.pr_id in if ltb 0 id then some id else none

-- Two PRs with no linked issue never share a key, and neither do a PR with none and another issue.
pub effective_issue_key-inj : (p q : ℕ) → effective_issue_key 0 p ≡ effective_issue_key 0 q → p ≡ q
unfolding effective_issue_key
effective_issue_key-inj p q h = ground arith
