-- ===== src/Agent/Loop/Bounds.antt =====
-- The bounds of an agent's loop (internal/agent/loop.go).
use matea.Base.{
  ℕ, zero, suc, ◌+◌, ◌≤◌, Text, Bool, ◌&&◌, ◌||◌, List, [], ◌∷◌, ◌++◌, ◌≡◌, ◌≢◌, refl, arith,
  length, All, ltb, Bool-cases, Option-cases, inl, inr, if◌then◌else◌, ◌⊎◌,
}
use matea.Agent.Messages.{Message, ToolCall, total_message_tokens}
use matea.Agent.Truncate.{Truncated, ok, err, TruncateError, truncate_messages}
use matea.Agent.Truncate.Fits.{truncate_messages-fits}
use matea.Agent.Loop.{
  Round, LoopConfig, Progress, check_no_progress, assistant_message, tool_messages, run_rounds, run,
}

Truncated-cases :
    (t : Truncated) → ((out : List Message) × (t ≡ ok out)) ⊎ ((e : TruncateError) × (t ≡ err e))
Truncated-cases (ok out) = inl (out, refl)
Truncated-cases (err e) = inr (e, refl)

calls-cases :
    (cs : List ToolCall) → (cs ≡ []) ⊎ ((c : ToolCall) × (rest : List ToolCall) × (cs ≡ c ∷ rest))
calls-cases [] = inl refl
calls-cases (c ∷ cs) = inr (c, cs, refl)

module _ (cjk_bytes : Text → ℕ) (c : LoopConfig) where
  -- a request that the model's limit for the input allows, its tools counted in
  abbrev pub FitsLimit : List Message → Type 0
  FitsLimit ms =
      total_message_tokens cjk_bytes ms + (if c.supports_tools then c.tool_tokens else 0)
      ≤ c.max_input_tokens

  -- at most `n` requests, each within the limit
  pub record IsBounded (n : ℕ) (requests : List (List Message)) : Type 0 where
    pub count : length requests ≤ n
    pub fit : All FitsLimit requests

module _ (cjk_bytes : Text → ℕ) (is_pseudo : Text → Bool) (c : LoopConfig) (rounds : ℕ → Round)
    (limited : c.max_input_tokens ≢ 0) where
  none-IsBounded : (n : ℕ) → IsBounded cjk_bytes c n []
  none-IsBounded n = record { count = omega arith; fit = tt }

  one-IsBounded :
      (n : ℕ) (ms : List Message)
      → FitsLimit cjk_bytes c ms
      → IsBounded cjk_bytes c (suc n) (ms ∷ [])
  one-IsBounded n ms h = record { count = omega arith; fit = (h, tt) }

  run_rounds-IsBounded :
      (left i : ℕ) (p : Progress) (ms : List Message)
      → IsBounded cjk_bytes c left (run_rounds cjk_bytes is_pseudo c rounds left i p ms).0
  unfolding run_rounds
  run_rounds-IsBounded zero i p ms = none-IsBounded zero
  run_rounds-IsBounded (suc left) i p ms =
      let r = rounds i in
      elim (Bool-cases (r.cancelled || ltb 0 i && c.waits && r.cancelled_waiting)) [
        | inl e ↦ rw e (none-IsBounded (suc left))
        | inr e ↦
            elim (Truncated-cases
              (truncate_messages cjk_bytes c.tool_tokens c.supports_tools c.max_input_tokens ms)) [
                | inr (x, t) ↦ rw (e, t) (none-IsBounded (suc left))
                | inl (out, t) ↦
                    let fits : FitsLimit cjk_bytes c out =
                      truncate_messages-fits cjk_bytes c.tool_tokens c.supports_tools
                        c.max_input_tokens ms out t limited in
                    elim (Option-cases r.response) [
                      | inl n ↦ rw (e, t, n) (one-IsBounded left out fits)
                      | inr (answer, n) ↦ elim (calls-cases answer.tool_calls) [
                        | inl k ↦ rw (e, t, n, k) (one-IsBounded left out fits)
                        | inr (call, calls, k) ↦
                            let more : List Message =
                              out
                              ++ (assistant_message answer
                                  ∷ tool_messages r.tool_result (call ∷ calls)) in
                            let step : Progress × Bool = check_no_progress c r.snapshot p in
                            let ih : IsBounded cjk_bytes c left
                                (run_rounds cjk_bytes is_pseudo c rounds left (suc i) step.0
                                  more).0 =
                              run_rounds-IsBounded left (suc i) step.0 more in
                            elim (Bool-cases step.1) [
                              | inl s ↦ rw (e, t, n, k, s) (one-IsBounded left out fits)
                              | inr s ↦
                                  rw (e, t, n, k, s)
                                    (record {
                                      count = omega (arith, ih.count);
                                      fit = (fits, ih.fit);
                                    })
                            ]
                      ]
                    ]
              ]
      ]

  -- A run of the loop makes as many requests as the configuration allows, at most, whatever the model and
  -- the tools answer, and each request fits the limit for the input together with the tools.
  pub run-IsBounded :
      (ms : List Message)
      → IsBounded cjk_bytes c c.max_iterations (run cjk_bytes is_pseudo c rounds ms).0
  unfolding run
  run-IsBounded ms =
      run_rounds-IsBounded c.max_iterations 0 (record { last_snapshot = ""; stalls = 0 }) ms
