-- ===== src/Model/RateLimit/Attempts.antt =====
-- How often a request is made, and which answer is passed on (internal/llm/ratelimit.go).
use matea.Base.{
  ℕ, zero, suc, ◌+◌, Bool, true, false, ◌≡◌, refl, ◌≤◌, ◌<◌, ◌⊎◌, inl, inr, arith, leb, Bool-cases,
  subst, if◌then◌else◌,
}
use matea.Model.RateLimit.{Answer, backoff_cancelled, retried, attempts, chat_completion}

module _ {ℓ} {A : Type ℓ} (ask : ℕ → Answer A) (cancelled : ℕ → Bool) where
  -- an attempt that met a rate limit, with a pause after it that passed
  abbrev pub Repeats : ℕ → Type 0
  Repeats k = (retried ask cancelled (ask k) ≡ true) × (cancelled k ≡ false)

  -- the attempts `n`, …, `last`, where `limit` is the last allowed: each before the last one repeats, and the
  -- last one's answer is passed on, or the cancellation of the pause after it
  abbrev pub IsSettled : ℕ → ℕ → ℕ × Answer A → Type ℓ
  IsSettled limit n r =
      (last : ℕ) × (n ≤ last)
      × (last ≤ limit)
      × (r.0 + n ≡ suc last)
      × ((k : ℕ) → n ≤ k → k < last → Repeats k)
      × (((r.1 ≡ ask last) × ((retried ask cancelled (ask last) ≡ false) ⊎ (last ≡ limit)))
          ⊎ ((r.1 ≡ backoff_cancelled) × (cancelled last ≡ true)))

  cons-Repeats :
      {n last : ℕ}
      → Repeats n
      → ((k : ℕ) → suc n ≤ k → k < last → Repeats k)
      → (k : ℕ) → n ≤ k
      → k < last
      → Repeats k
  cons-Repeats {n} {last} here below k n≤k k<last =
      let order : (n ≡ k) ⊎ (suc n ≤ k) = omega arith in
      elim order [ inl e ↦ subst Repeats e here | inr lower ↦ below k lower k<last ]

  attempts-IsSettled :
      (left n limit : ℕ) → left + n ≡ limit → IsSettled limit n (attempts ask cancelled left n)
  unfolding attempts
  attempts-IsSettled zero n limit h = (
    n,
    omega arith,
    omega arith,
    omega arith,
    λ k n≤k k<n. ground arith,
    inl (refl, inr (omega arith)),
  )
  attempts-IsSettled (suc left) n limit h = elim (Bool-cases (retried ask cancelled (ask n))) [
    | inr e ↦
        rw e
          (n, omega arith, omega arith, omega arith, λ k n≤k k<n. ground arith, inl (refl, inl e))
    | inl e ↦ elim (Bool-cases (cancelled n)) [
      | inl c ↦
          rw (e, c)
            (n, omega arith, omega arith, omega arith, λ k n≤k k<n. ground arith, inr (refl, c))
      | inr c ↦
          rw (e, c)
            (let (last, lo, hi, made, before, end) =
                attempts-IsSettled left (suc n) limit (omega arith) in
              (last, omega arith, hi, omega arith, cons-Repeats (e, c) before, end))
    ]
  ]

  -- A request with `max_retries` retries asks the provider at most once more than that, and once only where
  -- no pause is configured. Every attempt before the last one met a rate limit, and the pause after it was not
  -- cancelled. The answer is that of the last attempt, which is no rate limit unless the retries are used up, or
  -- it says that the pause after the last attempt was cancelled.
  pub chat_completion-IsSettled :
      (backoff_sec max_retries : ℕ)
      → IsSettled
          (if leb backoff_sec 0 then 0 else max_retries)
          0
          (chat_completion ask cancelled backoff_sec max_retries)
  unfolding chat_completion
  chat_completion-IsSettled backoff_sec max_retries = elim (Bool-cases (leb backoff_sec 0)) [
    | inl e ↦ rw e (attempts-IsSettled 0 0 0 (omega arith))
    | inr e ↦ rw e (attempts-IsSettled max_retries 0 max_retries (omega arith))
  ]
