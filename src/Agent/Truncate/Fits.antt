-- ===== src/Agent/Truncate/Fits.antt =====
-- What TruncateMessages leaves of a content and of a conversation (internal/agent/truncate.go).
use matea.Base.{
  take, length-take, ℕ, ◌+◌, ◌-◌, ◌*◌, ◌/◌, ◌≤◌, ◌<◌, Text, Bool, true, false, List, ◌++◌, ◌≡◌, ◌≢◌,
  inl, inr, arith, length, length-append, leb, Bool-cases, if◌then◌else◌,
}
use matea.Agent.Messages.{Message, estimate_tokens, total_message_tokens}
use matea.Agent.Truncate.{marker, cut_content, ok, shrink, truncate_messages, strip_tools}

module _ (cjk_bytes : Text → ℕ) (remain : ℕ) (content : Text) where
  length-cut_content : length (cut_content cjk_bytes remain content) ≤ remain * 4 + 1
  unfolding cut_content
  length-cut_content = elim (Bool-cases (leb (length content) (remain * 4))) [
    | inl e ↦ ground (arith, e)
    | inr e ↦ ground (
      arith,
      e,
      length-take (remain * 4) content,
      length-take (remain * 4 - 14) content,
      length-append (take (remain * 4 - 14) content) marker,
    )
  ]

  -- A content that has been cut has one byte more than four for each token that is left, at most; so,
  -- if none of it is CJK, it is counted as no more tokens than are left.
  pub cut_content_fits :
      cjk_bytes (cut_content cjk_bytes remain content) ≡ 0
      → (length (cut_content cjk_bytes remain content) ≤ remain * 4 + 1)
        × (estimate_tokens cjk_bytes (cut_content cjk_bytes remain content) ≤ remain)
  unfolding cut_content estimate_tokens
  cut_content_fits none =
      let l = length-cut_content in
      let e : estimate_tokens cjk_bytes (cut_content cjk_bytes remain content)
          ≡ length (cut_content cjk_bytes remain content) / 4 =
        rw none (omega arith) in
      (l, omega (arith, e, l))

  -- A longer content of CJK text is cut to the same number of bytes, of which two count for a token, and
  -- so it is counted as more tokens than are left, whatever their number.
  pub cut_content_overshoots :
      0 < remain
      → remain * 4 < length content
      → cjk_bytes (take (remain * 4) content) ≡ length (take (remain * 4) content)
      → length (take (remain * 4 - 14) content)
        ≤ cjk_bytes (take (remain * 4 - 14) content ++ marker)
      → cjk_bytes (take (remain * 4 - 14) content ++ marker)
        ≤ length (take (remain * 4 - 14) content ++ marker)
      → remain < estimate_tokens cjk_bytes (cut_content cjk_bytes remain content)
  unfolding cut_content estimate_tokens
  cut_content_overshoots some_left long all_cjk counted bounded = ground (
    arith,
    length-take (remain * 4) content,
    length-take (remain * 4 - 14) content,
    length-append (take (remain * 4 - 14) content) marker,
  )

module _ (cjk_bytes : Text → ℕ) where
  shrink-fits :
      (tools budget : ℕ) (ms out : List Message)
      → shrink cjk_bytes tools budget ms ≡ ok out
      → total_message_tokens cjk_bytes out ≤ budget
  unfolding shrink
  shrink-fits tools budget ms out h = ground (arith, h)

  -- What is sent fits the limit for the input together with the tools, if there is a limit.
  pub truncate_messages-fits :
      (tools : ℕ) (supports : Bool) (limit : ℕ) (ms out : List Message)
      → truncate_messages cjk_bytes tools supports limit ms ≡ ok out
      → limit ≢ 0
      → total_message_tokens cjk_bytes out + (if supports then tools else 0) ≤ limit
  unfolding truncate_messages
  truncate_messages-fits tools true limit ms out h ne =
      ground (arith, shrink-fits tools (limit - tools) ms out)
  truncate_messages-fits tools false limit ms out h ne =
      ground (arith, shrink-fits 0 (limit - 0) (strip_tools ms) out)
