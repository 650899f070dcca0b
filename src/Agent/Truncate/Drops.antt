-- ===== src/Agent/Truncate/Drops.antt =====
-- The loop of TruncateMessages that drops messages (internal/agent/truncate.go).
use matea.Base.{
  ℕ, zero, suc, ◌+◌, ◌≤◌, ◌<◌, Text, codes, Option, none, some, List, [], ◌∷◌, ◌≡◌, ◌⊎◌, inl, inr,
  refl, sym, ◌∙◌, arith, length, leb, get_last?, Bool-cases, Option-cases, if◌then◌else◌,
}
use matea.Agent.Messages.{Message, total_message_tokens}
use matea.Agent.Truncate.{
  is_role, is_turn, remove_at, first_turn, find_oldest_droppable_turn, drop_turns,
}

-- the index lies before the last message
first_turn_bounds :
    (i j : ℕ) (ms : List Message) → first_turn i ms ≡ some j → (i ≤ j) × (j + 1 < i + length ms)
unfolding first_turn
first_turn_bounds i j [] h = absurd (cc)
first_turn_bounds i j (m ∷ []) h = absurd (cc)
first_turn_bounds i j (m ∷ n ∷ ms) h = elim (Bool-cases (is_turn m)) [
  | inl e ↦ let same : some i ≡ some j = rw e at h in ground arith
  | inr e ↦
      let ih = first_turn_bounds (suc i) j (n ∷ ms) (rw e at h) in
      (omega (arith, ih.0), omega (arith, ih.1))
]

pub droppable_bounds :
    (i : ℕ) (ms : List Message) → find_oldest_droppable_turn ms ≡ some i → i + 1 < length ms
unfolding find_oldest_droppable_turn
droppable_bounds i [] h = absurd (cc)
droppable_bounds i (m ∷ ms) h = elim (Option-cases (first_turn 0 (m ∷ ms))) [
  | inl e0 ↦ elim (Option-cases (first_turn 1 ms)) [
    | inl e1 ↦ ground arith
    | inr (j, e1) ↦ ground (arith, first_turn_bounds 1 j ms e1)
  ]
  | inr (k, e0) ↦ elim (Option-cases (first_turn 1 ms)) [
    | inl e1 ↦ ground (arith, first_turn_bounds 0 k (m ∷ ms) e0)
    | inr (j, e1) ↦ ground (arith, first_turn_bounds 0 k (m ∷ ms) e0, first_turn_bounds 1 j ms e1)
  ]
]

-- Nothing is left to drop only if there are two messages at most.
none_droppable : (ms : List Message) → find_oldest_droppable_turn ms ≡ none → length ms ≤ 2
unfolding find_oldest_droppable_turn
none_droppable [] h = omega arith
none_droppable (m ∷ ms) h = ground arith

length-remove_at :
    (i : ℕ) (ms : List Message) → i < length ms → length (remove_at i ms) + 1 ≡ length ms
length-remove_at i [] h = absurd (omega arith)
length-remove_at zero (m ∷ ms) h = omega arith
length-remove_at (suc i) (m ∷ ms) h = ground (arith, length-remove_at i ms)

get_last?-remove_at :
    (i : ℕ) (ms : List Message) → i + 1 < length ms → get_last? (remove_at i ms) ≡ get_last? ms
get_last?-remove_at i [] h = absurd (omega arith)
get_last?-remove_at i (m ∷ []) h = absurd (omega arith)
get_last?-remove_at zero (m ∷ n ∷ ms) h = refl
get_last?-remove_at (suc zero) (m ∷ n ∷ []) h = absurd (omega arith)
get_last?-remove_at (suc zero) (m ∷ n ∷ o ∷ ms) h = refl
get_last?-remove_at (suc (suc i)) (m ∷ n ∷ ms) h =
    get_last?-remove_at (suc i) (n ∷ ms) (omega arith)

-- the system message in front, if there is one
abbrev pub system_head : List Message → Option Message
system_head [] = none
system_head (m ∷ ms) = if is_role (codes "system") m then some m else none

system_head-remove_at :
    (i : ℕ) (ms : List Message) (m : Message)
    → find_oldest_droppable_turn ms ≡ some i
    → system_head ms ≡ some m
    → system_head (remove_at i ms) ≡ some m
unfolding find_oldest_droppable_turn
system_head-remove_at i [] m h s = absurd (cc)
system_head-remove_at zero (n ∷ ms) m h s = elim (Option-cases (first_turn 1 ms)) [
  | inl e ↦ absurd (ground arith)
  | inr (j, e) ↦ absurd (ground (arith, first_turn_bounds 1 j ms e))
]
system_head-remove_at (suc i) (n ∷ ms) m h s = ground arith

module _ (cjk_bytes : Text → ℕ) where
  -- With a turn for each message the loop ends by its own condition: the budget is met, or nothing more
  -- can be dropped.
  pub drop_turns_ends :
      (fuel budget : ℕ) (ms : List Message)
      → length ms ≤ fuel
      → (total_message_tokens cjk_bytes (drop_turns cjk_bytes fuel budget ms) ≤ budget)
        ⊎ (length (drop_turns cjk_bytes fuel budget ms) ≤ 2)
  unfolding drop_turns
  drop_turns_ends zero budget ms h = inr (omega arith)
  drop_turns_ends (suc fuel) budget ms h =
      elim (Bool-cases (leb (total_message_tokens cjk_bytes ms) budget)) [
        | inl e ↦ rw e (inl (ground (arith, e)))
        | inr e ↦ elim (Option-cases (find_oldest_droppable_turn ms)) [
          | inl n ↦ rw (e, n) (inr (none_droppable ms n))
          | inr (i, n) ↦
              rw (e, n)
                (drop_turns_ends fuel budget (remove_at i ms)
                  (omega (arith, droppable_bounds i ms n, length-remove_at i ms)))
        ]
      ]

  pub get_last?-drop_turns :
      (fuel budget : ℕ) (ms : List Message)
      → get_last? (drop_turns cjk_bytes fuel budget ms) ≡ get_last? ms
  unfolding drop_turns
  get_last?-drop_turns zero budget ms = refl
  get_last?-drop_turns (suc fuel) budget ms =
      elim (Bool-cases (leb (total_message_tokens cjk_bytes ms) budget)) [
        | inl e ↦ rw e refl
        | inr e ↦ elim (Option-cases (find_oldest_droppable_turn ms)) [
          | inl n ↦ rw (e, n) refl
          | inr (i, n) ↦
              rw (e, n)
                (get_last?-drop_turns fuel budget (remove_at i ms)
                  ∙ get_last?-remove_at i ms (droppable_bounds i ms n))
        ]
      ]

  pub system_head-drop_turns :
      (fuel budget : ℕ) (ms : List Message) (m : Message)
      → system_head ms ≡ some m
      → system_head (drop_turns cjk_bytes fuel budget ms) ≡ some m
  unfolding drop_turns
  system_head-drop_turns zero budget ms m s = s
  system_head-drop_turns (suc fuel) budget ms m s =
      elim (Bool-cases (leb (total_message_tokens cjk_bytes ms) budget)) [
        | inl e ↦ rw e s
        | inr e ↦ elim (Option-cases (find_oldest_droppable_turn ms)) [
          | inl n ↦ rw (e, n) s
          | inr (i, n) ↦
              rw (e, n)
                (system_head-drop_turns fuel budget (remove_at i ms) m
                  (system_head-remove_at i ms m n s))
        ]
      ]

  -- Dropping messages comes to an end, since each turn drops one: the messages that are left fit the
  -- budget or are two at most. The last message is kept, and so is a system message in front.
  pub drop_turns_lem :
      (budget : ℕ) (ms : List Message)
      → ((total_message_tokens cjk_bytes (drop_turns cjk_bytes (length ms) budget ms) ≤ budget)
          ⊎ (length (drop_turns cjk_bytes (length ms) budget ms) ≤ 2))
        × (get_last? (drop_turns cjk_bytes (length ms) budget ms) ≡ get_last? ms)
        × ((system_head ms ≡ none)
            ⊎ (system_head (drop_turns cjk_bytes (length ms) budget ms) ≡ system_head ms))
  drop_turns_lem budget ms = (
    drop_turns_ends (length ms) budget ms (omega arith),
    get_last?-drop_turns (length ms) budget ms,
    elim (Option-cases (system_head ms)) [
      | inl e ↦ inl e
      | inr (m, e) ↦ inr (system_head-drop_turns (length ms) budget ms m e ∙ sym e)
    ],
  )
