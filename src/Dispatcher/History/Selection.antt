-- ===== src/Dispatcher/History/Selection.antt =====
-- Which comments are selected (internal/dispatcher/comment_history.go).
use matea.Base.{
  ℕ, zero, suc, ◌-◌, ◌≤◌, Text, Bool, true, false, not, ◌&&◌, ◌||◌, List, [], ◌∷◌, ◌++◌, map,
  select, take, take-append_inside, take-nil, take-all, length-take, length, length-append, ltb,
  leb, ◌≡◌, refl, sym, ap, ◌∙◌, subst, inl, inr, All, All-imp, Bool-cases, if◌then◌else◌, arith,
  append_assoc, append-nil,
}
use matea.Dispatcher.History.{
  IssueComment, Indexed, is_useful, candidates, pick_preferred, pick_others, by_position,
  select_comments_for_context,
}
use matea.Dispatcher.History.Positions.{
  IsLater, IsElsewhere, Distinct, Distinct-insert, Distinct-take, pick_preferred_lem,
  pick_others_lem, by_position-first, All-insert, All-take_append, All-append_take,
}

-- one more at the end of what is taken from
take-snoc_room {ℓ} :
    {A : Type ℓ} (n : ℕ) (xs : List A) (x : A)
    → ltb (length xs) n ≡ true
    → (take n (xs ++ x ∷ []) ≡ xs ++ x ∷ []) × (take n xs ≡ xs)
take-snoc_room n xs x e = (
  take-all n (xs ++ x ∷ []) (ground (arith, e, length-append xs (x ∷ []))),
  take-all n xs (ground (arith, e)),
)

take-snoc_full {ℓ} :
    {A : Type ℓ} (n : ℕ) (xs : List A) (x : A)
    → ltb (length xs) n ≡ false
    → take n (xs ++ x ∷ []) ≡ take n xs
take-snoc_full n xs x e = take-append_inside n xs (x ∷ []) (ground (arith, e))

-- what the limit leaves after the preferred ones
left_over {ℓ} :
    {A : Type ℓ} (limit : ℕ) (xs : List A) → limit - length (take limit xs) ≡ limit - length xs
left_over limit xs = elim (Bool-cases (leb (length xs) limit)) [
  | inl e ↦ ap (λ t. limit - length t) (take-all limit xs (ground (arith, e)))
  | inr e ↦ ground (arith, e, length-take limit xs)
]

counted :
    (x : Indexed) (xs : List Indexed) (ys : List IssueComment) (b d : Bool)
    → b ≡ d
    → map (λ (p : Indexed). p.1) xs ≡ ys
    → map (λ (p : Indexed). p.1) (if b then x ∷ xs else xs) ≡ (if d then x.1 ∷ ys else ys)
counted x xs ys true d e same = rw (sym e) (ap (λ r. x.1 ∷ r) same)
counted x xs ys false d e same = rw (sym e) same

module _ (trim : Text → Text) (prefers : Text → Bool) where
  abbrev pub is_preferred : IssueComment → Bool
  is_preferred c = is_useful trim prefers c && prefers c.login

  abbrev pub is_other : IssueComment → Bool
  is_other c = is_useful trim prefers c && not (prefers c.login)

  -- the comments with few enough newer ones of their kind
  abbrev pub recent : ℕ → ℕ → List IssueComment → List IssueComment
  recent n m [] = []
  recent n m (c ∷ newer) =
      let rest = recent n m newer in
      if is_preferred c && ltb (length (select is_preferred newer)) n
        || is_other c && ltb (length (select is_other newer)) m
      then c ∷ rest
      else rest

  -- the two lists of candidates with positions from `i` on, counted
  record IsSplit (i : ℕ) (cs : List IssueComment) (split : List Indexed × List Indexed)
      : Type 0 where
    preferred : length split.0 ≡ length (select is_preferred cs)
    others : length split.1 ≡ length (select is_other cs)
    apart : Distinct (split.0 ++ split.1)
    late : All (λ (p : Indexed). i ≤ p.0) (split.0 ++ split.1)

  module _ (i : ℕ) (c : IssueComment) (cs : List IssueComment) (s : List Indexed × List Indexed)
      (h : IsSplit (suc i) cs s) where
    away : All (IsElsewhere (i, c)) (s.0 ++ s.1)
    away =
        All-imp (λ (p : Indexed). suc i ≤ p.0) (IsElsewhere (i, c)) (λ p le. omega (arith, le))
          (s.0 ++ s.1) h.late

    late : All (λ (p : Indexed). i ≤ p.0) (s.0 ++ s.1)
    late =
        All-imp (λ (p : Indexed). suc i ≤ p.0) (λ (p : Indexed). i ≤ p.0)
          (λ p le. omega (arith, le)) (s.0 ++ s.1) h.late

    skip : is_preferred c ≡ false → is_other c ≡ false → IsSplit i (c ∷ cs) s
    skip p o = record {
      preferred = rw p h.preferred;
      others = rw o h.others;
      apart = h.apart;
      late = late;
    }

    add_preferred :
        is_preferred c ≡ true → is_other c ≡ false → IsSplit i (c ∷ cs) (s.0 ++ (i, c) ∷ [], s.1)
    add_preferred p o =
        let joined = sym (append_assoc s.0 ((i, c) ∷ []) s.1) in
        record {
          preferred = rw p (omega (arith, length-append s.0 ((i, c) ∷ []), h.preferred));
          others = rw o h.others;
          apart = subst Distinct joined (Distinct-insert (i, c) s.0 s.1 away h.apart);
          late =
              subst (All (λ (p : Indexed). i ≤ p.0)) joined
                (All-insert (λ (p : Indexed). i ≤ p.0) (i, c) s.0 s.1 (omega arith) late);
        }

    add_other :
        is_preferred c ≡ false → is_other c ≡ true → IsSplit i (c ∷ cs) (s.0, s.1 ++ (i, c) ∷ [])
    add_other p o =
        let joined = append_assoc s.0 s.1 ((i, c) ∷ []) in
        let whole = sym (append-nil (s.0 ++ s.1)) in
        record {
          preferred = rw p h.preferred;
          others = rw o (omega (arith, length-append s.1 ((i, c) ∷ []), h.others));
          apart = subst Distinct joined (
              Distinct-insert (i, c) (s.0 ++ s.1) [] (subst (All (IsElsewhere (i, c))) whole away)
                (subst Distinct whole h.apart));
          late = subst (All (λ (p : Indexed). i ≤ p.0)) joined (
              All-insert (λ (p : Indexed). i ≤ p.0) (i, c) (s.0 ++ s.1) [] (omega arith)
                (subst (All (λ (p : Indexed). i ≤ p.0)) whole late));
        }

  candidates-IsSplit :
      (i : ℕ) (cs : List IssueComment) → IsSplit i cs (candidates trim prefers i cs)
  candidates-IsSplit i [] = record { preferred = refl; others = refl; apart = tt; late = tt }
  candidates-IsSplit i (c ∷ cs) =
      let s = candidates trim prefers (suc i) cs in
      let h = candidates-IsSplit (suc i) cs in
      elim (Bool-cases (is_useful trim prefers c)) [
        | inl u ↦ elim (Bool-cases (prefers c.login)) [
          | inl e ↦ rw (u, e) (add_preferred i c cs s h (rw (u, e) refl) (rw (u, e) refl))
          | inr e ↦ rw (u, e) (add_other i c cs s h (rw (u, e) refl) (rw (u, e) refl))
        ]
        | inr u ↦ rw u (skip i c cs s h (rw u refl) (rw u refl))
      ]

  module _ (n m i : ℕ) (c : IssueComment) (cs : List IssueComment) (s : List Indexed × List Indexed)
      (h : IsSplit (suc i) cs s) where
    later : All (IsLater (i, c)) (take n s.0 ++ take m s.1)
    later = All-take_append (IsLater (i, c)) n s.0 (take m s.1) (
        All-append_take (IsLater (i, c)) m s.0 s.1 (
          All-imp (λ (p : Indexed). suc i ≤ p.0) (IsLater (i, c)) (λ p le. omega (arith, le))
            (s.0 ++ s.1) h.late))

    order_preferred : by_position (take n (s.0 ++ (i, c) ∷ []) ++ take m s.1) ≡ (
        if ltb (length s.0) n
        then (i, c) ∷ by_position (take n s.0 ++ take m s.1)
        else by_position (take n s.0 ++ take m s.1))
    order_preferred = elim (Bool-cases (ltb (length s.0) n)) [
      | inl e ↦
          let (grown, whole) = take-snoc_room n s.0 (i, c) e in
          let after = subst (λ t. All (IsLater (i, c)) (t ++ take m s.1)) whole later in
          rw e (
            ap (λ t. by_position (t ++ take m s.1)) grown
            ∙ ap by_position (append_assoc s.0 ((i, c) ∷ []) (take m s.1))
            ∙ by_position-first (i, c) s.0 (take m s.1) after
            ∙ ap (λ t. (i, c) ∷ by_position (t ++ take m s.1)) (sym whole))
      | inr e ↦ rw e (ap (λ t. by_position (t ++ take m s.1)) (take-snoc_full n s.0 (i, c) e))
    ]

    order_other : by_position (take n s.0 ++ take m (s.1 ++ (i, c) ∷ [])) ≡ (
        if ltb (length s.1) m
        then (i, c) ∷ by_position (take n s.0 ++ take m s.1)
        else by_position (take n s.0 ++ take m s.1))
    order_other = elim (Bool-cases (ltb (length s.1) m)) [
      | inl e ↦
          let (grown, whole) = take-snoc_room m s.1 (i, c) e in
          let ended = ap (λ t. take n s.0 ++ t) whole ∙ sym (append-nil (take n s.0 ++ s.1)) in
          rw e (
            ap (λ t. by_position (take n s.0 ++ t)) grown
            ∙ ap by_position (sym (append_assoc (take n s.0) s.1 ((i, c) ∷ [])))
            ∙ by_position-first (i, c) (take n s.0 ++ s.1) []
                (subst (All (IsLater (i, c))) ended later)
            ∙ ap (λ t. (i, c) ∷ by_position t) (sym ended))
      | inr e ↦ rw e (ap (λ t. by_position (take n s.0 ++ t)) (take-snoc_full m s.1 (i, c) e))
    ]

  order :
      (n m i : ℕ) (cs : List IssueComment)
      → map
          (λ (p : Indexed). p.1)
          (by_position
            (take n (candidates trim prefers i cs).0 ++ take m (candidates trim prefers i cs).1))
        ≡ recent n m cs
  order n m i [] = rw (take-nil n, take-nil m) refl
  order n m i (c ∷ cs) =
      let s = candidates trim prefers (suc i) cs in
      let h = candidates-IsSplit (suc i) cs in
      let same = order n m (suc i) cs in
      elim (Bool-cases (is_useful trim prefers c)) [
        | inl u ↦ elim (Bool-cases (prefers c.login)) [
          | inl e ↦
              rw (u, e)
                (ap (map (λ (p : Indexed). p.1)) (order_preferred n m i c cs s h)
                  ∙ counted (i, c) _ _ (ltb (length s.0) n) _ (ground (arith, h.preferred)) same)
          | inr e ↦
              rw (u, e)
                (ap (map (λ (p : Indexed). p.1)) (order_other n m i c cs s h)
                  ∙ counted (i, c) _ _ (ltb (length s.1) m) _ (ground (arith, h.others)) same)
        ]
        | inr u ↦ rw u same
      ]

  picked :
      (limit : ℕ) (s : List Indexed × List Indexed)
      → Distinct (s.0 ++ s.1)
      → pick_others limit (pick_preferred limit [] s.0) s.1
        ≡ take limit s.0 ++ take (limit - length s.0) s.1
  picked limit s d =
      ap (λ t. pick_others limit t s.1)
        (pick_preferred_lem limit [] s.0 ∙ ap (λ n. take n s.0) (omega arith))
      ∙ pick_others_lem limit (take limit s.0) s.1 (Distinct-take limit s.0 s.1 d)
      ∙ ap (λ left. take limit s.0 ++ take left s.1) (left_over limit s.0)

  recent-none : (cs : List IssueComment) → recent 0 0 cs ≡ []
  recent-none [] = refl
  recent-none (c ∷ cs) = ground (arith, recent-none cs)

  -- The comments that are selected are those that are useful, in the order of the thread, and have few enough
  -- newer ones: one of a preferred author fewer newer useful ones of preferred authors than the limit, and
  -- another one fewer newer useful ones of other authors than what the preferred ones leave of the limit.
  pub select_comments_for_context-eq-recent :
      (comments : List IssueComment) (limit : ℕ)
      → select_comments_for_context trim prefers comments limit
        ≡ recent limit (limit - length (select is_preferred comments)) comments
  unfolding select_comments_for_context
  select_comments_for_context-eq-recent [] limit = ground arith
  select_comments_for_context-eq-recent (c ∷ cs) zero =
      sym (ap (λ m. recent 0 m (c ∷ cs)) (omega arith) ∙ recent-none (c ∷ cs))
  select_comments_for_context-eq-recent (c ∷ cs) (suc k) =
      let s = candidates trim prefers 0 (c ∷ cs) in
      let h = candidates-IsSplit 0 (c ∷ cs) in
      let nonzero : leb (suc k) 0 ≡ false = ground arith in
      rw nonzero (
        ap (λ t. map (λ (p : Indexed). p.1) (by_position t)) (picked (suc k) s h.apart)
        ∙ order (suc k) (suc k - length s.0) 0 (c ∷ cs)
        ∙ ap (λ n. recent (suc k) (suc k - n) (c ∷ cs)) h.preferred)
