-- ===== src/Workflow/Cleanup/Ends.antt =====
-- When the eviction at the limit of the disk ends (internal/workflow/lifecycle.go).
use matea.Base.{
  subst, ℕ, ◌+◌, ◌-◌, ◌≤◌, String, true, false, List, [], ◌∷◌, All, str_eq, eq_iff, leb, ◌≡◌, ◌⊎◌,
  inl, inr, refl, sym, arith, Bool-cases,
}
use matea.Store.Types.{AgentSession}
use matea.Workflow.Cleanup.{
  Disk, Workspaces, is_under, dir_size, remove_all, CleanupFaults, cleared, is_victim, evict_each,
}

module _ (now : ℕ) (f : CleanupFaults) where
  -- removed, or not to be removed
  abbrev pub IsSpent : Disk → AgentSession → Type 0
  IsSpent disk x =
      (dir_size x.workspace_path disk ≡ 0)
      ⊎ (x.workspace_path ≡ "")
      ⊎ (f.remove_fails x.workspace_path ≡ true)

  remove_all-keeps_empty :
      (q path : String) (disk : Disk)
      → dir_size path disk ≡ 0
      → dir_size path (remove_all q disk) ≡ 0
  unfolding remove_all dir_size
  remove_all-keeps_empty q path [] h = refl
  remove_all-keeps_empty q path ((p, size) ∷ disk) h = elim (Bool-cases (is_under path p)) [
    | inl u ↦
        let sum : size + dir_size path disk ≡ 0 = rw u at h in
        let rest = remove_all-keeps_empty q path disk (omega (arith, sum)) in
        elim (Bool-cases (is_under q p)) [
          | inl v ↦ rw v rest
          | inr v ↦ rw (v, u) (omega (arith, sum, rest))
        ]
    | inr u ↦
        let rest = remove_all-keeps_empty q path disk (rw u at h) in
        elim (Bool-cases (is_under q p)) [ inl v ↦ rw v rest | inr v ↦ rw (v, u) rest ]
  ]

  remove_all-empties : (q : String) (disk : Disk) → dir_size q (remove_all q disk) ≡ 0
  unfolding remove_all dir_size
  remove_all-empties q [] = refl
  remove_all-empties q ((p, size) ∷ disk) = elim (Bool-cases (is_under q p)) [
    | inl u ↦ rw u (remove_all-empties q disk)
    | inr u ↦ rw (u, u) (remove_all-empties q disk)
  ]

  -- what is removed stays removed
  evict_each-keeps_empty :
      (max current : ℕ) (xs : List AgentSession) (s : Workspaces) (path : String)
      → dir_size path s.disk ≡ 0
      → dir_size path (evict_each now f max current xs s).2.disk ≡ 0
  unfolding evict_each
  evict_each-keeps_empty max current [] s path h = h
  evict_each-keeps_empty max current (x ∷ xs) s path h =
      elim (Bool-cases (is_victim now f max current x)) [
        | inl e ↦ rw e (
            evict_each-keeps_empty max (current - dir_size x.workspace_path s.disk) xs
              (cleared now f x s) path (remove_all-keeps_empty x.workspace_path path s.disk h))
        | inr e ↦ rw e (evict_each-keeps_empty max current xs s path h)
      ]

  evict_each-stops :
      (max current : ℕ) (xs : List AgentSession) (s : Workspaces)
      → leb current max ≡ true
      → (evict_each now f max current xs s).1 ≡ current
  unfolding evict_each
  evict_each-stops max current [] s fits = refl
  evict_each-stops max current (x ∷ xs) s fits = rw fits (evict_each-stops max current xs s fits)

  ends-cons :
      (max left left' : ℕ) (d d' : Disk) (x : AgentSession) (xs : List AgentSession)
      → left' ≡ left
      → d' ≡ d
      → IsSpent d x
      → (left ≤ max) ⊎ All (IsSpent d) xs
      → (left' ≤ max) ⊎ All (IsSpent d') (x ∷ xs)
  ends-cons max left left' d d' x xs el ed spent (inl fits) = inl (rw el fits)
  ends-cons max left left' d d' x xs el ed spent (inr others) =
      inr (subst (λ e. All (IsSpent e) (x ∷ xs)) (sym ed) (spent, others))

  -- a session that is passed over
  evict_each-skip :
      (max current : ℕ) (x : AgentSession) (xs : List AgentSession) (s : Workspaces)
      → is_victim now f max current x ≡ false
      → ((evict_each now f max current (x ∷ xs) s).1 ≡ (evict_each now f max current xs s).1)
        × ((evict_each now f max current (x ∷ xs) s).2.disk
            ≡ (evict_each now f max current xs s).2.disk)
  unfolding evict_each
  evict_each-skip max current x xs s e = (rw e refl, rw e refl)

  evict_each-take :
      (max current : ℕ) (x : AgentSession) (xs : List AgentSession) (s : Workspaces)
      → is_victim now f max current x ≡ true
      → ((evict_each now f max current (x ∷ xs) s).1
          ≡ (evict_each now f max
              (current - dir_size x.workspace_path s.disk)
              xs
              (cleared now f x s)).1)
        × ((evict_each now f max current (x ∷ xs) s).2.disk
            ≡ (evict_each now f max
                (current - dir_size x.workspace_path s.disk)
                xs
                (cleared now f x s)).2.disk)
  unfolding evict_each
  evict_each-take max current x xs s e = (rw e refl, rw e refl)

  passed :
      (max current : ℕ) (x : AgentSession)
      → leb current max ≡ false
      → is_victim now f max current x ≡ false
      → (x.workspace_path ≡ "") ⊎ (f.remove_fails x.workspace_path ≡ true)
  passed max current x l v = elim (Bool-cases (str_eq x.workspace_path "")) [
    | inl p ↦ inl (ground (arith, eq_iff x.workspace_path ""))
    | inr p ↦ elim (Bool-cases (f.remove_fails x.workspace_path)) [
      | inl r ↦ inr r
      | inr r ↦ absurd (ground (arith, l, v, p, r))
    ]
  ]

  -- The eviction stops at a size that fits the limit, or it has removed the workspace of every session that it was
  -- given, those that cannot be removed excepted.
  pub evict_each-ends :
      (max current : ℕ) (xs : List AgentSession) (s : Workspaces)
      → ((evict_each now f max current xs s).1 ≤ max)
        ⊎ All (IsSpent (evict_each now f max current xs s).2.disk) xs
  evict_each-ends max current [] s = inr tt
  evict_each-ends max current (x ∷ xs) s = elim (Bool-cases (leb current max)) [
    | inl l ↦ inl (rw (evict_each-stops max current (x ∷ xs) s l) (ground (arith, l)))
    | inr l ↦ elim (Bool-cases (is_victim now f max current x)) [
      | inl v ↦
          let rest = current - dir_size x.workspace_path s.disk in
          let s' = cleared now f x s in
          let (el, ed) = evict_each-take max current x xs s v in
          let empty = remove_all-empties x.workspace_path s.disk in
          ends-cons max _ _ _ _ x xs el ed
            (inl (evict_each-keeps_empty max rest xs s' x.workspace_path empty))
            (evict_each-ends max rest xs s')
      | inr v ↦
          let (el, ed) = evict_each-skip max current x xs s v in
          ends-cons max _ _ _ _ x xs el ed (inr (passed max current x l v))
            (evict_each-ends max current xs s)
    ]
  ]
