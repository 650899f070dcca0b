-- ===== src/Store/Sessions/Laws.antt =====
-- Which open sessions of an issue a list of sessions accounts for, and what archiving one of them
-- leaves (internal/store/session.go).
use matea.Base.{
  ℕ, String, true, List, [], ◌∷◌, ◌≡◌, refl, arith, any, All, All-imp, select, str_eq, eq_iff,
}
use matea.Store.Types.{AgentSession}
use matea.Store.Sessions.{Sessions, is_of, archived_at}

module _ (repo : String) (n : ℕ) where
  -- An open session of the issue has the id of one of the list.
  abbrev pub IsCovered : List AgentSession → AgentSession → Type 0
  IsCovered l r = is_of repo n r ≡ true → any (λ (s : AgentSession). str_eq r.id s.id) l ≡ true

  IsCovered-cons :
      (x : AgentSession) (l : List AgentSession) (r : AgentSession)
      → IsCovered l r
      → IsCovered (x ∷ l) r
  IsCovered-cons x l r h open_ = ground (arith, h open_)

  pub self-IsCovered : (t : Sessions) → All (IsCovered (select (is_of repo n) t)) t
  self-IsCovered [] = tt
  self-IsCovered (x ∷ t) = (
    (λ h. ground (arith, eq_iff x.id x.id)),
    All-imp (IsCovered (select (is_of repo n) t)) (IsCovered (select (is_of repo n) (x ∷ t)))
        (λ r h open_. ground (arith, h open_)) t (self-IsCovered t),
  )

  pub archived-IsCovered :
      (now : ℕ) (s : AgentSession) (l : List AgentSession) (r : AgentSession)
      → IsCovered (s ∷ l) r
      → IsCovered l (archived_at now s.id r)
  archived-IsCovered now s l r h open_ = ground (arith, h)

  pub select-none : (t : Sessions) → All (IsCovered []) t → select (is_of repo n) t ≡ []
  select-none [] h = refl
  select-none (x ∷ t) h = ground (arith, h.0, select-none t h.1)
