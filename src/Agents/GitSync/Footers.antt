-- ===== src/Agents/GitSync/Footers.antt =====
-- Whose commits a footer lets pass (internal/agents/workspace_transport.go).
use matea.Base.{
  ℕ, ◌+◌, ◌*◌, ◌<◌, Text, codes, contains, contains-weaken, true, none, List, [], ◌∷◌, ◌++◌, ◌≡◌,
  ap, subst, All, All-imp, decimal-snoc,
}
use matea.Agents.GitSync.{required_footer}
use matea.Agents.GitSync.Transport.{unsigned}
use matea.Agents.GitSync.Approval.{unsigned_iff}

required_footer-snoc :
    (n d : ℕ) → 0 < n → d < 10 → required_footer (n * 10 + d) ≡ required_footer n ++ ((48 + d) ∷ [])
unfolding required_footer
required_footer-snoc n d pos small =
    ap (λ t. codes "matea-task-id: " ++ t) (decimal-snoc n d pos small)

-- Commits that all carry the footer of a task whose id is that of another task with one more digit at the
-- end pass the check of the footer for the other task, too: the footer is only looked for as a text.
pub foreign_footers-pass :
    (n d i : ℕ) (msgs : List Text)
    → 0 < n
    → d < 10
    → All (λ (m : Text). contains m (required_footer (n * 10 + d)) ≡ true) msgs
    → unsigned i (required_footer n) msgs ≡ none
foreign_footers-pass n d i msgs pos small h = (unsigned_iff i (required_footer n) msgs).1 (
    All-imp (λ (m : Text). contains m (required_footer (n * 10 + d)) ≡ true)
      (λ (m : Text). contains m (required_footer n) ≡ true)
      (λ m signed.
        contains-weaken m (required_footer n) ((48 + d) ∷ [])
          (subst (λ f. contains m f ≡ true) (required_footer-snoc n d pos small) signed))
      msgs h)
