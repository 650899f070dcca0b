-- ===== src/Agents/DiffPolicy.antt =====
-- The paths that the draft of a hub may touch: internal/agents/gitsync_diffpolicy.go. path.Match and
-- path.Base are the library's, and arguments: an invalid pattern matches nothing.
pub mod Verdicts
use matea.Base.{
  is_empty, ℕ, Text, codes, Bool, true, false, not, ◌&&◌, ◌||◌, List, [], ◌∷◌, ◌++◌, has_prefix,
  contains, any, select, if◌then◌else◌, ◌==◌,
}

abbrev pub default_denied_diff_patterns : List Text
default_denied_diff_patterns =
    codes ".env"
    ∷ codes ".env.*"
    ∷ codes "*.pem"
    ∷ codes "*.key"
    ∷ codes "*.p12"
    ∷ codes "*.pfx"
    ∷ codes "id_rsa*"
    ∷ codes "id_ed25519*"
    ∷ codes "key"
    ∷ []

pub record DiffPolicy : Type 0 where
  pub allowed : List Text
  pub denied : List Text

-- strings.HasSuffix(pattern, "/*"); the pattern without its last character
unfoldable pub is_recursive : Text → Bool
is_recursive [] = false
is_recursive (c ∷ []) = false
is_recursive (c ∷ d ∷ []) = c == b'/' && d == b'*'
is_recursive (c ∷ d ∷ e ∷ t) = is_recursive (d ∷ e ∷ t)

abbrev pub drop_last : Text → Text
drop_last [] = []
drop_last (c ∷ []) = []
drop_last (c ∷ d ∷ t) = c ∷ drop_last (d ∷ t)

module _ (matches : Text → Text → Bool) (base : Text → Text) where
  unfoldable pub diff_pattern_matches : Text → Text → Bool
  unfolding is_recursive
  diff_pattern_matches pattern p =
      if matches pattern p
      then true
      else if is_recursive pattern && has_prefix p (drop_last pattern)
      then true
      else if not (contains pattern (codes "/"))
      then matches pattern (base p)
      else false

  abbrev pub is_matched : List Text → Text → Bool
  is_matched patterns p = any (λ (pattern : Text). diff_pattern_matches pattern p) patterns

  -- The loop over the changed paths.
  unfoldable pub violations : DiffPolicy → List Text → List Text
  violations policy [] = []
  violations policy (p ∷ changed) =
      let rest = violations policy changed in
      if is_empty p
      then rest
      else if is_matched default_denied_diff_patterns p || is_matched policy.denied p
      then p ∷ rest
      else if is_empty policy.allowed || is_matched policy.allowed p
      then rest
      else p ∷ rest
