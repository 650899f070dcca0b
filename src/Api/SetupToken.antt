-- ===== src/Api/SetupToken.antt =====
-- SetupTokenManager of internal/api/setup_token.go: the one-time token of the first configuration. The clock
-- and the random generator are arguments; `none` is a generator that fails. Times are seconds.
pub mod OneTime
use matea.Base.{
  is_empty, ℕ, ◌+◌, ◌*◌, Text, codes, text_eq, Bool, true, false, not, ◌&&◌, ◌||◌, Option, none,
  some, List, [], ◌∷◌, ltb, has_prefix, if◌then◌else◌,
}

abbrev pub setup_token_ttl : ℕ
setup_token_ttl = 30 * 60

-- the empty token: setup is disabled
pub record SetupTokenManager : Type 0 where
  pub token : Text
  pub expires_at : ℕ

unfoldable pub regenerate : ℕ → Option Text → SetupTokenManager
regenerate now none = record { token = []; expires_at = 0 }
regenerate now (some t) = record { token = t; expires_at = now + setup_token_ttl }

-- Token(): the token and the manager after it
unfoldable pub current_token : ℕ → Option Text → SetupTokenManager → Text × SetupTokenManager
unfolding regenerate
current_token now random m =
    let m' = regenerate now random in
    if is_empty m.token
    then ([], m)
    else if ltb m.expires_at now
    then (m'.token, m')
    else (m.token, m)

unfoldable pub validate : ℕ → Option Text → Text → SetupTokenManager → Bool × SetupTokenManager
unfolding regenerate
validate now random candidate m =
    if is_empty m.token || is_empty candidate
    then (false, m)
    else if ltb m.expires_at now
    then (false, regenerate now random)
    else (text_eq candidate m.token, m)

unfoldable pub invalidate : SetupTokenManager → SetupTokenManager
invalidate m = record { token = []; expires_at = 0 }
