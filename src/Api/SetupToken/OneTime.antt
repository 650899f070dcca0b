-- ===== src/Api/SetupToken/OneTime.antt =====
-- What the token of the first configuration opens, and until when (internal/api/setup_token.go).
use matea.Base.{ℕ, Text, false, Option, [], ◌≡◌, refl}
use matea.Api.SetupToken.{SetupTokenManager, current_token, validate, invalidate}

-- the calls of the endpoints, in any order and with any clock and generator
pub data Calls : SetupTokenManager → SetupTokenManager → Type 0 where
  done : {m : SetupTokenManager} → Calls m m
  asked :
      {m m' : SetupTokenManager} (now : ℕ) (random : Option Text)
      → Calls m m'
      → Calls m (current_token now random m').1
  tried :
      {m m' : SetupTokenManager} (now : ℕ) (random : Option Text) (candidate : Text)
      → Calls m m'
      → Calls m (validate now random candidate m').1
  closed : {m m' : SetupTokenManager} → Calls m m' → Calls m (invalidate m')

Calls-stay : {m m' : SetupTokenManager} → Calls m m' → m.token ≡ [] → m'.token ≡ []
unfolding current_token validate invalidate
Calls-stay done h = h
Calls-stay (asked {m} {m'} now random calls) h = rw (Calls-stay calls h) refl
Calls-stay (tried now random candidate calls) h = rw (Calls-stay calls h) refl
Calls-stay (closed calls) h = refl

-- Once setup is completed, whatever calls follow, in any order, with any clock and any random generator, no
-- candidate is accepted and no token is handed out.
pub invalidate-closes :
    (m m' : SetupTokenManager)
    → Calls (invalidate m) m'
    → (now : ℕ) (random : Option Text) (candidate : Text)
    → (validate now random candidate m' ≡ (false, m')) × (current_token now random m' ≡ ([], m'))
unfolding invalidate validate current_token
invalidate-closes m m' calls now random candidate =
    let empty : m'.token ≡ [] = Calls-stay calls refl in (rw empty refl, rw empty refl)
