-- ===== src/Base/Texts.antt =====
-- A text that the program walks is the list of its characters' codes. A text that it only compares
-- whole is a native `String`.
use Prim.Native.Char.{code}
use Prim.Native.String.{String}
use Prim.Native.Nat.{ℕ}
use mathlib.Core.Path.{◌≡◌, refl}
use mathlib.Core.Logic.{◌↔◌}
use mathlib.Core.Bool.{Bool, true, false, ◌&&◌, ◌||◌}
use mathlib.Core.List.{List, [], ◌∷◌, ◌++◌}
use native.Mathlib.Omega.{arith}
use matea.Base.Tests.{◌==◌, ==_refl}

abbrev pub Text : Type 0
Text = List ℕ

abbrev pub codes : String → Text
codes String.[] = []
codes (String.◌∷◌ c s) = code c ∷ codes s

-- s == ""
abbrev pub text_eq : Text → Text → Bool
text_eq [] [] = true
text_eq [] (d ∷ t) = false
text_eq (c ∷ s) [] = false
text_eq (c ∷ s) (d ∷ t) = (c == d) && text_eq s t

pub text_eq_sound : (s t : Text) → text_eq s t ≡ true → s ≡ t
text_eq_sound [] [] h = refl
text_eq_sound [] (d ∷ t) h = cc
text_eq_sound (c ∷ s) [] h = cc
text_eq_sound (c ∷ s) (d ∷ t) h = ground (arith, text_eq_sound s t)

pub text_eq_refl : (s : Text) → text_eq s s ≡ true
text_eq_refl [] = refl
text_eq_refl (c ∷ s) = rw (==_refl c) (text_eq_refl s)

pub text_eq_iff : (s t : Text) → (text_eq s t ≡ true) ↔ (s ≡ t)
text_eq_iff s t = (text_eq_sound s t, λ e. rw e (text_eq_refl t))

-- strings.HasPrefix
abbrev pub has_prefix : Text → Text → Bool
has_prefix s [] = true
has_prefix [] (d ∷ p) = false
has_prefix (c ∷ s) (d ∷ p) = (c == d) && has_prefix s p

-- strings.Contains
abbrev pub contains : Text → Text → Bool
contains [] p = has_prefix [] p
contains (c ∷ s) p = has_prefix (c ∷ s) p || contains s p

pub has_prefix-append : (p s : Text) → has_prefix (p ++ s) p ≡ true
has_prefix-append [] [] = refl
has_prefix-append [] (c ∷ s) = refl
has_prefix-append (c ∷ p) s = rw (==_refl c) (has_prefix-append p s)

has_prefix-weaken : (s p q : Text) → has_prefix s (p ++ q) ≡ true → has_prefix s p ≡ true
has_prefix-weaken s [] q h = nil-prefix s
  where
    nil-prefix : (s : Text) → has_prefix s [] ≡ true
    nil-prefix [] = refl
    nil-prefix (c ∷ s) = refl
has_prefix-weaken [] (d ∷ p) q h = absurd (cc h)
has_prefix-weaken (c ∷ s) (d ∷ p) q h = ground (arith, has_prefix-weaken s p q, h)

-- What contains a text contains its beginning.
pub contains-weaken : (s p q : Text) → contains s (p ++ q) ≡ true → contains s p ≡ true
contains-weaken [] p q h = has_prefix-weaken [] p q h
contains-weaken (c ∷ s) p q h =
    ground (arith, has_prefix-weaken (c ∷ s) p q, contains-weaken s p q, h)
