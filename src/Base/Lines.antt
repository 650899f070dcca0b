-- ===== src/Base/Lines.antt =====
-- Texts split at a character and joined again.
use Prim.Native.Nat.{ℕ, ◌≤◌}
use mathlib.Core.Path.{◌≡◌, refl, ap, ◌∙◌}
use mathlib.Core.Logic.{inl, inr}
use mathlib.Core.List.{List, [], ◌∷◌, ◌++◌}
use native.Mathlib.Omega.{arith}
use matea.Base.Tests.{◌==◌, if◌then◌else◌, Bool-cases}
use matea.Base.Lists.{length}
use matea.Base.Texts.{Text}

abbrev pub extend : ℕ → List Text → List Text
extend c [] = (c ∷ []) ∷ []
extend c (line ∷ lines) = (c ∷ line) ∷ lines

-- strings.Split at one character
abbrev pub split_on : ℕ → Text → List Text
split_on sep [] = [] ∷ []
split_on sep (c ∷ t) = let rest = split_on sep t in if c == sep then [] ∷ rest else extend c rest

-- strings.Join with one character
abbrev pub join_with : ℕ → List Text → Text
join_with sep [] = []
join_with sep (line ∷ []) = line
join_with sep (line ∷ next ∷ lines) = line ++ (sep ∷ join_with sep (next ∷ lines))

join_with-extend :
    (sep c : ℕ) (lines : List Text) → join_with sep (extend c lines) ≡ c ∷ join_with sep lines
join_with-extend sep c [] = refl
join_with-extend sep c (line ∷ []) = refl
join_with-extend sep c (line ∷ next ∷ lines) = refl

extend-pos : (c : ℕ) (lines : List Text) → 1 ≤ length (extend c lines)
extend-pos c [] = omega arith
extend-pos c (line ∷ lines) = omega arith

pub split_on-pos : (sep : ℕ) (t : Text) → 1 ≤ length (split_on sep t)
split_on-pos sep [] = omega arith
split_on-pos sep (c ∷ t) = elim (Bool-cases (c == sep)) [
  | inl e ↦ rw e (omega arith)
  | inr e ↦ rw e (extend-pos c (split_on sep t))
]

join_with-nil :
    (sep : ℕ) (lines : List Text)
    → 1 ≤ length lines
    → join_with sep ([] ∷ lines) ≡ sep ∷ join_with sep lines
join_with-nil sep [] h = absurd (omega arith)
join_with-nil sep (line ∷ lines) h = refl

pub join_with-split_on : (sep : ℕ) (t : Text) → join_with sep (split_on sep t) ≡ t
join_with-split_on sep [] = refl
join_with-split_on sep (c ∷ t) = elim (Bool-cases (c == sep)) [
  | inl e ↦ rw e (
      join_with-nil sep (split_on sep t) (split_on-pos sep t)
      ∙ ap (λ r. sep ∷ r) (join_with-split_on sep t)
      ∙ ap (λ n. n ∷ t) (ground (arith, e)))
  | inr e ↦
      rw e (join_with-extend sep c (split_on sep t) ∙ ap (λ r. c ∷ r) (join_with-split_on sep t))
]
