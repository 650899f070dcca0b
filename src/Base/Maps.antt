-- ===== src/Base/Maps.antt =====
-- A Go map as an association list over a Boolean test of its keys.
use mathlib.Core.Path.{◌≡◌, refl}
use mathlib.Core.Logic.{◌↔◌}
use mathlib.Core.Bool.{Bool, true}
use mathlib.Core.Option.{Option, none, some}
use mathlib.Core.List.{List, [], ◌∷◌}
use native.Mathlib.Omega.{arith}
use matea.Base.Tests.{if◌then◌else◌}

module _ {K V : Type 0} (eq : K → K → Bool) where
  abbrev pub get : K → List (K × V) → Option V
  get k [] = none
  get k ((j, v) ∷ m) = if eq j k then some v else get k m

  abbrev pub put : K → V → List (K × V) → List (K × V)
  put k v [] = (k, v) ∷ []
  put k v ((j, w) ∷ m) = if eq j k then (j, v) ∷ m else (j, w) ∷ put k v m

  abbrev pub delete : K → List (K × V) → List (K × V)
  delete k [] = []
  delete k ((j, w) ∷ m) = let rest = delete k m in if eq j k then rest else (j, w) ∷ rest

module _ {K V : Type 0} (eq : K → K → Bool) (eq_iff : (j k : K) → (eq j k ≡ true) ↔ (j ≡ k)) where
  pub get-put :
      (k j : K) (v : V) (m : List (K × V))
      → get eq j (put eq k v m) ≡ (if eq k j then some v else get eq j m)
  get-put k j v [] = refl
  get-put k j v ((i, w) ∷ m) = ground (arith, eq_iff k j, eq_iff i k, eq_iff i j, get-put k j v m)

  pub get-delete :
      (k j : K) (m : List (K × V))
      → get eq j (delete eq k m) ≡ (if eq k j then none else get eq j m)
  get-delete k j [] = ground arith
  get-delete k j ((i, w) ∷ m) = ground (arith, eq_iff k j, eq_iff i k, eq_iff i j, get-delete k j m)
