-- ===== src/Base/Decimals.antt =====
-- Numbers in decimal, as fmt's %d writes them and strconv.ParseInt reads them.
use Prim.Native.Nat.{ℕ, zero, suc, ◌+◌, ◌-◌, ◌*◌, ◌/◌, ◌%◌, ◌≤◌, ◌<◌}
use mathlib.Core.Path.{◌≡◌, refl, sym, ap, ◌∙◌}
use mathlib.Core.Logic.{inl, inr}
use mathlib.Core.Bool.{Bool, true, false, ◌&&◌}
use mathlib.Core.Option.{Option, none, some}
use mathlib.Core.List.{[], ◌∷◌, ◌++◌}
use native.Mathlib.Omega.{arith}
use matea.Base.Tests.{ltb, leb, if◌then◌else◌, Bool-cases}
use matea.Base.Texts.{Text}

-- the digits of a number, the fuel above it
unfoldable pub digits : ℕ → ℕ → Text
digits zero n = []
digits (suc fuel) n =
    let rest = digits fuel (n / 10) in
    if ltb n 10 then (48 + n) ∷ [] else rest ++ ((48 + n % 10) ∷ [])

unfoldable pub decimal : ℕ → Text
unfolding digits
decimal n = digits (suc n) n

abbrev pub is_digit : ℕ → Bool
is_digit c = leb 48 c && leb c 57

-- the number after `acc`; `none` at a character that is no digit
unfoldable pub digits_value : ℕ → Text → Option ℕ
digits_value acc [] = some acc
digits_value acc (c ∷ t) =
    let rest = digits_value (acc * 10 + (c - 48)) t in if is_digit c then rest else none

digits_value-nil : (acc : ℕ) → digits_value acc [] ≡ some acc
unfolding digits_value
digits_value-nil acc = refl

digits_value-snoc :
    (acc : ℕ) (s : Text) (v d : ℕ)
    → d < 10
    → digits_value acc s ≡ some v
    → digits_value acc (s ++ ((48 + d) ∷ [])) ≡ some (v * 10 + d)
unfolding digits_value
digits_value-snoc acc [] v d small h = ground (arith, h)
digits_value-snoc acc (c ∷ s) v d small h = elim (Bool-cases (is_digit c)) [
  | inl e ↦ rw e (digits_value-snoc (acc * 10 + (c - 48)) s v d small (ground (arith, e, h)))
  | inr e ↦ absurd (ground (arith, e, h))
]

digits-small : (fuel n : ℕ) → ltb n 10 ≡ true → digits (suc fuel) n ≡ (48 + n) ∷ []
unfolding digits
digits-small fuel n e = rw e refl

digits-large :
    (fuel n : ℕ)
    → ltb n 10 ≡ false
    → digits (suc fuel) n ≡ digits fuel (n / 10) ++ ((48 + n % 10) ∷ [])
unfolding digits
digits-large fuel n e = rw e refl

digits_value-digits : (fuel n : ℕ) → n < fuel → digits_value 0 (digits fuel n) ≡ some n
digits_value-digits zero n h = absurd (omega arith)
digits_value-digits (suc fuel) n h = elim (Bool-cases (ltb n 10)) [
  | inl e ↦
      ap (digits_value 0) (digits-small fuel n e)
      ∙ digits_value-snoc 0 [] 0 n (ground (arith, e)) (digits_value-nil 0)
      ∙ ap some (omega arith)
  | inr e ↦
      ap (digits_value 0) (digits-large fuel n e)
      ∙ digits_value-snoc 0 (digits fuel (n / 10)) (n / 10) (n % 10) (omega arith)
          (digits_value-digits fuel (n / 10) (ground (arith, e, h)))
      ∙ ap some (omega arith)
]

-- What is written is read back.
pub digits_value-decimal : (n : ℕ) → digits_value 0 (decimal n) ≡ some n
unfolding decimal
digits_value-decimal n = digits_value-digits (suc n) n (omega arith)

-- a number begins with a digit
digits-head : (fuel n : ℕ) → n < fuel → (c : ℕ) × (t : Text) × (digits fuel n ≡ c ∷ t) × (48 ≤ c)
digits-head zero n h = absurd (omega arith)
digits-head (suc fuel) n h = elim (Bool-cases (ltb n 10)) [
  | inl e ↦ (48 + n, [], digits-small fuel n e, omega arith)
  | inr e ↦
      let (c, t, same, low) = digits-head fuel (n / 10) (ground (arith, e, h)) in
      (
        c,
        t ++ ((48 + n % 10) ∷ []),
        digits-large fuel n e ∙ ap (λ s. s ++ ((48 + n % 10) ∷ [])) same,
        low,
      )
]

pub decimal-head : (n : ℕ) → (c : ℕ) × (t : Text) × (decimal n ≡ c ∷ t) × (48 ≤ c)
unfolding decimal
decimal-head n = digits-head (suc n) n (omega arith)

digits-fuel : (f g n : ℕ) → n < f → n < g → digits f n ≡ digits g n
digits-fuel zero g n hf hg = absurd (omega arith)
digits-fuel (suc f) zero n hf hg = absurd (omega arith)
digits-fuel (suc f) (suc g) n hf hg = elim (Bool-cases (ltb n 10)) [
  | inl e ↦ digits-small f n e ∙ sym (digits-small g n e)
  | inr e ↦
      let rest = digits-fuel f g (n / 10) (ground (arith, e)) (ground (arith, e)) in
      digits-large f n e ∙ ap (λ t. t ++ ((48 + n % 10) ∷ [])) rest ∙ sym (digits-large g n e)
]

-- A number with one more digit at its end is printed with one more character at its end.
pub decimal-snoc : (n d : ℕ) → 0 < n → d < 10 → decimal (n * 10 + d) ≡ decimal n ++ ((48 + d) ∷ [])
unfolding decimal
decimal-snoc n d pos small =
    let whole : (n * 10 + d) / 10 ≡ n = omega arith in
    let last : (n * 10 + d) % 10 ≡ d = omega arith in
    digits-large (n * 10 + d) (n * 10 + d) (ground arith)
    ∙ ap (λ q. digits (n * 10 + d) q ++ ((48 + (n * 10 + d) % 10) ∷ [])) whole
    ∙ ap (λ r. digits (n * 10 + d) n ++ ((48 + r) ∷ [])) last
    ∙ ap (λ t. t ++ ((48 + d) ∷ []))
        (digits-fuel (n * 10 + d) (suc n) n (omega arith) (omega arith))
