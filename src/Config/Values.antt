-- ===== src/Config/Values.antt =====
-- The texts of settings and their values: internal/config/keys.go. What encoding/json, strconv and time do
-- with floating-point numbers, JSON and durations are arguments.
use matea.Base.{
  ℕ, zero, suc, ◌*◌, ◌^◌, Text, codes, text_eq, Bool, true, false, ◌&&◌, ◌||◌, Option, none, some,
  List, [], ◌∷◌, ltb, leb, ◌==◌, is_empty, decimal, digits_value, trim_space, if◌then◌else◌,
}
use matea.Config.Schema.{ℤ}

-- what the libraries read and write: float64 by its bits, a duration in nanoseconds
pub record Codecs : Type 0 where
  pub parse_float : Text → Option ℕ
  pub print_float : ℕ → Text
  pub parse_strings : Text → Option (List Text)
  pub print_strings : List Text → Text
  pub parse_gates : Text → Option (List (Text × Text))
  pub parse_duration : Text → Option ℤ
  pub to_lower : Text → Text

-- strconv.Atoi
abbrev pub as_pos : Option ℕ → Option ℤ
as_pos none = none
as_pos (some n) = if ltb n (2 ^ 63) then some (ℤ.pos n) else none

abbrev pub as_neg : Option ℕ → Option ℤ
as_neg none = none
as_neg (some zero) = some (ℤ.pos 0)
as_neg (some (suc n)) = if ltb n (2 ^ 63) then some (ℤ.negsuc n) else none

abbrev pub magnitude : Text → Option ℕ
magnitude [] = none
magnitude (c ∷ t) = digits_value 0 (c ∷ t)

abbrev pub atoi : Text → Option ℤ
atoi [] = none
atoi (c ∷ t) =
    if c == b'-' then as_neg (magnitude t) else as_pos (magnitude (if c == b'+' then t else c ∷ t))

-- strconv.Itoa
abbrev pub itoa : ℤ → Text
itoa (ℤ.pos n) = decimal n
itoa (ℤ.negsuc n) = b'-' ∷ decimal (suc n)

-- strconv.FormatBool
abbrev pub format_bool : Bool → Text
format_bool true = codes "true"
format_bool false = codes "false"

abbrev pub or_default : ℕ → ℤ → ℤ
or_default n (ℤ.pos zero) = ℤ.pos n
or_default n (ℤ.pos (suc m)) = ℤ.pos (suc m)
or_default n (ℤ.negsuc m) = ℤ.negsuc m

abbrev pub is_within : ℕ → ℕ → ℤ → Bool
is_within low high (ℤ.pos n) = leb low n && leb n high
is_within low high (ℤ.negsuc n) = false

abbrev pub minute : ℕ
minute = 60 * 1000000000

module _ (l : Codecs) where
  unfoldable pub parse_bool_value : Text → Option Bool
  parse_bool_value value =
      let v = l.to_lower (trim_space value) in
      if text_eq v (codes "1")
        || text_eq v (codes "true")
        || text_eq v (codes "yes")
        || text_eq v (codes "on")
      then some true
      else if text_eq v (codes "0")
          || text_eq v (codes "false")
          || text_eq v (codes "no")
          || text_eq v (codes "off")
          || is_empty v
      then some false
      else none
