-- ===== src/Base/Spaces.antt =====
-- White space as Go's unicode.IsSpace has it.
use Prim.Native.Nat.{ℕ}
use mathlib.Core.Bool.{Bool, true, ◌&&◌, ◌||◌}
use mathlib.Core.List.{[], ◌∷◌, reverse}
use matea.Base.Tests.{leb, ◌==◌, if◌then◌else◌}
use matea.Base.Texts.{Text}

-- unicode.IsSpace
abbrev pub is_space : ℕ → Bool
is_space c =
    (leb 9 c && leb c 13)
    || c == 32
    || c == 0x85
    || c == 0xa0
    || c == 0x1680
    || (leb 0x2000 c && leb c 0x200a)
    || c == 0x2028
    || c == 0x2029
    || c == 0x202f
    || c == 0x205f
    || c == 0x3000

abbrev pub all_space : Text → Bool
all_space [] = true
all_space (c ∷ t) = is_space c && all_space t

abbrev trim_left : Text → Text
trim_left [] = []
trim_left (c ∷ t) = let rest = trim_left t in if is_space c then rest else c ∷ t

-- strings.TrimSpace
abbrev pub trim_space : Text → Text
trim_space t = reverse (trim_left (reverse (trim_left t)))
