-- ===== src/Base/Text.antt =====
-- Go strings as texts of Unicode scalar values: `len` counts the bytes of their UTF-8 form, and
-- `trim_space` is the standard library's `strings.TrimSpace`.
pub mod Order
use byte_danceliveauctioni.Base.Tests.{leb, ◌==◌, any, if◌then◌else◌}
use Prim.Native.Nat.{ℕ}
use Prim.Native.Char.{code}
use Prim.Native.String.{String}
use Prim.Native.String
use mathlib.Core.Path.{◌≡◌, refl}
use mathlib.Core.Logic.{◌↔◌}
use mathlib.Core.Bool.{Bool, true, false, ◌&&◌}
use mathlib.Core.List.{List, [], ◌∷◌}
use text.Mathlib.Text.{◌==◌ as is_same}
use text.Mathlib.TextEquality.{eq_iff}

-- The code points of a text.
abbrev pub codes : String → List ℕ
codes String.[] = []
codes (String.◌∷◌ c s) = code c ∷ codes s

-- `len(s)`, in bytes.
unfoldable pub len : String → ℕ
len s = String.len s

-- `a == b` on strings.
unfoldable pub str_eq : String → String → Bool
str_eq a b = is_same a b

pub str_eq_iff : (a b : String) → (str_eq a b ≡ true) ↔ (a ≡ b)
unfolding str_eq
str_eq_iff a b = eq_iff a b

-- `unicode.IsSpace`.
unfoldable pub is_space : ℕ → Bool
is_space c = any (
    (leb 9 c && leb c 13)
    ∷ (c == 32)
    ∷ (c == 0x85)
    ∷ (c == 0xA0)
    ∷ (c == 0x1680)
    ∷ (leb 0x2000 c && leb c 0x200A)
    ∷ (c == 0x2028)
    ∷ (c == 0x2029)
    ∷ (c == 0x202F)
    ∷ (c == 0x205F)
    ∷ (c == 0x3000)
    ∷ [])

trim_left : String → String
trim_left String.[] = String.[]
trim_left (String.◌∷◌ c s) =
    let rest = trim_left s in if is_space (code c) then rest else String.◌∷◌ c s

cons_unless_space : ℕ → String → String → String
cons_unless_space c whole String.[] = if is_space c then String.[] else whole
cons_unless_space c whole (String.◌∷◌ d s) = whole

trim_right : String → String
trim_right String.[] = String.[]
trim_right (String.◌∷◌ c s) =
    let rest = trim_right s in cons_unless_space (code c) (String.◌∷◌ c rest) rest

-- `strings.TrimSpace`.
unfoldable pub trim_space : String → String
unfolding trim_left trim_right cons_unless_space is_space
trim_space s = trim_right (trim_left s)

-- `s == ""`.
unfoldable pub is_empty : String → Bool
is_empty String.[] = true
is_empty (String.◌∷◌ c s) = false

-- `strings.TrimSpace(s) == ""`.
unfoldable pub is_blank : String → Bool
unfolding trim_space is_empty
is_blank s = is_empty (trim_space s)

-- A text with more than spaces is not empty.
pub is_blank-is_empty : (s : String) → is_blank s ≡ false → is_empty s ≡ false
unfolding is_blank
is_blank-is_empty String.[] h = cc
is_blank-is_empty (String.◌∷◌ c s) h = refl
