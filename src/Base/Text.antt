-- ===== src/Base/Text.antt =====
-- Texts that the program walks: code points, lower and upper case, blanks, substrings.
use Prim.Native.Nat.{ℕ, ◌+◌, ◌-◌}
use Prim.Native.Char.{code}
use Prim.Native.String.{String}
use mathlib.Core.Path.{◌≡◌, refl}
use mathlib.Core.Bool.{Bool, true, false, ◌&&◌, ◌||◌}
use mathlib.Core.List.{List, [], ◌∷◌, map}
use proto_v2_engine.Base.Tests.{◌==◌, leb, eqb, if◌then◌else◌}
use proto_v2_engine.Base.Lists.{all}

unfoldable pub codes : String → List ℕ
codes String.[] = []
codes (String.◌∷◌ c s) = code c ∷ codes s

-- `str.lower` and `str.upper`, on ASCII letters.
abbrev lower_code : ℕ → ℕ
lower_code c = if leb b'A' c && leb c b'Z' then c + 32 else c

abbrev upper_code : ℕ → ℕ
upper_code c = if leb b'a' c && leb c b'z' then c - 32 else c

unfoldable pub lower : String → List ℕ
unfolding codes
lower s = map lower_code (codes s)

unfoldable pub upper : String → List ℕ
unfolding codes
upper s = map upper_code (codes s)

-- `str.isspace` of one code point.
unfoldable pub is_space : ℕ → Bool
is_space c =
    (leb 9 c && leb c 13)
    || (leb 28 c && leb c 32)
    || eqb c 0x85
    || eqb c 0xa0
    || eqb c 0x1680
    || (leb 0x2000 c && leb c 0x200a)
    || eqb c 0x2028
    || eqb c 0x2029
    || eqb c 0x202f
    || eqb c 0x205f
    || eqb c 0x3000

-- `not s.strip()`
unfoldable pub is_blank : String → Bool
unfolding codes is_space
is_blank s = all is_space (codes s)

-- `str.strip`
unfoldable pub lstrip : String → String
unfolding is_space
lstrip String.[] = String.[]
lstrip (String.◌∷◌ c s) = let rest = lstrip s in if is_space (code c) then rest else String.◌∷◌ c s

unfoldable pub rstrip : String → String
unfolding is_space
rstrip String.[] = String.[]
rstrip (String.◌∷◌ c s) =
    let rest = rstrip s in if is_space (code c) && rest == "" then "" else String.◌∷◌ c rest

abbrev pub strip : String → String
strip s = lstrip (rstrip s)

unfoldable pub same_codes : List ℕ → List ℕ → Bool
same_codes [] [] = true
same_codes (x ∷ xs) (y ∷ ys) = eqb x y && same_codes xs ys
same_codes _ _ = false

unfoldable pub is_prefix : List ℕ → List ℕ → Bool
is_prefix [] ys = true
is_prefix (x ∷ xs) [] = false
is_prefix (x ∷ xs) (y ∷ ys) = eqb x y && is_prefix xs ys

-- `needle in text`
unfoldable pub is_infix : List ℕ → List ℕ → Bool
unfolding is_prefix
is_infix needle [] = is_prefix needle []
is_infix needle (c ∷ text) = is_prefix needle (c ∷ text) || is_infix needle text

blank_example : is_blank " \n" ≡ true
unfolding is_blank
blank_example = refl

infix_example : is_infix (codes "migration") (lower "DB Migration") ≡ true
unfolding is_infix lower
infix_example = refl
