-- ===== src/Patches/Pointer.antt =====
-- core/B_learning/approval.py: JSON pointers and the numbers in them. Of the spellings that `int` takes,
-- a sign and ASCII digits are read; spaces, underscores and other digits are refused here.
use Prim.Native.Char.{Char, code}
use proto_v2_engine.Base.{
  ℕ, zero, suc, ◌≡◌, refl, ◌+◌, ◌*◌, ◌-◌, String, Bool, false, not, ◌&&◌, ◌||◌, Option, none, some,
  List, [], ◌∷◌, Result, ok, err, leb, eqb, filter, truthy, ◌==◌, if◌then◌else◌,
}
use proto_v2_engine.Json.{ℤ, pos, negsuc}

-- The exceptions of Python, by their class.
pub data PatchError : Type 0 where
  value_error key_error index_error type_error attribute_error : PatchError

abbrev pub is_char : ℕ → Char → Bool
is_char n c = eqb (code c) n

-- `s.replace("~" + d, r)`
unfoldable replace_escape : ℕ → Char → String → String
replace_escape d r String.[] = String.[]
replace_escape d r (String.◌∷◌ c String.[]) = String.◌∷◌ c String.[]
replace_escape d r (String.◌∷◌ c (String.◌∷◌ e s)) =
    let skipped = replace_escape d r s in
    let kept = replace_escape d r (String.◌∷◌ e s) in
    if is_char b'~' c && is_char d e then String.◌∷◌ r skipped else String.◌∷◌ c kept

unfoldable pub unescape : String → String
unfolding replace_escape
unescape token = replace_escape b'0' "~" (replace_escape b'1' "/" token)

-- `s.lstrip("/")`
unfoldable pub strip_slashes : String → String
strip_slashes String.[] = String.[]
strip_slashes (String.◌∷◌ c s) =
    let rest = strip_slashes s in if is_char b'/' c then rest else String.◌∷◌ c s

abbrev push_char : Char → List String → List String
push_char c [] = String.◌∷◌ c String.[] ∷ []
push_char c (w ∷ ws) = String.◌∷◌ c w ∷ ws

-- `s.split("/")`
unfoldable pub split_slashes : String → List String
split_slashes String.[] = "" ∷ []
split_slashes (String.◌∷◌ c s) =
    let rest = split_slashes s in if is_char b'/' c then "" ∷ rest else push_char c rest

abbrev pub starts_with_slash : String → Bool
starts_with_slash String.[] = false
starts_with_slash (String.◌∷◌ c _) = is_char b'/' c

unfoldable pub unescape_all : List String → List String
unfolding unescape
unescape_all [] = []
unescape_all (t ∷ ts) = unescape t ∷ unescape_all ts

unfoldable pub split_pointer : String → Result PatchError (List String)
unfolding split_slashes strip_slashes unescape_all filter
split_pointer path =
    if path == "" || path == "/"
    then ok []
    else if not (starts_with_slash path)
    then err value_error
    else ok (unescape_all (filter truthy (split_slashes (strip_slashes path))))

abbrev is_digit : Char → Bool
is_digit c = leb b'0' (code c) && leb (code c) b'9'

unfoldable digits : ℕ → String → Option ℕ
digits n String.[] = some n
digits n (String.◌∷◌ c s) =
    let rest = digits (10 * n + (code c - b'0')) s in if is_digit c then rest else none

unfoldable natural : String → Option ℕ
unfolding digits
natural String.[] = none
natural (String.◌∷◌ c s) = digits 0 (String.◌∷◌ c s)

abbrev negated : Option ℕ → Option ℤ
negated none = none
negated (some zero) = some (pos 0)
negated (some (suc n)) = some (negsuc n)

abbrev as_pos : Option ℕ → Option ℤ
as_pos none = none
as_pos (some n) = some (pos n)

-- `int(token)`
unfoldable pub read_int : String → Option ℤ
unfolding natural
read_int String.[] = none
read_int (String.◌∷◌ c s) =
    if is_char b'-' c
    then negated (natural s)
    else if is_char b'+' c
    then as_pos (natural s)
    else as_pos (natural (String.◌∷◌ c s))

pointer_example : split_pointer "/thresholds//fx/a~1b~01" ≡ ok ("thresholds" ∷ "fx" ∷ "a/b~1" ∷ [])
unfolding split_pointer
pointer_example = refl
