-- ===== src/Json.antt =====
-- Python values as `json.loads` and the program's literals build them. A float and a `Decimal` keep
-- their text: the program only tests for their type or prints them.
use text.Mathlib.TextEquality.{eq_iff}
use proto_v2_engine.Base.{
  refl, ℕ, String, Bool, true, false, not, ◌||◌, truthy, ltb, eqb, ◌≡◌, ap, arith, Option, none,
  some, is_some, ◌==◌, if◌then◌else◌,
}

pub data ℤ : Type 0 where
  pos : ℕ → ℤ
  negsuc : ℕ → ℤ

mutual
  pub data Json : Type 0 where
    null : Json
    bool : Bool → Json
    int : ℤ → Json
    float : String → Json
    decimal : String → Json
    str : String → Json
    arr : Items → Json
    obj : Fields → Json

  pub data Items : Type 0 where
    nil : Items
    cons : Json → Items → Items

  pub data Fields : Type 0 where
    end : Fields
    field : String → Json → Fields → Fields

-- `<` of integers.
abbrev pub ltz : ℤ → ℤ → Bool
ltz (pos a) (pos b) = ltb a b
ltz (pos _) (negsuc _) = false
ltz (negsuc _) (pos _) = true
ltz (negsuc a) (negsuc b) = ltb b a

-- `> 0` of an integer.
abbrev pub is_positive : ℤ → Bool
is_positive (pos n) = ltb 0 n
is_positive (negsuc _) = false

abbrev pub eqz : ℤ → ℤ → Bool
eqz (pos a) (pos b) = eqb a b
eqz (negsuc a) (negsuc b) = eqb a b
eqz _ _ = false

pub eqz-eq : (a b : ℤ) → eqz a b ≡ true → a ≡ b
eqz-eq (pos a) (pos b) h = ap pos (ground arith)
eqz-eq (negsuc a) (negsuc b) h = ap negsuc (ground arith)
eqz-eq (pos a) (negsuc b) h = cc
eqz-eq (negsuc a) (pos b) h = cc

pub eqz_refl : (a : ℤ) → eqz a a ≡ true
eqz_refl (pos a) = ground arith
eqz_refl (negsuc a) = ground arith

-- Reading of a `dict`: a member, whether it is there, and `.get`.
unfoldable pub value_at : Fields → String → Option Json
value_at end k = none
value_at (field j v fs) k = if j == k then some v else value_at fs k

abbrev pub has_key : Fields → String → Bool
has_key fs k = is_some (value_at fs k)

abbrev pub or_null : Option Json → Json
or_null none = null
or_null (some v) = v

abbrev pub get_json : Fields → String → Json
get_json fs k = or_null (value_at fs k)

abbrev pub is_null : Json → Bool
is_null null = true
is_null _ = false

-- `==` with a text.
abbrev pub is_text : Json → String → Bool
is_text (str s) t = s == t
is_text _ _ = false

-- What `isinstance(v, int)` lets pass: a bool is an `int`.
abbrev pub int_value : Json → Option ℤ
int_value (int z) = some z
int_value (bool true) = some (pos 1)
int_value (bool false) = some (pos 0)
int_value _ = none

-- The truth value of a JSON value; a float keeps its `repr`.
unfoldable pub is_truthy : Json → Bool
is_truthy null = false
is_truthy (bool b) = b
is_truthy (int z) = not (eqz z (pos 0))
is_truthy (float s) = not (s == "0.0" || s == "-0.0")
is_truthy (decimal s) = true
is_truthy (str s) = truthy s
is_truthy (arr nil) = false
is_truthy (arr (cons _ _)) = true
is_truthy (obj end) = false
is_truthy (obj (field _ _ _)) = true

-- `a or b`
abbrev pub or_else : Json → Json → Json
or_else a b = if is_truthy a then a else b

-- `d[k] = v`
unfoldable pub put_field : Fields → String → Json → Fields
put_field end k v = field k v end
put_field (field j w fs) k v =
    let rest = put_field fs k v in if j == k then field j v fs else field j w rest

pub value_at-put_field :
    (fs : Fields) (k j : String) (v : Json)
    → value_at (put_field fs k v) j ≡ (if k == j then some v else value_at fs j)
unfolding value_at put_field
value_at-put_field end k j v = refl
value_at-put_field (field i w fs) k j v =
    ground (arith, eq_iff k j, eq_iff i k, eq_iff i j, value_at-put_field fs k j v)

pub value_at-put_field_self :
    (fs : Fields) (k : String) (v : Json) → value_at (put_field fs k v) k ≡ some v
value_at-put_field_self fs k v = ground (arith, eq_iff k k, value_at-put_field fs k k v)
