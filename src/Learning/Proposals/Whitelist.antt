-- ===== src/Learning/Proposals/Whitelist.antt =====
-- core/learning/proposals.py: what a valid patch may change.
use mathlib.Core.List.{Memᴰ}
use proto_v2_engine.Base.{
  String, Bool, true, false, not, ◌||◌, ◌≡◌, refl, ◌⊎◌, inl, inr, Option, none, some, not-false,
  List, [], ◌∷◌, any, any-true, and-left, and-right, ◌==◌, eq-true, if◌then◌else◌,
}
use proto_v2_engine.Json.{
  Json, Items, Fields, null, str, arr, obj, nil, cons, has_key, get_json, is_text,
}
use proto_v2_engine.Patches.Pointer.{starts_with_slash}
use proto_v2_engine.Learning.Proposals.{
  segments, covers, is_allowed_path, Refusal, path_not_allowed, missing_op_or_path, unsupported_op,
  operations, check_path, check_op, check_ops, first_refusal, validate_jsonpatch_ops,
}

-- The prefix covers the path, segment by segment; a star covers any one segment.
abbrev pub Covers : List String → List String → Type 0
Covers [] path = Unit
Covers (seg ∷ segs) [] = ⊥
Covers (seg ∷ segs) (p ∷ ps) = ((seg ≡ "*") ⊎ (seg ≡ p)) × Covers segs ps

or-cases : (a b : Bool) → (a || b) ≡ true → (a ≡ true) ⊎ (b ≡ true)
or-cases true b h = inl refl
or-cases false b h = inr h

covers-Covers : (prefix path : List String) → covers prefix path ≡ true → Covers prefix path
unfolding covers
covers-Covers [] path h = tt
covers-Covers (seg ∷ segs) [] h = cc
covers-Covers (seg ∷ segs) (p ∷ ps) h = elim (or-cases (seg == "*") (seg == p) (and-left _ _ h)) [
  | inl star ↦ (inl (eq-true seg "*" star), covers-Covers segs ps (and-right _ _ h))
  | inr same ↦ (inr (eq-true seg p same), covers-Covers segs ps (and-right _ _ h))
]

-- One operation on a path that some prefix of the list covers.
pub record IsRestricted (prefixes : List String) (op : Json) : Type 0 where
  pub members : Fields
  pub is_dict : op ≡ obj members
  pub known : any (λ n. is_text (get_json members "op") n) operations ≡ true
  pub path : String
  pub at_path : get_json members "path" ≡ str path
  pub from_root : starts_with_slash path ≡ true
  pub covering : (pref : String) × Memᴰ pref prefixes × Covers (segments pref) (segments path)

abbrev pub AllItems : (Json → Type 0) → Items → Type 0
AllItems P nil = Unit
AllItems P (cons v vs) = P v × AllItems P vs

allowed :
    (path : String) (prefixes : List String)
    → is_allowed_path path prefixes ≡ true
    → (starts_with_slash path ≡ true)
      × ((pref : String) × Memᴰ pref prefixes × Covers (segments pref) (segments path))
unfolding is_allowed_path
allowed path prefixes h =
    let (pref, m, fits) = any-true _ prefixes (and-right _ _ h) in
    (and-left _ _ h, (pref, m, covers-Covers _ _ (and-right _ _ fits)))

-- What a chain of tests that ends without a refusal has gone through.
else-none :
    (b : Bool) (r : Refusal) (rest : Option Refusal)
    → (if b then some r else rest) ≡ none
    → (b ≡ false) × (rest ≡ none)
else-none true r rest h = cc
else-none false r rest h = (refl, h)

then-none : (b : Bool) (r : Refusal) → (if b then none else some r) ≡ none → b ≡ true
then-none true r h = refl
then-none false r h = cc

check_path-none :
    (v : Json) (prefixes : List String)
    → check_path v prefixes ≡ none
    → (path : String) × (v ≡ str path) × (is_allowed_path path prefixes ≡ true)
check_path-none (str path) prefixes h = (path, refl, then-none _ (path_not_allowed path) h)
check_path-none null prefixes h = cc
check_path-none _ prefixes h = cc

check_op-IsRestricted :
    (op : Json) (prefixes : List String) → check_op op prefixes ≡ none → IsRestricted prefixes op
unfolding check_op
check_op-IsRestricted (obj members) prefixes h =
    let (_, h1) =
      else-none (not (has_key members "op") || not (has_key members "path")) missing_op_or_path _
        h in
    let (known, h2) =
      else-none (not (any (λ n. is_text (get_json members "op") n) operations))
        (unsupported_op (get_json members "op")) _ h1 in
    let (path, at_path, may) = check_path-none (get_json members "path") prefixes h2 in
    let (from_root, covering) = allowed path prefixes may in
    record {
      members = members;
      is_dict = refl;
      known = not-false _ known;
      path = path;
      at_path = at_path;
      from_root = from_root;
      covering = covering;
    }
check_op-IsRestricted null prefixes h = cc
check_op-IsRestricted _ prefixes h = cc

neither : (a b : Option Refusal) → first_refusal a b ≡ none → (a ≡ none) × (b ≡ none)
neither none b h = (refl, h)
neither (some r) b h = cc

check_ops-All :
    (ops : Items) (prefixes : List String)
    → check_ops ops prefixes ≡ none
    → AllItems (IsRestricted prefixes) ops
unfolding check_ops
check_ops-All nil prefixes h = tt
check_ops-All (cons op ops) prefixes h =
    let (fine, rest) = neither (check_op op prefixes) (check_ops ops prefixes) h in
    (check_op-IsRestricted op prefixes fine, check_ops-All ops prefixes rest)

-- A patch that is not refused is a list of at least one operation, and each is a dict with one of the six
-- operations and a path from the root that a prefix of the list covers segment by segment.
pub validate-IsRestricted :
    (ops : Json) (prefixes : List String)
    → validate_jsonpatch_ops ops prefixes ≡ none
    → (op : Json) × (rest : Items) × (ops ≡ arr (cons op rest))
      × AllItems (IsRestricted prefixes) (cons op rest)
unfolding validate_jsonpatch_ops
validate-IsRestricted (arr (cons op rest)) prefixes h =
    (op, rest, refl, check_ops-All (cons op rest) prefixes h)
validate-IsRestricted (arr nil) prefixes h = cc
validate-IsRestricted null prefixes h = cc
validate-IsRestricted _ prefixes h = cc
