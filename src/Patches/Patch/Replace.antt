-- ===== src/Patches/Patch/Replace.antt =====
-- core/B_learning/approval.py: what is read at the pointer of a `replace` afterwards.

use proto_v2_engine.Base.{
  ℕ, zero, suc, ◌<◌, String, Bool, true, false, not, ◌||◌, ◌≡◌, refl, ap, ◌∙◌, inl, inr, some, List,
  [], ◌∷◌, ok, err, ◌>>=◌, raise_if, >>=-elim, Result-cases, arith, ◌==◌,
}
use proto_v2_engine.Json.{
  value_at-put_field_self, Json, Items, Fields, ℤ, pos, negsuc, null, str, arr, obj, nil, cons,
  value_at, get_json,
}
use proto_v2_engine.Patches.Pointer.{value_error, read_int, split_pointer}
use proto_v2_engine.Patches.Document.{
  Patched, size, nth, set_nth, place, place_of, as_int, child, set_child, get_at, exists_at,
  update_at, parent_and_key,
}
use proto_v2_engine.Patches.Patch.{at_parent, apply_kind, apply_op}

abbrev patched : {A : Type 0} → A → Patched A
patched a = ok a

ok_eq : {A : Type 0} {a b : A} → patched a ≡ ok b → a ≡ b
ok_eq h = cc h

>>=-ok : {A : Type 0} (r : Patched A) → (r >>= λ a. ok a) ≡ r
>>=-ok (ok a) = refl
>>=-ok (err e) = refl

size-set_nth : (xs : Items) (n : ℕ) (v : Json) → size (set_nth xs n v) ≡ size xs
unfolding size set_nth
size-set_nth nil n v = refl
size-set_nth (cons x xs) zero v = refl
size-set_nth (cons x xs) (suc n) v = ap suc (size-set_nth xs n v)

nth-set_nth : (xs : Items) (n : ℕ) (v : Json) → n < size xs → nth (set_nth xs n v) n ≡ ok v
unfolding size nth set_nth
nth-set_nth nil n v h = absurd (ground arith)
nth-set_nth (cons x xs) zero v h = refl
nth-set_nth (cons x xs) (suc n) v h = nth-set_nth xs n v (omega arith)

place_lt : (z : ℤ) (len : ℕ) {n : ℕ} → place z len ≡ ok n → n < len
unfolding place
place_lt (pos m) len h = ground arith
place_lt (negsuc m) len h = ground arith

place_of_lt : (p : String) (xs : Items) {n : ℕ} → place_of p xs ≡ ok n → n < size xs
unfolding place_of
place_of_lt p xs h = >>=-elim (as_int (read_int p)) _ h (λ z _ h1. place_lt z (size xs) h1)

place_of-set_nth :
    (p : String) (xs : Items) (m n : ℕ) (v : Json)
    → place_of p xs ≡ ok n
    → place_of p (set_nth xs m v) ≡ ok n
unfolding place_of
place_of-set_nth p xs m n v h = rw (size-set_nth xs m v) h

-- What was written at a token is read there.
child-set_child :
    (cur : Json) (p : String) (v : Json) {cur' : Json}
    → set_child cur p v ≡ ok cur'
    → child cur' p ≡ ok v
unfolding child set_child place_of
child-set_child (arr xs) p v h = elim (Result-cases (place_of p xs)) [
  | inr (reason, e) ↦ absurd (cc (rw e at h))
  | inl (n, e) ↦
      let below = place_of_lt p xs e in
      let moved : place_of p (set_nth xs n v) ≡ ok n = place_of-set_nth p xs n n v e in
      let same = ok_eq (rw e at h) in rw (← same) (rw moved (nth-set_nth xs n v below))
]
child-set_child (obj fs) p v h = rw (← ok_eq h) (rw (value_at-put_field_self fs p v) refl)
child-set_child null p v h = cc
child-set_child (str _) p v h = cc
child-set_child (Json.bool _) p v h = cc
child-set_child (Json.int _) p v h = cc
child-set_child (Json.float _) p v h = cc
child-set_child (Json.decimal _) p v h = cc

-- The parent before and after a write below it.
get-update :
    (change : Json → Patched Json) (doc : Json) (front : List String) {doc' : Json}
    → update_at change doc front ≡ ok doc'
    → (parent : Json) × (parent' : Json) × (get_at doc front ≡ ok parent)
      × (change parent ≡ ok parent')
      × (get_at doc' front ≡ ok parent')
unfolding update_at get_at
get-update change doc [] {doc'} h = (doc, doc', refl, h, refl)
get-update change doc (p ∷ ps) {doc'} h = >>=-elim (child doc p) _ h (λ next e h1.
    >>=-elim (update_at change next ps) _ h1 (λ next' e' h2.
      let (parent, parent', before, changed, after) = get-update change next ps e' in
      (parent, parent', rw e before, changed, rw (child-set_child doc p next' h2) after)))

-- A pointer's value is the member of its parent.
get-parent :
    (doc : Json) (parts front : List String) (key : String)
    → parent_and_key parts ≡ ok (front, key)
    → get_at doc parts ≡ (get_at doc front >>= λ parent. child parent key)
unfolding parent_and_key get_at
get-parent doc [] front key h = cc
get-parent doc (p ∷ []) front key h =
    let pair = ok_eq h in
    rw (← ap (λ (x : List String × String). x.0) pair)
      (rw (← ap (λ (x : List String × String). x.1) pair) (>>=-ok (child doc p)))
get-parent doc (p ∷ q ∷ ps) front key h =
    >>=-elim (parent_and_key (q ∷ ps)) _ h (λ (front', key') e h1.
      let pair = ok_eq h1 in
      rw (← ap (λ (x : List String × String). x.0) pair) (
        rw (← ap (λ (x : List String × String). x.1) pair) (elim (Result-cases (child doc p)) [
          | inr (reason, c) ↦ rw c refl
          | inl (next, c) ↦ rw c (get-parent next (q ∷ ps) front' key' e)
        ])))

-- A member that is written at the parent is read at the pointer.
get-at_parent :
    (doc : Json) (parts : List String) (v : Json) {doc' : Json}
    → at_parent (λ key parent. set_child parent key v) doc parts ≡ ok doc'
    → get_at doc' parts ≡ ok v
unfolding at_parent
get-at_parent doc parts v {doc'} h = >>=-elim (parent_and_key parts) _ h (λ (front, key) e h1.
    let (parent, parent', _, changed, after) = get-update (λ x. set_child x key v) doc front h1 in
    get-parent doc' parts front key e ∙ rw after (child-set_child parent key v changed))

kind-get_at :
    (op : Fields) (doc v : Json) (path : String) (parts : List String) {doc' : Json}
    → value_at op "value" ≡ some v
    → split_pointer path ≡ ok parts
    → apply_kind "replace" path op doc ≡ ok doc'
    → (exists_at doc parts ≡ true) × (get_at doc' parts ≡ ok v)
unfolding apply_kind
kind-get_at op doc v path parts has_value split h =
    >>=-elim (raise_if (not (exists_at doc parts)) value_error) _ (rw split at rw has_value at h)
      (λ _ there h1. (there-true (exists_at doc parts) there, get-at_parent doc parts v h1))
  where
    there-true : (b : Bool) {u : Unit} → raise_if (not b) value_error ≡ ok u → b ≡ true
    there-true true e = refl
    there-true false e = cc

-- A `replace` that goes through found the pointer's place, and afterwards its value is read there,
-- through objects and lists alike.
pub replace-get_at :
    (op : Fields) (doc doc' v : Json) (path : String) (parts : List String)
    → get_json op "op" ≡ str "replace"
    → get_json op "path" ≡ str path
    → value_at op "value" ≡ some v
    → split_pointer path ≡ ok parts
    → apply_op (obj op) doc ≡ ok doc'
    → (exists_at doc parts ≡ true) × (get_at doc' parts ≡ ok v)
unfolding apply_op
replace-get_at op doc doc' v path parts is_replace is_path has_value split h =
    >>=-elim (raise_if (path == "" || path == "/") value_error) _ (rw is_replace at rw is_path at h)
      (λ _ _ h1. kind-get_at op doc v path parts has_value split h1)
