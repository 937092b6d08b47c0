-- ===== src/Chain/CanonicalJson/Normal.antt =====
-- core/canonical_json.py: which values have a normal form, and the normal forms.
use proto_v2_engine.Base.{
  String, Bool, true, false, ◌&&◌, ◌≡◌, refl, ◌∙◌, ◌>>=◌, Result, ok, err, is_ok, >>=-eq-ok, arith,
}
use proto_v2_engine.Json.{
  Json, Items, Fields, null, bool, int, float, decimal, str, arr, obj, nil, cons, end, field,
}
use proto_v2_engine.Chain.CanonicalJson.{
  CanonicalJsonError, normalize_for_canonical, normalize_items, normalize_fields,
}

-- No float anywhere in a value.
unfoldable mutual
  pub is_float_free : Json → Bool
  is_float_free (float _) = false
  is_float_free (arr xs) = are_float_free xs
  is_float_free (obj fs) = fields_float_free fs
  is_float_free _ = true

  pub are_float_free : Items → Bool
  are_float_free nil = true
  are_float_free (cons x xs) = is_float_free x && are_float_free xs

  pub fields_float_free : Fields → Bool
  fields_float_free end = true
  fields_float_free (field k v fs) = is_float_free v && fields_float_free fs

-- The values that the printer of JSON gets: neither a float nor a `Decimal` anywhere.
unfoldable mutual
  pub is_plain : Json → Bool
  is_plain (float _) = false
  is_plain (decimal _) = false
  is_plain (arr xs) = are_plain xs
  is_plain (obj fs) = fields_plain fs
  is_plain _ = true

  pub are_plain : Items → Bool
  are_plain nil = true
  are_plain (cons x xs) = is_plain x && are_plain xs

  pub fields_plain : Fields → Bool
  fields_plain end = true
  fields_plain (field k v fs) = is_plain v && fields_plain fs

-- The recursive step succeeds where its parts do.
is_ok_one :
    {A B : Type 0} (r : Result CanonicalJsonError A) (f : A → B)
    → is_ok (r >>= λ a. ok (f a)) ≡ is_ok r
is_ok_one (ok a) f = refl
is_ok_one (err e) f = refl

is_ok_both :
    {A B C : Type 0} (r : Result CanonicalJsonError A) (s : Result CanonicalJsonError B)
    (f : A → B → C)
    → is_ok (r >>= λ a. s >>= λ b. ok (f a b)) ≡ (is_ok r && is_ok s)
is_ok_both (ok a) (ok b) f = refl
is_ok_both (ok a) (err e) f = refl
is_ok_both (err e) s f = refl

module _ (format_f : String → String) where
  mutual
    unfolding normalize_for_canonical is_float_free

    ok-normalize : (j : Json) → is_ok (normalize_for_canonical format_f j) ≡ is_float_free j
    ok-normalize (float _) = refl
    ok-normalize (decimal d) = refl
    ok-normalize null = refl
    ok-normalize (bool b) = refl
    ok-normalize (int z) = refl
    ok-normalize (str s) = refl
    ok-normalize (arr xs) = is_ok_one (normalize_items format_f xs) arr ∙ ok-items xs
    ok-normalize (obj fs) = is_ok_one (normalize_fields format_f fs) obj ∙ ok-fields fs

    ok-items : (xs : Items) → is_ok (normalize_items format_f xs) ≡ are_float_free xs
    ok-items nil = refl
    ok-items (cons x xs) =
        is_ok_both (normalize_for_canonical format_f x) (normalize_items format_f xs) cons
        ∙ rw (ok-normalize x) (rw (ok-items xs) refl)

    ok-fields : (fs : Fields) → is_ok (normalize_fields format_f fs) ≡ fields_float_free fs
    ok-fields end = refl
    ok-fields (field k v fs) =
        is_ok_both (normalize_for_canonical format_f v) (normalize_fields format_f fs) (field k)
        ∙ rw (ok-normalize v) (rw (ok-fields fs) refl)

  mutual
    unfolding normalize_for_canonical is_plain

    plain-normalize :
        (j : Json) {n : Json} → normalize_for_canonical format_f j ≡ ok n → is_plain n ≡ true
    plain-normalize (float _) h = cc
    plain-normalize (decimal d) h = ground arith
    plain-normalize null h = ground arith
    plain-normalize (bool b) h = ground arith
    plain-normalize (int z) h = ground arith
    plain-normalize (str s) h = ground arith
    plain-normalize (arr xs) h =
        let (ys, e, same) = >>=-eq-ok (normalize_items format_f xs) _ h in
        ground (arith, plain-items xs e)
    plain-normalize (obj fs) h =
        let (gs, e, same) = >>=-eq-ok (normalize_fields format_f fs) _ h in
        ground (arith, plain-fields fs e)

    plain-items :
        (xs : Items) {ys : Items} → normalize_items format_f xs ≡ ok ys → are_plain ys ≡ true
    plain-items nil h = ground arith
    plain-items (cons x xs) h =
        let (y, e, rest) = >>=-eq-ok (normalize_for_canonical format_f x) _ h in
        let (ys, e', same) = >>=-eq-ok (normalize_items format_f xs) _ rest in
        ground (arith, plain-normalize x e, plain-items xs e')

    plain-fields :
        (fs : Fields) {gs : Fields} → normalize_fields format_f fs ≡ ok gs → fields_plain gs ≡ true
    plain-fields end h = ground arith
    plain-fields (field k v fs) h =
        let (w, e, rest) = >>=-eq-ok (normalize_for_canonical format_f v) _ h in
        let (gs, e', same) = >>=-eq-ok (normalize_fields format_f fs) _ rest in
        ground (arith, plain-normalize v e, plain-fields fs e')

  mutual
    unfolding normalize_for_canonical is_plain

    normalize-plain : (j : Json) → is_plain j ≡ true → normalize_for_canonical format_f j ≡ ok j
    normalize-plain (float _) h = cc
    normalize-plain (decimal d) h = cc
    normalize-plain null h = refl
    normalize-plain (bool b) h = refl
    normalize-plain (int z) h = refl
    normalize-plain (str s) h = refl
    normalize-plain (arr xs) h = rw (items-plain xs h) refl
    normalize-plain (obj fs) h = rw (fields-plain fs h) refl

    items-plain : (xs : Items) → are_plain xs ≡ true → normalize_items format_f xs ≡ ok xs
    items-plain nil h = refl
    items-plain (cons x xs) h =
        rw (normalize-plain x (ground arith)) (rw (items-plain xs (ground arith)) refl)

    fields-plain : (fs : Fields) → fields_plain fs ≡ true → normalize_fields format_f fs ≡ ok fs
    fields-plain end h = refl
    fields-plain (field k v fs) h =
        rw (normalize-plain v (ground arith)) (rw (fields-plain fs (ground arith)) refl)

  -- A value has a canonical normal form exactly where no float occurs in it, however deep.
  normalize_iff_float_free :
      (j : Json) → is_ok (normalize_for_canonical format_f j) ≡ is_float_free j
  normalize_iff_float_free j = ok-normalize j

  -- A normal form holds neither a float nor a `Decimal`, and normalising it again gives it back.
  pub normalize-normalize :
      (j n : Json)
      → normalize_for_canonical format_f j ≡ ok n
      → (is_plain n ≡ true) × (normalize_for_canonical format_f n ≡ ok n)
  normalize-normalize j n h = let plain = plain-normalize j h in (plain, normalize-plain n plain)
