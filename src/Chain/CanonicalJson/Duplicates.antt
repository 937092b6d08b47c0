-- ===== src/Chain/CanonicalJson/Duplicates.antt =====
-- core/canonical_json.py: objects whose keys are all different.
use text.Mathlib.TextEquality.{eq_iff}
use proto_v2_engine.Base.{
  String, Bool, true, false, not, ◌&&◌, ◌||◌, ◌≡◌, refl, sym, ap, ◌∙◌, ok, is_ok, arith, ◌==◌,
  Bool-cases, inl, ◌⊎◌, Result-cases, inr,
}
use proto_v2_engine.Json.{Json, Fields, end, field, has_key, value_at}
use proto_v2_engine.Chain.CanonicalJson.{add_last, parse_pairs, parse_no_duplicate_keys}

-- No key stands twice.
unfoldable pub is_distinct : Fields → Bool
is_distinct end = true
is_distinct (field k v fs) = not (has_key fs k) && is_distinct fs

abbrev join : Fields → Fields → Fields
join end gs = gs
join (field k v fs) gs = field k v (join fs gs)

join-add_last :
    (out : Fields) (k : String) (v : Json) (fs : Fields)
    → join (add_last out k v) fs ≡ join out (field k v fs)
unfolding add_last
join-add_last end k v fs = refl
join-add_last (field j w out) k v fs = ap (field j w) (join-add_last out k v fs)

join_end : (fs : Fields) → join fs end ≡ fs
join_end end = refl
join_end (field k v fs) = ap (field k v) (join_end fs)

has_key-join :
    (out fs : Fields) (j : String) → has_key (join out fs) j ≡ (has_key out j || has_key fs j)
unfolding value_at
has_key-join end fs j = refl
has_key-join (field k v out) fs j = elim (Bool-cases (k == j)) [
  | inl t ↦ rw t refl
  | inr t ↦ rw t (has_key-join out fs j)
]

-- A key that is there already is there twice after it is added.
join-repeated :
    (out : Fields) (k : String) (v : Json) (fs : Fields)
    → has_key out k ≡ true
    → is_distinct (join out (field k v fs)) ≡ false
unfolding is_distinct value_at
join-repeated end k v fs h = cc
join-repeated (field j w out) k v fs h = elim (Bool-cases (j == k)) [
  | inl t ↦
      let here : has_key (join out (field k v fs)) j ≡ true =
        rw (has_key-join out (field k v fs) j) (ground (arith, eq_iff j k, eq_iff k j)) in
      rw here refl
  | inr t ↦ ground (arith, join-repeated out k v fs (ground arith))
]

has_key-add_last :
    (out : Fields) (k : String) (v : Json) (j : String)
    → has_key (add_last out k v) j ≡ (has_key out j || k == j)
unfolding add_last value_at
has_key-add_last end k v j = ground arith
has_key-add_last (field i w out) k v j = elim (Bool-cases (i == j)) [
  | inl t ↦ rw t refl
  | inr t ↦ rw t (has_key-add_last out k v j)
]

distinct-add_last :
    (out : Fields) (k : String) (v : Json)
    → is_distinct out ≡ true
    → has_key out k ≡ false
    → is_distinct (add_last out k v) ≡ true
unfolding is_distinct add_last value_at
distinct-add_last end k v d t = refl
distinct-add_last (field j w out) k v d t = elim (Bool-cases (j == k)) [
  | inl u ↦ absurd (cc (rw u at t))
  | inr u ↦
      let other : has_key (add_last out k v) j ≡ false =
        rw (has_key-add_last out k v j) (ground (arith, eq_iff j k, eq_iff k j)) in
      rw other (distinct-add_last out k v (ground arith) (rw u at t))
]

distinct_end : is_distinct end ≡ true
unfolding is_distinct
distinct_end = refl

ok-parse_pairs :
    (fs out : Fields)
    → is_distinct out ≡ true
    → is_ok (parse_pairs fs out) ≡ is_distinct (join out fs)
unfolding parse_pairs
ok-parse_pairs end out d = sym (ap is_distinct (join_end out) ∙ d)
ok-parse_pairs (field k v fs) out d = elim (Bool-cases (has_key out k)) [
  | inl t ↦ rw t (sym (join-repeated out k v fs t))
  | inr t ↦ rw t (
      ok-parse_pairs fs (add_last out k v) (distinct-add_last out k v d t)
      ∙ ap is_distinct (join-add_last out k v fs))
]

parse_pairs-join : (fs out : Fields) {r : Fields} → parse_pairs fs out ≡ ok r → r ≡ join out fs
unfolding parse_pairs
parse_pairs-join end out h = cc h ∙ sym (join_end out)
parse_pairs-join (field k v fs) out h = elim (Bool-cases (has_key out k)) [
  | inl t ↦ absurd (cc (rw t at h))
  | inr t ↦ parse_pairs-join fs (add_last out k v) (rw t at h) ∙ join-add_last out k v fs
]

-- The strict parse gives the pairs of an object back, unchanged and in their order, where no key stands
-- twice, and refuses them where one does.
pub parse-is_distinct :
    (pairs : Fields)
    → (is_distinct pairs ≡ true) × (parse_no_duplicate_keys pairs ≡ ok pairs)
      ⊎ (is_distinct pairs ≡ false) × (is_ok (parse_no_duplicate_keys pairs) ≡ false)
unfolding parse_no_duplicate_keys
parse-is_distinct pairs =
    let same = ok-parse_pairs pairs end distinct_end in
    elim (Result-cases (parse_pairs pairs end)) [
      | inl (out, e) ↦ inl (sym (rw e at same), e ∙ ap ok (parse_pairs-join pairs end e))
      | inr (reason, e) ↦ inr (sym (rw e at same), rw e refl)
    ]
