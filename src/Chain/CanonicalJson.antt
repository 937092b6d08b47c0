-- ===== src/Chain/CanonicalJson.antt =====
-- core/canonical_json.py: the rejection of duplicate keys and the normal form that is hashed. A `dict`
-- is `Fields`, whose keys are texts; the `Decimal` formatting is a parameter.
pub mod Normal
pub mod Duplicates
use proto_v2_engine.Base.{String, Bool, Result, ok, err, ◌>>=◌, if◌then◌else◌}
use proto_v2_engine.Json.{
  Json, Items, Fields, null, bool, int, float, decimal, str, arr, obj, nil, cons, end, field,
  has_key,
}

pub data CanonicalJsonError : Type 0 where
  duplicate_key : String → CanonicalJsonError
  float_is_forbidden : CanonicalJsonError

-- A new key is written behind the others.
unfoldable pub add_last : Fields → String → Json → Fields
add_last end k v = field k v end
add_last (field j w fs) k v = field j w (add_last fs k v)

-- The loop over the pairs that are left, with the dict built so far.
unfoldable pub parse_pairs : Fields → Fields → Result CanonicalJsonError Fields
unfolding add_last
parse_pairs end out = ok out
parse_pairs (field k v pairs) out =
    let rest = parse_pairs pairs (add_last out k v) in
    if has_key out k then err (duplicate_key k) else rest

unfoldable pub parse_no_duplicate_keys : Fields → Result CanonicalJsonError Fields
unfolding parse_pairs
parse_no_duplicate_keys pairs = parse_pairs pairs end

module _ (format_f : String → String) where
  unfoldable mutual
    pub normalize_for_canonical : Json → Result CanonicalJsonError Json
    normalize_for_canonical (float _) = err float_is_forbidden
    normalize_for_canonical (decimal d) = ok (str (format_f d))
    normalize_for_canonical null = ok null
    normalize_for_canonical (bool b) = ok (bool b)
    normalize_for_canonical (int z) = ok (int z)
    normalize_for_canonical (str s) = ok (str s)
    normalize_for_canonical (arr xs) = normalize_items xs >>= λ ys. ok (arr ys)
    normalize_for_canonical (obj fs) = normalize_fields fs >>= λ gs. ok (obj gs)

    pub normalize_items : Items → Result CanonicalJsonError Items
    normalize_items nil = ok nil
    normalize_items (cons x xs) =
        normalize_for_canonical x >>= λ y. normalize_items xs >>= λ ys. ok (cons y ys)

    pub normalize_fields : Fields → Result CanonicalJsonError Fields
    normalize_fields end = ok end
    normalize_fields (field k v fs) =
        normalize_for_canonical v >>= λ w. normalize_fields fs >>= λ gs. ok (field k w gs)

  -- `json.dumps` of the normal form, with the fixed options, is `dumps`.
  unfoldable pub canonical_json : (Json → String) → Json → Result CanonicalJsonError String
  unfolding normalize_for_canonical
  canonical_json dumps value = normalize_for_canonical value >>= λ n. ok (dumps n)
