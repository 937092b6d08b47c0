-- ===== src/Judgment/Repo/File/Printed.antt =====
-- core/judgment/persistence/file_repo.py: dicts that are written to, made safe for JSON, and read.
use text.Mathlib.TextEquality.{eq_iff}
use proto_v2_engine.Base.{
  eq_self, String, ◌≡◌, refl, ap, inl, inr, Bool-cases, Option, none, some, arith, ◌==◌,
  if◌then◌else◌,
}
use proto_v2_engine.Judgment.Models.{status_value}
use proto_v2_engine.Judgment.Repo.File.{
  Plain, Plains, PlainFields, leaf, plain_text, member, seq, dict, no_more, more, no_field, entry,
  jsonify, jsonify_fields, plain_at, put_plain,
}

module _ {V : Type 0} where
  abbrev pub mapped : (Plain V → Plain V) → Option (Plain V) → Option (Plain V)
  mapped f none = none
  mapped f (some v) = some (f v)

  pub at-put :
      (fs : PlainFields V) (k j : String) (v : Plain V)
      → plain_at (put_plain fs k v) j ≡ (if k == j then some v else plain_at fs j)
  unfolding plain_at put_plain
  at-put no_field k j v = refl
  at-put (entry i w fs) k j v = ground (arith, eq_iff k j, eq_iff i k, eq_iff i j, at-put fs k j v)

  pub put-put :
      (fs : PlainFields V) (k : String) (v w : Plain V)
      → put_plain (put_plain fs k v) k w ≡ put_plain fs k w
  unfolding put_plain
  put-put no_field k v w = rw (eq_self k) refl
  put-put (entry i x fs) k v w = elim (Bool-cases (i == k)) [
    | inl t ↦ rw t (rw t refl)
    | inr t ↦ rw t (rw t (ap (entry i x) (put-put fs k v w)))
  ]

  pub at-jsonify :
      (fs : PlainFields V) (k : String)
      → plain_at (jsonify_fields fs) k ≡ mapped jsonify (plain_at fs k)
  unfolding plain_at jsonify_fields
  at-jsonify no_field k = refl
  at-jsonify (entry i x fs) k = elim (Bool-cases (i == k)) [
    | inl t ↦ rw t refl
    | inr t ↦ rw t (at-jsonify fs k)
  ]

  -- What is read of a value that was printed: a member as its text, and a leaf as `default=str` leaves it.
  module _ (as_printed : V → Plain V) where
    unfoldable mutual
      unfolding status_value

      pub as_read : Plain V → Plain V
      as_read (leaf v) = as_printed v
      as_read (plain_text s) = plain_text s
      as_read (member s) = plain_text (status_value s)
      as_read (seq xs) = seq (items_as_read xs)
      as_read (dict fs) = dict (fields_as_read fs)

      pub items_as_read : Plains V → Plains V
      items_as_read no_more = no_more
      items_as_read (more x xs) = more (as_read x) (items_as_read xs)

      pub fields_as_read : PlainFields V → PlainFields V
      fields_as_read no_field = no_field
      fields_as_read (entry k v fs) = entry k (as_read v) (fields_as_read fs)

    pub at-as_read :
        (fs : PlainFields V) (k : String)
        → plain_at (fields_as_read fs) k ≡ mapped as_read (plain_at fs k)
    unfolding plain_at fields_as_read
    at-as_read no_field k = refl
    at-as_read (entry i x fs) k = elim (Bool-cases (i == k)) [
      | inl t ↦ rw t refl
      | inr t ↦ rw t (at-as_read fs k)
    ]

    pub put-as_read :
        (fs : PlainFields V) (k : String) (v : Plain V)
        → fields_as_read (put_plain fs k v) ≡ put_plain (fields_as_read fs) k (as_read v)
    unfolding put_plain fields_as_read
    put-as_read no_field k v = refl
    put-as_read (entry i x fs) k v = elim (Bool-cases (i == k)) [
      | inl t ↦ rw t refl
      | inr t ↦ rw t (ap (entry i (as_read x)) (put-as_read fs k v))
    ]
