-- ===== src/Patches/Document.antt =====
-- core/B_learning/approval.py: reading and writing a document at a pointer. Python's documents are
-- changed in place; a write here returns the new document.
use proto_v2_engine.Base.{
  ℕ, zero, suc, ◌-◌, String, Bool, Option, none, some, List, [], ◌∷◌, Result, ok, err, ◌>>=◌, ltb,
  is_ok, ◌==◌, if◌then◌else◌,
}
use proto_v2_engine.Json.{
  put_field, Json, Items, Fields, ℤ, pos, negsuc, arr, obj, nil, cons, end, field, value_at,
}
use proto_v2_engine.Patches.Pointer.{
  PatchError, value_error, key_error, index_error, type_error, read_int,
}

abbrev pub Patched : Type 0 → Type 0
Patched A = Result PatchError A

unfoldable pub size : Items → ℕ
size nil = 0
size (cons x xs) = suc (size xs)

unfoldable pub nth : Items → ℕ → Patched Json
nth nil n = err index_error
nth (cons x xs) zero = ok x
nth (cons x xs) (suc n) = nth xs n

unfoldable pub set_nth : Items → ℕ → Json → Items
set_nth nil n v = nil
set_nth (cons x xs) zero v = cons v xs
set_nth (cons x xs) (suc n) v = cons x (set_nth xs n v)

unfoldable pub remove_nth : Items → ℕ → Items
remove_nth nil n = nil
remove_nth (cons x xs) zero = xs
remove_nth (cons x xs) (suc n) = cons x (remove_nth xs n)

-- `xs.insert(n, v)` for an index that is not negative: behind the end it appends.
unfoldable pub insert_nth : Items → ℕ → Json → Items
insert_nth nil n v = cons v nil
insert_nth (cons x xs) zero v = cons v (cons x xs)
insert_nth (cons x xs) (suc n) v = cons x (insert_nth xs n v)

-- The place that an index means: a negative one counts from the end.
unfoldable pub place : ℤ → ℕ → Patched ℕ
place (pos n) len = if ltb n len then ok n else err index_error
place (negsuc n) len = if ltb n len then ok (len - suc n) else err index_error

-- The place where `insert` puts a value: out of range it goes to the nearer end.
unfoldable pub insert_place : ℤ → ℕ → ℕ
insert_place (pos n) len = n
insert_place (negsuc n) len = len - suc n

abbrev pub as_int : Option ℤ → Patched ℤ
as_int none = err value_error
as_int (some z) = ok z

-- The place of a token in a list: `xs[int(token)]`.
unfoldable pub place_of : String → Items → Patched ℕ
unfolding read_int place size
place_of token xs = as_int (read_int token) >>= λ z. place z (size xs)

abbrev pub found : Option Json → Patched Json
found none = err key_error
found (some v) = ok v

unfoldable pub remove_field : Fields → String → Fields
remove_field end k = end
remove_field (field j w fs) k =
    let rest = remove_field fs k in if j == k then fs else field j w rest

-- One step of the walk: `cur[int(p)]` in a list, `cur[p]` else.
unfoldable pub child : Json → String → Patched Json
unfolding place_of nth value_at
child (arr xs) p = place_of p xs >>= λ n. nth xs n
child (obj fs) p = found (value_at fs p)
child _ p = err type_error

-- The document with the member at `p` written: `cur[int(p)] = v` or `cur[p] = v`.
unfoldable pub set_child : Json → String → Json → Patched Json
unfolding place_of set_nth put_field
set_child (arr xs) p v = place_of p xs >>= λ n. ok (arr (set_nth xs n v))
set_child (obj fs) p v = ok (obj (put_field fs p v))
set_child _ p v = err type_error

-- `_get`, on the tokens.
unfoldable pub get_at : Json → List String → Patched Json
unfolding child
get_at cur [] = ok cur
get_at cur (p ∷ ps) = child cur p >>= λ next. get_at next ps

-- `_exists`, on the tokens.
abbrev pub exists_at : Json → List String → Bool
exists_at doc ps = is_ok (get_at doc ps)

-- A write to the object that the tokens lead to.
unfoldable pub update_at : (Json → Patched Json) → Json → List String → Patched Json
unfolding child set_child
update_at change cur [] = change cur
update_at change cur (p ∷ ps) =
    child cur p >>= λ next. update_at change next ps >>= λ next'. set_child cur p next'

-- The parent's tokens and the last one: `_get_parent_and_key`.
unfoldable pub parent_and_key : List String → Patched (List String × String)
parent_and_key [] = err value_error
parent_and_key (p ∷ []) = ok ([], p)
parent_and_key (p ∷ q ∷ ps) = parent_and_key (q ∷ ps) >>= λ (front, key). ok (p ∷ front, key)
