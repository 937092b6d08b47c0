-- ===== src/Patches/Patch.antt =====
-- core/B_learning/approval.py: `apply_patch`. The copy by `json.loads(json.dumps(doc))` is the document
-- itself, since a document here is never changed in place.
pub mod Replace
use proto_v2_engine.Base.{
  String, Bool, not, ◌||◌, Option, none, some, List, ok, err, ◌>>=◌, ◌>>◌, raise_if, ◌==◌,
  if◌then◌else◌,
}
use proto_v2_engine.Json.{
  put_field, Json, Items, Fields, str, arr, obj, nil, cons, value_at, get_json,
}
use proto_v2_engine.Patches.Pointer.{
  value_error, type_error, attribute_error, read_int, split_pointer,
}
use proto_v2_engine.Patches.Document.{
  Patched, size, remove_nth, insert_nth, insert_place, place_of, as_int, remove_field, set_child,
  get_at, exists_at, update_at, parent_and_key,
}

-- `add`, on the parent.
unfoldable pub add_child : String → Json → Json → Patched Json
unfolding insert_nth insert_place size put_field read_int
add_child key value (arr xs) =
    if key == "-"
    then ok (arr (insert_nth xs (size xs) value))
    else as_int (read_int key) >>= λ z. ok (arr (insert_nth xs (insert_place z (size xs)) value))
add_child key value (obj fs) = ok (obj (put_field fs key value))
add_child key value _ = err type_error

-- `remove`, on the parent.
unfoldable pub remove_child : String → Json → Patched Json
unfolding remove_nth place_of remove_field
remove_child key (arr xs) = place_of key xs >>= λ n. ok (arr (remove_nth xs n))
remove_child key (obj fs) = ok (obj (remove_field fs key))
remove_child key _ = err attribute_error

-- A change of the parent that a pointer leads to.
unfoldable pub at_parent : (String → Json → Patched Json) → Json → List String → Patched Json
unfolding parent_and_key update_at
at_parent change doc parts =
    parent_and_key parts >>= λ (front, key). update_at (change key) doc front

abbrev pub value_of : Option Json → Patched Json
value_of none = err value_error
value_of (some v) = ok v

abbrev pub path_of : Json → Patched String
path_of (str path) = ok path
path_of _ = err value_error

-- The body of the loop, for an operation with its kind and path.
unfoldable pub apply_kind : String → String → Fields → Json → Patched Json
unfolding at_parent add_child remove_child set_child get_at split_pointer value_at
apply_kind kind path op doc =
    if kind == "add"
    then value_of (value_at op "value") >>= (λ value. split_pointer path >>= λ parts.
        at_parent (λ key parent. add_child key value parent) doc parts)
    else if kind == "replace"
    then value_of (value_at op "value") >>= (λ value. split_pointer path >>= λ parts.
        raise_if (not (exists_at doc parts)) value_error
        >> at_parent (λ key parent. set_child parent key value) doc parts)
    else (split_pointer path >>= λ parts.
        raise_if (not (exists_at doc parts)) value_error
        >> at_parent (λ key parent. remove_child key parent) doc parts)

abbrev is_kind : String → Bool
is_kind kind = kind == "add" || kind == "replace" || kind == "remove"

abbrev pub kind_of : Json → Patched String
kind_of (str kind) = if is_kind kind then ok kind else err value_error
kind_of _ = err value_error

unfoldable pub apply_op : Json → Json → Patched Json
unfolding apply_kind value_at
apply_op (obj op) doc = do
  kind ← kind_of (get_json op "op")
  path ← path_of (get_json op "path")
  raise_if (path == "" || path == "/") value_error
  apply_kind kind path op doc
apply_op _ doc = err attribute_error

unfoldable pub apply_patch : Items → Json → Patched Json
unfolding apply_op
apply_patch nil doc = ok doc
apply_patch (cons op ops) doc = apply_op op doc >>= λ doc'. apply_patch ops doc'
