-- ===== src/Judgment/Repo/Memory.antt =====
-- `InMemoryDpaRepository` of core/judgment/repo.py: a dictionary by id.
use text.Mathlib.TextEquality.{eq_iff}
use proto_v2_engine.Base.{
  String, ◌≡◌, refl, Option, none, some, [], ◌∷◌, Result, ok, err, Dict, get, put, get-put, All,
  arith,
}
use proto_v2_engine.Json.{str}
use proto_v2_engine.Judgment.Models.{PolicyError, conflict, DpaRecord}
use proto_v2_engine.Judgment.Repo.{DpaRepository, IsRepository, already_exists}

unfoldable pub not_found_for_save : String → PolicyError
not_found_for_save id =
    conflict "DPA_NOT_FOUND" "DPA not found for save." (some (("dpa_id", str id) ∷ []))

abbrev create_at :
    Option DpaRecord → DpaRecord → Dict DpaRecord → Result PolicyError DpaRecord × Dict DpaRecord
create_at (some _) dpa store = (err (already_exists dpa.dpa_id), store)
create_at none dpa store = (ok dpa, put store dpa.dpa_id dpa)

abbrev save_at :
    Option DpaRecord → DpaRecord → Dict DpaRecord → Result PolicyError DpaRecord × Dict DpaRecord
save_at none dpa store = (err (not_found_for_save dpa.dpa_id), store)
save_at (some _) dpa store = (ok dpa, put store dpa.dpa_id dpa)

abbrev pub in_memory : DpaRepository (Dict DpaRecord)
in_memory = record {
  get = get;
  create = λ dpa store. create_at (get store dpa.dpa_id) dpa store;
  save = λ dpa store. save_at (get store dpa.dpa_id) dpa store;
}

-- Every record stands under its own id.
abbrev pub IsKeyed : Dict DpaRecord → Type 0
IsKeyed = All (λ (k, d). d.dpa_id ≡ k)

get-IsKeyed :
    (store : Dict DpaRecord) (id : String) (d : DpaRecord)
    → IsKeyed store
    → get store id ≡ some d
    → d.dpa_id ≡ id
unfolding get
get-IsKeyed [] id d h e = cc
get-IsKeyed ((k, x) ∷ store) id d h e = ground (arith, eq_iff k id, get-IsKeyed store id d h.1)

put-IsKeyed :
    (store : Dict DpaRecord) (d : DpaRecord) → IsKeyed store → IsKeyed (put store d.dpa_id d)
unfolding put
put-IsKeyed [] d h = ground arith
put-IsKeyed ((k, x) ∷ store) d h = ground (arith, eq_iff k d.dpa_id, put-IsKeyed store d h.1)

-- The repository over a dictionary meets the repository contract on the dictionaries in which every
-- record stands under its own id.
pub in_memory-IsRepository : IsRepository in_memory IsKeyed
in_memory-IsRepository = record {
  keyed = get-IsKeyed;
  create_new = λ s d v e. rw e (refl, put-IsKeyed s d v, λ id. get-put s d.dpa_id id d);
  create_taken = λ s d x e. rw e;
  save_known = λ s d x v e. rw e (refl, put-IsKeyed s d v, λ id. get-put s d.dpa_id id d);
}
