-- ===== src/Judgment/Repo.antt =====
-- core/judgment/repo.py and ports.py: the repository that the service is given, its contract, and in
-- the children the two implementations, in memory and over an append-only file.
pub mod Memory
pub mod File
use proto_v2_engine.Base.{
  String, ◌≡◌, Option, none, some, Result, ok, err, [], ◌∷◌, ◌==◌, if◌then◌else◌,
}
use proto_v2_engine.Json.{str}
use proto_v2_engine.Judgment.Models.{PolicyError, conflict, DpaRecord}

-- The protocol `DpaRepository` (`DpaRepositoryPort` is the same): methods on a store `S`.
pub record DpaRepository (S : Type 0) : Type 0 where
  pub get : S → String → Option DpaRecord
  pub create : DpaRecord → S → Result PolicyError DpaRecord × S
  pub save : DpaRecord → S → Result PolicyError DpaRecord × S

unfoldable pub already_exists : String → PolicyError
already_exists id =
    conflict "DPA_ALREADY_EXISTS" "DPA with same id already exists."
      (some (("dpa_id", str id) ∷ []))

-- After the call `s'` holds `d` under its id and is else as `s`.
abbrev pub Stores : {S : Type 0} → DpaRepository S → DpaRecord → S → S → Type 0
Stores r d s s' = (id : String) → r.get s' id ≡ (if d.dpa_id == id then some d else r.get s id)

-- The contract of a repository on the stores that are `Valid`. The protocol leaves open what `save` does with an unknown id.
pub record IsRepository {S : Type 0} (r : DpaRepository S) (Valid : S → Type 0) : Type 0 where
  pub keyed : (s : S) (id : String) (d : DpaRecord) → Valid s → r.get s id ≡ some d → d.dpa_id ≡ id
  pub create_new :
      (s : S) (d : DpaRecord)
      → Valid s
      → r.get s d.dpa_id ≡ none
      → ((r.create d s).0 ≡ ok d) × Valid (r.create d s).1 × Stores r d s (r.create d s).1
  pub create_taken :
      (s : S) (d x : DpaRecord)
      → r.get s d.dpa_id ≡ some x
      → r.create d s ≡ (err (already_exists d.dpa_id), s)
  pub save_known :
      (s : S) (d x : DpaRecord)
      → Valid s
      → r.get s d.dpa_id ≡ some x
      → ((r.save d s).0 ≡ ok d) × Valid (r.save d s).1 × Stores r d s (r.save d s).1
