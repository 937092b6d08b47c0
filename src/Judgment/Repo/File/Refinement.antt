-- ===== src/Judgment/Repo/File/Refinement.antt =====
-- core/judgment/persistence/file_repo.py: a file that holds what the repository wrote.
use proto_v2_engine.Base.{
  String, ◌≡◌, Option, none, some, List, [], ◌∷◌, ◌++◌, map, Result, ok, err, map_err, ◌==◌,
  if◌then◌else◌,
}
use proto_v2_engine.Judgment.Models.{PolicyError, DpaRecord}
use proto_v2_engine.Judgment.Repo.{DpaRepository, IsRepository, already_exists}
use proto_v2_engine.Judgment.Repo.File.{
  Plain, PlainFields, plain_text, member, dict, Raising, policy, Codec, jsonify_fields, plain_at,
  put_plain, get_dpa, saved_fields, save_dpa, create_dpa,
}
use proto_v2_engine.Judgment.Repo.File.Printed.{fields_as_read}

-- The repository as the list of the records that were saved, of which the last with an id counts.
unfoldable pub latest : Option DpaRecord → List DpaRecord → String → Option DpaRecord
latest last [] id = last
latest last (d ∷ ds) id = latest (if d.dpa_id == id then some d else last) ds id

abbrev log_at :
    Option DpaRecord → DpaRecord → List DpaRecord → Result PolicyError DpaRecord × List DpaRecord
log_at (some _) d ds = (err (already_exists d.dpa_id), ds)
log_at none d ds = (ok d, ds ++ d ∷ [])

abbrev pub record_log : DpaRepository (List DpaRecord)
record_log = record {
  get = latest none;
  create = λ d ds. log_at (latest none ds d.dpa_id) d ds;
  save = λ d ds. (ok d, ds ++ d ∷ []);
}

abbrev HasId : String → Option DpaRecord → Type 0
HasId id none = Unit
HasId id (some d) = d.dpa_id ≡ id

-- What the code relies on of json and pydantic: a dict that was printed is read with its leaves as they
-- are printed, a dump has the record's id, and the record is built again of its dump as it is read, with
-- the status as a member.
pub record IsCodec {V Line : Type 0} (c : Codec V Line) : Type 0 where
  pub as_printed : V → Plain V
  pub reads :
      (fs : PlainFields V) → c.loads (c.dumps fs) ≡ some (dict (fields_as_read as_printed fs))
  pub has_id : (d : DpaRecord) → plain_at (c.model_dump d) "dpa_id" ≡ some (plain_text d.dpa_id)
  pub builds :
      (d : DpaRecord)
      → c.build (
          put_plain
            (fields_as_read as_printed (jsonify_fields (c.model_dump d)))
            "status"
            (member d.status))
        ≡ some d

module _ {V Line : Type 0} (c : Codec V Line) where
  -- The file of the records that were saved.
  abbrev pub written : List DpaRecord → List Line
  written ds = map (λ d. c.dumps (saved_fields c d)) ds

  abbrev pub raised : Result PolicyError DpaRecord × List DpaRecord → Raising DpaRecord × List Line
  raised (r, ds) = (map_err policy r, written ds)

  -- The file of saved records answers as the list of them, and each call leaves the file of the list
  -- that it leaves.
  pub record Refines : Type 0 where
    pub contract : IsRepository record_log (λ _. Unit {0})
    pub gets :
        (ds : List DpaRecord) (id : String) → get_dpa c (written ds) id ≡ ok (record_log.get ds id)
    pub creates :
        (ds : List DpaRecord) (d : DpaRecord)
        → create_dpa c d (written ds) ≡ raised (record_log.create d ds)
    pub saves :
        (ds : List DpaRecord) (d : DpaRecord)
        → save_dpa c d (written ds) ≡ raised (record_log.save d ds)

  module _ (k : IsCodec c) where
    abbrev line_fields : DpaRecord → PlainFields V
    line_fields d = fields_as_read k.as_printed (saved_fields c d)

    abbrev fields_in : Option DpaRecord → Option (PlainFields V)
    fields_in none = none
    fields_in (some d) = some (line_fields d)
