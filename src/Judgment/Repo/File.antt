-- ===== src/Judgment/Repo/File.antt =====
-- `FileBackedDpaRepository` of core/judgment/persistence/file_repo.py: an append-only file of JSON
-- lines that are not blank, of which the last with an id counts. A `Plain` value is one of `model_dump` or
-- of `json.loads`, where a leaf is any value that `_jsonify` gives back as it is and that is no text. The
-- texts of json and the classes of pydantic are parameters.
pub mod Printed
pub mod Refinement
use proto_v2_engine.Base.{
  String, Bool, false, Option, none, some, List, [], ◌∷◌, ◌++◌, Result, ok, err, ◌>>=◌, ◌==◌,
  if◌then◌else◌,
}
use proto_v2_engine.Judgment.Models.{
  DecisionStatus, PolicyError, DpaRecord, status_value, event_ingested, dpa_created,
  human_reviewing, approved, applied, aborted,
}
use proto_v2_engine.Judgment.Repo.{already_exists}

mutual
  pub data Plain (V : Type 0) : Type 0 where
    leaf : V → Plain V
    plain_text : String → Plain V
    member : DecisionStatus → Plain V
    seq : Plains V → Plain V
    dict : PlainFields V → Plain V

  pub data Plains (V : Type 0) : Type 0 where
    no_more : Plains V
    more : Plain V → Plains V → Plains V

  pub data PlainFields (V : Type 0) : Type 0 where
    no_field : PlainFields V
    entry : String → Plain V → PlainFields V → PlainFields V

-- What `get`, `create` and `save` can raise.
pub data FileError : Type 0 where
  policy : PolicyError → FileError
  decode_error attribute_error validation_error : FileError

abbrev pub Raising : Type 0 → Type 0
Raising A = Result FileError A

-- `DecisionStatus[st]`
unfoldable pub status_named : String → Option DecisionStatus
status_named st =
    if st == "EVENT_INGESTED"
    then some event_ingested
    else if st == "DPA_CREATED"
    then some dpa_created
    else if st == "HUMAN_REVIEWING"
    then some human_reviewing
    else if st == "APPROVED"
    then some approved
    else if st == "APPLIED"
    then some applied
    else if st == "ABORTED"
    then some aborted
    else none

module _ {V : Type 0} where
  -- `_jsonify`: a member of an enumeration becomes its name, which is its value here.
  unfoldable mutual
    unfolding status_value

    pub jsonify : Plain V → Plain V
    jsonify (leaf v) = leaf v
    jsonify (plain_text s) = plain_text s
    jsonify (member s) = plain_text (status_value s)
    jsonify (seq xs) = seq (jsonify_items xs)
    jsonify (dict fs) = dict (jsonify_fields fs)

    pub jsonify_items : Plains V → Plains V
    jsonify_items no_more = no_more
    jsonify_items (more x xs) = more (jsonify x) (jsonify_items xs)

    pub jsonify_fields : PlainFields V → PlainFields V
    jsonify_fields no_field = no_field
    jsonify_fields (entry k v fs) = entry k (jsonify v) (jsonify_fields fs)

  -- `fs.get(k)`
  unfoldable pub plain_at : PlainFields V → String → Option (Plain V)
  plain_at no_field k = none
  plain_at (entry j v fs) k = if j == k then some v else plain_at fs k

  -- `fs[k] = v`
  unfoldable pub put_plain : PlainFields V → String → Plain V → PlainFields V
  put_plain no_field k v = entry k v no_field
  put_plain (entry j w fs) k v = if j == k then entry j v fs else entry j w (put_plain fs k v)

  abbrev pub is_id : Option (Plain V) → String → Bool
  is_id (some (plain_text s)) id = s == id
  is_id _ id = false

  abbrev pub restored : PlainFields V → Option DecisionStatus → PlainFields V
  restored fs none = fs
  restored fs (some s) = put_plain fs "status" (member s)

  -- The status that is a text becomes the member that it names, if there is one.
  abbrev pub restore_at : PlainFields V → Option (Plain V) → PlainFields V
  restore_at fs (some (plain_text st)) = restored fs (status_named st)
  restore_at fs _ = fs

  abbrev pub as_dict : Plain V → Raising (PlainFields V)
  as_dict (dict fs) = ok fs
  as_dict _ = err attribute_error

-- json and pydantic: a line is read or raises JSONDecodeError, a record is built or raises
-- ValidationError.
pub record Codec (V Line : Type 0) : Type 0 where
  pub model_dump : DpaRecord → PlainFields V
  pub dumps : PlainFields V → Line
  pub loads : Line → Option (Plain V)
  pub build : PlainFields V → Option DpaRecord

module _ {V Line : Type 0} (c : Codec V Line) where
  abbrev pub read_line : Line → Raising (PlainFields V)
  read_line ln = elim (c.loads ln) [ none ↦ err decode_error | some v ↦ as_dict v ]

  -- The loop of `get`, from the dict that it last kept.
  unfoldable pub scan :
      Option (PlainFields V) → List Line → String → Raising (Option (PlainFields V))
  unfolding plain_at
  scan last [] id = ok last
  scan last (ln ∷ lines) id = read_line ln >>= λ fs.
      scan (if is_id (plain_at fs "dpa_id") id then some fs else last) lines id

  abbrev pub build_record : PlainFields V → Raising (Option DpaRecord)
  build_record fs = elim (c.build (restore_at fs (plain_at fs "status"))) [
    | none ↦ err validation_error
    | some d ↦ ok (some d)
  ]

  abbrev pub build_last : Option (PlainFields V) → Raising (Option DpaRecord)
  build_last none = ok none
  build_last (some fs) = build_record fs

  unfoldable pub get_dpa : List Line → String → Raising (Option DpaRecord)
  unfolding scan plain_at put_plain status_named
  get_dpa lines id = scan none lines id >>= build_last

  -- The dict that `save` prints.
  unfoldable pub saved_fields : DpaRecord → PlainFields V
  unfolding jsonify_fields put_plain status_value
  saved_fields dpa =
      put_plain (jsonify_fields (c.model_dump dpa)) "status" (plain_text (status_value dpa.status))

  unfoldable pub save_dpa : DpaRecord → List Line → Raising DpaRecord × List Line
  unfolding saved_fields
  save_dpa dpa lines = (ok dpa, lines ++ c.dumps (saved_fields dpa) ∷ [])

  abbrev pub create_at :
      Raising (Option DpaRecord) → DpaRecord → List Line → Raising DpaRecord × List Line
  create_at (err e) dpa lines = (err e, lines)
  create_at (ok (some _)) dpa lines = (err (policy (already_exists dpa.dpa_id)), lines)
  create_at (ok none) dpa lines = save_dpa dpa lines

  unfoldable pub create_dpa : DpaRecord → List Line → Raising DpaRecord × List Line
  unfolding get_dpa save_dpa
  create_dpa dpa lines = create_at (get_dpa lines dpa.dpa_id) dpa lines
