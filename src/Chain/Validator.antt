-- ===== src/Chain/Validator.antt =====
-- core/validator.py: the fail-closed validator of one event. The messages are the constructors of
-- `Invalid`; an exception in the body is caught and is `validation_error`. The clock's texts are read
-- by parameters, as `datetime` does it.

pub mod Sound
use proto_v2_engine.Base.{
  ℕ, zero, suc, String, Bool, true, false, not, ◌&&◌, ◌||◌, Option, none, some, List, [], ◌∷◌,
  Result, ok, err, ◌>>=◌, ◌>>◌, raise_if, map_err, any, leb, eqb, codes, is_blank, same_codes, ◌==◌,
  if◌then◌else◌,
}
use proto_v2_engine.Json.{
  Json, Fields, ℤ, null, str, obj, get_json, has_key, is_null, is_text, int_value, is_positive,
}
use proto_v2_engine.Chain.Hasher.{Printing, ref_keys, compute_payload_hash, compute_event_id}

pub data Invalid : Type 0 where
  must_be_object must_be_string must_be_non_empty must_match_sha256 : String → Invalid
  missing_field : String → Invalid
  unknown_event_type : Invalid
  produced_before_occurred : Invalid
  prev_event_id_type : Invalid
  sequence_no_type : Invalid
  missing_refs : Invalid
  ref_type : String → Invalid
  no_ref : Invalid
  wrong_schema_id wrong_schema_hash payload_hash_mismatch event_id_mismatch : Invalid
  payload_missing : String → Invalid
  validation_error : Invalid

abbrev pub Checked : Type 0 → Type 0
Checked A = Result Invalid A

abbrev pub known_schema_id : String
known_schema_id = "JOS-JUDGMENT-COMMON-v1.0"

abbrev pub known_schema_hash : String
known_schema_hash = "sha256:023ef3e62f0c31ea2b813c561d413727eebafb7c824d9fe574c4d7b6b5ddb258"

abbrev pub event_types : List String
event_types =
    "OBSERVATION" ∷ "EXECUTION_REQUESTED" ∷ "EXECUTION_AUTHORIZED" ∷ "EXECUTION_BLOCKED"
    ∷ "EXECUTION_STARTED" ∷ "EXECUTION_FILLED" ∷ "EXECUTION_COMPLETED" ∷ "INVALIDATION_TRIGGERED"
    ∷ "HUMAN_OVERRIDE_APPLIED" ∷ "OUTCOME_RECORDED" ∷ "AUDIT_LOGGED" ∷ []

unfoldable pub is_hex : ℕ → Bool
is_hex c = (leb b'0' c && leb c b'9') || (leb b'a' c && leb c b'f')

-- `$` also matches before one newline at the end.
unfoldable pub is_digest : ℕ → List ℕ → Bool
unfolding is_hex
is_digest zero [] = true
is_digest zero (c ∷ cs) = eqb c 10 && same_codes cs []
is_digest (suc n) [] = false
is_digest (suc n) (c ∷ cs) = is_hex c && is_digest n cs

unfoldable pub after_prefix : List ℕ → List ℕ → Option (List ℕ)
after_prefix [] cs = some cs
after_prefix (p ∷ ps) [] = none
after_prefix (p ∷ ps) (c ∷ cs) = if eqb p c then after_prefix ps cs else none

abbrev digest_of : Option (List ℕ) → Bool
digest_of none = false
digest_of (some cs) = is_digest 64 cs

-- `_SHA256_RE.match`
unfoldable pub is_sha256_prefixed : String → Bool
unfolding is_digest after_prefix codes
is_sha256_prefixed s = digest_of (after_prefix (codes "sha256:") (codes s))

unfoldable pub require_dict : Json → String → Checked Fields
require_dict (obj fs) name = ok fs
require_dict _ name = err (must_be_object name)

unfoldable pub require_str : Json → String → Checked String
require_str (str s) name = if is_blank s then err (must_be_non_empty name) else ok s
require_str _ name = err (must_be_string name)

unfoldable pub require_sha256_prefixed : Json → String → Checked String
require_sha256_prefixed (str s) name =
    if is_sha256_prefixed s then ok s else err (must_match_sha256 name)
require_sha256_prefixed _ name = err (must_be_string name)

-- The first key of a list that is missing.
unfoldable pub require_keys : (String → Invalid) → Fields → List String → Checked Unit
require_keys missing fs [] = ok tt
require_keys missing fs (k ∷ ks) =
    let rest = require_keys missing fs ks in if has_key fs k then rest else err (missing k)

-- A member of a set of texts; what is no text is in none of them.
abbrev pub is_one_of : List String → Json → Bool
is_one_of set v = any (λ s. is_text v s) set

-- `event_type` where it is in the set of known ones. (A list or an object there raises, which is caught.)
unfoldable pub require_event_type : Json → Checked String
require_event_type (str s) = if is_one_of event_types (str s) then ok s else err unknown_event_type
require_event_type _ = err unknown_event_type

abbrev pub env_keys : List String
env_keys =
    "event_id" ∷ "event_type" ∷ "occurred_at_utc" ∷ "produced_at_utc" ∷ "system_id" ∷ "domain"
    ∷ "asset_or_subject_id" ∷ "environment" ∷ "classification" ∷ "chain" ∷ "actor" ∷ "artifact_refs"
    ∷ "integrity" ∷ []

abbrev pub chain_keys : List String
chain_keys = "chain_snapshot_id" ∷ "prev_event_id" ∷ "sequence_no" ∷ []

abbrev pub integrity_keys : List String
integrity_keys = "schema_id" ∷ "schema_hash" ∷ "payload_hash" ∷ []

abbrev pub payload_keys : String → List String
payload_keys event_type =
    if event_type == "OBSERVATION"
    then "observation_kind" ∷ "inputs" ∷ "metrics" ∷ []
    else if event_type == "EXECUTION_REQUESTED"
    then "request_id" ∷ "execution_scope" ∷ "intent" ∷ "constraints" ∷ []
    else if event_type == "EXECUTION_AUTHORIZED" || event_type == "EXECUTION_BLOCKED"
    then "decision" ∷ "reason_codes" ∷ "rule_evidence" ∷ "required_approvals" ∷ []
    else if event_type == "EXECUTION_FILLED"
    then "fill_id" ∷ "venue" ∷ "side" ∷ "linkage" ∷ []
    else if event_type == "INVALIDATION_TRIGGERED"
    then "invalidation_id" ∷ "invalidation_tag" ∷ "trigger_condition" ∷ "mandatory_action" ∷ []
    else if event_type == "HUMAN_OVERRIDE_APPLIED"
    then "override_id" ∷ "override_type" ∷ "scope" ∷ "justification" ∷ []
    else if event_type == "OUTCOME_RECORDED"
    then "outcome_id" ∷ "outcome_kind" ∷ "metrics" ∷ "evaluation_window" ∷ []
    else if event_type == "AUDIT_LOGGED"
    then "audit_id" ∷ "audit_kind" ∷ "status" ∷ []
    else []

-- `datetime.fromisoformat` of the text with `+00:00` for `Z`, and `<`, which raises on a naive time
-- beside an aware one; `none` stands for an exception.
pub record Clock (T : Type 0) : Type 0 where
  pub parse_z : String → Option T
  pub is_before : T → T → Option Bool

abbrev pub caught : {A : Type 0} → Option A → Checked A
caught none = err validation_error
caught (some a) = ok a

-- A text or `None`.
abbrev pub is_optional_text : Json → Bool
is_optional_text null = true
is_optional_text (str _) = true
is_optional_text _ = false

module _ {T : Type 0} (clock : Clock T) where
  unfoldable pub check_times : Fields → Checked Unit
  unfolding require_str
  check_times env = do
    occ ← require_str (get_json env "occurred_at_utc") "event_envelope.occurred_at_utc"
    prod ← require_str (get_json env "produced_at_utc") "event_envelope.produced_at_utc"
    occ_dt ← caught (clock.parse_z occ)
    prod_dt ← caught (clock.parse_z prod)
    early ← caught (clock.is_before prod_dt occ_dt)
    raise_if early produced_before_occurred

unfoldable pub check_prev_event_id : Json → Checked Unit
unfolding require_str
check_prev_event_id null = ok tt
check_prev_event_id v =
    map_err (λ _. prev_event_id_type) (require_str v "chain.prev_event_id") >>= λ _. ok tt

-- `isinstance(v, int) and v >= 1`
abbrev positive_int : Option ℤ → Bool
positive_int none = false
positive_int (some z) = is_positive z

unfoldable pub is_sequence_no : Json → Bool
is_sequence_no v = positive_int (int_value v)

-- The snapshot's identifier is handed on.
unfoldable pub check_chain : Fields → Checked String
unfolding require_str require_keys check_prev_event_id is_sequence_no
check_chain chain = do
  require_keys missing_field chain chain_keys
  snapshot ← require_str (get_json chain "chain_snapshot_id") "chain.chain_snapshot_id"
  check_prev_event_id (get_json chain "prev_event_id")
  raise_if (not (is_sequence_no (get_json chain "sequence_no"))) sequence_no_type
  ok snapshot

-- The loop over the references: each a text or `None`.
unfoldable pub check_ref_types : Fields → List String → Checked Unit
check_ref_types refs [] = ok tt
check_ref_types refs (k ∷ ks) =
    let rest = check_ref_types refs ks in
    if is_optional_text (get_json refs k) then rest else err (ref_type k)

unfoldable pub check_refs : String → Fields → Checked Unit
unfolding check_ref_types
check_refs event_type refs = do
  raise_if (any (λ k. not (has_key refs k)) ref_keys) missing_refs
  check_ref_types refs ref_keys
  raise_if
      (not (event_type == "AUDIT_LOGGED")
        && not (any (λ k. not (is_null (get_json refs k))) ref_keys))
      no_ref
  ok tt

-- The payload's hash is handed on.
unfoldable pub check_integrity : Fields → Checked String
unfolding require_keys require_sha256_prefixed
check_integrity integ = do
  require_keys missing_field integ integrity_keys
  raise_if (not (is_text (get_json integ "schema_id") known_schema_id)) wrong_schema_id
  schema_hash ← require_sha256_prefixed (get_json integ "schema_hash") "integrity.schema_hash"
  raise_if (not (schema_hash == known_schema_hash)) wrong_schema_hash
  require_sha256_prefixed (get_json integ "payload_hash") "integrity.payload_hash"

module _ {T : Type 0} (p : Printing) (clock : Clock T) where
  -- The body for an envelope and a payload.
  unfoldable pub check_event : Fields → Fields → Checked Unit
  unfolding require_dict require_str require_sha256_prefixed require_keys require_event_type
      check_times check_chain check_refs check_integrity
  check_event env payload = do
    require_keys missing_field env env_keys
    event_type ← require_event_type (get_json env "event_type")
    event_id ← require_sha256_prefixed (get_json env "event_id") "event_envelope.event_id"
    system_id ← require_str (get_json env "system_id") "event_envelope.system_id"
    domain ← require_str (get_json env "domain") "event_envelope.domain"
    subject ← require_str (get_json env "asset_or_subject_id") "event_envelope.asset_or_subject_id"
    check_times clock env
    chain ← require_dict (get_json env "chain") "event_envelope.chain"
    snapshot ← check_chain chain
    refs ← require_dict (get_json env "artifact_refs") "event_envelope.artifact_refs"
    check_refs event_type refs
    integ ← require_dict (get_json env "integrity") "event_envelope.integrity"
    payload_hash ← check_integrity integ
    computed_ph ← map_err (λ _. validation_error) (compute_payload_hash p (obj payload))
    raise_if (not (payload_hash == computed_ph)) payload_hash_mismatch
    computed_eid ←
        map_err (λ _. validation_error)
          (compute_event_id p event_type system_id domain subject snapshot
            (get_json chain "sequence_no") refs payload_hash)
    raise_if (not (event_id == computed_eid)) event_id_mismatch
    require_keys payload_missing payload (payload_keys event_type)

  unfoldable pub validate_core_event_fail_closed : Json → Checked Unit
  unfolding require_dict check_event
  validate_core_event_fail_closed (obj event) = do
    env ← require_dict (get_json event "event_envelope") "event_envelope"
    payload ← require_dict (get_json event "payload") "payload"
    check_event env payload
  validate_core_event_fail_closed _ = err validation_error
