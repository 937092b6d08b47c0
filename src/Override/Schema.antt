-- ===== src/Override/Schema.antt =====
-- tools/override/schema_override_event.py: the contract of an override event. `datetime.fromisoformat`
-- of a text, with `+00:00` for `Z`, is a parameter.

use proto_v2_engine.Base.{
  ℕ, String, Bool, true, false, not, ◌&&◌, ◌||◌, Option, List, [], ◌∷◌, Result, ok, err, ◌>>=◌,
  ◌>>◌, raise_if, leb, eqb, any, all, length, codes, is_some, truthy, ◌==◌, if◌then◌else◌,
}
use proto_v2_engine.Json.{
  Json, Items, Fields, pos, null, int, float, str, arr, obj, nil, cons, get_json, has_key, is_null,
  is_text, ltz,
}

-- `SystemExit` with its message, or another exception.
pub data Failure : Type 0 where
  contract_fail verify_fail : String → Failure
  raised : Failure

abbrev pub Checked : Type 0
Checked = Result Failure Unit

abbrev pub require : Bool → String → Checked
require cond msg = raise_if (not cond) (contract_fail msg)

pub record Times (T : Type 0) : Type 0 where
  pub parse_isoz : String → Option T
  pub is_before : T → T → Bool

abbrev event_types : List String
event_types =
    "OVERRIDE_REQUESTED" ∷ "OVERRIDE_APPROVED" ∷ "OVERRIDE_REJECTED" ∷ "OVERRIDE_EXECUTED" ∷ []

abbrev actor_roles : List String
actor_roles = "operator" ∷ "approver" ∷ "policy_admin" ∷ "auditor" ∷ []

abbrev requested_actions : List String
requested_actions = "block_execution" ∷ "force_flat" ∷ "reduce_risk" ∷ "manual_direction" ∷ []

abbrev reason_codes : List String
reason_codes =
    "ANOMALY_DETECTED" ∷ "POLICY_EXCEPTION" ∷ "DATA_QUALITY" ∷ "HUMAN_JUDGMENT" ∷ "OTHER" ∷ []

abbrev execution_effects : List String
execution_effects = "blocked" ∷ "flattened" ∷ "risk_reduced" ∷ "manual_applied" ∷ []

-- `require(v in set, msg)`: a list or a dict cannot be looked up in a set.
unfoldable pub require_in : List String → Json → String → Checked
require_in set (arr _) msg = err raised
require_in set (obj _) msg = err raised
require_in set v msg = require (any (λ s. is_text v s) set) msg

abbrev is_hex_code : ℕ → Bool
is_hex_code c =
    (leb b'0' c && leb c b'9') || (leb b'a' c && leb c b'f') || (leb b'A' c && leb c b'F')

abbrev hex64_codes : List ℕ → Bool
hex64_codes cs = eqb (length cs) 64 && all is_hex_code cs

unfoldable pub is_hex64 : Json → Bool
unfolding codes
is_hex64 (str s) = hex64_codes (codes s)
is_hex64 _ = false

abbrev ends_with_z : List ℕ → Bool
ends_with_z [] = false
ends_with_z (c ∷ []) = eqb c b'Z'
ends_with_z (c ∷ d ∷ cs) = ends_with_z (d ∷ cs)

unfoldable pub require_nonempty_str : Json → String → Checked
require_nonempty_str (str s) msg = require (truthy s) msg
require_nonempty_str _ msg = err (contract_fail msg)

abbrev first_code_is : ℕ → List ℕ → Bool
first_code_is n [] = false
first_code_is n (c ∷ _) = eqb c n

-- A number of at least 0; a float keeps its `repr`.
unfoldable pub require_notional : Json → Checked
unfolding codes
require_notional (int z) =
    require (not (ltz z (pos 0))) "approval.constraints.max_notional must be >= 0"
require_notional (float s) =
    require (not (s == "nan") && (s == "-0.0" || not (first_code_is b'-' (codes s))))
      "approval.constraints.max_notional must be >= 0"
require_notional _ = err (contract_fail "approval.constraints.max_notional must be number")

unfoldable pub require_dict : Json → String → Result Failure Fields
require_dict (obj fs) msg = ok fs
require_dict _ msg = err (contract_fail msg)

unfoldable pub validate_actor : Json → Checked
unfolding require_dict require_in require_nonempty_str
validate_actor v = do
  actor ← require_dict v "actor must be object"
  require_in actor_roles (get_json actor "role") "invalid actor.role"
  require_nonempty_str (get_json actor "subject") "actor.subject required"

unfoldable pub validate_target : Json → Checked
unfolding require_dict require_nonempty_str is_hex64
validate_target v = do
  target ← require_dict v "target must be object"
  require_nonempty_str (get_json target "decision_event_id") "target.decision_event_id required"
  require (is_hex64 (get_json target "decision_hash")) "target.decision_hash must be hex64"

-- The loop over a list of texts that must not be empty.
unfoldable pub require_all_texts : String → Items → Checked
unfolding require_nonempty_str
require_all_texts msg nil = ok tt
require_all_texts msg (cons v vs) = require_nonempty_str v msg >> require_all_texts msg vs

unfoldable pub validate_evidence_refs : Json → Checked
unfolding require_all_texts
validate_evidence_refs (arr (cons v vs)) =
    require_all_texts "evidence_refs entries must be non-empty strings" (cons v vs)
validate_evidence_refs _ = err (contract_fail "evidence_refs must be non-empty list")

unfoldable pub validate_chain_pre : Json → Checked
unfolding require_dict is_hex64
validate_chain_pre v = do
  chain ← require_dict v "chain must be object"
  require (is_text (get_json chain "prev_hash") "GENESIS" || is_hex64 (get_json chain "prev_hash"))
      "chain.prev_hash invalid"

abbrev optional_text : Json → Bool
optional_text null = true
optional_text (str _) = true
optional_text _ = false

module _ {T : Type 0} (times : Times T) where
  unfoldable pub validate_isoz : Json → Checked
  unfolding codes
  validate_isoz (str s) =
      require (ends_with_z (codes s)) "invalid isoz timestamp"
      >> require (is_some (times.parse_isoz s)) "invalid isoz timestamp"
  validate_isoz _ = err (contract_fail "invalid isoz timestamp")

  unfoldable pub validate_auth : Json → Checked
  unfolding require_nonempty_str validate_isoz
  validate_auth null = ok tt
  validate_auth (obj auth) = do
    require_nonempty_str (get_json auth "algorithm") "auth.algorithm required"
    require_nonempty_str (get_json auth "key_id") "auth.key_id required"
    require_nonempty_str (get_json auth "signature") "auth.signature required"
    validate_isoz (get_json auth "signed_at")
  validate_auth _ = err (contract_fail "auth must be object or null")

  abbrev require_ttl : Json → Checked
  require_ttl (int z) =
      require (not (ltz z (pos 60)) && not (ltz (pos 86400) z)) "request.ttl_sec out of range"
  require_ttl _ = err (contract_fail "request.ttl_sec must be int")

  unfoldable pub validate_requested : Fields → Checked
  unfolding require_dict require_in require_nonempty_str
  validate_requested ev = do
    request ← require_dict (get_json ev "request") "request required"
    require_in requested_actions (get_json request "requested_action")
        "invalid request.requested_action"
    require_in reason_codes (get_json request "reason_code") "invalid request.reason_code"
    require_nonempty_str (get_json request "reason_text") "request.reason_text required"
    require_ttl (get_json request "ttl_sec")

  abbrev require_scope : Json → Checked
  require_scope (arr (cons v vs)) =
      require_all_texts "approval.constraints.scope entries must be non-empty" (cons v vs)
  require_scope _ = err (contract_fail "approval.constraints.scope must be non-empty list")

  unfoldable pub validate_approved : Fields → Checked
  unfolding require_dict require_all_texts validate_isoz require_notional
  validate_approved approval = do
    require (is_text (get_json approval "decision") "approved") "approval.decision must be approved"
    constraints ← require_dict (get_json approval "constraints") "approval.constraints required"
    require_scope (get_json constraints "scope")
    validate_isoz (get_json constraints "expires_at")
    require_notional (get_json constraints "max_notional")
    require (optional_text (get_json constraints "notes"))
        "approval.constraints.notes must be string"

  unfoldable pub validate_rejected : Fields → Checked
  validate_rejected approval = do
    require (is_text (get_json approval "decision") "rejected") "approval.decision must be rejected"
    require (is_null (get_json approval "constraints"))
        "rejected approval must not have constraints"
    require (optional_text (get_json approval "notes")) "approval.notes must be string"

  unfoldable pub validate_approval_or_rejected : Fields → Checked
  unfolding require_nonempty_str require_dict validate_approved validate_rejected
  validate_approval_or_rejected ev = do
    require_nonempty_str (get_json ev "ref_request_event_id") "ref_request_event_id required"
    approval ← require_dict (get_json ev "approval") "approval required"
    (if is_text (get_json ev "type") "OVERRIDE_APPROVED"
        then validate_approved approval
        else validate_rejected approval)

  unfoldable pub validate_executed : Fields → Checked
  unfolding require_nonempty_str require_dict require_in
  validate_executed ev = do
    require_nonempty_str (get_json ev "ref_request_event_id") "ref_request_event_id required"
    require_nonempty_str (get_json ev "ref_approval_event_id") "ref_approval_event_id required"
    execution ← require_dict (get_json ev "execution") "execution required"
    require_in execution_effects (get_json execution "effect") "invalid execution.effect"
    require_nonempty_str (get_json execution "execution_intent_id")
        "execution.execution_intent_id required"

  abbrev required_top : List String
  required_top =
      "type" ∷ "ts" ∷ "event_id" ∷ "actor" ∷ "policy_sha256" ∷ "target" ∷ "evidence_refs" ∷ "chain"
      ∷ "auth" ∷ []

  abbrev validate_by_type : Json → Fields → Checked
  validate_by_type etype ev =
      if is_text etype "OVERRIDE_REQUESTED"
      then validate_requested ev
      else if is_text etype "OVERRIDE_APPROVED" || is_text etype "OVERRIDE_REJECTED"
      then validate_approval_or_rejected ev
      else if is_text etype "OVERRIDE_EXECUTED"
      then validate_executed ev
      else ok tt

  unfoldable pub validate_override_event_prechain : Fields → Checked
  unfolding require_in require_nonempty_str validate_isoz validate_actor is_hex64 validate_target
      validate_evidence_refs validate_chain_pre validate_auth validate_requested
      validate_approval_or_rejected validate_executed
  validate_override_event_prechain ev = do
    require (all (λ k. has_key ev k) required_top) "missing required field"
    require_in event_types (get_json ev "type") "invalid type"
    validate_isoz (get_json ev "ts")
    require_nonempty_str (get_json ev "event_id") "event_id required"
    validate_actor (get_json ev "actor")
    require (is_hex64 (get_json ev "policy_sha256")) "policy_sha256 must be hex64"
    validate_target (get_json ev "target")
    validate_evidence_refs (get_json ev "evidence_refs")
    validate_chain_pre (get_json ev "chain")
    validate_auth (get_json ev "auth")
    validate_by_type (get_json ev "type") ev

  unfoldable pub validate_override_event_full : Json → Checked
  unfolding validate_override_event_prechain require_dict is_hex64
  validate_override_event_full v = do
    ev ← require_dict v "event must be object"
    validate_override_event_prechain ev
    chain ← require_dict (get_json ev "chain") "chain must be object"
    require (has_key chain "hash") "chain.hash required"
    require (is_hex64 (get_json chain "hash")) "chain.hash must be hex64"
