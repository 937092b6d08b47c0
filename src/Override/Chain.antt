-- ===== src/Override/Chain.antt =====
-- tools/audit/verify_override_chain.py: the verification of a file of override events. A line is what
-- `json.loads` makes of it, and blank lines are left out before. SHA-256 and the printer of JSON are
-- parameters. Members are read after the validation, which has found them.
pub mod Accounts
pub mod Verified
use proto_v2_engine.Base.{
  ℕ, String, Bool, true, false, not, ◌&&◌, ◌||◌, Option, none, some, List, [], ◌∷◌, Result, ok, err,
  ◌>>=◌, ◌>>◌, raise_if, map_err, length, is_some, ◌==◌, if◌then◌else◌,
}
use Prim.Native.String.{◌++◌ as append}
use proto_v2_engine.Json.{
  put_field, Json, Fields, null, str, obj, end, field, get_json, is_null, is_text,
}
use proto_v2_engine.Override.Schema.{
  Failure, Checked, Times, verify_fail, raised, validate_override_event_full,
}
use proto_v2_engine.Patches.Document.{remove_field}

abbrev pub fields_of : Json → Fields
fields_of (obj fs) = fs
fields_of _ = end

-- `v[k]`
abbrev pub member : Json → String → Json
member v k = get_json (fields_of v) k

abbrev pub text_of : Json → String
text_of (str s) = s
text_of _ = ""

abbrev pub type_is : Json → String → Bool
type_is ev t = is_text (member ev "type") t

abbrev pub subject : Json → String
subject ev = text_of (member (member ev "actor") "subject")

abbrev pub id_of : Json → String
id_of ev = text_of (member ev "event_id")

abbrev pub expires_at : Json → Json
expires_at ev = member (member (member ev "approval") "constraints") "expires_at"

pub record Digest : Type 0 where
  pub sha256_hex : String → String
  pub canonical_json : Json → String

-- The event without its own hash.
unfoldable pub without_hash : Json → Json
unfolding put_field remove_field
without_hash ev =
    obj
      (put_field (fields_of ev) "chain" (obj (remove_field (fields_of (member ev "chain")) "hash")))

-- The hash that an event must have.
unfoldable pub expected_hash : Digest → Json → String
unfolding without_hash
expected_hash d ev = d.sha256_hex (
    append (text_of (member (member ev "chain") "prev_hash"))
      (append ":" (d.sha256_hex (d.canonical_json (without_hash ev)))))

abbrev pub prev_hash_of : Json → String
prev_hash_of ev = text_of (member (member ev "chain") "prev_hash")

abbrev pub hash_of : Json → String
hash_of ev = text_of (member (member ev "chain") "hash")

abbrev pub verify : Bool → String → Checked
verify cond msg = raise_if (not cond) (verify_fail msg)

-- `except SystemExit`: other exceptions pass.
abbrev pub schema_failure : Failure → Failure
schema_failure raised = raised
schema_failure _ = verify_fail "schema validation failed"

-- `events_by_id.get`
unfoldable pub find_event : List Json → String → Option Json
find_event [] id = none
find_event (ev ∷ evs) id = let rest = find_event evs id in if id_of ev == id then some ev else rest

unfoldable pub verify_unique : List Json → Checked
unfolding find_event
verify_unique [] = ok tt
verify_unique (ev ∷ evs) =
    verify (not (is_some (find_event evs (id_of ev)))) "duplicate event_id" >> verify_unique evs

-- What is returned of a chain that is verified.
pub record Verdict : Type 0 where
  pub rows : ℕ
  pub head : String
  pub tail : String

abbrev first_hash : List Json → String
first_hash [] = ""
first_hash (ev ∷ _) = hash_of ev

abbrev last_hash : String → List Json → String
last_hash h [] = h
last_hash h (ev ∷ evs) = last_hash (hash_of ev) evs

abbrev pub require_event : (Json → Bool) → String → Option Json → Result Failure Json
require_event test msg none = err (verify_fail msg)
require_event test msg (some ev) = if test ev then ok ev else err (verify_fail msg)

abbrev pub is_request : Json → Bool
is_request ev = type_is ev "OVERRIDE_REQUESTED"

abbrev pub is_approval : Json → Bool
is_approval ev =
    type_is ev "OVERRIDE_APPROVED" && is_text (member (member ev "approval") "decision") "approved"

abbrev pub parsed : {T : Type 0} → String → Option T → Result Failure T
parsed msg none = err (verify_fail msg)
parsed msg (some t) = ok t

module _ {T : Type 0} (times : Times T) where
  -- A time that cannot be read fails with the message of the test.
  abbrev pub time_or_fail : String → Json → Result Failure T
  time_or_fail msg (str s) = parsed msg (times.parse_isoz s)
  time_or_fail msg _ = err (verify_fail msg)

  unfoldable pub verify_expiry : Json → Checked
  verify_expiry ev = do
    approval_ts ← time_or_fail "invalid_expires_at" (member ev "ts")
    expires ← time_or_fail "invalid_expires_at" (expires_at ev)
    verify (times.is_before approval_ts expires) "invalid_expires_at"

  unfoldable pub verify_answer : List Json → Json → Checked
  unfolding find_event verify_expiry
  verify_answer events ev = do
    req ←
        require_event is_request "missing OVERRIDE_REQUESTED"
          (find_event events (text_of (member ev "ref_request_event_id")))
    verify (not (subject req == subject ev)) "role_separation_violation"
    (if type_is ev "OVERRIDE_APPROVED" then verify_expiry ev else ok tt)

  unfoldable pub verify_execution : List Json → Json → Checked
  unfolding find_event
  verify_execution events ev = do
    req ←
        require_event is_request "missing OVERRIDE_REQUESTED"
          (find_event events (text_of (member ev "ref_request_event_id")))
    appr ←
        require_event is_approval "missing OVERRIDE_APPROVED"
          (find_event events (text_of (member ev "ref_approval_event_id")))
    verify
        (text_of (member appr "ref_request_event_id") == text_of (member ev "ref_request_event_id"))
        "approval_request_mismatch"
    executed_ts ← time_or_fail "expired_override" (member ev "ts")
    expires ← time_or_fail "expired_override" (expires_at appr)
    verify (not (times.is_before expires executed_ts)) "expired_override"

  -- The second loop's body.
  unfoldable pub verify_roles : List Json → Json → Checked
  unfolding verify_answer verify_execution
  verify_roles events ev =
      (if type_is ev "OVERRIDE_APPROVED" || type_is ev "OVERRIDE_REJECTED"
        then verify_answer events ev
        else ok tt)
      >> (if type_is ev "OVERRIDE_EXECUTED" then verify_execution events ev else ok tt)

  unfoldable pub verify_all_roles : List Json → List Json → Checked
  unfolding verify_roles
  verify_all_roles events [] = ok tt
  verify_all_roles events (ev ∷ evs) = verify_roles events ev >> verify_all_roles events evs

module _ {T : Type 0} (d : Digest) (times : Times T) where
  -- One line: the event, its link to the hash before, and its own hash.
  unfoldable pub verify_line : String → Option Json → Result Failure Json
  unfolding expected_hash validate_override_event_full
  verify_line prev none = err (verify_fail "invalid json")
  verify_line prev (some ev) = do
    map_err schema_failure (validate_override_event_full times ev)
    verify (prev_hash_of ev == prev) "prev_hash mismatch"
    verify (expected_hash d ev == hash_of ev) "chain hash mismatch"
    ok ev

  -- The loop over the lines, with the hash before: GENESIS for the first.
  unfoldable pub verify_lines : String → List (Option Json) → Result Failure (List Json)
  unfolding verify_line
  verify_lines prev [] = ok []
  verify_lines prev (line ∷ lines) = do
    ev ← verify_line prev line
    evs ← verify_lines (hash_of ev) lines
    ok (ev ∷ evs)

  unfoldable pub verify_chain : List (Option Json) → Result Failure Verdict
  unfolding verify_lines verify_unique verify_all_roles
  verify_chain [] = err (verify_fail "audit file empty")
  verify_chain (line ∷ lines) = do
    events ← verify_lines "GENESIS" (line ∷ lines)
    verify_unique events
    verify_all_roles times events events
    ok record { rows = length events; head = first_hash events; tail = last_hash "" events }
