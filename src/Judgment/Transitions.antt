-- ===== src/Judgment/Transitions.antt =====
-- core/judgment/transitions.py. Each function returns the record that it leaves, or raises before
-- its first assignment; `now` is what `_utcnow()` returns.
use Prim.Native.String.{◌++◌}
use proto_v2_engine.Base.{
  ℕ, String, Bool, true, false, not, ◌||◌, Option, none, some, List, [], ◌∷◌, Dict, put, get,
  Result, ok, err, ◌>>◌, raise_if, if◌then◌else◌, truthy, is_some,
}
use proto_v2_engine.Json.{Json, null, str}
use proto_v2_engine.Judgment.Models.{
  DecisionStatus, dpa_created, human_reviewing, approved, applied, aborted, status_value,
  PolicyError, forbidden, conflict, unprocessable, DpaOption, HumanDecision, DpaRecord,
}

abbrev pub is_terminal : DecisionStatus → Bool
is_terminal aborted = true
is_terminal applied = true
is_terminal _ = false

-- `dpa.status in {DPA_CREATED, HUMAN_REVIEWING}`
abbrev pub is_open : DecisionStatus → Bool
is_open dpa_created = true
is_open human_reviewing = true
is_open _ = false

abbrev pub is_approved : DecisionStatus → Bool
is_approved approved = true
is_approved _ = false

status_meta : DecisionStatus → Option (Dict Json)
status_meta s = some (("status", str (status_value s)) ∷ [])

option_meta : String → Option (Dict Json)
option_meta id = some (("selected_option_id", str id) ∷ [])

text_or_null : Option String → Json
text_or_null none = null
text_or_null (some t) = str t

blocked_meta : DpaOption → Option (Dict Json)
blocked_meta o = some (
    ("selected_option_id", str o.option_id)
    ∷ ("blocked_reason", text_or_null o.blocked_reason)
    ∷ [])

unfoldable pub start_review : DpaRecord → ℕ → Result PolicyError DpaRecord
unfolding status_meta
start_review dpa now = do
  raise_if (is_terminal dpa.status)
      (conflict "STATUS_TERMINAL" "Cannot start review on terminal DPA." (status_meta dpa.status))
  raise_if (not (is_open dpa.status)) (
      conflict "STATUS_INVALID_TRANSITION" "Review can only start from DPA_CREATED/HUMAN_REVIEWING."
        (status_meta dpa.status))
  ok (record dpa { status = human_reviewing; updated_at = now })

-- `{o.option_id: o for o in options}`: of two options with one id the later is kept.
unfoldable pub option_map : Dict DpaOption → List DpaOption → Dict DpaOption
option_map m [] = m
option_map m (o ∷ os) = option_map (put m o.option_id o) os

unfoldable pub find_option : List DpaOption → String → Option DpaOption
unfolding option_map
find_option options id = get (option_map [] options) id

abbrev check_option : Option DpaOption → String → Result PolicyError (Unit {0})
check_option none id =
    err (
      unprocessable "OPTION_NOT_FOUND" "selected_option_id not present in options."
        (option_meta id))
check_option (some o) id = raise_if o.blocked (
    conflict "OPTION_BLOCKED" "Selected option is blocked and cannot be approved." (blocked_meta o))

-- f"{decision.approver_name} ({decision.approver_role})"
unfoldable pub approver_text : HumanDecision → String
approver_text d = d.approver_name ++ " (" ++ d.approver_role ++ ")"

unfoldable pub submit_human_decision : DpaRecord → HumanDecision → ℕ → Result PolicyError DpaRecord
unfolding status_meta option_meta blocked_meta text_or_null approver_text
submit_human_decision dpa decision now = do
  raise_if (is_terminal dpa.status)
      (conflict "STATUS_TERMINAL" "Cannot approve a terminal DPA." (status_meta dpa.status))
  raise_if (not (is_open dpa.status)) (
      conflict "STATUS_INVALID_TRANSITION"
        "Human decision can only be submitted from DPA_CREATED/HUMAN_REVIEWING."
        (status_meta dpa.status))
  raise_if
      (not (truthy decision.approver_name)
        || not (truthy decision.approver_role)
        || not (truthy decision.signature))
      (unprocessable "APPROVER_REQUIRED" "Approver fields are required." none)
  check_option (find_option dpa.options_json decision.selected_option_id)
      decision.selected_option_id
  ok (record dpa {
    human_decision_json = some decision;
    status = approved;
    approved_at = some decision.decided_at;
    approved_by = some (approver_text decision);
    updated_at = now;
  })

-- The truth value of an optional text.
abbrev pub is_present : Option String → Bool
is_present none = false
is_present (some t) = truthy t

unfoldable pub apply : DpaRecord → ℕ → Result PolicyError DpaRecord
unfolding status_meta
apply dpa now = do
  raise_if (is_terminal dpa.status)
      (conflict "STATUS_TERMINAL" "Cannot apply a terminal DPA." (status_meta dpa.status))
  raise_if (not (is_approved dpa.status)) (
      conflict "STATUS_INVALID_TRANSITION" "Apply requires status=APPROVED."
        (status_meta dpa.status))
  raise_if (not (is_some dpa.human_decision_json))
      (forbidden "HUMAN_DECISION_REQUIRED" "Cannot apply without human_decision." none)
  raise_if (not (is_some dpa.approved_at) || not (is_present dpa.approved_by)) (
      conflict "APPROVAL_FIELDS_REQUIRED" "approved_at and approved_by must exist before apply."
        none)
  ok (record dpa { status = applied; updated_at = now })

-- `if reason:` skips an empty text as well as `None`.
abbrev pub with_reason : Option String → Dict Json → Dict Json
with_reason none constraints = constraints
with_reason (some r) constraints =
    if truthy r then put constraints "abort_reason" (str r) else constraints

abbrev abort_from : DecisionStatus → DpaRecord → Option String → ℕ → Result PolicyError DpaRecord
abort_from applied dpa reason now =
    err (conflict "STATUS_TERMINAL" "Cannot abort an already applied DPA." (status_meta dpa.status))
abort_from aborted dpa reason now = ok dpa
abort_from _ dpa reason now = ok (record dpa {
  status = aborted;
  updated_at = now;
  constraints_json = with_reason reason dpa.constraints_json;
})

unfoldable pub abort : DpaRecord → Option String → ℕ → Result PolicyError DpaRecord
unfolding status_meta
abort dpa reason now = abort_from dpa.status dpa reason now
