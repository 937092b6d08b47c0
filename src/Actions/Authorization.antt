-- ===== src/Actions/Authorization.antt =====
-- core/contracts/orchestrator.py: the acceptance of a responsibility and the request for an execution.
-- A data class does not test the types of its fields, so that a field holds any value of JSON.
use proto_v2_engine.Base.{
  String, Bool, true, false, not, ◌||◌, Option, none, some, List, [], ◌∷◌, ◌++◌, Result, ok, err,
  ◌>>=◌, ◌>>◌, raise_if, any, all, truthy, ◌==◌, if◌then◌else◌,
}
use proto_v2_engine.Json.{
  Json, Fields, bool, arr, nil, end, field, value_at, has_key, get_json, is_text, is_truthy,
}

-- Exceptions by their class; a message is kept where it is a constant.
pub data Failure : Type 0 where
  value_error assertion : String → Failure
  type_error attribute_error raised : Failure

abbrev pub Raising : Type 0 → Type 0
Raising A = Result Failure A

abbrev pub Checked : Type 0
Checked = Raising Unit

abbrev pub assert : Bool → String → Checked
assert test message = raise_if (not test) (assertion message)

unfoldable pub all_keys : (String → Bool) → Fields → Bool
all_keys p end = true
all_keys p (field k v fs) = if p k then all_keys p fs else false

-- `Class(**raw)`: a TypeError for a keyword that is no field, and for a missing one without a default.
unfoldable pub accept_keywords : List String → List String → Fields → Checked
unfolding all_keys
accept_keywords required optional raw =
    raise_if
      (not (all_keys (λ k. any (λ n. n == k) (required ++ optional)) raw)
        || not (all (λ n. has_key raw n) required))
      type_error

-- A field, or its default.
abbrev pub field_or : Fields → String → Json → Json
field_or raw k default = elim (value_at raw k) [ none ↦ default | some v ↦ v ]

pub record ResponsibilityAcceptance : Type 0 where
  pub decision : Json
  pub actor_id : Json
  pub actor_role : Json
  pub ts : Json
  pub judgment_ref : Json
  pub reason : Json
  pub metadata : Json

pub record ExecutionScope : Type 0 where
  pub domain : Json
  pub permitted_actions : Json
  pub assets : Json
  pub account_id : Json
  pub target_id : Json
  pub notes : Json

pub record ExecutionLimit : Type 0 where
  pub max_notional_usd : Json
  pub max_order_count : Json
  pub max_daily_loss_usd : Json
  pub metadata : Json

pub record ExecutionTimebox : Type 0 where
  pub valid_from : Json
  pub valid_until : Json

pub record ExecutionAuthorizationRequest : Type 0 where
  pub auto_action : Json
  pub responsibility : Option ResponsibilityAcceptance
  pub scope : Option ExecutionScope
  pub limit : Option ExecutionLimit
  pub timebox : Option ExecutionTimebox
  pub judgment_ref : String
  pub request_payload : Json
  pub metadata : Json

abbrev acceptance_fields : List String
acceptance_fields = "decision" ∷ "actor_id" ∷ "actor_role" ∷ "ts" ∷ "judgment_ref" ∷ []

abbrev pub acceptance_of : Fields → ResponsibilityAcceptance
acceptance_of raw = record {
  decision = get_json raw "decision";
  actor_id = get_json raw "actor_id";
  actor_role = get_json raw "actor_role";
  ts = get_json raw "ts";
  judgment_ref = get_json raw "judgment_ref";
  reason = get_json raw "reason";
  metadata = get_json raw "metadata";
}

abbrev pub responsibility_acceptance : Fields → Raising ResponsibilityAcceptance
responsibility_acceptance raw =
    accept_keywords acceptance_fields ("reason" ∷ "metadata" ∷ []) raw >> ok (acceptance_of raw)

abbrev scope_of : Fields → ExecutionScope
scope_of raw = record {
  domain = get_json raw "domain";
  permitted_actions = field_or raw "permitted_actions" (arr nil);
  assets = field_or raw "assets" (arr nil);
  account_id = get_json raw "account_id";
  target_id = get_json raw "target_id";
  notes = get_json raw "notes";
}

abbrev pub execution_scope : Fields → Raising ExecutionScope
execution_scope raw =
    accept_keywords ("domain" ∷ [])
      ("permitted_actions" ∷ "assets" ∷ "account_id" ∷ "target_id" ∷ "notes" ∷ []) raw
    >> ok (scope_of raw)

abbrev limit_of : Fields → ExecutionLimit
limit_of raw = record {
  max_notional_usd = get_json raw "max_notional_usd";
  max_order_count = get_json raw "max_order_count";
  max_daily_loss_usd = get_json raw "max_daily_loss_usd";
  metadata = get_json raw "metadata";
}

abbrev pub execution_limit : Fields → Raising ExecutionLimit
execution_limit raw =
    accept_keywords []
      ("max_notional_usd" ∷ "max_order_count" ∷ "max_daily_loss_usd" ∷ "metadata" ∷ []) raw
    >> ok (limit_of raw)

abbrev timebox_of : Fields → ExecutionTimebox
timebox_of raw = record {
  valid_from = get_json raw "valid_from";
  valid_until = get_json raw "valid_until";
}

abbrev pub execution_timebox : Fields → Raising ExecutionTimebox
execution_timebox raw =
    accept_keywords ("valid_from" ∷ "valid_until" ∷ []) [] raw >> ok (timebox_of raw)

unfoldable pub is_accepted : ResponsibilityAcceptance → Bool
is_accepted r = is_text r.decision "ACCEPT"

unfoldable pub assert_responsibility_accepted : ResponsibilityAcceptance → Checked
unfolding is_accepted
assert_responsibility_accepted r = do
  assert (is_accepted r) "Responsibility must be explicitly ACCEPTED"
  assert (is_truthy r.actor_id) "actor_id required"
  assert (is_truthy r.judgment_ref) "judgment_ref required"

-- `v is False`
abbrev pub is_false : Json → Bool
is_false (bool false) = true
is_false _ = false

abbrev pub assert_some : {A : Type 0} → Option A → String → Raising A
assert_some none message = err (assertion message)
assert_some (some a) message = ok a

unfoldable pub assert_execution_request_valid : ExecutionAuthorizationRequest → Checked
unfolding assert_responsibility_accepted
assert_execution_request_valid req = do
  assert (is_false req.auto_action) "auto_action MUST remain false"
  r ← assert_some req.responsibility "responsibility required"
  assert_responsibility_accepted r
  _ ← assert_some req.scope "scope required"
  _ ← assert_some req.limit "limit required"
  _ ← assert_some req.timebox "timebox required"
  assert (truthy req.judgment_ref) "judgment_ref required"
  assert (is_text r.judgment_ref req.judgment_ref) "judgment_ref mismatch"
