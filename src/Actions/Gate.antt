-- ===== src/Actions/Gate.antt =====
-- core/C_action/execution_gate.py, and the gate and the channel of core/C_action/plan_from_receipt.py.
-- Files are what a path leads to, if anything: a value of JSON, or none where `json.load` raises. A path
-- that is no text raises. `str` of a value that is no text is a parameter.
pub mod Authorized
pub mod Passed
use proto_v2_engine.Base.{
  String, Bool, true, false, not, ◌&&◌, ◌||◌, Option, none, some, List, [], ◌∷◌, Dict, get, Result,
  ok, err, ◌>>=◌, ◌>>◌, raise_if, any, truthy, is_some, ◌==◌, if◌then◌else◌,
}
use proto_v2_engine.Json.{
  Json, Fields, null, bool, str, arr, obj, end, value_at, get_json, is_text, is_truthy, or_else,
}
use proto_v2_engine.Actions.Authorization.{
  Failure, Raising, Checked, ExecutionAuthorizationRequest, value_error, type_error,
  attribute_error, raised, responsibility_acceptance, execution_scope, execution_limit,
  execution_timebox, assert_execution_request_valid, field_or,
}

abbrev pub Files : Type 0
Files = String → Option (Option Json)

abbrev pub execution_channels : List String
execution_channels = "trading" ∷ "ops_exec" ∷ "automation" ∷ "live" ∷ []

-- `v in EXECUTION_CHANNELS`: a list or a dict cannot be looked up in a set.
unfoldable pub is_execution_channel : Json → Raising Bool
is_execution_channel (arr _) = err type_error
is_execution_channel (obj _) = err type_error
is_execution_channel v = ok (any (λ c. is_text v c) execution_channels)

abbrev pub or_empty : Json → Json
or_empty v = if is_truthy v then v else obj end

-- `v.get(k)`
abbrev pub get_of : Json → String → Raising Json
get_of (obj fs) k = ok (get_json fs k)
get_of _ k = err attribute_error

abbrev pub content_of : Option (Option Json) → Raising Json
content_of none = err raised
content_of (some none) = err raised
content_of (some (some v)) = ok v

unfoldable pub load_json : Files → Json → Raising Json
load_json files (str p) = content_of (files p)
load_json files _ = err raised

unfoldable pub exists : Files → Json → Raising Bool
exists files (str p) = ok (is_some (files p))
exists files _ = err raised

unfoldable pub require_dict : Json → String → Raising Fields
require_dict (obj fs) name = ok fs
require_dict _ name = err (value_error name)

abbrev pub path_in : Json → Json
path_in (obj meta) = get_json meta "execution_request_path"
path_in _ = null

-- `meta.execution_request_path`, where `meta` is a dict.
abbrev pub meta_path : Fields → Json
meta_path fs = path_in (or_empty (get_json fs "meta"))

abbrev pub item_path : Fields → Json
item_path q = or_else (meta_path q) (get_json q "execution_request_path")

-- What both gates do with the path of the request, up to the request.
unfoldable pub existing : Files → Json → Raising Json
unfolding exists load_json
existing files path = do
  there ← exists files path
  raise_if (not there) (value_error "execution_request_path does not exist")
  load_json files path

abbrev pub channel_of_item : Fields → Raising Json
channel_of_item q =
    if is_truthy (get_json q "channel")
    then ok (get_json q "channel")
    else get_of (or_empty (get_json q "plan")) "channel"

abbrev pub is_text_value : Json → Bool
is_text_value (str _) = true
is_text_value _ = false

module _ (to_str : Json → String) where
  abbrev pub text_of : Json → String
  text_of (str s) = s
  text_of w = to_str w

  -- `str(v or "")`
  abbrev pub text_or_empty : Json → String
  text_or_empty v = if is_truthy v then text_of v else ""

  -- The reconstruction that both gates share.
  unfoldable pub rebuild : Json → Fields → Raising ExecutionAuthorizationRequest
  unfolding require_dict
  rebuild auto_action raw = do
    resp_raw ←
        require_dict (get_json raw "responsibility")
          "execution_request.responsibility must be an object"
    responsibility ← responsibility_acceptance resp_raw
    scope_raw ← require_dict (get_json raw "scope") "execution_request.scope must be an object"
    scope ← execution_scope scope_raw
    limit_raw ← require_dict (get_json raw "limit") "execution_request.limit must be an object"
    limit ← execution_limit limit_raw
    timebox_raw ←
        require_dict (get_json raw "timebox") "execution_request.timebox must be an object"
    timebox ← execution_timebox timebox_raw
    ok record {
      auto_action = auto_action;
      responsibility = some responsibility;
      scope = some scope;
      limit = some limit;
      timebox = some timebox;
      judgment_ref = text_or_empty (get_json raw "judgment_ref");
      request_payload = get_json raw "request_payload";
      metadata = get_json raw "metadata";
    }

  abbrev pub coerce_execution_request : Json → Raising ExecutionAuthorizationRequest
  coerce_execution_request (obj raw) = rebuild (bool (is_truthy (get_json raw "auto_action"))) raw
  coerce_execution_request _ = err attribute_error

  unfoldable pub check_item : Files → Fields → Checked
  unfolding existing rebuild assert_execution_request_valid
  check_item files q = do
    raise_if (not (is_truthy (item_path q))) (value_error "missing execution_request_path")
    raw ← existing files (item_path q)
    req ← coerce_execution_request raw
    assert_execution_request_valid req

  unfoldable pub enforce_execution_gate_for_queue_item : Files → Fields → Checked
  unfolding is_execution_channel check_item
  enforce_execution_gate_for_queue_item files q = do
    channel ← channel_of_item q
    executes ← is_execution_channel channel
    if executes then check_item files q else ok tt

  unfoldable pub check_receipt : Files → Fields → String → Checked
  unfolding existing rebuild assert_execution_request_valid
  check_receipt files receipt receipt_path = do
    raise_if (not (is_truthy (meta_path receipt)) || not (is_text_value (meta_path receipt)))
        (value_error "missing receipt.meta.execution_request_path")
    raw ← existing files (meta_path receipt)
    fs ← require_dict raw "execution_request must be a JSON object"
    req ← rebuild (field_or fs "auto_action" (bool false)) fs
    assert_execution_request_valid req
    raise_if (not (req.judgment_ref == receipt_path)) (value_error "judgment_ref mismatch")

  unfoldable pub enforce_execution_gate_from_receipt : Files → Fields → String → String → Checked
  unfolding check_receipt
  enforce_execution_gate_from_receipt files receipt receipt_path channel =
      if any (λ c. channel == c) execution_channels
      then check_receipt files receipt receipt_path
      else ok tt
