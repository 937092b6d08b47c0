-- ===== src/Learning/Proposals.antt =====
-- core/learning/proposals.py: proposals from anomalies. A float is a value of a type with a comparison;
-- what a template builds, the store of policies and the time since a proposal are parameters.
pub mod Whitelist
pub mod Outcome
use proto_v2_engine.Base.{
  ℕ, zero, suc, ◌≤◌, String, Bool, true, false, not, ◌&&◌, ◌||◌, Option, none, some, List, [], ◌∷◌,
  ◌++◌, Result, ok, err, ◌>>=◌, ◌>>◌, any, length, leb, ltb, truthy, is_some, ◌==◌, if◌then◌else◌,
}
use proto_v2_engine.Json.{
  pos, null, bool, int, float, value_at, or_else, Json, Items, Fields, str, arr, obj, nil, cons,
  end, field, has_key, get_json, is_text,
}
use proto_v2_engine.Actions.Authorization.{Raising, Checked, accept_keywords, type_error}
use proto_v2_engine.Patches.Pointer.{is_char, strip_slashes, split_slashes, starts_with_slash}
use Prim.Native.String.{◌++◌ as append}

pub record AnomalyEvent (F : Type 0) : Type 0 where
  pub anomaly_id : String
  pub org_id : String
  pub site_id : String
  pub channel : String
  pub anomaly_type : String
  pub signal : String
  pub severity : String
  pub confidence : F
  pub window : Json
  pub summary : String
  pub evidence_scene_ids : List String
  pub metrics : Fields

pub record TemplateSpec (F : Type 0) : Type 0 where
  pub template_id : String
  pub supported_channels : List String
  pub supported_signals : List String
  pub supported_anomaly_types : List String
  pub min_confidence : F
  pub min_evidence_scenes : ℕ
  pub cooldown_hours : ℕ
  pub allowed_path_prefixes : List String
  pub build_patch_ops : AnomalyEvent F → Option String → Raising Json

abbrev pub is_one : List String → String → Bool
is_one names s = any (λ n. n == s) names

module _ {F : Type 0} (lt : F → F → Bool) where
  abbrev pub fits : TemplateSpec F → AnomalyEvent F → Bool
  fits t event =
      is_one t.supported_channels event.channel
      && is_one t.supported_signals event.signal
      && is_one t.supported_anomaly_types event.anomaly_type
      && not (lt event.confidence t.min_confidence)
      && leb t.min_evidence_scenes (length event.evidence_scene_ids)

  -- The first template that fits.
  unfoldable pub match_template : List (TemplateSpec F) → AnomalyEvent F → Option (TemplateSpec F)
  match_template [] event = none
  match_template (t ∷ ts) event =
      let rest = match_template ts event in if fits t event then some t else rest

-- `s.rstrip("/")`
unfoldable pub rstrip_slashes : String → String
rstrip_slashes String.[] = String.[]
rstrip_slashes (String.◌∷◌ c s) =
    let rest = rstrip_slashes s in
    if is_char b'/' c && rest == "" then String.[] else String.◌∷◌ c rest

abbrev pub segments : String → List String
segments path = split_slashes (strip_slashes (rstrip_slashes path))

unfoldable pub covers : List String → List String → Bool
covers [] path = true
covers (seg ∷ segs) [] = false
covers (seg ∷ segs) (p ∷ ps) = (seg == "*" || seg == p) && covers segs ps

unfoldable pub is_allowed_path : String → List String → Bool
unfolding covers rstrip_slashes strip_slashes split_slashes
is_allowed_path path prefixes =
    starts_with_slash path
    && any (λ pref. starts_with_slash pref && covers (segments pref) (segments path)) prefixes

-- The reasons for which a patch is refused.
pub data Refusal : Type 0 where
  empty_patch invalid_op_type missing_op_or_path path_not_string : Refusal
  unsupported_op : Json → Refusal
  path_not_allowed : String → Refusal

abbrev pub operations : List String
operations = "add" ∷ "remove" ∷ "replace" ∷ "move" ∷ "copy" ∷ "test" ∷ []

abbrev pub check_path : Json → List String → Option Refusal
check_path (str path) prefixes =
    if is_allowed_path path prefixes then none else some (path_not_allowed path)
check_path _ prefixes = some path_not_string

unfoldable pub check_op : Json → List String → Option Refusal
unfolding is_allowed_path
check_op (obj op) prefixes =
    if not (has_key op "op") || not (has_key op "path")
    then some missing_op_or_path
    else if not (any (λ n. is_text (get_json op "op") n) operations)
    then some (unsupported_op (get_json op "op"))
    else check_path (get_json op "path") prefixes
check_op _ prefixes = some invalid_op_type

abbrev pub first_refusal : Option Refusal → Option Refusal → Option Refusal
first_refusal none rest = rest
first_refusal (some r) rest = some r

unfoldable pub check_ops : Items → List String → Option Refusal
unfolding check_op
check_ops nil prefixes = none
check_ops (cons op ops) prefixes = first_refusal (check_op op prefixes) (check_ops ops prefixes)

-- The refusal, or none.
unfoldable pub validate_jsonpatch_ops : Json → List String → Option Refusal
unfolding check_ops
validate_jsonpatch_ops (arr (cons op ops)) prefixes = check_ops (cons op ops) prefixes
validate_jsonpatch_ops _ prefixes = some empty_patch

pub data SkipReason : Type 0 where
  no_matching_template : SkipReason
  cooldown_active : ℕ → SkipReason
  patch_validation_failed : Refusal → SkipReason

pub record AutoProposalReceipt : Type 0 where
  pub org_id : String
  pub site_id : String
  pub channel : String
  pub anomaly_id : String
  pub proposal_id : Option String
  pub auto_proposed_by : String
  pub engine : String
  pub evidence_scene_ids : List String
  pub status : String
  pub skip_reason : Option SkipReason

-- A proposal is the dict of its fields.
abbrev pub PolicyPatchProposal : Type 0
PolicyPatchProposal = Fields

-- The fields of the class, none of which has a default.
abbrev proposal_fields : List String
proposal_fields =
    "proposal_id" ∷ "created_ts" ∷ "status" ∷ "created_by" ∷ "auto_proposed_by" ∷ "org_id"
    ∷ "site_id" ∷ "channel" ∷ "window_days" ∷ "sample_count" ∷ "confirmed_count"
    ∷ "false_alarm_rate" ∷ "incident_rate" ∷ "min_quality_score" ∷ "patch_type" ∷ "patch"
    ∷ "policy_version_base" ∷ "rationale" ∷ "rationale_detail" ∷ "evidence_sample_ids"
    ∷ "evidence_scene_ids" ∷ "evidence_snapshot_ids" ∷ "evidence_metrics"
    ∷ "requires_human_approval" ∷ "blocked_reason" ∷ "approval_id" ∷ "applied_policy_version" ∷ []

unfoldable pub policy_patch_proposal : Fields → Raising PolicyPatchProposal
policy_patch_proposal keywords = accept_keywords proposal_fields [] keywords >> ok keywords

pub record Repos : Type 0 where
  pub receipts : List AutoProposalReceipt
  pub proposals : List PolicyPatchProposal
  pub reviews : List PolicyPatchProposal

abbrev pub Answer : Type 0
Answer = Raising (AutoProposalReceipt × Option PolicyPatchProposal) × Repos

-- What the call is given: the clock and the ids, the conversions by `int` and `float`, a float as a value
-- of JSON, the active version, the last proposal of a template, if that is kept, and whether a time lies less than
-- some hours back, which raises where it cannot be read.
pub record Given (F : Type 0) : Type 0 where
  pub lt : F → F → Bool
  pub uuid : String
  pub now_iso : String
  pub engine_name : String
  pub auto_proposed_by : String
  pub default_window_days : ℕ
  pub to_int : Json → Raising Json
  pub to_float : Json → Raising Json
  pub float_json : F → Json
  pub active_version : AnomalyEvent F → Option String
  pub last_proposal_ts : Option (AnomalyEvent F → String → Option String)
  pub is_recent : String → ℕ → Raising Bool

abbrev texts : List String → Items
texts [] = nil
texts (s ∷ ss) = cons (str s) (texts ss)

abbrev text_or_null : Option String → Json
text_or_null none = null
text_or_null (some s) = str s

module _ {F : Type 0} (given : Given F) where
  open given use {
    lt, uuid, now_iso, engine_name, auto_proposed_by, default_window_days, to_int, to_float,
    float_json, active_version, last_proposal_ts, is_recent,
  }

  abbrev window_days : Json → Raising Json
  window_days (obj w) =
      to_int (elim (value_at w "size") [ none ↦ int (pos default_window_days) | some v ↦ v ])
  window_days _ = ok (int (pos default_window_days))

  -- `metrics.get(k, 0) or 0`
  abbrev number_of : AnomalyEvent F → String → Json → Json
  number_of event k zero_value = or_else (get_json event.metrics k) zero_value

  abbrev optional_float : Option Json → Raising Json
  optional_float none = ok null
  optional_float (some v) = to_float v

  abbrev list_or_none : Json → Json
  list_or_none (arr vs) = arr vs
  list_or_none _ = arr nil

  -- The fields that are computed from the window and the metrics.
  abbrev conversions : AnomalyEvent F → Raising Fields
  conversions event = do
    window ← window_days event.window
    samples ← to_int (number_of event "sample_count" (int (pos 0)))
    confirmed ← to_int (number_of event "confirmed_count" (int (pos 0)))
    false_alarms ← to_float (number_of event "false_alarm_rate" (float "0.0"))
    incidents ← to_float (number_of event "incident_rate" (float "0.0"))
    quality ← optional_float (value_at event.metrics "min_quality_score")
    ok (
        field "window_days" window (
          field "sample_count" samples (
            field "confirmed_count" confirmed (
              field "false_alarm_rate" false_alarms
                (field "incident_rate" incidents (field "min_quality_score" quality end))))))

  abbrev details : TemplateSpec F → AnomalyEvent F → Json
  details t event = obj (
      field "title" (str (append "Auto proposal via template " t.template_id)) (
        field "template_id" (str t.template_id) (
          field "anomaly_type" (str event.anomaly_type) (
            field "signal" (str event.signal) (
              field "severity" (str event.severity) (
                field "confidence" (float_json event.confidence) (
                  field "risk_notes"
                    (arr (
                      texts (
                        "Auto-proposed; requires explicit human approval."
                        ∷ "Patch restricted to whitelist paths." ∷ [])))
                    end)))))))

  -- The keywords of the call that makes the proposal; `converted` are the ones that are computed from
  -- the metrics and the window.
  abbrev keywords : TemplateSpec F → AnomalyEvent F → Json → Fields → Fields
  keywords t event ops converted = field "proposal_id" (str uuid) (
      field "ts_created" (str now_iso) (
        field "status" (str "PROPOSED") (
          field "created_by" (str engine_name) (
            field "auto_proposed_by" (str auto_proposed_by) (
              field "org_id" (str event.org_id) (
                field "site_id" (str event.site_id) (
                  field "channel" (str event.channel) (
                    field "window_days" (get_json converted "window_days") (
                      field "sample_count" (get_json converted "sample_count") (
                        field "confirmed_count" (get_json converted "confirmed_count") (
                          field "false_alarm_rate" (get_json converted "false_alarm_rate") (
                            field "incident_rate" (get_json converted "incident_rate") (
                              field "min_quality_score" (get_json converted "min_quality_score") (
                                field "patch_type" (str "JSONPATCH") (
                                  field "patch" (obj (field "ops" ops end)) (
                                    field "policy_version_base"
                                      (text_or_null (active_version event))
                                      (field "rationale" (str event.summary) (
                                        field "rationale_detail" (details t event) (
                                          field "evidence_sample_ids"
                                            (list_or_none
                                              (get_json event.metrics "evidence_sample_ids"))
                                            (field "evidence_scene_ids"
                                              (arr (texts event.evidence_scene_ids))
                                              (field "evidence_snapshot_ids"
                                                (list_or_none
                                                  (get_json event.metrics "evidence_snapshot_ids"))
                                                (field "evidence_metrics"
                                                  (obj (
                                                    field "metrics" (obj event.metrics)
                                                      (field "window" event.window end)))
                                                  (field "requires_human_approval" (bool true) (
                                                    field "blocked_reason" null (
                                                      field "approval_id" null (
                                                        field "applied_policy_version" null
                                                          end))))))))))))))))))))))))))

  unfoldable pub create_proposal :
      TemplateSpec F → AnomalyEvent F → Json → Raising PolicyPatchProposal
  unfolding policy_patch_proposal
  create_proposal t event ops =
      conversions event >>= λ converted. policy_patch_proposal (keywords t event ops converted)

  abbrev pub receipt_of :
      AnomalyEvent F → Option String → String → Option SkipReason → AutoProposalReceipt
  receipt_of event proposal_id status reason = record {
    org_id = event.org_id;
    site_id = event.site_id;
    channel = event.channel;
    anomaly_id = event.anomaly_id;
    proposal_id = proposal_id;
    auto_proposed_by = auto_proposed_by;
    engine = engine_name;
    evidence_scene_ids = event.evidence_scene_ids;
    status = status;
    skip_reason = reason;
  }

  abbrev pub append_receipt : AutoProposalReceipt → Repos → Repos
  append_receipt r repos = record repos { receipts = repos.receipts ++ (r ∷ []) }

  abbrev pub skip : AnomalyEvent F → SkipReason → Repos → Answer
  skip event reason repos =
      let r = receipt_of event none "skipped" (some reason) in
      (ok (r, none), append_receipt r repos)

  -- Saving, queueing for the review, and the receipt.
  abbrev queue : AnomalyEvent F → Raising PolicyPatchProposal → Repos → Answer
  queue event (err e) repos = (err e, repos)
  queue event (ok p) repos =
      let r = receipt_of event (some uuid) "queued_for_approval" none in
      (
        ok (r, some p),
        record {
          receipts = repos.receipts ++ (r ∷ []);
          proposals = repos.proposals ++ (p ∷ []);
          reviews = repos.reviews ++ (p ∷ []);
        },
      )

  abbrev queue_if : Option Refusal → TemplateSpec F → AnomalyEvent F → Json → Repos → Answer
  queue_if (some why) t event ops repos = skip event (patch_validation_failed why) repos
  queue_if none t event ops repos = queue event (create_proposal t event ops) repos

  abbrev with_ops : Raising Json → TemplateSpec F → AnomalyEvent F → Repos → Answer
  with_ops (err e) t event repos = (err e, repos)
  with_ops (ok ops) t event repos =
      queue_if (validate_jsonpatch_ops ops t.allowed_path_prefixes) t event ops repos

  abbrev last_ts :
      Option (AnomalyEvent F → String → Option String) → TemplateSpec F → AnomalyEvent F → String
  last_ts none t event = ""
  last_ts (some read) t event = elim (read event t.template_id) [ none ↦ "" | some ts ↦ ts ]

  -- Whether the template rests; no time, and an empty one, is no rest.
  abbrev pub rests : TemplateSpec F → AnomalyEvent F → Raising Bool
  rests t event =
      let ts = last_ts last_proposal_ts t event in
      if truthy ts then is_recent ts t.cooldown_hours else ok false

  abbrev unless_resting : Raising Bool → TemplateSpec F → AnomalyEvent F → Repos → Answer
  unless_resting (err e) t event repos = (err e, repos)
  unless_resting (ok true) t event repos = skip event (cooldown_active t.cooldown_hours) repos
  unless_resting (ok false) t event repos =
      with_ops (t.build_patch_ops event (active_version event)) t event repos

  abbrev with_template : Option (TemplateSpec F) → AnomalyEvent F → Repos → Answer
  with_template none event repos = skip event no_matching_template repos
  with_template (some t) event repos = unless_resting (rests t event) t event repos

  unfoldable pub auto_propose_from_anomaly : List (TemplateSpec F) → AnomalyEvent F → Repos → Answer
  unfolding match_template validate_jsonpatch_ops create_proposal
  auto_propose_from_anomaly templates event repos =
      with_template (match_template lt templates event) event repos
