-- ===== src/Tests/Proposals.antt =====
-- Proposals from anomalies at a concrete event.

use proto_v2_engine.Base.{ℕ, ◌≡◌, refl, true, none, some, [], ◌∷◌, ok, err, ltb}
use proto_v2_engine.Json.{
  Json, Items, null, int, pos, str, arr, obj, nil, cons, end, field, value_at,
}
use proto_v2_engine.Actions.Authorization.{Failure}
use proto_v2_engine.Learning.Proposals.{
  AnomalyEvent, TemplateSpec, Given, Repos, match_template, validate_jsonpatch_ops,
  auto_propose_from_anomaly, skip, no_matching_template,
}
use proto_v2_engine.Learning.Proposals.Whitelist.{IsRestricted, AllItems, validate-IsRestricted}
use proto_v2_engine.Learning.Proposals.Outcome.{IsOutcome, auto_propose-IsOutcome, ready_raises}

-- Confidence in percent, and numbers that convert to themselves.
abbrev given : Given ℕ
given = record {
  lt = ltb;
  uuid = "pp_1";
  now_iso = "t1";
  engine_name = "auto_proposal_engine_v2";
  auto_proposed_by = "learning_os_v2";
  default_window_days = 3;
  to_int = λ v. ok v;
  to_float = λ v. ok v;
  float_json = λ n. int (pos n);
  active_version = λ e. none;
  last_proposal_ts = none;
  is_recent = λ ts h. ok true;
}

abbrev op : Json
op = obj (
    field "op" (str "replace")
      (field "path" (str "/channels/childcare/thresholds/noise_level") end))

abbrev ops : Json
ops = arr (cons op nil)

abbrev template : TemplateSpec ℕ
template = record {
  template_id = "childcare_noise_chronic_escalate_v1";
  supported_channels = "childcare" ∷ [];
  supported_signals = "noise_level" ∷ [];
  supported_anomaly_types = "chronic_breach" ∷ [];
  min_confidence = 70;
  min_evidence_scenes = 3;
  cooldown_hours = 24;
  allowed_path_prefixes = "/channels/*/thresholds" ∷ [];
  build_patch_ops = λ e v. ok ops;
}

abbrev event : AnomalyEvent ℕ
event = record {
  anomaly_id = "a1";
  org_id = "o";
  site_id = "s";
  channel = "childcare";
  anomaly_type = "chronic_breach";
  signal = "noise_level";
  severity = "high";
  confidence = 80;
  window = null;
  summary = "noise";
  evidence_scene_ids = "s1" ∷ ("s2" ∷ ("s3" ∷ []));
  metrics = end;
}

abbrev empty : Repos
empty = record { receipts = []; proposals = []; reviews = [] }

valid : validate_jsonpatch_ops ops template.allowed_path_prefixes ≡ none
unfolding validate_jsonpatch_ops value_at
valid = refl

validate-IsRestricted_example :
    (op' : Json) × (rest : Items) × (ops ≡ arr (cons op' rest))
    × AllItems (IsRestricted template.allowed_path_prefixes) (cons op' rest)
validate-IsRestricted_example = validate-IsRestricted ops template.allowed_path_prefixes valid

matched : match_template given.lt (template ∷ []) event ≡ some template
unfolding match_template
matched = refl

auto_propose-IsOutcome_example :
    IsOutcome given event empty (auto_propose_from_anomaly given (template ∷ []) event empty)
auto_propose-IsOutcome_example = auto_propose-IsOutcome given (template ∷ []) event empty

ready_raises_example :
    (e : Failure) × (auto_propose_from_anomaly given (template ∷ []) event empty ≡ (err e, empty))
ready_raises_example =
    ready_raises given (template ∷ []) event empty template ops matched refl refl valid

skipped :
    auto_propose_from_anomaly given [] event empty ≡ skip given event no_matching_template empty
unfolding auto_propose_from_anomaly
skipped = refl
