-- ===== src/Tests/Actions.antt =====
-- The action queue at concrete files.

use proto_v2_engine.Base.{
  String, ◌≡◌, ◌⊎◌, refl, true, false, Option, some, [], ◌∷◌, get, put, remove, ok, err, any, ◌==◌,
}
use proto_v2_engine.Json.{
  Json, Fields, null, bool, int, str, arr, obj, nil, cons, end, field, get_json, pos, value_at,
  put_field, is_truthy,
}
use proto_v2_engine.Actions.Authorization.{
  accept_keywords, assert_execution_request_valid, assert_responsibility_accepted, is_accepted,
  type_error,
}
use proto_v2_engine.Actions.Plan.{DeliveryPlan, asdict}
use proto_v2_engine.Actions.Gate.{
  Files, enforce_execution_gate_for_queue_item, enforce_execution_gate_from_receipt, check_item,
  check_receipt, existing, rebuild, channel_of_item, is_execution_channel, item_path, meta_path,
  execution_channels,
}
use proto_v2_engine.Actions.Gate.Passed.{
  IsLicensed, truth_of_auto, given_auto, passed_item, passed_receipt,
}
use proto_v2_engine.Actions.Queue.{
  Host, Disk, view, save_json, try_remove, route_to_queue, consume_one, consume_pending,
  queue_payload, processed_item, extract_execution_request_path,
}
use proto_v2_engine.Actions.Queue.Processed.{Run, consume_pending-Run}
use proto_v2_engine.Actions.Queue.Routed.{routed_is_consumed}

abbrev host : Host
host = record {
  to_str = λ v. "None";
  now_iso = "t1";
  sha8 = λ s. "0123abcd";
  stem = λ s. "dp_1";
  stat_name = λ s. "dp_1.json:1:2";
  place = λ s. s;
  can_remove = λ s. true;
}

-- A request that a person accepted for the receipt r.json.
abbrev request : Fields
request =
    field "responsibility"
      (obj (
        field "decision" (str "ACCEPT") (
          field "actor_id" (str "ana") (
            field "actor_role" (str "owner")
              (field "ts" (str "t0") (field "judgment_ref" (str "r.json") end))))))
      (field "scope" (obj (field "domain" (str "family") end)) (
        field "limit" (obj end) (
          field "timebox" (obj (field "valid_from" (str "t0") (field "valid_until" (str "t9") end)))
            (field "judgment_ref" (str "r.json") end))))

abbrev receipt : Fields
receipt =
    field "meta"
      (obj (field "channel" (str "live") (field "execution_request_path" (str "q.json") end))) end

abbrev plan : DeliveryPlan
plan = record {
  plan_id = str "dp_1";
  ts_iso = str "t0";
  proposal_id = str "p1";
  channel = str "live";
  receipt_path = str "r.json";
  receipt_hash = str "h";
  policy_version = int (pos 2);
  policy_sha256 = str "h2";
  status = str "READY";
  summary = str "Policy patch applied";
  rationale = str "n/a";
  warnings = arr nil;
  evidence = obj end;
  evidence_sample_ids = arr nil;
  evidence_scene_ids = arr nil;
  evidence_snapshot_ids = arr nil;
  patch_ops = arr nil;
  approvers_used = arr (cons (str "ana") nil);
  applier = null;
  strategy = null;
  noop_apply = bool false;
  recommended_actions = arr nil;
}

abbrev disk : Disk
disk =
    ("q.json", some (obj request))
    ∷ (("r.json", some (obj receipt)) ∷ (("p.json", some (obj (asdict plan))) ∷ []))

abbrev files : Files
files = view host disk

abbrev exec : Option Json
exec = some (str "q.json")

abbrev item : Fields
item = queue_payload plan "p.json" exec

abbrev queued : Disk
queued = save_json host disk "logs/live/pending/dp_1.json" (obj item)

routed : route_to_queue host plan "p.json" "logs" disk ≡ ok ("logs/live/pending/dp_1.json", queued)
unfolding route_to_queue extract_execution_request_path enforce_execution_gate_for_queue_item
    check_item existing rebuild assert_execution_request_valid assert_responsibility_accepted
    is_accepted accept_keywords value_at get put queue_payload asdict is_truthy
routed = refl

item_passes : enforce_execution_gate_for_queue_item host.to_str files item ≡ ok tt
unfolding enforce_execution_gate_for_queue_item check_item existing rebuild
    assert_execution_request_valid assert_responsibility_accepted is_accepted accept_keywords
    value_at get put queue_payload asdict is_truthy
item_passes = refl

passed_item_example :
    (channel : Json) × (channel_of_item item ≡ ok channel)
    × ((is_execution_channel channel ≡ ok false)
        ⊎ ((raw : Fields) × IsLicensed host.to_str files (item_path item) truth_of_auto raw))
passed_item_example = passed_item host.to_str files item item_passes

receipt_passes :
    enforce_execution_gate_from_receipt host.to_str files receipt "r.json" "live" ≡ ok tt
unfolding enforce_execution_gate_from_receipt check_receipt existing rebuild
    assert_execution_request_valid assert_responsibility_accepted is_accepted accept_keywords
    value_at get put queue_payload asdict is_truthy
receipt_passes = refl

passed_receipt_example :
    (any (λ c. "live" == c) execution_channels ≡ false)
    ⊎ ((raw : Fields) × (licence : IsLicensed host.to_str files (meta_path receipt) given_auto raw)
        × (get_json licence.licensed.responsibility "judgment_ref" ≡ str "r.json"))
passed_receipt_example = passed_receipt host.to_str files receipt "r.json" "live" receipt_passes

routed_is_consumed_example :
    (q : Fields) × (target : String) × (view host queued "logs/live/pending/dp_1.json"
      ≡ some (some (obj q)))
    × (consume_one host "logs/live/pending/dp_1.json" "logs" queued
        ≡ ok (
          target,
          try_remove host
              (save_json host queued target
                (obj (processed_item host q plan "logs/live/pending/dp_1.json")))
              "logs/live/pending/dp_1.json",
        ))
unfolding get asdict
routed_is_consumed_example =
    routed_is_consumed host plan "dp_1" "p.json" "logs" "logs/live/pending/dp_1.json" disk queued
      refl refl refl refl routed

abbrev processed : Disk
processed =
    save_json host queued "logs/live/processed/dp_1.json"
      (obj (processed_item host item plan "logs/live/pending/dp_1.json"))

consumed :
    consume_pending host
      ("logs/live/pending/dp_1.json" ∷ ("logs/live/pending/dp_2.json" ∷ []))
      1
      "logs"
      queued
    ≡ (ok ("logs/live/processed/dp_1.json" ∷ []), remove processed "logs/live/pending/dp_1.json")
unfolding consume_pending enforce_execution_gate_for_queue_item check_item existing rebuild
    assert_execution_request_valid assert_responsibility_accepted is_accepted accept_keywords
    value_at get put queue_payload asdict is_truthy processed_item remove put_field
consumed = refl

consume_pending-Run_example :
    Run host
      ("logs/live/pending/dp_1.json" ∷ [])
      ("logs/live/processed/dp_1.json" ∷ [])
      queued
      (remove processed "logs/live/pending/dp_1.json")
consume_pending-Run_example =
    consume_pending-Run host ("logs/live/pending/dp_1.json" ∷ ("logs/live/pending/dp_2.json" ∷ []))
      1 "logs" queued (remove processed "logs/live/pending/dp_1.json")
      ("logs/live/processed/dp_1.json" ∷ []) consumed

-- An item whose plan file is gone is never consumed: the class is called without nine of its fields.
lost_plan :
    consume_one host "logs/live/pending/dp_1.json" "logs" (remove queued "p.json") ≡ err type_error
unfolding consume_one enforce_execution_gate_for_queue_item check_item existing rebuild
    assert_execution_request_valid assert_responsibility_accepted is_accepted accept_keywords
    value_at get put queue_payload asdict is_truthy remove
lost_plan = refl

-- An item that cannot be removed stays behind its record.
stuck_item :
    view host
      (try_remove (record host { can_remove = λ s. false }) processed "logs/live/pending/dp_1.json")
      "logs/live/pending/dp_1.json"
    ≡ some (some (obj item))
unfolding get put remove
stuck_item = refl
