-- ===== src/Actions/Plan.antt =====
-- core/C_action/contracts.py: the delivery plan, whose fields the class does not test, and its dict.
use proto_v2_engine.Base.{String, List, [], ◌∷◌, ◌≡◌, refl, ok, ◌>>◌}
use proto_v2_engine.Json.{Json, Fields, end, field, get_json, value_at}
use proto_v2_engine.Actions.Authorization.{Raising, accept_keywords}

pub record DeliveryPlan : Type 0 where
  pub plan_id : Json
  pub ts_iso : Json
  pub proposal_id : Json
  pub channel : Json
  pub receipt_path : Json
  pub receipt_hash : Json
  pub policy_version : Json
  pub policy_sha256 : Json
  pub status : Json
  pub summary : Json
  pub rationale : Json
  pub warnings : Json
  pub evidence : Json
  pub evidence_sample_ids : Json
  pub evidence_scene_ids : Json
  pub evidence_snapshot_ids : Json
  pub patch_ops : Json
  pub approvers_used : Json
  pub applier : Json
  pub strategy : Json
  pub noop_apply : Json
  pub recommended_actions : Json

abbrev plan_fields : List String
plan_fields =
    "plan_id" ∷ "ts_iso" ∷ "proposal_id" ∷ "channel" ∷ "receipt_path" ∷ "receipt_hash"
    ∷ "policy_version" ∷ "policy_sha256" ∷ "status" ∷ "summary" ∷ "rationale" ∷ "warnings"
    ∷ "evidence" ∷ "evidence_sample_ids" ∷ "evidence_scene_ids" ∷ "evidence_snapshot_ids"
    ∷ "patch_ops" ∷ "approvers_used" ∷ "applier" ∷ "strategy" ∷ "noop_apply" ∷ "recommended_actions"
    ∷ []

abbrev plan_of : Fields → DeliveryPlan
plan_of d = record {
  plan_id = get_json d "plan_id";
  ts_iso = get_json d "ts_iso";
  proposal_id = get_json d "proposal_id";
  channel = get_json d "channel";
  receipt_path = get_json d "receipt_path";
  receipt_hash = get_json d "receipt_hash";
  policy_version = get_json d "policy_version";
  policy_sha256 = get_json d "policy_sha256";
  status = get_json d "status";
  summary = get_json d "summary";
  rationale = get_json d "rationale";
  warnings = get_json d "warnings";
  evidence = get_json d "evidence";
  evidence_sample_ids = get_json d "evidence_sample_ids";
  evidence_scene_ids = get_json d "evidence_scene_ids";
  evidence_snapshot_ids = get_json d "evidence_snapshot_ids";
  patch_ops = get_json d "patch_ops";
  approvers_used = get_json d "approvers_used";
  applier = get_json d "applier";
  strategy = get_json d "strategy";
  noop_apply = get_json d "noop_apply";
  recommended_actions = get_json d "recommended_actions";
}

-- `DeliveryPlan(**d)`: no field has a default.
abbrev pub delivery_plan : Fields → Raising DeliveryPlan
delivery_plan d = accept_keywords plan_fields [] d >> ok (plan_of d)

-- `asdict(plan)` and `plan.__dict__`.
unfoldable pub asdict : DeliveryPlan → Fields
asdict p = field "plan_id" p.plan_id (
    field "ts_iso" p.ts_iso (
      field "proposal_id" p.proposal_id (
        field "channel" p.channel (
          field "receipt_path" p.receipt_path (
            field "receipt_hash" p.receipt_hash (
              field "policy_version" p.policy_version (
                field "policy_sha256" p.policy_sha256 (
                  field "status" p.status (
                    field "summary" p.summary (
                      field "rationale" p.rationale (
                        field "warnings" p.warnings (
                          field "evidence" p.evidence (
                            field "evidence_sample_ids" p.evidence_sample_ids (
                              field "evidence_scene_ids" p.evidence_scene_ids (
                                field "evidence_snapshot_ids" p.evidence_snapshot_ids (
                                  field "patch_ops" p.patch_ops (
                                    field "approvers_used" p.approvers_used (
                                      field "applier" p.applier (
                                        field "strategy" p.strategy (
                                          field "noop_apply" p.noop_apply (
                                            field "recommended_actions" p.recommended_actions
                                              end)))))))))))))))))))))

-- A plan is read back from its dict.
pub delivery_plan-asdict : (p : DeliveryPlan) → delivery_plan (asdict p) ≡ ok p
unfolding asdict accept_keywords value_at
delivery_plan-asdict p = refl
