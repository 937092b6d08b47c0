-- ===== src/Tests/Scene.antt =====
-- The concrete calls, stores and envelopes that the tests share.
use proto_v2_engine.Base.{ℕ, true, none, some, List, [], ◌∷◌, ok, get, put, codes, is_infix, upper}
use proto_v2_engine.Judgment.Models.{
  HumanDecision, conflict, forbidden, unprocessable, status_value,
}
use proto_v2_engine.Judgment.Repo.{already_exists}
use proto_v2_engine.Judgment.Repo.Memory.{not_found_for_save}
use proto_v2_engine.Judgment.Service
use proto_v2_engine.Judgment.Transitions
use proto_v2_engine.Judgment.Transitions.{find_option, approver_text}
use proto_v2_engine.Judgment.Approvals.{
  ApprovalQueueItem, reduce, reduce_event, write_all, last_for_dpa,
}
use proto_v2_engine.Execution.Envelope.{is_expired}
use proto_v2_engine.Execution.Executor.{run_execution, check_execution}
use proto_v2_engine.Engine.Ports.{dpa_status_text, queue_judgment}
use proto_v2_engine.Judgment.Service.Calls.{
  Call, create_call, review_call, decide_call, apply_call, serve, run_call,
}
use proto_v2_engine.Execution.Envelope.{apply, ExecutionEnvelope, trace_standard, append_only}
use proto_v2_engine.Engine.Transition.{
  JudgmentApproval, JudgmentPort, constitutional_transition, admit, check_approval, apply_gate,
  is_applied_status,
}

abbrev pub decision : HumanDecision
decision = record {
  selected_option_id = "opt_001";
  reason_codes = [];
  reason_note = none;
  approver_name = "Kim";
  approver_role = "Approver";
  signature = "Kim 10:00";
  decided_at = 10;
}

abbrev pub approving : List Call
approving =
    create_call "evt_1" [] (some "dpa_1") "fresh" 1
    ∷ review_call "dpa_1" "Kim" 2
    ∷ decide_call "dpa_1" decision 3
    ∷ []

abbrev pub applying : List Call
applying =
    create_call "evt_1" [] (some "dpa_1") "fresh" 1
    ∷ decide_call "dpa_1" decision 3
    ∷ apply_call "dpa_1" none none 4
    ∷ []

abbrev pub approval : JudgmentApproval
approval = record {
  approval_id = "appr_1";
  decision = "APPROVE";
  selected_option_id = "opt_001";
  authority_id = "human_001";
  rationale_ref = "ui://x";
  decided_at = 3;
  immutable = true;
}

abbrev pub judge : JudgmentPort
judge dpa_id = ok approval

abbrev pub item : ApprovalQueueItem
item = record {
  approval_id = "appr_1";
  dpa_id = "dpa_1";
  event_id = "evt_1";
  selected_option_id = "opt_001";
  status = "PENDING";
  authority_id = "human_001";
  rationale_ref = "ui://x";
}

abbrev pub envelope : ExecutionEnvelope ℕ
envelope = record {
  meta = record {
    contract_id = "exec_env__appr_1";
    envelope_id = "env__appr_1__0";
    issued_at = 3;
    expires_at = some 600;
    issuer = "infra.api";
    version = "1.0.0";
  };
  authority = record {
    domain = "constitutional_transition";
    allowed_actions = apply ∷ [];
    forbidden_actions = [];
    confidence_floor = 0;
  };
  constraints = record {
    latency_budget_ms = 2000;
    resource_ceiling = record { cpu_pct = 9000; mem_mb = 1024 };
    data_scope = record {
      allowed_sources = "judgment:approval_queue" ∷ [];
      forbidden_sources = "net:public_web" ∷ [];
    };
  };
  audit = record { trace_level = trace_standard; retention_policy = append_only };
  human_approval = record { approver_id = "human_001"; approval_ref = "appr_1" };
}

-- Unfolding this unfolds what a run of the service and of the engine computes with.
unfoldable pub whole_run : ℕ
unfolding constitutional_transition admit check_approval apply_gate is_applied_status
    dpa_status_text run_call serve run_execution check_execution is_expired get put codes is_infix
    upper conflict forbidden unprocessable status_value already_exists not_found_for_save
    Service.create_dpa Service.get_dpa Service.update Service.start_review
    Service.submit_human_decision Service.apply Service.abort Service.dpa_not_found
    Transitions.start_review Transitions.submit_human_decision Transitions.apply Transitions.abort
    find_option approver_text queue_judgment reduce reduce_event write_all last_for_dpa
whole_run = 0
