-- ===== src/Engine/Ports.antt =====
-- What is plugged into the engine: the approval queue as a judgment port
-- (core/judgment/adapters/judgment_from_queue.py), the apply port that denies
-- (core/judgment/persistence/noop_apply_port.py) and `DpaService` as an apply port.
use Prim.Native.String.{◌++◌}
use proto_v2_engine.Base.{
  ℕ, String, Bool, true, Option, none, some, Result, ok, err, map_err, codes, upper, same_codes,
  if◌then◌else◌,
}
use proto_v2_engine.Execution.Exceptions.{
  Exception, permission_error, policy_error, type_error, no_approval, apply_port_denies,
}
use proto_v2_engine.Execution.Executor.{DpaApplyPort}
use proto_v2_engine.Judgment.Approvals.{ApprovalQueueItem, ApprovalQueue}
use proto_v2_engine.Judgment.Models.{PolicyError, DpaRecord, status_value}
use proto_v2_engine.Judgment.Repo.{DpaRepository}
use proto_v2_engine.Judgment.Service
use proto_v2_engine.Engine.Transition.{JudgmentApproval, JudgmentPort}

-- The keyword arguments that the adapter gives to `JudgmentApproval(...)`. There is none for
-- `selected_option_id`.
pub record ApprovalArguments : Type 0 where
  pub approval_id : String
  pub decision : String
  pub selected_option_id : Option String
  pub authority_id : String
  pub rationale_ref : String
  pub decided_at : ℕ
  pub immutable : Bool

-- The constructor of the data class, whose fields have no defaults.
abbrev pub construct : ApprovalArguments → Result Exception JudgmentApproval
construct args = elim args.selected_option_id [
  | none ↦ err type_error
  | some option ↦ ok (record {
    approval_id = args.approval_id;
    decision = args.decision;
    selected_option_id = option;
    authority_id = args.authority_id;
    rationale_ref = args.rationale_ref;
    decided_at = args.decided_at;
    immutable = args.immutable;
  })
]

-- `st == "APPROVED"` of the status in upper case.
abbrev status_is : String → String → Bool
status_is status word = same_codes (upper status) (codes word)

abbrev pub approval_arguments : ApprovalQueueItem → ℕ → ApprovalArguments
approval_arguments it now =
    let is_approved = status_is it.status "APPROVED" in
    let is_rejected = status_is it.status "REJECTED" in
    record {
      approval_id = it.approval_id;
      decision = if is_approved then "APPROVE" else "REJECT";
      selected_option_id = none;
      authority_id = it.authority_id;
      rationale_ref = it.rationale_ref;
      decided_at = now;
      immutable = if is_approved then true else is_rejected;
    }

unfoldable pub queue_judgment : {Q : Type 0} → ApprovalQueue Q → Q → ℕ → JudgmentPort
queue_judgment queue q now dpa_id = elim (queue.get_latest_for_dpa q dpa_id) [
  | none ↦ err (permission_error no_approval)
  | some it ↦ construct (approval_arguments it now)
]

-- `NoopDpaApplyPort`: `get_dpa` returns `None`, which has no status.
abbrev pub noop_port : {S : Type 0} → DpaApplyPort S (Unit {0})
noop_port = record {
  get_dpa = λ dpa_id s. (ok tt, s);
  apply = λ dpa_id option context s. (err (permission_error apply_port_denies), s);
  status_text = λ _. none;
}

-- f"{st} {name}" of a `DecisionStatus`.
unfoldable pub dpa_status_text : DpaRecord → Option String
dpa_status_text d = some (status_value d.status ++ " " ++ status_value d.status)

abbrev as_exceptions :
    {S : Type 0} → Result PolicyError DpaRecord × S → Result Exception DpaRecord × S
as_exceptions (r, s) = (map_err policy_error r, s)

abbrev pub service_port : {S : Type 0} → DpaRepository S → ℕ → DpaApplyPort S DpaRecord
service_port repo now = record {
  get_dpa = λ dpa_id s. as_exceptions (Service.get_dpa repo dpa_id s, s);
  apply = λ dpa_id option context s.
      as_exceptions (Service.apply repo dpa_id (some option) context now s);
  status_text = dpa_status_text;
}
