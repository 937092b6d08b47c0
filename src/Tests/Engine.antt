-- ===== src/Tests/Engine.antt =====
-- The engine's transition at concrete inputs.

use proto_v2_engine.Base.{
  ℕ, ◌≡◌, refl, some, [], ◌∷◌, Dict, get, ok, Result, List, false, String, Option,
}
use proto_v2_engine.Judgment.Models.{HumanDecision, DpaRecord, applied}
use proto_v2_engine.Judgment.Lifecycle.{IsApproval}
use proto_v2_engine.Judgment.Composer.{minimal, minimal-IsComposer}
use proto_v2_engine.Judgment.Repo.Memory.{in_memory, in_memory-IsRepository}
use proto_v2_engine.Judgment.Service.Calls.{serve}
use proto_v2_engine.Judgment.Service.Invariant.{IsSoundStore, serve-IsSoundStore}
use proto_v2_engine.Execution.Exceptions.{Exception}
use proto_v2_engine.Execution.Floats.{hundredths}
use proto_v2_engine.Execution.Envelope.{genuine}
use proto_v2_engine.Execution.Executor.{ExecutionContext}
use proto_v2_engine.Execution.Idempotency.{
  ReplayKey, check_and_mark, after_marks, seen_count, set_count,
}
use proto_v2_engine.Execution.NoopAdapter
use proto_v2_engine.Execution.NoopAdapter.{
  AdapterEnvelope, ApprovalArtifact, Capabilities, noop_blocked, shares, execute, IsLicensed,
}
use proto_v2_engine.Execution.Permits.{Permits}
use proto_v2_engine.Engine.Transition.{constitutional_transition, apply_context}
use proto_v2_engine.Engine.Ports.{service_port}
use proto_v2_engine.Engine.EndToEnd.{engine_run-applied}
use proto_v2_engine.Engine.Run.{IsGated, transition_no_bypass, transition_runs}
use proto_v2_engine.Tests.Scene.{whole_run, approving, judge, envelope, approval}

abbrev approved_store : Dict DpaRecord
approved_store = serve in_memory minimal [] approving

abbrev echo : ℕ → Result Exception ℕ
echo n = ok n

abbrev after : Result Exception ℕ × Dict DpaRecord
after =
    constitutional_transition hundredths echo (some judge) (some (service_port in_memory 5))
      (some (genuine envelope)) "" "dpa_1" 7 5 approved_store

approved_store-IsSoundStore : IsSoundStore in_memory-IsRepository approved_store
unfolding get
approved_store-IsSoundStore =
    serve-IsSoundStore in_memory-IsRepository minimal minimal-IsComposer [] approving
      (record { valid = tt; sound = λ id d e. cc })

after-ok : after ≡ (ok 7, after.1)
unfolding whole_run
after-ok = refl

engine_run-applied_example :
    (d : DpaRecord) × (h : HumanDecision) × (get after.1 "dpa_1" ≡ some d)
    × (d.status ≡ applied)
    × IsApproval d h
engine_run-applied_example =
    engine_run-applied in_memory-IsRepository 5 "dpa_1" hundredths echo (some judge)
      (some (genuine envelope)) "" 7 approved_store after.1 7 approved_store-IsSoundStore after-ok

transition_no_bypass_example :
    IsGated hundredths echo
      (some judge)
      (some (service_port in_memory 5))
      (some (genuine envelope))
      ""
      "dpa_1"
      7
      5
      approved_store
      after.1
      7
transition_no_bypass_example =
    transition_no_bypass hundredths echo (some judge) (some (service_port in_memory 5))
      (some (genuine envelope)) "" "dpa_1" 7 5 approved_store after.1 7 after-ok

transition_runs_example : after ≡ (ok 7, after.1)
transition_runs_example =
    transition_runs hundredths echo (some judge) (some (service_port in_memory 5))
      (some (genuine envelope)) "" "dpa_1" 7 5 approved_store after.1 7 transition_no_bypass_example

abbrev engine_context : ExecutionContext ℕ
engine_context = apply_context hundredths "dpa_1" approval

abbrev marks : List ReplayKey
marks = ("appr_1", "env-0001") ∷ ("appr_2", "env-0001") ∷ ("appr_1", "env-0001") ∷ []

marked : (check_and_mark ("appr_1", "env-0001") (after_marks marks [])).0 ≡ (false, 3)
unfolding check_and_mark after_marks seen_count set_count
marked = refl

abbrev clock : String → Option ℕ
clock t = some 100

abbrev request : AdapterEnvelope
request = record {
  execution_scope = "paper";
  allowed_actions = "buy" ∷ [];
  allowed_venues = "x" ∷ [];
  max_size = "1";
  time_limit_utc = "";
  idempotency_key = "k";
  risk_flags = [];
}

abbrev artifact : ApprovalArtifact
artifact = record {
  approval_id = "appr_1";
  decision = "APPROVE";
  approver_id = "ops";
  expires_at_utc = "2026-01-01T00:00:00Z";
  policy_refs = [];
}

abbrev capabilities : Capabilities
capabilities = record {
  allowed_scopes = "paper" ∷ [];
  allowed_actions = "sell" ∷ "buy" ∷ [];
  allowed_venues = "x" ∷ [];
}

executed : execute clock request artifact ("ev" ∷ []) capabilities 5 ≡ ok noop_blocked
unfolding execute NoopAdapter.is_expired shares
executed = refl
