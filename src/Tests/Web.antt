-- ===== src/Tests/Web.antt =====
-- The web service at concrete rows.
use proto_v2_engine.Base.{
  ◌+◌, String, Bool, leb, ok, err, All, ℕ, ◌≡◌, refl, true, false, Option, none, some, List, [],
  ◌∷◌,
}
use proto_v2_engine.Web.Approvals.{
  approving, rejecting, Approval, ExecutionRun, World, Request, handle_all, approval_decided,
  handle, answer, decide, is_expired, settle, settle_run,
}
use proto_v2_engine.Web.Execution.{
  Fresh, RunRequest, RunResponse, Db, Op, run, answer_to, expire, created, idempotency_key_conflict,
  new_row, run_execution, steps,
}
use proto_v2_engine.Web.Execution.Gated.{IsLicensed}
use proto_v2_engine.Web.Execution.Table.{IsUnique, keys, steps_licensed}
use proto_v2_engine.Web.Execution.Retry.{retry_same_run}

-- The column holds the time itself.
abbrev read : ℕ → Option ℕ
read n = some n

abbrev pending : Approval ℕ
pending = record {
  id = "a-1";
  status = "pending";
  timeout_seconds = some 3600;
  expires_at = some 100;
  approved_count = none;
  rejected_count = none;
  resolved_at = none;
}

abbrev queued : ExecutionRun
queued = record {
  status = "BLOCKED";
  blocked_reason = some "approval_required";
  started_at = none;
  ended_at = none;
}

abbrev open_world : World ℕ
open_world = record { approval = some pending; run = some queued; decisions = []; audit = [] }

-- A rejection that the database refuses, the approval, and one more rejection.
abbrev requests : List Request
requests =
    record { kind = rejecting; now = 10; decided_at = 11; is_committed = false }
    ∷ (record { kind = approving; now = 12; decided_at = 13; is_committed = true }
        ∷ (record { kind = rejecting; now = 200; decided_at = 201; is_committed = true } ∷ []))

-- The event of the rejection that was rolled back stays in the audit log.
stale_event :
    (handle_all read requests open_world).audit
    ≡ approval_decided rejecting ∷ (approval_decided approving ∷ [])
unfolding handle_all handle answer decide is_expired settle settle_run
stale_event = refl

-- A fingerprint by the card alone, and times as numbers.
abbrev fp : String → String → String → String
fp project card scope = card

abbrev after_seconds : ℕ → ℕ → ℕ
after_seconds now seconds = now + seconds

abbrev at_or_before : ℕ → ℕ → Bool
at_or_before t now = leb t now

abbrev fresh : String → Fresh
fresh id = record { execution_id = id; approval_id = "a"; now = 10 }

abbrev req : String → RunRequest
req card = record {
  project_id = "p";
  decision_card_id = card;
  execution_scope = "automation";
  idempotency_key = "k";
}

-- Another session takes the key first; the run is approved; the expirer finds nothing.
abbrev ops : List Op
ops =
    run ((fresh "e1", req "c") ∷ []) (fresh "e2") (req "c")
    ∷ (answer_to "e1" (record { kind = approving; now = 12; decided_at = 13; is_committed = true })
        ∷ (expire 9999 500 ∷ []))

steps_licensed_example :
    All
      (λ row. IsLicensed row.world)
      (steps fp after_seconds read at_or_before ops record { rows = []; audit = [] }).rows
    × IsUnique
        (keys (steps fp after_seconds read at_or_before ops record { rows = []; audit = [] }).rows)
steps_licensed_example = steps_licensed fp after_seconds read at_or_before ops

abbrev empty_db : Db ℕ
empty_db = record { rows = []; audit = [] }

abbrev first_answer : RunResponse
first_answer = record { execution_id = "e1"; status = some "BLOCKED"; is_dedup = false }

abbrev first_db : Db ℕ
first_db = record {
  rows = new_row fp after_seconds (fresh "e1") (req "c") ∷ [];
  audit = created (req "c") ∷ [];
}

first_run :
    run_execution fp after_seconds [] (fresh "e1") (req "c") empty_db ≡ (ok first_answer, first_db)
unfolding run_execution
first_run = refl

retry_same_run_example :
    (again : RunResponse) × ((run_execution fp after_seconds [] (fresh "e2") (req "c") first_db).0
      ≡ ok again)
    × (again.execution_id ≡ "e1")
    × (again.is_dedup ≡ true)
retry_same_run_example =
    retry_same_run fp after_seconds [] [] (fresh "e1") (fresh "e2") (req "c") empty_db first_db
      first_answer first_run

-- The same key with another card is a conflict.
other_card :
    (run_execution fp after_seconds [] (fresh "e2") (req "d") first_db).0
    ≡ err idempotency_key_conflict
unfolding run_execution
other_card = refl
