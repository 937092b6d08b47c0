-- ===== src/Web/Approvals.antt =====
-- infra/api/endpoints/approvals.py: the approval of one execution and its run, as the rows of the
-- database, with the audit log. A request that raises before its commit leaves the rows as they were.
-- Whether the commit of a decision meets an IntegrityError is an argument of the request; the commit of
-- an expiry goes through. The reading of a time by `_coerce_sqlite_dt` is a parameter.
pub mod Consistent
use proto_v2_engine.Base.{
  ℕ, suc, ◌+◌, String, Bool, true, false, not, ◌&&◌, ◌||◌, Option, none, some, List, [], ◌∷◌, ◌++◌,
  Result, ok, err, leb, ◌==◌, if◌then◌else◌,
}

pub data Kind : Type 0 where
  approving rejecting : Kind

-- The status that a decision gives to the approval and to the run.
abbrev pub status_for : Kind → String
status_for approving = "approved"
status_for rejecting = "rejected"

abbrev pub run_status_for : Kind → String
run_status_for approving = "RUN"
run_status_for rejecting = "HALTED"

-- `R` is the type of what the column `expires_at` holds.
pub record Approval (R : Type 0) : Type 0 where
  pub id : String
  pub status : String
  pub timeout_seconds : Option ℕ
  pub expires_at : Option R
  pub approved_count : Option ℕ
  pub rejected_count : Option ℕ
  pub resolved_at : Option ℕ

pub record ExecutionRun : Type 0 where
  pub status : String
  pub blocked_reason : Option String
  pub started_at : Option ℕ
  pub ended_at : Option ℕ

pub data AuditEvent : Type 0 where
  approval_expired : AuditEvent
  approval_decided : Kind → AuditEvent

pub record World (R : Type 0) : Type 0 where
  pub approval : Option (Approval R)
  pub run : Option ExecutionRun
  pub decisions : List Kind
  pub audit : List AuditEvent

-- The status code 404 or 409, with its detail.
pub data HttpError : Type 0 where
  not_found conflict : String → HttpError

pub record Response : Type 0 where
  pub approval_status : String
  pub run_status : Option String

-- One request: the endpoint, the times that are read for the test and for the writes, and whether the
-- database takes the decision.
pub record Request : Type 0 where
  pub kind : Kind
  pub now : ℕ
  pub decided_at : ℕ
  pub is_committed : Bool

abbrev or_now : Option ℕ → ℕ → Option ℕ
or_now none now = some now
or_now (some t) now = some t

abbrev one_more : Option ℕ → Option ℕ
one_more none = some 1
one_more (some n) = some (suc n)

abbrev pub is_resolved : String → Bool
is_resolved status = status == "approved" || status == "rejected" || status == "expired"

abbrev status_of : Option ExecutionRun → Option String
status_of none = none
status_of (some run) = some run.status

unfoldable pub settle_run : Kind → ℕ → ExecutionRun → ExecutionRun
settle_run approving now run = record {
  status = "RUN";
  blocked_reason = none;
  started_at = or_now run.started_at now;
  ended_at = run.ended_at;
}
settle_run rejecting now run = record {
  status = "HALTED";
  blocked_reason = some "approval_rejected";
  started_at = run.started_at;
  ended_at = or_now run.ended_at now;
}

abbrev pub block_run : ℕ → Option ExecutionRun → Option ExecutionRun
block_run now none = none
block_run now (some run) = some record {
  status = "BLOCKED";
  blocked_reason = some "approval_expired";
  started_at = run.started_at;
  ended_at = or_now run.ended_at now;
}

module _ {R : Type 0} (coerce_sqlite_dt : R → Option ℕ) where
  abbrev past : Option ℕ → ℕ → Bool
  past none now = true
  past (some exp) now = leb exp now

  abbrev reached : Option R → ℕ → Bool
  reached none now = false
  reached (some raw) now = past (coerce_sqlite_dt raw) now

  -- A time that cannot be read counts as past.
  unfoldable pub is_expired : Approval R → ℕ → Bool
  is_expired appr now = appr.status == "pending" && reached appr.expires_at now

  unfoldable pub mark_expired : ℕ → Approval R → World R → World R
  mark_expired now appr w = record {
    approval = some record {
      id = appr.id;
      status = "expired";
      timeout_seconds = appr.timeout_seconds;
      expires_at = appr.expires_at;
      approved_count = appr.approved_count;
      rejected_count = appr.rejected_count;
      resolved_at = some now;
    };
    run = block_run now w.run;
    decisions = w.decisions;
    audit = w.audit ++ (approval_expired ∷ []);
  }

  unfoldable pub settle : Kind → ℕ → Approval R → Approval R
  settle kind now appr = record {
    id = appr.id;
    status = status_for kind;
    timeout_seconds = appr.timeout_seconds;
    expires_at = appr.expires_at;
    approved_count = elim kind [
      | approving ↦ one_more appr.approved_count
      | rejecting ↦ appr.approved_count
    ];
    rejected_count = elim kind [
      | approving ↦ appr.rejected_count
      | rejecting ↦ one_more appr.rejected_count
    ];
    resolved_at = some now;
  }

  -- The decision on an approval that is open: the audit event comes before the commit.
  unfoldable pub decide :
      Request → Approval R → Option ExecutionRun → World R → Result HttpError Response × World R
  unfolding settle settle_run
  decide q appr none w = (err (not_found "execution_run_not_found"), w)
  decide q appr (some run) w =
      if q.is_committed
      then (
        ok record {
          approval_status = status_for q.kind;
          run_status = some (run_status_for q.kind);
        },
        record {
          approval = some (settle q.kind q.decided_at appr);
          run = some (settle_run q.kind q.decided_at run);
          decisions = w.decisions ++ (q.kind ∷ []);
          audit = w.audit ++ (approval_decided q.kind ∷ []);
        },
      )
      else (
        err (conflict "approval_decision_conflict"),
        record {
          approval = w.approval;
          run = w.run;
          decisions = w.decisions;
          audit = w.audit ++ (approval_decided q.kind ∷ []);
        },
      )

  unfoldable pub answer :
      Request → Option (Approval R) → World R → Result HttpError Response × World R
  unfolding is_expired mark_expired decide
  answer q none w = (err (not_found "approval_not_found"), w)
  answer q (some appr) w =
      if is_expired appr q.now
      then (err (conflict "approval_expired"), mark_expired q.decided_at appr w)
      else if is_resolved appr.status
      then (ok record { approval_status = appr.status; run_status = status_of w.run }, w)
      else decide q appr w.run w

  -- `approve` or `reject`, by the request's kind.
  unfoldable pub handle : Request → World R → Result HttpError Response × World R
  unfolding answer
  handle q w = answer q w.approval w

  unfoldable pub handle_all : List Request → World R → World R
  unfolding handle
  handle_all [] w = w
  handle_all (q ∷ qs) w = handle_all qs (handle q w).1
