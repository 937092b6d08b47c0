-- ===== src/Web/Execution.antt =====
-- infra/api/endpoints/execution.py (the second run_execution, which takes the place of the first) and one
-- pass of infra/api/jobs/approval_expirer.py, over a table of runs, each with its approval. The project and
-- the key of a run are unique in the table. What other sessions commit between the first look and the
-- flush of a request is a list of requests; no other IntegrityError occurs. The fingerprint (SHA-256 of the dumped request) and the time
-- after some seconds are parameters.
pub mod Gated
pub mod Table
pub mod Retry
use proto_v2_engine.Base.{
  ℕ, zero, suc, String, Bool, true, false, not, ◌&&◌, ◌||◌, Option, none, some, List, [], ◌∷◌, ◌++◌,
  Result, ok, err, leb, eqb, ◌==◌, if◌then◌else◌,
}
use proto_v2_engine.Web.Approvals.{
  Approval, ExecutionRun, World, AuditEvent, Kind, Request, answer, handle,
}

pub record Row (R : Type 0) : Type 0 where
  pub execution_id : String
  pub project_id : String
  pub idempotency_key : String
  pub decision_card_id : String
  pub execution_scope : String
  pub request_fingerprint : Option String
  pub world : World R

pub record RunRequest : Type 0 where
  pub project_id : String
  pub decision_card_id : String
  pub execution_scope : String
  pub idempotency_key : String

-- The ids of the new rows, and the time.
pub record Fresh : Type 0 where
  pub execution_id : String
  pub approval_id : String
  pub now : ℕ

pub data RunEvent : Type 0 where
  conflict dedup_hit created : RunRequest → RunEvent

pub data RunError : Type 0 where
  idempotency_key_conflict : RunError

pub record RunResponse : Type 0 where
  pub execution_id : String
  pub status : Option String
  pub is_dedup : Bool

pub record Db (R : Type 0) : Type 0 where
  pub rows : List (Row R)
  pub audit : List RunEvent

abbrev pub status_of_run : Option ExecutionRun → Option String
status_of_run none = none
status_of_run (some run) = some run.status

abbrev default_timeout : ℕ
default_timeout = 3600

abbrev timeout_of : Option ℕ → ℕ
timeout_of none = default_timeout
timeout_of (some n) = if eqb n 0 then default_timeout else n

module _ {R : Type 0} where
  abbrev pub has_key_of : RunRequest → Row R → Bool
  has_key_of req row =
      row.project_id == req.project_id && row.idempotency_key == req.idempotency_key

  abbrev pub has_id : String → Row R → Bool
  has_id id row = row.execution_id == id

  unfoldable pub find_run : RunRequest → List (Row R) → Option (Row R)
  find_run req [] = none
  find_run req (row ∷ rows) = if has_key_of req row then some row else find_run req rows

  -- The write to the first row that a query selects.
  unfoldable pub update_row : (Row R → Bool) → (World R → World R) → List (Row R) → List (Row R)
  update_row p f [] = []
  update_row p f (row ∷ rows) =
      let rest = update_row p f rows in
      if p row then record row { world = f row.world } ∷ rows else row ∷ rest

  abbrev pub log : RunEvent → Db R → Db R
  log e db = record db { audit = db.audit ++ (e ∷ []) }

module _ {R : Type 0} (fingerprint : String → String → String → String)
    (calc_expires_at : ℕ → ℕ → R) where
  abbrev new_approval : Fresh → Approval R
  new_approval new = record {
    id = new.approval_id;
    status = "pending";
    timeout_seconds = some default_timeout;
    expires_at = some (calc_expires_at new.now default_timeout);
    approved_count = some 0;
    rejected_count = some 0;
    resolved_at = none;
  }

  abbrev backfill : ℕ → Option R → Approval R → Approval R
  backfill now none a =
      if a.status == "pending"
      then record a { expires_at = some (calc_expires_at now (timeout_of a.timeout_seconds)) }
      else a
  backfill now (some e) a = a

  abbrev ensured : Fresh → Option (Approval R) → Approval R
  ensured new none = new_approval new
  ensured new (some a) = backfill new.now a.expires_at a

  unfoldable pub ensure_approval : Fresh → World R → World R
  ensure_approval new w = record w { approval = some (ensured new w.approval) }

  abbrev pub fp_of : RunRequest → String
  fp_of req = fingerprint req.project_id req.decision_card_id req.execution_scope

  abbrev pub same_text : Option String → String → Bool
  same_text none s = false
  same_text (some t) s = t == s

  unfoldable pub conflicts : RunRequest → Row R → Bool
  conflicts req row =
      not (row.decision_card_id == req.decision_card_id)
      || not (row.execution_scope == req.execution_scope)
      || not (same_text row.request_fingerprint (fp_of req))

  abbrev pub respond : Row R → Bool → RunResponse
  respond row dedup = record {
    execution_id = row.execution_id;
    status = status_of_run row.world.run;
    is_dedup = dedup;
  }

  -- The request meets a run under its key.
  unfoldable pub reuse : Fresh → RunRequest → Row R → Db R → Result RunError RunResponse × Db R
  unfolding conflicts ensure_approval update_row
  reuse new req row db =
      if conflicts req row then (err idempotency_key_conflict, log (conflict req) db) else (
        ok (respond row true),
        log (dedup_hit req)
            (record db { rows = update_row (has_key_of req) (ensure_approval new) db.rows }),
      )

  unfoldable pub new_row : Fresh → RunRequest → Row R
  unfolding ensure_approval
  new_row new req = record {
    execution_id = new.execution_id;
    project_id = req.project_id;
    idempotency_key = req.idempotency_key;
    decision_card_id = req.decision_card_id;
    execution_scope = req.execution_scope;
    request_fingerprint = some (fp_of req);
    world = ensure_approval new (record {
      approval = none;
      run = some record {
        status = "BLOCKED";
        blocked_reason = some "approval_pending";
        started_at = none;
        ended_at = none;
      };
      decisions = [];
      audit = [];
    });
  }

  -- The flush of the new run: the unique key refuses it where the key is taken by now.
  abbrev pub insert_if_free :
      Option (Row R) → Fresh → RunRequest → Db R → Result RunError RunResponse × Db R
  insert_if_free (some row) new req db = reuse new req row db
  insert_if_free none new req db =
      let row = new_row new req in
      (ok (respond row false), log (created req) (record db { rows = db.rows ++ (row ∷ []) }))

  unfoldable pub insert_run : Fresh → RunRequest → Db R → Result RunError RunResponse × Db R
  unfolding find_run reuse new_row
  insert_run new req db = insert_if_free (find_run req db.rows) new req db

  -- Requests of other sessions, whole ones, one after the other.
  unfoldable pub run_others : List (Fresh × RunRequest) → Db R → Db R
  unfolding insert_run
  run_others [] db = db
  run_others ((new, req) ∷ rs) db = run_others rs (insert_run new req db).1

  abbrev pub run_if_free :
      Option (Row R)
      → List (Fresh × RunRequest)
      → Fresh
      → RunRequest
      → Db R
      → Result RunError RunResponse × Db R
  run_if_free (some row) others new req db = reuse new req row db
  run_if_free none others new req db = insert_run new req (run_others others db)

  unfoldable pub run_execution :
      List (Fresh × RunRequest) → Fresh → RunRequest → Db R → Result RunError RunResponse × Db R
  unfolding find_run run_others
  run_execution others new req db = run_if_free (find_run req db.rows) others new req db

-- One pass of the expirer.
module _ {R : Type 0} (sql_le : R → ℕ → Bool) where
  abbrev due_at : ℕ → Option R → Bool
  due_at now none = false
  due_at now (some e) = sql_le e now

  abbrev pub is_due : ℕ → Option (Approval R) → Bool
  is_due now none = false
  is_due now (some a) = a.status == "pending" && due_at now a.expires_at

  abbrev pub is_unexplained : Option String → Bool
  is_unexplained none = true
  is_unexplained (some reason) = reason == "approval_pending"

  abbrev pub explain : Option ExecutionRun → Option ExecutionRun
  explain none = none
  explain (some run) =
      if run.status == "BLOCKED" && is_unexplained run.blocked_reason
      then some (record run { blocked_reason = some "approval_expired" })
      else some run

  abbrev pub lapse : ℕ → Option (Approval R) → Option (Approval R)
  lapse now none = none
  lapse now (some a) = some (record a { status = "expired"; resolved_at = some now })

  unfoldable pub expire_world : ℕ → World R → World R
  expire_world now w = record w { approval = lapse now w.approval; run = explain w.run }

  -- At most `limit` rows; which ones the database picks is left to the order of the table.
  unfoldable pub expire_pending_approvals_once : ℕ → ℕ → List (Row R) → List (Row R)
  unfolding expire_world
  expire_pending_approvals_once now limit [] = []
  expire_pending_approvals_once now zero (row ∷ rows) = row ∷ rows
  expire_pending_approvals_once now (suc limit) (row ∷ rows) =
      let due = expire_pending_approvals_once now limit rows in
      let skipped = expire_pending_approvals_once now (suc limit) rows in
      if is_due now row.world.approval
      then record row { world = expire_world now row.world } ∷ due
      else row ∷ skipped

-- What reaches the table: a request for a run, an answer to an approval, and a pass of the expirer.
pub data Op : Type 0 where
  run : List (Fresh × RunRequest) → Fresh → RunRequest → Op
  answer_to : String → Request → Op
  expire : ℕ → ℕ → Op

module _ {R : Type 0} (fingerprint : String → String → String → String)
    (calc_expires_at : ℕ → ℕ → R) (coerce_sqlite_dt : R → Option ℕ) (sql_le : R → ℕ → Bool) where
  unfoldable pub step : Op → Db R → Db R
  unfolding run_execution update_row handle expire_pending_approvals_once
  step (run others new req) db = (run_execution fingerprint calc_expires_at others new req db).1
  step (answer_to id q) db = record db {
    rows = update_row (has_id id) (λ w. (handle coerce_sqlite_dt q w).1) db.rows;
  }
  step (expire now limit) db = record db {
    rows = expire_pending_approvals_once sql_le now limit db.rows;
  }

  unfoldable pub steps : List Op → Db R → Db R
  unfolding step
  steps [] db = db
  steps (op ∷ ops) db = steps ops (step op db)
