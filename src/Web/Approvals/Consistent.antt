-- ===== src/Web/Approvals/Consistent.antt =====
-- infra/api/endpoints/approvals.py: the rows that requests leave.
use proto_v2_engine.Base.{
  eq-true, and-left, ℕ, String, true, false, ◌≡◌, refl, sym, ap, ◌∙◌, inl, inr, Option, none, some,
  List, [], ◌∷◌, ◌++◌, Bool-cases, ◌==◌,
}
use proto_v2_engine.Web.Approvals.{
  AuditEvent, approval_decided, Kind, Approval, ExecutionRun, World, Request, status_for,
  run_status_for, approving, rejecting, is_resolved, is_expired, settle, settle_run, decide,
  mark_expired, block_run, answer, handle, handle_all,
}

abbrev pub IsBlocked : Option ExecutionRun → Type 0
IsBlocked none = Unit
IsBlocked (some run) = run.status ≡ "BLOCKED"

-- No approval; an open one without a decision; a decided one, with the one decision and the run's status
-- that belongs to it; or one that lapsed without a decision and whose run, if there is one, is blocked.
pub data IsConsistent {R : Type 0} (w : World R) : Type 0 where
  absent : w.approval ≡ none → IsConsistent w
  waiting :
      (a : Approval R)
      → w.approval ≡ some a
      → a.status ≡ "pending"
      → w.decisions ≡ []
      → IsConsistent w
  decided :
      (a : Approval R) (k : Kind) (r : ExecutionRun)
      → w.approval ≡ some a
      → a.status ≡ status_for k
      → w.run ≡ some r
      → r.status ≡ run_status_for k
      → w.decisions ≡ k ∷ []
      → IsConsistent w
  lapsed :
      (a : Approval R)
      → w.approval ≡ some a
      → a.status ≡ "expired"
      → IsBlocked w.run
      → w.decisions ≡ []
      → IsConsistent w

pub same-approval :
    {R : Type 0} {a b : Approval R} {o : Option (Approval R)} → o ≡ some a → o ≡ some b → a ≡ b
same-approval e e' = cc (sym e ∙ e')

pub kind-resolved : (k : Kind) → is_resolved (status_for k) ≡ true
kind-resolved approving = refl
kind-resolved rejecting = refl

pub pending-open : (status : String) → (status == "pending") ≡ true → is_resolved status ≡ false
pending-open status h = rw (eq-true status "pending" h) refl

blocked : (now : ℕ) (run : Option ExecutionRun) → IsBlocked (block_run now run)
blocked now none = tt
blocked now (some run) = refl

settled_status :
    (k : Kind) (now : ℕ) (run : ExecutionRun) → (settle_run k now run).status ≡ run_status_for k
unfolding settle_run
settled_status approving now run = refl
settled_status rejecting now run = refl

module _ {R : Type 0} where
  -- An open approval has no decision.
  pub open-decisions :
      (w : World R) (a : Approval R)
      → w.approval ≡ some a
      → is_resolved a.status ≡ false
      → IsConsistent w
      → w.decisions ≡ []
  open-decisions w a e still (absent none_here) = absurd (cc (sym e ∙ none_here))
  open-decisions w a e still (waiting b e' s d) = d
  open-decisions w a e still (decided b k r e' s _ _ d) =
      let same = same-approval e e' in
      let closed : is_resolved a.status ≡ true = rw same (rw s (kind-resolved k)) in
      absurd (cc (sym closed ∙ still))
  open-decisions w a e still (lapsed b e' s _ d) = d

  -- The audit log plays no part.
  with_audit : World R → List AuditEvent → World R
  with_audit w events = record {
    approval = w.approval;
    run = w.run;
    decisions = w.decisions;
    audit = events;
  }

  relogged :
      (w : World R) (events : List AuditEvent) → IsConsistent w → IsConsistent (with_audit w events)
  unfolding with_audit
  relogged w events (absent e) = absent e
  relogged w events (waiting a e s d) = waiting a e s d
  relogged w events (decided a k r e s f t d) = decided a k r e s f t d
  relogged w events (lapsed a e s b d) = lapsed a e s b d

  abbrev expired_of : ℕ → Approval R → Approval R
  expired_of now a = record {
    id = a.id;
    status = "expired";
    timeout_seconds = a.timeout_seconds;
    expires_at = a.expires_at;
    approved_count = a.approved_count;
    rejected_count = a.rejected_count;
    resolved_at = some now;
  }

module _ {R : Type 0} (coerce_sqlite_dt : R → Option ℕ) where
  decide-IsConsistent :
      (q : Request) (a : Approval R) (run : Option ExecutionRun) (w : World R)
      → w.decisions ≡ []
      → IsConsistent w
      → IsConsistent (decide coerce_sqlite_dt q a run w).1
  unfolding decide with_audit
  decide-IsConsistent q a none w d h = h
  decide-IsConsistent q a (some run) w d h = elim (Bool-cases q.is_committed) [
    | inl t ↦ rw t (
        decided (settle coerce_sqlite_dt q.kind q.decided_at a) q.kind
          (settle_run q.kind q.decided_at run) refl refl refl
          (settled_status q.kind q.decided_at run) (ap (λ ds. ds ++ (q.kind ∷ [])) d))
    | inr t ↦ rw t (relogged w (w.audit ++ (approval_decided q.kind ∷ [])) h)
  ]

  expire_case :
      (q : Request) (a : Approval R) (w : World R)
      → w.approval ≡ some a
      → IsConsistent w
      → is_expired coerce_sqlite_dt a q.now ≡ true
      → IsConsistent (mark_expired coerce_sqlite_dt q.decided_at a w)
  unfolding is_expired mark_expired
  expire_case q a w e h t =
      lapsed (expired_of q.decided_at a) refl refl (blocked q.decided_at w.run)
        (open-decisions w a e (pending-open a.status (and-left _ _ t)) h)

  pub answer-IsConsistent :
      (q : Request) (o : Option (Approval R)) (w : World R)
      → w.approval ≡ o
      → IsConsistent w
      → IsConsistent (answer coerce_sqlite_dt q o w).1
  unfolding answer
  answer-IsConsistent q none w e h = h
  answer-IsConsistent q (some a) w e h = elim (Bool-cases (is_expired coerce_sqlite_dt a q.now)) [
    | inl t ↦ rw t (expire_case q a w e h t)
    | inr t ↦ elim (Bool-cases (is_resolved a.status)) [
      | inl u ↦ rw t (rw u h)
      | inr u ↦ rw t (rw u (decide-IsConsistent q a w.run w (open-decisions w a e u h) h))
    ]
  ]

  -- From rows that agree with each other every list of requests, in any order and with any outcome of
  -- their commits, leaves rows that do: no approval; or a pending one without a decision; or one with a
  -- single decision, whose status and whose run's status are those of it; or an expired one without a
  -- decision, whose run, if there is one, is blocked.
  handle_all-IsConsistent :
      (qs : List Request) (w : World R)
      → IsConsistent w
      → IsConsistent (handle_all coerce_sqlite_dt qs w)
  unfolding handle_all handle
  handle_all-IsConsistent [] w h = h
  handle_all-IsConsistent (q ∷ qs) w h =
      handle_all-IsConsistent qs (answer coerce_sqlite_dt q w.approval w).1
        (answer-IsConsistent q w.approval w refl h)
