-- ===== src/Web/Execution/Gated.antt =====
-- infra/api/endpoints and infra/api/jobs: what the endpoints and the expirer keep of every run.
use mathlib.Core.Path.{subst}
use proto_v2_engine.Base.{
  ℕ, String, Bool, true, false, ◌≡◌, refl, sym, ap, ◌∙◌, inl, inr, Bool-cases, Option, none, some,
  [], ◌∷◌, arith, ◌==◌, eq-true, and-left,
}
use proto_v2_engine.Web.Approvals.{
  Approval, ExecutionRun, World, Request, Kind, approving, rejecting, is_resolved, is_expired,
  answer, handle, decide, mark_expired, settle, status_for, run_status_for,
}
use proto_v2_engine.Web.Approvals.Consistent.{
  IsBlocked, IsConsistent, absent, waiting, decided, lapsed, answer-IsConsistent, open-decisions,
  pending-open, same-approval,
}
use proto_v2_engine.Web.Execution.{
  Fresh, backfill, ensured, ensure_approval, is_due, explain, lapse, expire_world,
}

halted-ne-run : ◌≡◌ {A = String} "HALTED" "RUN" → ⊥
halted-ne-run h = cc

blocked-ne-run : ◌≡◌ {A = String} "BLOCKED" "RUN" → ⊥
blocked-ne-run h = cc

expired-ne-pending : ◌≡◌ {A = String} "expired" "pending" → ⊥
expired-ne-pending h = let e : true ≡ false = ap (λ (s : String). s == "expired") h in cc e

kind-ne-pending : (k : Kind) → status_for k ≡ "pending" → ⊥
kind-ne-pending approving h = cc
kind-ne-pending rejecting h = cc

IsBlocked-not_running :
    (o : Option ExecutionRun) (r : ExecutionRun) → IsBlocked o → o ≡ some r → r.status ≡ "RUN" → ⊥
IsBlocked-not_running none r b e s = cc
IsBlocked-not_running (some r') r b e s =
    let same : r' ≡ r = cc e in
    blocked-ne-run (sym b ∙ ap (λ (x : ExecutionRun). x.status) same ∙ s)

running_kind : (k : Kind) → run_status_for k ≡ "RUN" → k ≡ approving
running_kind approving h = refl
running_kind rejecting h = absurd (halted-ne-run h)

module _ {R : Type 0} where
  -- There is an approval, and as long as it is pending the run is blocked.
  pub record IsIdle (w : World R) : Type 0 where
    pub approval : Approval R
    pub is_given : w.approval ≡ some approval
    pub idle : approval.status ≡ "pending" → IsBlocked w.run

  -- Besides, the rows agree.
  pub record IsGuarded (w : World R) : Type 0 where
    pub consistent : IsConsistent w
    pub is_idle : IsIdle w

  -- A run that runs has one decision, which approves.
  abbrev pub IsLicensed : World R → Type 0
  IsLicensed w =
      (r : ExecutionRun) → w.run ≡ some r → r.status ≡ "RUN" → w.decisions ≡ approving ∷ []

  pub licensed : (w : World R) → IsConsistent w → IsIdle w → IsLicensed w
  licensed w (absent e) i r g s = absurd (cc (sym e ∙ i.is_given))
  licensed w (waiting a e p d) i r g s =
      let same = same-approval e i.is_given in
      absurd (IsBlocked-not_running w.run r (i.idle (rw (← same) p)) g s)
  licensed w (decided a k r' e p f t d) i r g s =
      let same : r' ≡ r = cc (sym f ∙ g) in
      rw (← running_kind k (sym t ∙ ap (λ (x : ExecutionRun). x.status) same ∙ s)) d
  licensed w (lapsed a e p b d) i r g s = absurd (IsBlocked-not_running w.run r b g s)

  -- A change of the approval that keeps its status.
  abbrev with_approval : World R → Approval R → World R
  with_approval w a = record w { approval = some a }

  same_status :
      (w : World R) (a a' : Approval R)
      → w.approval ≡ some a
      → a'.status ≡ a.status
      → IsConsistent w
      → IsConsistent (with_approval w a')
  same_status w a a' e s (absent none_here) = absurd (cc (sym e ∙ none_here))
  same_status w a a' e s (waiting b e' p d) = waiting a' refl (s ∙ rw (same-approval e e') p) d
  same_status w a a' e s (decided b k r e' p f t d) =
      decided a' k r refl (s ∙ rw (same-approval e e') p) f t d
  same_status w a a' e s (lapsed b e' p f d) = lapsed a' refl (s ∙ rw (same-approval e e') p) f d

module _ {R : Type 0} (fingerprint : String → String → String → String)
    (calc_expires_at : ℕ → ℕ → R) where
  backfill-status :
      (now : ℕ) (o : Option R) (a : Approval R)
      → (backfill fingerprint calc_expires_at now o a).status ≡ a.status
  backfill-status now none a = elim (Bool-cases (a.status == "pending")) [
    | inl t ↦ rw t refl
    | inr t ↦ rw t refl
  ]
  backfill-status now (some e) a = refl

  pub ensure-IsGuarded :
      (new : Fresh) (w : World R)
      → IsGuarded w
      → IsGuarded (ensure_approval fingerprint calc_expires_at new w)
  unfolding ensure_approval
  ensure-IsGuarded new w g =
      let a = g.is_idle.approval in
      let a' = ensured fingerprint calc_expires_at new (some a) in
      let given : some (ensured fingerprint calc_expires_at new w.approval) ≡ some a' =
        ap (λ o. some (ensured fingerprint calc_expires_at new o)) g.is_idle.is_given in
      let status = backfill-status new.now a.expires_at a in
      record {
        consistent =
            subst (λ (o : Option (Approval R)). IsConsistent (record w { approval = o }))
              (sym given) (same_status w a a' g.is_idle.is_given status g.consistent);
        is_idle = record {
          approval = a';
          is_given = given;
          idle = λ h. g.is_idle.idle (sym status ∙ h);
        };
      }

module _ {R : Type 0} (coerce_sqlite_dt : R → Option ℕ) where
  decide-IsIdle :
      (q : Request) (a : Approval R) (run : Option ExecutionRun) (w : World R)
      → IsIdle w
      → IsIdle (decide coerce_sqlite_dt q a run w).1
  unfolding decide settle
  decide-IsIdle q a none w i = i
  decide-IsIdle q a (some r) w i = elim (Bool-cases q.is_committed) [
    | inl t ↦ rw t (record {
      approval = settle coerce_sqlite_dt q.kind q.decided_at a;
      is_given = refl;
      idle = λ h. absurd (kind-ne-pending q.kind h);
    })
    | inr t ↦ rw t (record { approval = i.approval; is_given = i.is_given; idle = i.idle })
  ]

  answer-IsIdle :
      (q : Request) (o : Option (Approval R)) (w : World R)
      → IsIdle w
      → IsIdle (answer coerce_sqlite_dt q o w).1
  unfolding answer mark_expired
  answer-IsIdle q none w i = i
  answer-IsIdle q (some a) w i = elim (Bool-cases (is_expired coerce_sqlite_dt a q.now)) [
    | inl t ↦
        rw t (record { approval = _; is_given = refl; idle = λ h. absurd (expired-ne-pending h) })
    | inr t ↦ elim (Bool-cases (is_resolved a.status)) [
      | inl u ↦ rw t (rw u i)
      | inr u ↦ rw t (rw u (decide-IsIdle q a w.run w i))
    ]
  ]

  pub handle-IsGuarded :
      (q : Request) (w : World R) → IsGuarded w → IsGuarded (handle coerce_sqlite_dt q w).1
  unfolding handle
  handle-IsGuarded q w g = record {
    consistent = answer-IsConsistent coerce_sqlite_dt q w.approval w refl g.consistent;
    is_idle = answer-IsIdle q w.approval w g.is_idle;
  }

module _ {R : Type 0} (sql_le : R → ℕ → Bool) where
  explain-IsBlocked : (o : Option ExecutionRun) → IsBlocked o → IsBlocked (explain sql_le o)
  explain-IsBlocked none b = tt
  explain-IsBlocked (some r) b = ground arith

  lapsed_world :
      (now : ℕ) (w : World R) (o : Option (Approval R)) (a : Approval R)
      → o ≡ some a
      → w.decisions ≡ []
      → IsBlocked w.run
      → IsGuarded (record w { approval = lapse sql_le now o; run = explain sql_le w.run })
  lapsed_world now w none a e d b = cc
  lapsed_world now w (some a') a e d b =
      let blocked_now = explain-IsBlocked w.run b in
      record {
        consistent =
            lapsed (record a' { status = "expired"; resolved_at = some now }) refl refl blocked_now
              d;
        is_idle = record {
          approval = _;
          is_given = refl;
          idle = λ h. absurd (expired-ne-pending h);
        };
      }

  due-pending :
      (now : ℕ) (o : Option (Approval R)) (a : Approval R)
      → o ≡ some a
      → is_due sql_le now o ≡ true
      → a.status ≡ "pending"
  due-pending now none a e h = cc
  due-pending now (some a') a e h =
      let same : a' ≡ a = cc e in rw (← same) (eq-true a'.status "pending" (and-left _ _ h))

  pub expire-IsGuarded :
      (now : ℕ) (w : World R)
      → is_due sql_le now w.approval ≡ true
      → IsGuarded w
      → IsGuarded (expire_world sql_le now w)
  unfolding expire_world
  expire-IsGuarded now w due g =
      let i = g.is_idle in
      let pending = due-pending now w.approval i.approval i.is_given due in
      lapsed_world now w w.approval i.approval i.is_given
        (open-decisions w i.approval i.is_given (pending-open i.approval.status (rw pending refl))
          g.consistent)
        (i.idle pending)
