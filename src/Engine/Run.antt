-- ===== src/Engine/Run.antt =====
-- When core/engine/constitutional_transition.py returns the engine's output, and what it
-- rests on.
use proto_v2_engine.Base.{
  ℕ, String, ◌≡◌, ap, inl, inr, refl, Option, none, some, Result, ok, err, Result-cases,
}
use proto_v2_engine.Execution.Exceptions.{Exception}
use proto_v2_engine.Execution.Floats.{Floats}
use proto_v2_engine.Execution.Envelope.{EnvelopeArgument}
use proto_v2_engine.Execution.Executor.{DpaApplyPort}
use proto_v2_engine.Engine.Transition.{
  JudgmentApproval, JudgmentPort, admit, engine_after, gate_then_run, constitutional_transition,
}
use proto_v2_engine.Engine.Gate.{
  IsAdmissible, IsAdmissible-check_approval, admit-eq_ok, Passed, apply_gate-Passed,
  Passed-apply_gate,
}

module _ {F S D P Out : Type 0} (f : Floats F) (run_engine : P → Result Exception Out)
    (judgment_port : Option JudgmentPort) (port : Option (DpaApplyPort S D))
    (envelope : Option (EnvelopeArgument F)) (amendment_class dpa_id : String) (prelude : P)
    (now : ℕ) (s s' : S) where
  -- All that a run of the engine rests on.
  pub record IsGated (out : Out) : Type 0 where
    pub judge : JudgmentPort
    pub applier : DpaApplyPort S D
    pub contract : EnvelopeArgument F
    pub approval : JudgmentApproval
    pub judged : judgment_port ≡ some judge
    pub applies : port ≡ some applier
    pub issued : envelope ≡ some contract
    pub approved : judge dpa_id ≡ ok approval
    pub admissible : IsAdmissible amendment_class approval
    pub passed : Passed f applier dpa_id approval now contract s s'
    pub ran : run_engine prelude ≡ ok out

  engine_after-eq_ok :
      (r : Result Exception (Unit {0}) × S) (out : Out)
      → engine_after run_engine r prelude ≡ (ok out, s')
      → (r ≡ (ok tt, s')) × (run_engine prelude ≡ ok out)
  engine_after-eq_ok (ok _, s₁) out h = (
    ap (λ (p : Result Exception Out × S). (ok tt, p.1)) h,
    ap (λ (p : Result Exception Out × S). p.0) h,
  )
  engine_after-eq_ok (err e, s₁) out h = absurd (cc (ap (λ (p : Result Exception Out × S). p.0) h))

  gated :
      (a : JudgmentApproval) (r : Option (DpaApplyPort S D)) (v : Option (EnvelopeArgument F))
      (out : Out)
      → port ≡ r
      → envelope ≡ v
      → (judge : JudgmentPort) → judgment_port ≡ some judge
      → judge dpa_id ≡ ok a
      → IsAdmissible amendment_class a
      → gate_then_run f run_engine r v dpa_id a prelude now s ≡ (ok out, s')
      → IsGated out
  gated a none v out pe ve judge je found adm h =
      absurd (cc (ap (λ (p : Result Exception Out × S). p.0) h))
  gated a (some p) none out pe ve judge je found adm h =
      absurd (cc (ap (λ (p : Result Exception Out × S). p.0) h))
  gated a (some p) (some v) out pe ve judge je found adm h =
      let (opened, result) = engine_after-eq_ok _ out h in
      record {
        judge = judge;
        applier = p;
        contract = v;
        approval = a;
        judged = je;
        applies = pe;
        issued = ve;
        approved = found;
        admissible = adm;
        passed = apply_gate-Passed f p dpa_id a now v s s' opened;
        ran = result;
      }

  -- Where the transition returns an output of the engine, both ports and an envelope were given, the
  -- port's approval of this DPA is admissible, the apply gate let it pass, and the engine ran.
  pub transition_no_bypass :
      (out : Out)
      → constitutional_transition f run_engine judgment_port port envelope amendment_class dpa_id
          prelude now s
        ≡ (ok out, s')
      → IsGated out
  unfolding constitutional_transition
  transition_no_bypass out h = elim (Result-cases (admit judgment_port amendment_class dpa_id)) [
    | inr (e, failed) ↦ absurd (cc (ap (λ (p : Result Exception Out × S). p.0) (rw failed at h)))
    | inl (a, admitted) ↦
        let (judge, je, found, adm) = admit-eq_ok judgment_port amendment_class dpa_id a admitted in
        gated a port envelope out refl refl judge je found adm (rw admitted at h)
  ]

  -- Where there are both ports and an envelope, the port's approval is admissible, the apply gate lets
  -- it pass from `s` to `s'` and the engine returns `out`, the transition returns `out` and leaves `s'`.
  pub transition_runs :
      (out : Out)
      → IsGated out
      → constitutional_transition f run_engine judgment_port port envelope amendment_class dpa_id
          prelude now s
        ≡ (ok out, s')
  unfolding constitutional_transition admit
  transition_runs out g = rw g.judged (
      rw g.approved (
        rw (IsAdmissible-check_approval amendment_class g.approval g.admissible) (
          rw g.applies (
            rw g.issued (
              rw (Passed-apply_gate f g.applier dpa_id g.approval now g.contract s s' g.passed)
                (rw g.ran refl))))))
