-- ===== src/Engine/Gate.antt =====
-- The two gates of core/engine/constitutional_transition.py, the approval and the apply gate, and what
-- each of them asks for.
use proto_v2_engine.Base.{
  ℕ, String, ◌≡◌, ◌∙◌, ap, inl, inr, refl, true, false, Option, none, some, Result, ok, err, arith,
  ◌==◌, truthy, Bool-cases, >>=-eq-ok,
}
use proto_v2_engine.Execution.Exceptions.{Exception}
use proto_v2_engine.Execution.Floats.{Floats}
use proto_v2_engine.Execution.Envelope.{EnvelopeArgument, ExecutionEnvelope, foreign, genuine}
use proto_v2_engine.Execution.Executor.{DpaApplyPort, run_execution}
use proto_v2_engine.Execution.Permits.{Permits, run_execution-cases}
use proto_v2_engine.Engine.Transition.{
  JudgmentApproval, JudgmentPort, is_applied_status, check_approval, admit, apply_context, blocked,
  apply_gate, after_get,
}

-- An approval that the engine accepts: final, by an authority, for an option, with a rationale for
-- an amendment of class A-MAJOR.
pub record IsAdmissible (amendment_class : String) (a : JudgmentApproval) : Type 0 where
  pub chosen : truthy a.selected_option_id ≡ true
  pub final : a.immutable ≡ true
  pub authorised : truthy a.authority_id ≡ true
  pub not_rejected : (a.decision == "REJECT") ≡ false
  pub justified : (amendment_class == "A-MAJOR") ≡ true → truthy a.rationale_ref ≡ true

check_approval-IsAdmissible :
    (amendment_class : String) (a : JudgmentApproval)
    → check_approval amendment_class a ≡ ok tt
    → IsAdmissible amendment_class a
unfolding check_approval
check_approval-IsAdmissible amendment_class a h = ground arith

pub IsAdmissible-check_approval :
    (amendment_class : String) (a : JudgmentApproval)
    → IsAdmissible amendment_class a
    → check_approval amendment_class a ≡ ok tt
unfolding check_approval
IsAdmissible-check_approval amendment_class a h = ground arith

pub admit-eq_ok :
    (judgment_port : Option JudgmentPort) (amendment_class dpa_id : String) (a : JudgmentApproval)
    → admit judgment_port amendment_class dpa_id ≡ ok a
    → (port : JudgmentPort) × (judgment_port ≡ some port)
      × (port dpa_id ≡ ok a)
      × IsAdmissible amendment_class a
unfolding admit
admit-eq_ok none amendment_class dpa_id a h = cc
admit-eq_ok (some port) amendment_class dpa_id a h =
    let (b, found, rest) = >>=-eq-ok (port dpa_id) _ h in
    let (_, passed, same) = >>=-eq-ok (check_approval amendment_class b) _ rest in
    let here : b ≡ a = cc same in
    (
      port,
      refl,
      rw (← here) found,
      rw (← here) (check_approval-IsAdmissible amendment_class b passed),
    )

module _ {F S D : Type 0} (f : Floats F) (port : DpaApplyPort S D) (dpa_id : String)
    (approval : JudgmentApproval) (now : ℕ) where
  -- The gate let the engine run: the DPA was applied already and nothing was done, or the port's
  -- `apply` was called under an envelope that permits it, and returned.
  pub data Passed (envelope : EnvelopeArgument F) (s s' : S) : Type 0 where
    already :
        (d : D)
        → port.get_dpa dpa_id s ≡ (ok d, s')
        → is_applied_status (port.status_text d) ≡ true
        → Passed envelope s s'
    carried_out :
        (d d' : D) (s₁ : S) (e : ExecutionEnvelope F)
        → port.get_dpa dpa_id s ≡ (ok d, s₁)
        → is_applied_status (port.status_text d) ≡ false
        → envelope ≡ genuine e
        → Permits f e (apply_context f dpa_id approval) now
        → port.apply dpa_id approval.selected_option_id none s₁ ≡ (ok d', s')
        → Passed envelope s s'

  blocked-eq_ok :
      (r : Result Exception D × S) (s' : S) → blocked r ≡ (ok tt, s') → (d : D) × (r ≡ (ok d, s'))
  blocked-eq_ok (ok d, s₁) s' h = (d, cc)
  blocked-eq_ok (err e, s₁) s' h = cc

  run-Passed :
      (envelope : EnvelopeArgument F) (s s₁ s' : S) (d : D)
      → port.get_dpa dpa_id s ≡ (ok d, s₁)
      → is_applied_status (port.status_text d) ≡ false
      → blocked (run_execution f port envelope (apply_context f dpa_id approval) now s₁)
        ≡ (ok tt, s')
      → Passed envelope s s'
  unfolding run_execution
  run-Passed foreign s s₁ s' d got unapplied h = cc
  run-Passed (genuine e) s s₁ s' d got unapplied h =
      elim (run_execution-cases f e (apply_context f dpa_id approval) now port s₁) [
        | inl (permits, calls) ↦
            let (d', done) = blocked-eq_ok _ s' (rw calls at h) in
            carried_out d d' s₁ e got unapplied refl permits done
        | inr (_, (x, _, fails)) ↦ absurd (cc (rw fails at h))
      ]

  got-Passed :
      (envelope : EnvelopeArgument F) (s s' : S) (r : Result Exception D × S)
      → port.get_dpa dpa_id s ≡ r
      → after_get f r port envelope dpa_id approval now ≡ (ok tt, s')
      → Passed envelope s s'
  got-Passed envelope s s' (err e, s₁) got h = cc
  got-Passed envelope s s' (ok d, s₁) got h =
      elim (Bool-cases (is_applied_status (port.status_text d))) [
        | inl applied ↦
            already d
              (got ∙ ap (λ (p : Result Exception (Unit {0}) × S). (ok d, p.1)) (rw applied at h))
              applied
        | inr unapplied ↦ run-Passed envelope s s₁ s' d got unapplied (rw unapplied at h)
      ]

  pub apply_gate-Passed :
      (envelope : EnvelopeArgument F) (s s' : S)
      → apply_gate f port envelope dpa_id approval now s ≡ (ok tt, s')
      → Passed envelope s s'
  unfolding apply_gate
  apply_gate-Passed envelope s s' h = got-Passed envelope s s' (port.get_dpa dpa_id s) refl h

  pub Passed-apply_gate :
      (envelope : EnvelopeArgument F) (s s' : S)
      → Passed envelope s s'
      → apply_gate f port envelope dpa_id approval now s ≡ (ok tt, s')
  unfolding apply_gate run_execution
  Passed-apply_gate envelope s s' (already d got applied) = rw got (rw applied refl)
  Passed-apply_gate envelope s s' (carried_out d d' s₁ e got unapplied genuinely permits done) =
      elim (run_execution-cases f e (apply_context f dpa_id approval) now port s₁) [
        | inl (_, calls) ↦ rw got (rw unapplied (rw genuinely (rw calls (rw done refl))))
        | inr (refuses, _) ↦ absurd (refuses permits)
      ]
