-- ===== src/Learning/Emission.antt =====
-- When core/learning_os/proposal_emitter.py writes to the queue.
use proto_v2_engine.Base.{ℕ, String, Bool, ◌≡◌, refl, true, false, Result, ok, err}
use proto_v2_engine.Execution.Floats.{Floats}
use proto_v2_engine.Governance.Proposal.{PolicyProposal}
use proto_v2_engine.Governance.HumanGate.{evaluate_human_gate}
use proto_v2_engine.Governance.Validator.{GovernanceError, CanonParams, validate_proposal_prequeue}
use proto_v2_engine.Governance.Eligibility.{IsEligible, validate_iff_IsEligible}
use proto_v2_engine.Learning.RateLimiter.{RateLimiter, check_and_record}
use proto_v2_engine.Learning.Emitter.{
  EmitDecision, write_if, limit_if, validate_if, emit_proposal_if_allowed,
}

module _ {F W : Type 0} (f : Floats F) (write : PolicyProposal F → W → W) (params : CanonParams F)
    (canon pack : String) (p : PolicyProposal F) (key : String) (now : ℕ) (limiter : RateLimiter)
    (w : W) where
  -- What a call can come to: it waits for a human, raises, is limited, or emits.
  pub data Emission (r : Result GovernanceError EmitDecision) (limiter' : RateLimiter) (w' : W)
      : Type 0 where
    waits :
        (d : EmitDecision)
        → (evaluate_human_gate p).0 ≡ true
        → r ≡ ok d
        → d.emitted ≡ false
        → limiter' ≡ limiter
        → w' ≡ w
        → Emission r limiter' w'
    raises :
        (e : GovernanceError)
        → (evaluate_human_gate p).0 ≡ false
        → (IsEligible f params canon pack p → ⊥)
        → r ≡ err e
        → limiter' ≡ limiter
        → w' ≡ w
        → Emission r limiter' w'
    limited :
        (d : EmitDecision)
        → (evaluate_human_gate p).0 ≡ false
        → IsEligible f params canon pack p
        → (check_and_record key now limiter).0.allowed ≡ false
        → r ≡ ok d
        → d.emitted ≡ false
        → limiter' ≡ (check_and_record key now limiter).1
        → w' ≡ w
        → Emission r limiter' w'
    emits :
        (d : EmitDecision)
        → (evaluate_human_gate p).0 ≡ false
        → IsEligible f params canon pack p
        → (check_and_record key now limiter).0.allowed ≡ true
        → r ≡ ok d
        → d.emitted ≡ true
        → limiter' ≡ (check_and_record key now limiter).1
        → w' ≡ write p w
        → Emission r limiter' w'

  abbrev Outcome : Result GovernanceError EmitDecision × (RateLimiter × W) → Type 0
  Outcome (r, (limiter', w')) = Emission r limiter' w'

  write_if-Outcome :
      (evaluate_human_gate p).0 ≡ false
      → IsEligible f params canon pack p
      → (b : Bool) → (check_and_record key now limiter).0.allowed ≡ b
      → Outcome (write_if f write p (check_and_record key now limiter) w)
  write_if-Outcome free i true e = rw e (emits _ free i e refl refl refl refl)
  write_if-Outcome free i false e = rw e (limited _ free i e refl refl refl refl)

  limit_if-Outcome :
      (evaluate_human_gate p).0 ≡ false
      → (r : Result GovernanceError (Unit {0}))
      → validate_proposal_prequeue f params canon pack p ≡ r
      → Outcome (limit_if f write r p key now limiter w)
  limit_if-Outcome free (err e) h =
      raises e free (λ i. cc ((validate_iff_IsEligible f params canon pack p).1 i)) refl refl refl
  limit_if-Outcome free (ok _) h =
      write_if-Outcome free ((validate_iff_IsEligible f params canon pack p).0 h) _ refl

  validate_if-Outcome :
      (b : Bool)
      → (evaluate_human_gate p).0 ≡ b
      → Outcome (validate_if f write (evaluate_human_gate p) params canon pack p key now limiter w)
  validate_if-Outcome true e = rw e (waits _ e refl refl refl refl)
  validate_if-Outcome false e = rw e (limit_if-Outcome e _ refl)

  -- Each call does one of four things. It waits, where a human must approve, with the limiter left as it
  -- was; where none must, it raises for a proposal that is not eligible, with the limiter left as it was;
  -- it is limited, where the limiter refuses an eligible one; or it emits. Only the last writes, and it
  -- writes this proposal once.
  pub emit-Emission :
      Outcome (emit_proposal_if_allowed f write params canon pack p key now limiter w)
  unfolding emit_proposal_if_allowed
  emit-Emission = validate_if-Outcome _ refl
