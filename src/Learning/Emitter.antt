-- ===== src/Learning/Emitter.antt =====
-- core/learning_os/proposal_emitter.py: what a proposal passes before the approval queue, the human gate,
-- the validation and the rate limiter. `W` is what the writer of
-- core/learning_os/queue_writer.py, a protocol, writes to; `now` is the time of the call.
use Prim.Native.String.{◌++◌ as append}
use proto_v2_engine.Base.{
  ℕ, String, Bool, true, false, Option, none, some, List, [], ◌∷◌, Result, ok, err,
}
use proto_v2_engine.Execution.Floats.{Floats}
use proto_v2_engine.Governance.Proposal.{PolicyProposal}
use proto_v2_engine.Governance.HumanGate.{evaluate_human_gate}
use proto_v2_engine.Governance.Validator.{GovernanceError, CanonParams, validate_proposal_prequeue}
use proto_v2_engine.Learning.RateLimiter.{RateLimitDecision, RateLimiter, check_and_record}

pub record EmitDecision : Type 0 where
  pub emitted : Bool
  pub reason : String
  pub rate_limit : Option RateLimitDecision

-- `','.join(reasons)`
unfoldable pub join_comma : List String → String
join_comma [] = ""
join_comma (r ∷ []) = r
join_comma (r ∷ rs) = append r (append "," (join_comma rs))

module _ {F W : Type 0} (f : Floats F) (write : PolicyProposal F → W → W) where
  -- Steps 3 and 4, on the limiter's answer.
  abbrev pub write_if :
      PolicyProposal F
      → RateLimitDecision × RateLimiter
      → W
      → Result GovernanceError EmitDecision × (RateLimiter × W)
  write_if p (decision, limiter) w = elim decision.allowed [
    | false ↦ (
      ok (record { emitted = false; reason = decision.reason; rate_limit = some decision }),
      (limiter, w),
    )
    | true ↦ (
      ok (record { emitted = true; reason = "EMITTED_OK"; rate_limit = some decision }),
      (limiter, write p w),
    )
  ]

  -- Step 2, on what the validation returned.
  abbrev pub limit_if :
      Result GovernanceError (Unit {0})
      → PolicyProposal F
      → String
      → ℕ
      → RateLimiter
      → W
      → Result GovernanceError EmitDecision × (RateLimiter × W)
  limit_if (err e) p key now limiter w = (err e, (limiter, w))
  limit_if (ok _) p key now limiter w = write_if p (check_and_record key now limiter) w

  -- Step 1, on what the human gate returned.
  abbrev pub validate_if :
      Bool × List String
      → CanonParams F
      → String
      → String
      → PolicyProposal F
      → String
      → ℕ
      → RateLimiter
      → W
      → Result GovernanceError EmitDecision × (RateLimiter × W)
  validate_if (true, reasons) params canon pack p key now limiter w = (
    ok (record {
      emitted = false;
      reason = append "HUMAN_GATE_REQUIRED:" (join_comma reasons);
      rate_limit = none;
    }),
    (limiter, w),
  )
  validate_if (false, reasons) params canon pack p key now limiter w =
      limit_if (validate_proposal_prequeue f params canon pack p) p key now limiter w

  unfoldable pub emit_proposal_if_allowed :
      CanonParams F
      → String
      → String
      → PolicyProposal F
      → String
      → ℕ
      → RateLimiter
      → W
      → Result GovernanceError EmitDecision × (RateLimiter × W)
  unfolding join_comma
  emit_proposal_if_allowed params canon pack p key now limiter w =
      validate_if (evaluate_human_gate p) params canon pack p key now limiter w
