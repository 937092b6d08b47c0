-- ===== src/Tests/Learning.antt =====
-- The producer of policy proposals at concrete inputs.
use proto_v2_engine.Base.{
  ℕ, List, Result, codes, lower, same_codes, is_infix, is_prefix, is_blank, is_space, ◌≤◌, ◌≡◌,
  refl, not, [], ◌∷◌, length, filter, arith, get, put,
}
use proto_v2_engine.Json.{pos}
use proto_v2_engine.Execution.Floats.{hundredths}
use proto_v2_engine.Governance.Proposal.{PolicyProposal}
use proto_v2_engine.Governance.HumanGate.{
  mentions, is_one_of, join_lower, is_costly, is_risky, is_governed, gate_reasons,
  evaluate_human_gate,
}
use proto_v2_engine.Governance.Validator.{
  GovernanceError, names_section, check_window, validate_proposal_prequeue,
}
use proto_v2_engine.Learning.Emitter.{EmitDecision, emit_proposal_if_allowed}
use proto_v2_engine.Learning.Emission.{Emission, emit-Emission}
use proto_v2_engine.Tests.Governance.{proposal, params}
use proto_v2_engine.Learning.RateLimiter.{RateLimiter, is_recent, reaches, check_and_record}
use proto_v2_engine.Learning.Window.{Calls, IsOrdered, emissions, fresh}
use proto_v2_engine.Learning.Bound.{emissions_bounded}
use proto_v2_engine.Learning.Reference.{after_calls, check_exact}

abbrev calls : Calls
calls = ("a", 3) ∷ ("a", 5) ∷ ("b", 6) ∷ ("a", 7) ∷ ("a", 14) ∷ []

calls-IsOrdered : IsOrdered 0 calls
calls-IsOrdered = (omega arith, (omega arith, (omega arith, (omega arith, (omega arith, tt)))))

emitted_times : emissions "a" calls (fresh (pos 10) (pos 2)) ≡ 3 ∷ 5 ∷ 14 ∷ []
unfolding emissions check_and_record filter get put
emitted_times = refl

emissions_bounded_example :
    length (filter (is_recent (pos 10) 14) (emissions "a" calls (fresh (pos 10) (pos 2)))) ≤ 2
emissions_bounded_example = emissions_bounded (pos 10) 2 "a" calls 14 calls-IsOrdered (omega arith)

check_exact_example :
    (check_and_record "a" 15 (after_calls calls (fresh (pos 10) (pos 2)))).0.allowed
    ≡ not (
        reaches
          (pos 2)
          (length (filter (is_recent (pos 10) 15) (emissions "a" calls (fresh (pos 10) (pos 2))))))
check_exact_example = check_exact (pos 10) (pos 2) "a" calls 15 calls-IsOrdered (omega arith)

abbrev limiter : RateLimiter
limiter = fresh (pos 10) (pos 2)

abbrev queue_write : PolicyProposal ℕ → List (PolicyProposal ℕ) → List (PolicyProposal ℕ)
queue_write p items = p ∷ items

abbrev run : Result GovernanceError EmitDecision × (RateLimiter × List (PolicyProposal ℕ))
run =
    emit_proposal_if_allowed hundredths queue_write params "1.0" "1.0" (proposal "h1") "a" 3 limiter
      []

run-written : run.1.1 ≡ proposal "h1" ∷ []
unfolding emit_proposal_if_allowed validate_proposal_prequeue names_section check_window
    evaluate_human_gate gate_reasons is_costly is_risky is_governed mentions is_one_of join_lower
    codes lower same_codes is_infix is_prefix is_blank is_space check_and_record filter get put
run-written = refl

emit-Emission_example :
    Emission hundredths queue_write params "1.0" "1.0"
      (proposal "h1")
      "a"
      3
      limiter
      []
      run.0
      run.1.0
      run.1.1
emit-Emission_example =
    emit-Emission hundredths queue_write params "1.0" "1.0" (proposal "h1") "a" 3 limiter []
