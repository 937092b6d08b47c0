-- ===== src/Execution/Permits.antt =====
-- When the executor of core/execution/executor.py acts: its guards against a description of them.
use mathlib.Core.List.{Memᴰ}
use proto_v2_engine.Base.{
  ℕ, String, ◌≡◌, ◌⊎◌, ap, inl, inr, true, false, not, ok, err, arith, any, any-false, false-any,
  is_empty, Result-cases,
}
use proto_v2_engine.Execution.Exceptions.{Exception, IsContractError}
use proto_v2_engine.Execution.Floats.{Floats}
use proto_v2_engine.Execution.Envelope.{
  ExecutionEnvelope, genuine, has_action, has_source, is_expired,
}
use proto_v2_engine.Execution.Executor.{
  ExecutionContext, DpaApplyPort, exceeds, exceeds_float, act, check_execution, run_execution,
}

-- The executor's conditions, in its own terms.
pub record Permits {F : Type 0} (f : Floats F) (e : ExecutionEnvelope F) (ctx : ExecutionContext F)
    (now : ℕ) : Type 0 where
  pub confidence_low : f.le f.zero ctx.confidence ≡ true
  pub confidence_high : f.le ctx.confidence f.one ≡ true
  pub has_inputs : is_empty ctx.input_sources ≡ false
  pub unexpired : is_expired e now ≡ false
  pub not_denied : has_action e.authority.forbidden_actions ctx.action ≡ false
  pub granted : has_action e.authority.allowed_actions ctx.action ≡ true
  pub above_floor : f.lt ctx.confidence e.authority.confidence_floor ≡ false
  pub sources :
      (s : String)
      → Memᴰ s ctx.input_sources
      → (has_source e.constraints.data_scope.allowed_sources s ≡ true)
        × (has_source e.constraints.data_scope.forbidden_sources s ≡ false)
  pub in_time : exceeds ctx.estimated_latency_ms e.constraints.latency_budget_ms ≡ false
  pub in_cpu : exceeds_float f ctx.cpu_pct_estimate e.constraints.resource_ceiling.cpu_pct ≡ false
  pub in_memory : exceeds ctx.mem_mb_estimate e.constraints.resource_ceiling.mem_mb ≡ false

act_lem :
    {F S D : Type 0} (f : Floats F) (port : DpaApplyPort S D) (ctx : ExecutionContext F) (s : S)
    → act f port ctx.action ctx s ≡ port.apply ctx.dpa_id ctx.selected_option_id ctx.context s
act_lem f port ctx s = ground arith

module _ {F : Type 0} (f : Floats F) (e : ExecutionEnvelope F) (ctx : ExecutionContext F)
    (now : ℕ) where
  -- The conditions with the tests on sources as the code makes them.
  abbrev SourceTests : Type 0
  SourceTests =
      (any (has_source e.constraints.data_scope.forbidden_sources) ctx.input_sources ≡ false)
      × (any (λ s. not (has_source e.constraints.data_scope.allowed_sources s)) ctx.input_sources
          ≡ false)

  pub check_execution-Permits : check_execution f e ctx now ≡ ok tt → Permits f e ctx now
  unfolding check_execution
  check_execution-Permits h =
      let tests : SourceTests = ground arith in
      record {
        confidence_low = ground arith;
        confidence_high = ground arith;
        has_inputs = ground arith;
        unexpired = ground arith;
        not_denied = ground arith;
        granted = ground arith;
        above_floor = ground arith;
        sources = λ s m. (
          ground (arith, any-false _ s ctx.input_sources tests.1 m),
          any-false _ s ctx.input_sources tests.0 m,
        );
        in_time = ground arith;
        in_cpu = ground arith;
        in_memory = ground arith;
      }

  pub Permits-check_execution : Permits f e ctx now → check_execution f e ctx now ≡ ok tt
  unfolding check_execution
  Permits-check_execution p =
      let t1 =
        false-any (has_source e.constraints.data_scope.forbidden_sources) ctx.input_sources
          (λ s m. (p.sources s m).1) in
      let t2 =
        false-any (λ s. not (has_source e.constraints.data_scope.allowed_sources s))
          ctx.input_sources (λ s m. ap not (p.sources s m).0) in
      ground (arith, t1, t2)

  check_execution-error : (x : Exception) → check_execution f e ctx now ≡ err x → IsContractError x
  unfolding check_execution
  check_execution-error x h = ground arith

  pub run_execution-cases :
      {S D : Type 0} (port : DpaApplyPort S D) (s : S)
      → (Permits f e ctx now
          × (run_execution f port (genuine e) ctx now s
              ≡ port.apply ctx.dpa_id ctx.selected_option_id ctx.context s))
        ⊎ ((Permits f e ctx now → ⊥)
            × ((x : Exception) × IsContractError x
                × (run_execution f port (genuine e) ctx now s ≡ (err x, s))))
  unfolding run_execution
  run_execution-cases port s = elim (Result-cases (check_execution f e ctx now)) [
    | inl (_, passed) ↦ inl (check_execution-Permits passed, rw passed (act_lem f port ctx s))
    | inr (x, failed) ↦
        inr (λ p. cc (Permits-check_execution p), (x, check_execution-error x failed, rw failed))
  ]
