-- ===== src/Execution/Executor.antt =====
-- `run_execution` of core/execution/executor.py: the guards, in the order of the code, and the one
-- call of a port. `S` is the state that the port works on, `D` what its methods return.
use proto_v2_engine.Base.{
  ℕ, String, Bool, false, not, ◌&&◌, Option, none, some, List, Result, ok, err, ◌>>◌, raise_if, ltb,
  any, is_empty, Dict,
}
use proto_v2_engine.Json.{Json, ℤ, pos, negsuc}
use proto_v2_engine.Execution.Exceptions.{
  Exception, contract_expired, contract_malformed, contract_forbidden_action, contract_constraint,
}
use proto_v2_engine.Execution.Floats.{Floats}
use proto_v2_engine.Execution.Envelope.{
  ExecutionAction, apply, ExecutionEnvelope, EnvelopeArgument, foreign, genuine, has_action,
  has_source, is_expired,
}

pub record ExecutionContext (F : Type 0) : Type 0 where
  pub action : ExecutionAction
  pub confidence : F
  pub input_sources : List String
  pub dpa_id : String
  pub selected_option_id : String
  pub context : Option (Dict Json)
  pub estimated_latency_ms : Option ℤ
  pub cpu_pct_estimate : Option F
  pub mem_mb_estimate : Option ℤ

-- `DpaApplyPort` of core/judgment/ports.py. `status_text` is f"{st} {name}" of an answer that has a
-- status, as the engine reads it.
pub record DpaApplyPort (S D : Type 0) : Type 0 where
  pub get_dpa : String → S → Result Exception D × S
  pub apply : String → String → Option (Dict Json) → S → Result Exception D × S
  pub status_text : D → Option String

-- `estimate is not None and estimate > ceiling`
abbrev pub exceeds : Option ℤ → ℕ → Bool
exceeds none ceiling = false
exceeds (some (pos n)) ceiling = ltb ceiling n
exceeds (some (negsuc n)) ceiling = false

module _ {F : Type 0} (f : Floats F) where
  abbrev pub exceeds_float : Option F → F → Bool
  exceeds_float none ceiling = false
  exceeds_float (some x) ceiling = f.lt ceiling x

  -- Sections 0.1 to 5 of the function, on an envelope.
  unfoldable pub check_execution :
      ExecutionEnvelope F → ExecutionContext F → ℕ → Result Exception (Unit {0})
  check_execution envelope ctx now = do
    raise_if (not (f.le f.zero ctx.confidence && f.le ctx.confidence f.one)) contract_malformed
    raise_if (is_empty ctx.input_sources) contract_constraint
    raise_if (is_expired envelope now) contract_expired
    raise_if (has_action envelope.authority.forbidden_actions ctx.action) contract_forbidden_action
    raise_if (not (has_action envelope.authority.allowed_actions ctx.action))
        contract_forbidden_action
    raise_if (f.lt ctx.confidence envelope.authority.confidence_floor) contract_constraint
    raise_if (any (has_source envelope.constraints.data_scope.forbidden_sources) ctx.input_sources)
        contract_constraint
    raise_if
        (any (λ s. not (has_source envelope.constraints.data_scope.allowed_sources s))
          ctx.input_sources)
        contract_constraint
    raise_if (exceeds ctx.estimated_latency_ms envelope.constraints.latency_budget_ms)
        contract_constraint
    raise_if (exceeds_float ctx.cpu_pct_estimate envelope.constraints.resource_ceiling.cpu_pct)
        contract_constraint
    raise_if (exceeds ctx.mem_mb_estimate envelope.constraints.resource_ceiling.mem_mb)
        contract_constraint

  module _ {S D : Type 0} (port : DpaApplyPort S D) where
    -- Section 6: `apply` is the one action there is, so the last `raise` is never reached.
    abbrev pub act : ExecutionAction → ExecutionContext F → S → Result Exception D × S
    act apply ctx s = port.apply ctx.dpa_id ctx.selected_option_id ctx.context s

    abbrev pub act_if :
        Result Exception (Unit {0}) → ExecutionContext F → S → Result Exception D × S
    act_if (ok _) ctx s = act ctx.action ctx s
    act_if (err e) ctx s = (err e, s)

    unfoldable pub run_execution :
        EnvelopeArgument F → ExecutionContext F → ℕ → S → Result Exception D × S
    unfolding check_execution
    run_execution foreign ctx now s = (err contract_malformed, s)
    run_execution (genuine envelope) ctx now s = act_if (check_execution envelope ctx now) ctx s
