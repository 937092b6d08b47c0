-- ===== src/Execution/Exceptions.antt =====
-- The exceptions that cross the engine: `PermissionError` with its reason in place of its text, the
-- classes of core/contracts/errors.py, `PolicyError` of core/judgment/errors.py, and those of Python.
use proto_v2_engine.Base.{String}
use proto_v2_engine.Judgment.Models.{PolicyError}

pub data Reason : Type 0 where
  no_judgment_port missing_rationale missing_option not_immutable missing_authority rejected :
      Reason
  no_apply_port no_envelope apply_port_denies no_approval missing_envelope_id : Reason
  apply_blocked : Reason

pub data Exception : Type 0 where
  permission_error : Reason → Exception
  contract_expired contract_malformed contract_forbidden_action contract_constraint : Exception
  policy_error : PolicyError → Exception
  type_error : Exception
  other : String → Exception

-- The classes that derive from `ContractViolationError`.
abbrev pub IsContractError : Exception → Type 0
IsContractError contract_expired = Unit
IsContractError contract_malformed = Unit
IsContractError contract_forbidden_action = Unit
IsContractError contract_constraint = Unit
IsContractError _ = ⊥
