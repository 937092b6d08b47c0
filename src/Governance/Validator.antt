-- ===== src/Governance/Validator.antt =====
-- core/governance/proposal_validator.py: what a proposal is tested for before it may enter the queue.
use proto_v2_engine.Base.{
  String, Bool, true, false, not, Option, none, some, List, Result, ok, ◌>>◌, raise_if, any,
  is_empty, is_blank, ◌==◌,
}
use proto_v2_engine.Json.{ℤ, pos, ltz, eqz}
use proto_v2_engine.Execution.Floats.{Floats}
use proto_v2_engine.Governance.Proposal.{
  time, events, ObservationWindow, PolicyProposal, has_text, has_events,
}
use proto_v2_engine.Governance.HumanGate.{evaluate_human_gate}

-- The tests of the validation, in place of the texts of its exceptions.
pub data CanonReason : Type 0 where
  canon_version pack_version missing_sections time_window event_window : CanonReason
  n_min_differs few_samples few_confirmations epsilon_high no_summary : CanonReason
  limit_differs limit_negative : CanonReason

-- core/governance/errors.py
pub data GovernanceError : Type 0 where
  proposal_invalid : GovernanceError
  canon_violation : CanonReason → GovernanceError
  human_gate_unmarked human_gate_unreasoned : GovernanceError

pub record CanonParams (F : Type 0) : Type 0 where
  pub t_window_required : Option String
  pub n_min : Option ℤ
  pub k_confirmations : Option ℤ
  pub epsilon_max : Option F
  pub limit_x : Option ℤ

-- `param is not None and x != param`
abbrev pub differs : Option ℤ → ℤ → Bool
differs none x = false
differs (some n) x = not (eqz x n)

-- `param is not None and x < param`
abbrev pub falls_short : Option ℤ → ℤ → Bool
falls_short none x = false
falls_short (some n) x = ltz x n

-- `section in required_sections`, for the one section of REQUIRED_CONSTITUTION_SECTIONS
unfoldable pub names_section : List String → Bool
names_section sections = any (λ s. s == "AQ") sections

unfoldable pub check_window : ObservationWindow → Result GovernanceError (Unit {0})
check_window w = elim w.mode [
  | time ↦ raise_if (not (has_text w.t_window)) (canon_violation time_window)
  | events ↦ raise_if (not (has_events w.n_events)) (canon_violation event_window)
]

-- `if required:` of the last two tests
abbrev pub check_gate : Bool → Bool → List String → Result GovernanceError (Unit {0})
check_gate false marked reasons = ok tt
check_gate true marked reasons = do
  raise_if (not marked) human_gate_unmarked
  raise_if (is_empty reasons) human_gate_unreasoned

module _ {F : Type 0} (f : Floats F) where
  -- `param is not None and x > param`
  abbrev pub is_above : Option F → F → Bool
  is_above none x = false
  is_above (some m) x = f.lt m x

  unfoldable pub validate_proposal_prequeue :
      CanonParams F → String → String → PolicyProposal F → Result GovernanceError (Unit {0})
  unfolding names_section check_window
  validate_proposal_prequeue params canon pack p = do
    raise_if (not (canon == "1.0")) (canon_violation canon_version)
    raise_if (not (pack == "1.0")) (canon_violation pack_version)
    raise_if (not (names_section p.preconditions.constitution.required_sections))
        (canon_violation missing_sections)
    check_window p.preconditions.observation_window
    raise_if (differs params.n_min p.preconditions.sample.n_min) (canon_violation n_min_differs)
    raise_if (ltz p.preconditions.sample.n_observed p.preconditions.sample.n_min)
        (canon_violation few_samples)
    raise_if (falls_short params.k_confirmations p.preconditions.stability.k_confirmations)
        (canon_violation few_confirmations)
    raise_if (is_above params.epsilon_max p.preconditions.stability.epsilon)
        (canon_violation epsilon_high)
    raise_if (is_blank p.preconditions.stability.summary) (canon_violation no_summary)
    raise_if (differs params.limit_x p.rate_limit.limit_x) (canon_violation limit_differs)
    raise_if (ltz p.rate_limit.limit_x (pos 0)) (canon_violation limit_negative)
    check_gate (evaluate_human_gate p).0 p.human_gate.required p.human_gate.reasons
