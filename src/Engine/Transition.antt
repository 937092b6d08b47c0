-- ===== src/Engine/Transition.antt =====
-- core/engine/constitutional_transition.py and transition_facade.py. `run_engine`, the environment
-- variable META_AMENDMENT_CLASS and the clock are arguments; so is `judgment_port`, of which the code
-- uses the one method `get_approval`. `emotion_port` is ignored by the code and left out.
use proto_v2_engine.Base.{
  ℕ, String, Bool, true, false, not, Option, none, some, [], ◌∷◌, Result, ok, err, ◌>>=◌, ◌>>◌,
  raise_if, ◌==◌, truthy, codes, upper, is_infix, ◌&&◌,
}
use proto_v2_engine.Execution.Exceptions.{
  Exception, permission_error, no_judgment_port, missing_rationale, missing_option, not_immutable,
  missing_authority, rejected, no_apply_port, no_envelope, apply_blocked,
}
use proto_v2_engine.Execution.Floats.{Floats}
use proto_v2_engine.Execution.Envelope.{apply, EnvelopeArgument}
use proto_v2_engine.Execution.Executor.{ExecutionContext, DpaApplyPort, run_execution}

pub record JudgmentApproval : Type 0 where
  pub approval_id : String
  pub decision : String
  pub selected_option_id : String
  pub authority_id : String
  pub rationale_ref : String
  pub decided_at : ℕ
  pub immutable : Bool

abbrev pub JudgmentPort : Type 0
JudgmentPort = String → Result Exception JudgmentApproval

-- `_is_applied_status`, on f"{st} {name}" of the status that was found.
unfoldable pub is_applied_status : Option String → Bool
unfolding codes upper is_infix
is_applied_status none = false
is_applied_status (some text) = is_infix (codes "APPLIED") (upper text)

-- `_enforce_amajor_requires_rationale`
abbrev pub enforce_amajor : String → JudgmentApproval → Result Exception (Unit {0})
enforce_amajor amendment_class approval =
    raise_if (amendment_class == "A-MAJOR" && not (truthy approval.rationale_ref))
      (permission_error missing_rationale)

abbrev pub approval_of : Option JudgmentPort → String → Result Exception JudgmentApproval
approval_of none dpa_id = err (permission_error no_judgment_port)
approval_of (some get_approval) dpa_id = get_approval dpa_id

-- Steps 2 and 3: the invariants of an approval.
unfoldable pub check_approval : String → JudgmentApproval → Result Exception (Unit {0})
check_approval amendment_class approval = do
  enforce_amajor amendment_class approval
  raise_if (not (truthy approval.selected_option_id)) (permission_error missing_option)
  raise_if (not approval.immutable) (permission_error not_immutable)
  raise_if (not (truthy approval.authority_id)) (permission_error missing_authority)
  raise_if (approval.decision == "REJECT") (permission_error rejected)

-- Steps 1 to 3: the approval, if it may pass.
unfoldable pub admit : Option JudgmentPort → String → String → Result Exception JudgmentApproval
admit judgment_port amendment_class dpa_id = do
  approval ← approval_of judgment_port dpa_id
  check_approval amendment_class approval
  ok approval

module _ {F : Type 0} (f : Floats F) where
  abbrev pub apply_context : String → JudgmentApproval → ExecutionContext F
  apply_context dpa_id approval = record {
    action = apply;
    confidence = f.one;
    input_sources = "judgment:approval_queue" ∷ [];
    dpa_id = dpa_id;
    selected_option_id = approval.selected_option_id;
    context = none;
    estimated_latency_ms = none;
    cpu_pct_estimate = none;
    mem_mb_estimate = none;
  }

-- `except PolicyError` and `except Exception` both raise a `PermissionError`.
abbrev pub blocked : {S D : Type 0} → Result Exception D × S → Result Exception (Unit {0}) × S
blocked (ok _, s) = (ok tt, s)
blocked (err _, s) = (err (permission_error apply_blocked), s)

-- Step 6: the engine runs on the prelude's output after the gate.
abbrev pub engine_after :
    {S P Out : Type 0}
    → (P → Result Exception Out)
    → Result Exception (Unit {0}) × S
    → P
    → Result Exception Out × S
engine_after run_engine (ok _, s) prelude = (run_engine prelude, s)
engine_after run_engine (err e, s) prelude = (err e, s)

module _ {F : Type 0} (f : Floats F) {S D : Type 0} where
  abbrev pub apply_unless :
      Bool
      → DpaApplyPort S D
      → EnvelopeArgument F
      → String
      → JudgmentApproval
      → ℕ
      → S
      → Result Exception (Unit {0}) × S
  apply_unless true port envelope dpa_id approval now s = (ok tt, s)
  apply_unless false port envelope dpa_id approval now s =
      blocked (run_execution f port envelope (apply_context f dpa_id approval) now s)

  abbrev pub after_get :
      Result Exception D × S
      → DpaApplyPort S D
      → EnvelopeArgument F
      → String
      → JudgmentApproval
      → ℕ
      → Result Exception (Unit {0}) × S
  after_get (ok dpa, s) port envelope dpa_id approval now =
      apply_unless (is_applied_status (port.status_text dpa)) port envelope dpa_id approval now s
  after_get (err _, s) port envelope dpa_id approval now = (err (permission_error apply_blocked), s)

  -- Step 5: the `try` block.
  unfoldable pub apply_gate :
      DpaApplyPort S D
      → EnvelopeArgument F
      → String
      → JudgmentApproval
      → ℕ
      → S
      → Result Exception (Unit {0}) × S
  apply_gate port envelope dpa_id approval now s =
      after_get (port.get_dpa dpa_id s) port envelope dpa_id approval now

  module _ {P Out : Type 0} (run_engine : P → Result Exception Out) where
    abbrev pub gate_then_run :
        Option (DpaApplyPort S D)
        → Option (EnvelopeArgument F)
        → String
        → JudgmentApproval
        → P
        → ℕ
        → S
        → Result Exception Out × S
    gate_then_run none envelope dpa_id approval prelude now s =
        (err (permission_error no_apply_port), s)
    gate_then_run (some port) none dpa_id approval prelude now s =
        (err (permission_error no_envelope), s)
    gate_then_run (some port) (some envelope) dpa_id approval prelude now s =
        engine_after run_engine (apply_gate port envelope dpa_id approval now s) prelude

    abbrev pub admitted_then :
        Result Exception JudgmentApproval
        → Option (DpaApplyPort S D)
        → Option (EnvelopeArgument F)
        → String
        → P
        → ℕ
        → S
        → Result Exception Out × S
    admitted_then (ok approval) port envelope dpa_id prelude now s =
        gate_then_run port envelope dpa_id approval prelude now s
    admitted_then (err e) port envelope dpa_id prelude now s = (err e, s)

    unfoldable pub constitutional_transition :
        Option JudgmentPort
        → Option (DpaApplyPort S D)
        → Option (EnvelopeArgument F)
        → String
        → String
        → P
        → ℕ
        → S
        → Result Exception Out × S
    constitutional_transition judgment_port port envelope amendment_class dpa_id prelude now s =
        admitted_then (admit judgment_port amendment_class dpa_id) port envelope dpa_id prelude now
          s

    -- `run_transition` of the facade refuses a missing envelope before anything else.
    unfoldable pub run_transition :
        JudgmentPort
        → DpaApplyPort S D
        → Option (EnvelopeArgument F)
        → String
        → String
        → P
        → ℕ
        → S
        → Result Exception Out × S
    unfolding constitutional_transition
    run_transition judgment_port port none amendment_class dpa_id prelude now s =
        (err (permission_error no_envelope), s)
    run_transition judgment_port port (some envelope) amendment_class dpa_id prelude now s =
        constitutional_transition (some judgment_port) (some port) (some envelope) amendment_class
          dpa_id prelude now s
