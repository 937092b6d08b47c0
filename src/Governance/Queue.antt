-- ===== src/Governance/Queue.antt =====
-- core/governance/queue_evaluator.py and queue_outcomes.py: the evaluation of a proposal by the
-- approval queue. The four callables of `QueueDeps` work on the state `S` of the store of policies.
use proto_v2_engine.Base.{String, Bool, Option, none, List, [], ◌∷◌, ◌==◌, if◌then◌else◌, truthy}
use proto_v2_engine.Governance.Proposal.{PolicyProposal}

pub data QueueResult : Type 0 where
  noop duplicate mismatch applied skipped : QueueResult

pub record QueueOutcome : Type 0 where
  pub proposal_id : String
  pub baseline_policy_hash : String
  pub result : QueueResult
  pub reason_code : String
  pub policy_hash_before : String
  pub policy_hash_after : String
  pub applied_patch_id : Option String

-- What `apply_patch` returns.
pub record PatchReport : Type 0 where
  pub is_applied : Bool
  pub policy_hash_after : String
  pub applied_patch_id : Option String
  pub reason_code : String

pub record QueueDeps (S F : Type 0) : Type 0 where
  pub get_current_policy_hash : S → String
  pub has_policy_hash_been_applied : S → String → Bool
  pub apply_patch : PolicyProposal F → S → PatchReport × S
  pub is_noop : PolicyProposal F → S → Bool

module _ {S F : Type 0} (deps : QueueDeps S F) where
  -- The outcome of a test that stops the evaluation.
  abbrev pub stopped : PolicyProposal F → QueueResult → String → S → QueueOutcome × S
  stopped p result reason s = (
    record {
      proposal_id = p.proposal_id;
      baseline_policy_hash = p.baseline.policy_hash;
      result = result;
      reason_code = reason;
      policy_hash_before = deps.get_current_policy_hash s;
      policy_hash_after = deps.get_current_policy_hash s;
      applied_patch_id = none;
    },
    s,
  )

  -- Step 4, on what `apply_patch` returned; `before` is the hash that was read at the start.
  abbrev pub reported : PolicyProposal F → String → PatchReport × S → QueueOutcome × S
  reported p before (report, s) = (
    record {
      proposal_id = p.proposal_id;
      baseline_policy_hash = p.baseline.policy_hash;
      result = if report.is_applied then applied else skipped;
      reason_code =
          if truthy report.reason_code
          then report.reason_code
          else (if report.is_applied then "APPLIED" else "SKIPPED");
      policy_hash_before = before;
      policy_hash_after =
          if truthy report.policy_hash_after then report.policy_hash_after else before;
      applied_patch_id = report.applied_patch_id;
    },
    s,
  )

  unfoldable pub evaluate_proposal_constitutional : PolicyProposal F → S → QueueOutcome × S
  evaluate_proposal_constitutional p s =
      if deps.is_noop p s
      then stopped p noop "NOOP_DIFF_EMPTY" s
      else if deps.has_policy_hash_been_applied s p.baseline.policy_hash
      then stopped p duplicate "DUPLICATE_BASELINE_ALREADY_APPLIED" s
      else if p.baseline.policy_hash == deps.get_current_policy_hash s
      then reported p (deps.get_current_policy_hash s) (deps.apply_patch p s)
      else stopped p mismatch "MISMATCH_BASELINE_VS_CURRENT" s

  -- The queue hands its proposals over one after the other.
  unfoldable pub evaluate_all : List (PolicyProposal F) → S → List QueueOutcome × S
  unfolding evaluate_proposal_constitutional
  evaluate_all [] s = ([], s)
  evaluate_all (p ∷ ps) s =
      let (outcome, s') = evaluate_proposal_constitutional p s in
      let (outcomes, s'') = evaluate_all ps s' in (outcome ∷ outcomes, s'')
