-- ===== src/Tests/Governance.antt =====
-- The governance of policy proposals at concrete inputs.
use text.Mathlib.TextEquality.{eq_iff}
use proto_v2_engine.Base.{
  ℕ, String, ◌≡◌, refl, true, false, none, some, List, [], ◌∷◌, ok, any, arith, ◌==◌, codes,
  is_space, is_blank, is_infix, is_prefix, lower, same_codes,
}
use proto_v2_engine.Json.{null, pos}
use proto_v2_engine.Execution.Floats.{hundredths}
use proto_v2_engine.Governance.Proposal.{PolicyProposal, human, low, local, events, custom}
use proto_v2_engine.Governance.HumanGate.{
  mentions, is_one_of, join_lower, is_costly, is_risky, is_governed, gate_reasons,
  evaluate_human_gate,
}
use proto_v2_engine.Governance.Validator.{
  CanonParams, names_section, check_window, validate_proposal_prequeue,
}
use proto_v2_engine.Governance.Queue.{QueueDeps, evaluate_proposal_constitutional, evaluate_all}
use proto_v2_engine.Governance.Replay.{
  applied_baselines, IsDistinct, IsPolicyStore, Verdict, evaluate-Verdict, applied_once,
}

abbrev pub proposal : String → PolicyProposal ℕ
proposal hash = record {
  proposal_id = "pp-1";
  source = record { kind = human; name = "ops"; run_id = "run-1"; created_at = "2026-01-01" };
  scope = record { domain = "trading"; subsystem = "risk"; severity = low; blast_radius = local };
  preconditions = record {
    constitution = record { required_sections = "AQ" ∷ []; constitution_hash = "c0" };
    observation_window = record { mode = events; t_window = none; n_events = some (pos 50) };
    sample = record { n_min = pos 30; n_observed = pos 41 };
    stability = record { k_confirmations = pos 3; epsilon = 5; summary = "stable" };
  };
  baseline = record { policy_snapshot_id = "snap-1"; policy_hash = hash };
  patch = record { format = custom; content = null };
  explain = record {
    current_policy_summary = "a";
    proposed_policy_summary = "b";
    rationale = "c";
    expected_impact = "d";
    rollback_scope = "one file";
    risks = "none known" ∷ [];
    assumptions = [];
    evidence_refs = [];
  };
  rate_limit = record { period = "7d"; limit_x = pos 2; cooldown = "1d"; rest_required = false };
  human_gate = record { required = false; reasons = [] };
}

abbrev pub params : CanonParams ℕ
params = record {
  t_window_required = none;
  n_min = some (pos 30);
  k_confirmations = some (pos 3);
  epsilon_max = some 10;
  limit_x = some (pos 2);
}

-- A store of policies: the current hash and the baselines that were applied. A patch is applied
-- always and leads to the hash "h2".
abbrev Policies : Type 0
Policies = String × List String

abbrev deps : QueueDeps Policies ℕ
deps = record {
  get_current_policy_hash = λ s. s.0;
  has_policy_hash_been_applied = λ s h. any (λ x. x == h) s.1;
  apply_patch = λ p s. (
    record {
      is_applied = true;
      policy_hash_after = "h2";
      applied_patch_id = some "patch-1";
      reason_code = "";
    },
    ("h2", p.baseline.policy_hash ∷ s.1),
  );
  is_noop = λ p s. false;
}

deps-IsPolicyStore : IsPolicyStore deps
deps-IsPolicyStore = record {
  records = λ p s e. ground (arith, eq_iff p.baseline.policy_hash p.baseline.policy_hash);
  keeps = λ p s h e. ground arith;
}

evaluated :
    applied_baselines (evaluate_all deps (proposal "h1" ∷ proposal "h1" ∷ []) ("h1", [])).0
    ≡ "h1" ∷ []
unfolding evaluate_all evaluate_proposal_constitutional applied_baselines
evaluated = refl

validated : validate_proposal_prequeue hundredths params "1.0" "1.0" (proposal "h1") ≡ ok tt
unfolding validate_proposal_prequeue names_section check_window evaluate_human_gate gate_reasons
    is_costly is_risky is_governed mentions is_one_of join_lower codes lower same_codes is_infix
    is_prefix is_blank is_space
validated = refl

evaluate-Verdict_example :
    Verdict deps
      (proposal "h1")
      ("h1", [])
      (evaluate_proposal_constitutional deps (proposal "h1") ("h1", [])).0
      (evaluate_proposal_constitutional deps (proposal "h1") ("h1", [])).1
evaluate-Verdict_example = evaluate-Verdict deps (proposal "h1") ("h1", [])

applied_once_example :
    IsDistinct
      (applied_baselines (evaluate_all deps (proposal "h1" ∷ proposal "h1" ∷ []) ("h1", [])).0)
applied_once_example =
    applied_once deps-IsPolicyStore (proposal "h1" ∷ proposal "h1" ∷ []) ("h1", [])
