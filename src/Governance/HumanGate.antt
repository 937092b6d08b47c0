-- ===== src/Governance/HumanGate.antt =====
-- core/governance/human_gate.py: the checklist that says whether a human must approve a proposal.
use proto_v2_engine.Base.{
  ℕ, String, Bool, true, false, not, List, [], ◌∷◌, ◌++◌, if◌then◌else◌, any, is_empty, codes,
  lower, same_codes, is_infix,
}
use proto_v2_engine.Governance.Proposal.{BlastRadius, system, external, PolicyProposal}

abbrev pub is_wide : BlastRadius → Bool
is_wide system = true
is_wide external = true
is_wide _ = false

abbrev pub is_external : BlastRadius → Bool
is_external external = true
is_external _ = false

-- `any(k in text for k in words)`
unfoldable pub mentions : List String → List ℕ → Bool
unfolding codes is_infix
mentions words text = any (λ w. is_infix (codes w) text) words

-- `text.lower() in {...}`
unfoldable pub is_one_of : List String → String → Bool
unfolding codes lower same_codes
is_one_of words text = any (λ w. same_codes (codes w) (lower text)) words

-- `" ".join([r.lower() for r in risks])`
unfoldable pub join_lower : List String → List ℕ
unfolding lower
join_lower [] = []
join_lower (r ∷ []) = lower r
join_lower (r ∷ rs) = lower r ++ b' ' ∷ join_lower rs

abbrev rollback_words : List String
rollback_words = "migration" ∷ "downtime" ∷ "irreversible" ∷ "multi-service" ∷ "coordination" ∷ []

abbrev risk_words : List String
risk_words = "safety" ∷ "legal" ∷ "compliance" ∷ "reputation" ∷ "privacy" ∷ []

abbrev governed_domains : List String
governed_domains = "governance" ∷ "constitution" ∷ "approval" ∷ []

-- `if test: reasons.append(reason)`, before the reasons of the later tests.
abbrev pub reason_if : Bool → String → List String → List String
reason_if test reason later = if test then reason ∷ later else later

-- Tests B, D and E read texts.
unfoldable pub is_costly : {F : Type 0} → PolicyProposal F → Bool
unfolding mentions lower
is_costly p = mentions rollback_words (lower p.explain.rollback_scope)

unfoldable pub is_risky : {F : Type 0} → PolicyProposal F → Bool
unfolding mentions join_lower
is_risky p = mentions risk_words (join_lower p.explain.risks)

unfoldable pub is_governed : {F : Type 0} → PolicyProposal F → Bool
unfolding is_one_of
is_governed p = is_one_of governed_domains p.scope.domain

unfoldable pub gate_reasons : {F : Type 0} → PolicyProposal F → List String
unfolding is_costly is_risky is_governed
gate_reasons p = reason_if (is_wide p.scope.blast_radius) "BLAST_RADIUS_EXPANSION" (
    reason_if (is_costly p) "ROLLBACK_COST_INCREASE" (
      reason_if (is_external p.scope.blast_radius) "EXTERNAL_REAL_WORLD_EFFECT" (
        reason_if (is_risky p) "SAFETY_COMPLIANCE_REPUTATION"
          (reason_if (is_governed p) "GOVERNANCE_SENSITIVE" []))))

unfoldable pub evaluate_human_gate : {F : Type 0} → PolicyProposal F → Bool × List String
unfolding gate_reasons
evaluate_human_gate p = (not (is_empty (gate_reasons p)), gate_reasons p)
