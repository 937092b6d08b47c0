-- ===== src/Orchestrator/Delivery.antt =====
-- What core/orchestrator/routing/recommendation_router.py delivers, on every channel.

use text.Mathlib.TextEquality.{eq_iff}
use proto_v2_engine.Base.{
  ℕ, String, ◌≡◌, ◌↔◌, ◌⊎◌, inl, inr, refl, true, false, Option, List, ◌∷◌, Dict, ◌==◌, arith,
  lower, Bool-cases,
}
use proto_v2_engine.Json.{Json}
use proto_v2_engine.Policy.State.{or_text}
use proto_v2_engine.Orchestrator.Routing.{
  DeliveryPlan, OrchestratorDecision, hold, is_severe, audit_log, route_channel, route,
}

-- What a plan does for the channel `ch` and the severity `sev`.
pub record IsCareful (ch : String) (sev : List ℕ) (log : DeliveryPlan) (d : OrchestratorDecision)
    : Type 0 where
  pub rest : List DeliveryPlan
  pub audited : d.deliveries ≡ log ∷ rest
  pub held : (d.mode ≡ hold) ↔ (ch ≡ "childcare")
  pub reviewed :
      (d.requires_human_review ≡ true)
      ↔ ((ch ≡ "childcare") ⊎ ((ch ≡ "fnb") × (is_severe sev ≡ true)))

other : {ch name : String} → ch == name ≡ false → ch ≡ name → ⊥
other {ch} {name} h e = ground (arith, eq_iff ch name)

-- A channel that is not the one of a test is none of the cases that ask for a review.
unreviewed :
    {ch : String} (sev : List ℕ)
    → ch == "childcare" ≡ false
    → ch == "fnb" ≡ false
    → (ch ≡ "childcare") ⊎ ((ch ≡ "fnb") × (is_severe sev ≡ true))
    → false ≡ true
unreviewed sev c n (inl e) = absurd (other c e)
unreviewed sev c n (inr (e, _)) = absurd (other n e)

module _ (ch : String) (sev : List ℕ) (log : DeliveryPlan) (recs : Json) (meta : Dict Json) where
  reviewed_fnb :
      ch == "childcare" ≡ false
      → (ch ≡ "childcare") ⊎ ((ch ≡ "fnb") × (is_severe sev ≡ true))
      → is_severe sev ≡ true
  reviewed_fnb c (inl e) = absurd (other c e)
  reviewed_fnb c (inr (_, t)) = t

  route_channel-IsCareful : IsCareful ch sev log (route_channel ch sev log recs meta)
  unfolding route_channel
  route_channel-IsCareful = elim (Bool-cases (ch == "childcare")) [
    | inl c ↦ rw c (record {
      rest = _;
      audited = refl;
      held = (λ _. ground (arith, eq_iff ch "childcare"), λ _. refl);
      reviewed = (λ _. inl (ground (arith, eq_iff ch "childcare")), λ _. refl);
    })
    | inr c ↦ rw c (elim (Bool-cases (ch == "fnb")) [
      | inl n ↦ rw n (record {
        rest = _;
        audited = refl;
        held = (λ e. cc e, λ e. absurd (other c e));
        reviewed = (λ t. inr (ground (arith, eq_iff ch "fnb"), t), λ e. reviewed_fnb c e);
      })
      | inr n ↦ rw n (elim (Bool-cases (ch == "trading")) [
        | inl t ↦ rw t (record {
          rest = _;
          audited = refl;
          held = (λ e. cc e, λ e. absurd (other c e));
          reviewed = (λ e. absurd (cc e), unreviewed sev c n);
        })
        | inr t ↦ rw t (record {
          rest = _;
          audited = refl;
          held = (λ e. cc e, λ e. absurd (other c e));
          reviewed = (λ e. absurd (cc e), unreviewed sev c n);
        })
      ])
    ])
  ]

-- Every plan delivers to the audit log first. It is a hold exactly on the channel childcare, and asks
-- for a human review exactly there and on the channel fnb at a severity of high or critical.
route-IsCareful :
    (channel severity decision_mode : Option String) (recs : Json) (meta : Dict Json)
    → IsCareful
        (or_text channel "unknown")
        (lower (or_text severity "low"))
        (audit_log
          (or_text channel "unknown")
          (lower (or_text severity "low"))
          (lower (or_text decision_mode ""))
          recs
          meta)
        (route channel severity decision_mode recs meta)
unfolding route
route-IsCareful channel severity decision_mode recs meta =
    route_channel-IsCareful (or_text channel "unknown") (lower (or_text severity "low")) _ recs meta
