-- ===== src/Policy/Recommendations.antt =====
-- `make_recommendations_v0_1` of core/engine/recommendations_v0_1.py: the dicts of its answer as
-- records, of which only alerts have a level.
use proto_v2_engine.Base.{String, Option, none, some, List, [], ◌∷◌, if◌then◌else◌}
use proto_v2_engine.Policy.Decision.{
  DecisionMode, observe_more, suppress, allow, EngineDecision, is_high,
}

pub data RecommendationType : Type 0 where
  alert action observe permit : RecommendationType

pub record Recommendation : Type 0 where
  pub type : RecommendationType
  pub level : Option String
  pub message : String

abbrev high_alert : Recommendation
high_alert = record {
  type = alert;
  level = some "high";
  message = "High-risk pattern detected. Monitor closely.";
}

-- The last recommendation of a decision that does not suppress.
abbrev pub guidance : DecisionMode → Recommendation
guidance observe_more = record {
  type = observe;
  level = none;
  message = "Collect more data for next window; avoid strong interventions unless risk escalates.";
}
guidance _ = record {
  type = permit;
  level = none;
  message = "Proceed; continue monitoring with standard cadence.";
}

abbrev pub suppression : List Recommendation
suppression =
    record {
      type = alert;
      level = some "critical";
      message = "Immediate staff attention recommended.";
    }
    ∷ record {
      type = action;
      level = none;
      message = "Reduce stimulation: lower noise/light, provide calming intervention.";
    }
    ∷ []

unfoldable pub make_recommendations_v0_1 : EngineDecision → List Recommendation
make_recommendations_v0_1 d = elim d.mode [
  | suppress ↦ suppression
  | observe_more ↦
      if is_high d.severity
      then high_alert ∷ guidance observe_more ∷ []
      else guidance observe_more ∷ []
  | allow ↦ if is_high d.severity then high_alert ∷ guidance allow ∷ [] else guidance allow ∷ []
]
