-- ===== src/Policy/V01.antt =====
-- `apply_policy_v0_1` of core/engine/policy_v0_1.py. Its argument `inp` is read by nothing.

use proto_v2_engine.Base.{
  Bool, true, false, ◌&&◌, ◌||◌, Option, none, some, List, [], ◌∷◌, ◌++◌, ◌==◌, if◌then◌else◌,
}
use proto_v2_engine.Execution.Floats.{Floats}
use proto_v2_engine.Policy.Decision.{
  Severity, high, critical, observe_more, suppress, SignalType, quality, uncertainty, emotion,
  EngineSignal, EngineDecision, max_severity,
}

abbrev is_emotion : SignalType → Bool
is_emotion emotion = true
is_emotion _ = false

abbrev is_quality : SignalType → Bool
is_quality quality = true
is_quality _ = false

abbrev is_uncertainty : SignalType → Bool
is_uncertainty uncertainty = true
is_uncertainty _ = false

module _ {F : Type 0} where
  -- `picked`, for the type EMOTION
  unfoldable pub emotion_severities : List (EngineSignal F) → List Severity
  emotion_severities [] = []
  emotion_severities (s ∷ ss) =
      let rest = emotion_severities ss in if is_emotion s.type then s.severity ∷ rest else rest

  -- The value of the first signal that a test picks, as a float, if it is one.
  unfoldable pub first_value : (EngineSignal F → Bool) → List (EngineSignal F) → Option F
  first_value test [] = none
  first_value test (s ∷ ss) = let rest = first_value test ss in if test s then s.value else rest

unfoldable pub max_from : Severity → List Severity → Severity
max_from cur [] = cur
max_from cur (s ∷ ss) = max_from (max_severity cur s) ss

-- `_max_signal_severity`
abbrev pub worst : List Severity → Option Severity
worst [] = none
worst (s ∷ ss) = some (max_from s ss)

module _ {F : Type 0} (f : Floats F) where
  abbrev is_poor : Option F → Bool
  is_poor none = false
  is_poor (some q) = f.lt q (f.ratio 6 10)

  abbrev is_unsure : Option F → Bool
  is_unsure none = false
  is_unsure (some u) = f.lt (f.ratio 6 10) u

  unfoldable pub is_doubtful : List (EngineSignal F) → Bool
  unfolding first_value
  is_doubtful signals =
      is_poor (first_value (λ s. is_quality s.type && s.name == "quality_score") signals)
      || is_unsure
          (first_value (λ s. is_uncertainty s.type && s.name == "uncertainty_score") signals)

  -- Step 3
  abbrev pub observe_if : Bool → EngineDecision → EngineDecision
  observe_if doubtful d =
      if doubtful
      then record d {
        mode = observe_more;
        rationale =
            d.rationale ++ "policy_v0.1: low quality or high uncertainty → observe_more" ∷ [];
      }
      else d

  -- Steps 1 and 2, on the worst emotion.
  abbrev pub decide_by : Option Severity → Bool → EngineDecision → EngineDecision
  decide_by (some critical) doubtful d = record {
    mode = suppress;
    severity = max_severity d.severity critical;
    rationale = d.rationale ++ "policy_v0.1: CRITICAL emotion → suppress" ∷ [];
  }
  decide_by (some high) doubtful d = observe_if doubtful (record d {
    severity = max_severity d.severity high;
    rationale = d.rationale ++ "policy_v0.1: HIGH emotion → severity bump" ∷ [];
  })
  decide_by _ doubtful d = observe_if doubtful d

  unfoldable pub apply_policy_v0_1 : EngineDecision → List (EngineSignal F) → EngineDecision
  unfolding emotion_severities max_from is_doubtful
  apply_policy_v0_1 base signals =
      decide_by (worst (emotion_severities signals)) (is_doubtful signals) base
