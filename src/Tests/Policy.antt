-- ===== src/Tests/Policy.antt =====
-- The policies and the routing at concrete inputs.
use mathlib.Core.List.{Memᴰ}
use Prim.Native.String.{String}
use proto_v2_engine.Base.{
  ℕ, ◌≡◌, refl, Option, none, some, List, [], ◌∷◌, codes, lower, same_codes, ◌==◌, if◌then◌else◌,
}
use proto_v2_engine.Json.{null, pos}
use proto_v2_engine.Execution.Floats.{hundredths}
use proto_v2_engine.Policy.Decision.{
  EngineDecision, EngineSignal, Severity, low, medium, high, critical, allow, suppress, emotion,
  quality,
}
use proto_v2_engine.Policy.State.{SceneState, last_severity, severity_of_text, is_channel}
use proto_v2_engine.Policy.Cooldown.{cooldown, cooldown_minutes, cooldown_reason}
use proto_v2_engine.Policy.V01.{apply_policy_v0_1}
use proto_v2_engine.Policy.Suppression.{critical_suppresses}
use proto_v2_engine.Policy.V02.{with_severity, compute_policy_v0_2}
use proto_v2_engine.Policy.V03.{
  safe_from, safe_conditions, is_held, decay_hold_minutes, compute_policy_v0_3,
}
use proto_v2_engine.Orchestrator.Routing.{
  hold, is_severe, priority_from_severity, route_channel, route,
}

-- Two times are known, an hour apart.
abbrev parse : String → Option ℕ
parse t = if t == "2026-01-01T01:00:00Z" then some 0 else some 3600000000

abbrev iso : ℕ → String
iso t = "2026-01-01T03:00:00Z"

abbrev decision : Severity → EngineDecision
decision s = record { mode = allow; severity = s; rationale = [] }

abbrev previous : Option SceneState
previous = some (record {
  temporal = some (record {
    last_severity = some "HIGH";
    occurrences_10m = some (pos 1);
    occurrences_30m = none;
    last_ts_iso = some "2026-01-01T01:00:00Z";
  });
  current_severity = none;
})

abbrev signals : List (EngineSignal ℕ)
signals = record { type = quality; name = "quality_score"; value = some 95; severity = medium } ∷ []

routed : (route (some "childcare") (some "LOW") none null []).mode ≡ hold
unfolding route route_channel is_severe priority_from_severity lower codes same_codes
routed = refl

accumulated :
    (compute_policy_v0_2 parse iso 0 (some "fnb") (decision high) previous none).decision.severity
    ≡ critical
unfolding compute_policy_v0_2 last_severity severity_of_text cooldown cooldown_minutes
    cooldown_reason is_channel with_severity lower codes same_codes
accumulated = refl

abbrev lowered : EngineDecision
lowered =
    (compute_policy_v0_3 hundredths parse iso 0 (some "fnb") (decision high) signals previous
      "2026-01-01T02:00:00Z").decision

decayed : lowered.severity ≡ medium
unfolding compute_policy_v0_3 safe_conditions safe_from is_held decay_hold_minutes last_severity
    severity_of_text cooldown cooldown_minutes cooldown_reason is_channel with_severity lower codes
    same_codes
decayed = refl

abbrev cry : EngineSignal ℕ
cry = record { type = emotion; name = "cry"; value = none; severity = critical }

critical_suppresses_example :
    ((apply_policy_v0_1 hundredths (decision low) (cry ∷ signals)).mode ≡ suppress)
    × ((apply_policy_v0_1 hundredths (decision low) (cry ∷ signals)).severity ≡ critical)
critical_suppresses_example =
    critical_suppresses hundredths (decision low) (cry ∷ signals) cry (Memᴰ.head refl) refl refl
