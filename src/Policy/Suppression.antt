-- ===== src/Policy/Suppression.antt =====
-- What core/engine/policy_v0_1.py makes of emotions.
use mathlib.Core.List.{Memᴰ}
use proto_v2_engine.Base.{Bool, ◌≡◌, refl, true, false, some, List, [], ◌∷◌, arith, if◌then◌else◌}
use proto_v2_engine.Execution.Floats.{Floats}
use proto_v2_engine.Policy.Decision.{
  Severity, low, medium, high, critical, suppress, emotion, EngineSignal, EngineDecision,
  max_severity,
}
use proto_v2_engine.Policy.Recommendations.{suppression, make_recommendations_v0_1}
use proto_v2_engine.Policy.V01.{emotion_severities, max_from, worst, apply_policy_v0_1}

max_from-critical : (ss : List Severity) → max_from critical ss ≡ critical
unfolding max_from
max_from-critical [] = refl
max_from-critical (low ∷ ss) = max_from-critical ss
max_from-critical (medium ∷ ss) = max_from-critical ss
max_from-critical (high ∷ ss) = max_from-critical ss
max_from-critical (critical ∷ ss) = max_from-critical ss

max_severity-critical : (s : Severity) → max_severity s critical ≡ critical
max_severity-critical s = ground arith

max_from-member : (ss : List Severity) (s : Severity) → Memᴰ critical ss → max_from s ss ≡ critical
unfolding max_from
max_from-member [] s m = elim m [ ]
max_from-member (t ∷ ss) s (Memᴰ.head e) =
    rw (← e) (rw (max_severity-critical s) (max_from-critical ss))
max_from-member (t ∷ ss) s (Memᴰ.tail m) = max_from-member ss (max_severity s t) m

worst-critical : (ss : List Severity) → Memᴰ critical ss → worst ss ≡ some critical
worst-critical [] m = elim m [ ]
worst-critical (t ∷ ss) (Memᴰ.head e) = rw (← e) (rw (max_from-critical ss) refl)
worst-critical (t ∷ ss) (Memᴰ.tail m) = rw (max_from-member ss t m) refl

kept :
    (test : Bool) {x : Severity} (y : Severity) (rest : List Severity)
    → Memᴰ x rest
    → Memᴰ x (if test then y ∷ rest else rest)
kept true y rest m = Memᴰ.tail m
kept false y rest m = m

emotion-member :
    {F : Type 0} (ss : List (EngineSignal F)) (s : EngineSignal F)
    → Memᴰ s ss
    → s.type ≡ emotion
    → Memᴰ s.severity (emotion_severities ss)
unfolding emotion_severities
emotion-member [] s m k = elim m [ ]
emotion-member (t ∷ ss) s (Memᴰ.head e) k = rw (← e) (rw k (Memᴰ.head refl))
emotion-member (t ∷ ss) s (Memᴰ.tail m) k =
    kept _ t.severity (emotion_severities ss) (emotion-member ss s m k)

-- A critical signal of emotion, wherever it stands among the signals, suppresses: the mode is
-- suppress and the severity critical, whatever the other signals and the base decision are.
pub critical_suppresses :
    {F : Type 0} (f : Floats F) (base : EngineDecision) (signals : List (EngineSignal F))
    (s : EngineSignal F)
    → Memᴰ s signals
    → s.type ≡ emotion
    → s.severity ≡ critical
    → ((apply_policy_v0_1 f base signals).mode ≡ suppress)
      × ((apply_policy_v0_1 f base signals).severity ≡ critical)
unfolding apply_policy_v0_1
critical_suppresses f base signals s m k c =
    let found =
      worst-critical (emotion_severities signals) (rw c at (emotion-member signals s m k)) in
    (rw found refl, rw found (max_severity-critical base.severity))

-- With a critical signal of emotion the recommendations are the two of a suppressed decision: the
-- alert at once and the calming intervention, and none to proceed.
critical_recommends :
    {F : Type 0} (f : Floats F) (base : EngineDecision) (signals : List (EngineSignal F))
    (s : EngineSignal F)
    → Memᴰ s signals
    → s.type ≡ emotion
    → s.severity ≡ critical
    → make_recommendations_v0_1 (apply_policy_v0_1 f base signals) ≡ suppression
unfolding make_recommendations_v0_1
critical_recommends f base signals s m k c = rw (critical_suppresses f base signals s m k c).0 refl
