-- ===== src/Policy/V03.antt =====
-- `compute_policy_v0_3` of core/policy/policy_v0_3.py; `now` is what `datetime.now` returns.
use proto_v2_engine.Base.{
  ℕ, ◌+◌, String, Bool, true, false, not, ◌&&◌, ◌||◌, Option, none, some, List, [], ◌∷◌, leb, ltb,
  ◌==◌, if◌then◌else◌,
}
use proto_v2_engine.Execution.Floats.{Floats}
use proto_v2_engine.Policy.Decision.{
  Severity, low, SignalType, quality, uncertainty, EngineSignal, EngineDecision, rank, is_high,
  step_down,
}
use proto_v2_engine.Policy.State.{
  SceneState, LastDecision, Cooldown, temporal_of, last_severity, severity_of_text, parse_iso,
  minutes, is_channel,
}
use proto_v2_engine.Policy.Cooldown.{cooldown}
use proto_v2_engine.Policy.V02.{with_severity, time_or_now}

unfoldable pub decay_hold_minutes : Option String → ℕ
unfolding is_channel
decay_hold_minutes channel =
    if is_channel channel "childcare"
    then 10
    else if is_channel channel "fnb"
    then 5
    else if is_channel channel "trading"
    then 2
    else 5

abbrev is_quality : SignalType → Bool
is_quality quality = true
is_quality _ = false

abbrev is_uncertainty : SignalType → Bool
is_uncertainty uncertainty = true
is_uncertainty _ = false

module _ {F : Type 0} (f : Floats F) where
  -- `ok = float(value) >= bound`; where `float` raises, `ok` stays.
  abbrev reaches_bound : Option F → F → Bool → Bool
  reaches_bound none bound before = before
  reaches_bound (some v) bound before = f.le bound v

  -- The loop of `_safe_conditions`, from what it has found so far.
  unfoldable pub safe_from : Severity → Bool → Bool → List (EngineSignal F) → Bool
  safe_from max_sev q_ok u_ok [] = not (is_high max_sev) && q_ok && u_ok
  safe_from max_sev q_ok u_ok (s ∷ ss) =
      safe_from (if ltb (rank max_sev) (rank s.severity) then s.severity else max_sev)
        (if is_quality s.type && s.name == "quality_score"
          then reaches_bound s.value (f.ratio 9 10) q_ok
          else q_ok)
        (if is_uncertainty s.type
            && (s.name == "confidence_score" || s.name == "uncertainty_confidence")
          then reaches_bound s.value (f.ratio 7 10) u_ok
          else u_ok)
        ss

  unfoldable pub safe_conditions : List (EngineSignal F) → Bool
  unfolding safe_from
  safe_conditions signals = safe_from low true true signals

-- `held_min >= _decay_hold_minutes(channel)`, for a previous decision with a time
unfoldable pub is_held : Option String → Option ℕ → ℕ → Bool
unfolding decay_hold_minutes
is_held channel none now = false
is_held channel (some t) now = leb (t + minutes (decay_hold_minutes channel)) now

pub record TemporalPatch : Type 0 where
  pub last_severity : Severity
  pub last_decision : LastDecision
  pub cooldown : Cooldown

pub record PolicyV03Result : Type 0 where
  pub decision : EngineDecision
  pub temporal_patch : TemporalPatch

module _ {F : Type 0} (f : Floats F) (parse : String → Option ℕ) (iso : ℕ → String) (now : ℕ) where
  unfoldable pub compute_policy_v0_3 :
      Option String
      → EngineDecision
      → List (EngineSignal F)
      → Option SceneState
      → String
      → PolicyV03Result
  unfolding last_severity severity_of_text safe_conditions is_held cooldown with_severity
  compute_policy_v0_3 channel current signals prev now_ts_iso =
      let before = severity_of_text (last_severity prev current.severity) in
      let now_dt = time_or_now parse iso now (parse_iso parse (some now_ts_iso)) in
      let effective =
        if safe_conditions f signals
          && is_held channel (parse_iso parse (temporal_of prev).last_ts_iso) now_dt
        then step_down before
        else current.severity in
      record {
        decision = with_severity current effective "policy_v0.3: decay/cooldown → ";
        temporal_patch = record {
          last_severity = effective;
          last_decision = record {
            mode = current.mode;
            severity = current.severity;
            ts_iso = now_ts_iso;
          };
          cooldown = cooldown iso channel effective now_dt;
        };
      }
