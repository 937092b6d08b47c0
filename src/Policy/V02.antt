-- ===== src/Policy/V02.antt =====
-- `compute_policy_v0_2` of core/policy/policy_v0_2.py. Its argument `signals` is read by nothing; `now`
-- is what `datetime.now` returns.
use Prim.Native.String.{◌++◌ as append}
use proto_v2_engine.Base.{
  ℕ, zero, suc, String, ◌&&◌, Option, none, some, [], ◌∷◌, ◌++◌, ltb, if◌then◌else◌,
}
use proto_v2_engine.Json.{ℤ, pos, negsuc}
use proto_v2_engine.Policy.Decision.{
  Severity, critical, EngineDecision, severity_value, rank, same_severity, is_high, step_up,
}
use proto_v2_engine.Policy.State.{
  SceneState, LastDecision, Cooldown, temporal_of, last_severity, severity_of_text, count_or_zero,
  parse_iso, or_text,
}
use proto_v2_engine.Policy.Cooldown.{cooldown}

pub data Trend : Type 0 where
  rising falling stable : Trend

pub record TemporalPatch : Type 0 where
  pub last_severity : Severity
  pub severity_trend : Trend
  pub occurrences_10m : ℤ
  pub occurrences_30m : ℤ
  pub last_decision : LastDecision
  pub cooldown : Cooldown

pub record PolicyV02Result : Type 0 where
  pub decision : EngineDecision
  pub temporal_patch : TemporalPatch

-- Step 3: one step up where high follows on high.
abbrev pub accumulate : Severity → Severity → Severity
accumulate before current =
    if is_high before && is_high current
    then (if same_severity current critical then current else step_up current)
    else current

abbrev add_one : ℤ → ℤ
add_one (pos n) = pos (suc n)
add_one (negsuc zero) = pos 0
add_one (negsuc (suc n)) = negsuc n

-- Step 4: `_risk_occurrence_increment` and the sum.
abbrev pub count_risk : Severity → ℤ → ℤ
count_risk s n = if is_high s then add_one n else n

-- Step 5
abbrev pub trend_of : Severity → Severity → Trend
trend_of before now =
    if ltb (rank before) (rank now)
    then rising
    else if ltb (rank now) (rank before)
    then falling
    else stable

-- Step 7: the decision with the new severity, and the reason for it.
unfoldable pub with_severity : EngineDecision → Severity → String → EngineDecision
with_severity d s note =
    if same_severity s d.severity
    then d
    else record d { severity = s; rationale = d.rationale ++ append note (severity_value s) ∷ [] }

module _ (parse : String → Option ℕ) (iso : ℕ → String) (now : ℕ) where
  -- `_parse_iso(now_iso) or datetime.now(...)`
  abbrev pub time_or_now : Option ℕ → ℕ
  time_or_now none = now
  time_or_now (some t) = t

  unfoldable pub compute_policy_v0_2 :
      Option String → EngineDecision → Option SceneState → Option String → PolicyV02Result
  unfolding last_severity severity_of_text cooldown with_severity
  compute_policy_v0_2 channel current prev now_ts_iso =
      let before = severity_of_text (last_severity prev current.severity) in
      let effective = accumulate before current.severity in
      let now_iso = or_text now_ts_iso (iso now) in
      record {
        decision = with_severity current effective "policy_v0.2: accumulation → ";
        temporal_patch = record {
          last_severity = effective;
          severity_trend = trend_of before effective;
          occurrences_10m = count_risk effective (count_or_zero (temporal_of prev).occurrences_10m);
          occurrences_30m = count_risk effective (count_or_zero (temporal_of prev).occurrences_30m);
          last_decision = record {
            mode = current.mode;
            severity = current.severity;
            ts_iso = now_iso;
          };
          cooldown = cooldown iso channel effective (time_or_now (parse_iso parse (some now_iso)));
        };
      }
