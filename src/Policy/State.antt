-- ===== src/Policy/State.antt =====
-- What the policies of core/policy/policy_v0_2.py and policy_v0_3.py read of the previous scene state,
-- and what they write for the next one. `parse` stands for `datetime.fromisoformat` and `iso` for the
-- text of a time; a time is a number of microseconds.

use proto_v2_engine.Base.{
  ℕ, ◌*◌, String, Bool, Option, none, some, List, if◌then◌else◌, truthy, codes, lower, same_codes,
}
use proto_v2_engine.Json.{ℤ, pos}
use proto_v2_engine.Policy.Decision.{
  Severity, low, medium, high, critical, DecisionMode, severity_value,
}

pub record Temporal : Type 0 where
  pub last_severity : Option String
  pub occurrences_10m : Option ℤ
  pub occurrences_30m : Option ℤ
  pub last_ts_iso : Option String

-- `scene_state["temporal"]` and `scene_state["summary"]["current_severity"]`
pub record SceneState : Type 0 where
  pub temporal : Option Temporal
  pub current_severity : Option String

pub record LastDecision : Type 0 where
  pub mode : DecisionMode
  pub severity : Severity
  pub ts_iso : String

-- `reason` as code points.
pub record Cooldown : Type 0 where
  pub until_ts_iso : Option String
  pub reason : Option (List ℕ)

-- `x or later`, for a text that may be missing
abbrev pub or_text : Option String → String → String
or_text none later = later
or_text (some t) later = if truthy t then t else later

abbrev pub no_temporal : Temporal
no_temporal = record {
  last_severity = none;
  occurrences_10m = none;
  occurrences_30m = none;
  last_ts_iso = none;
}

abbrev pub temporal_of : Option SceneState → Temporal
temporal_of none = no_temporal
temporal_of (some s) = elim s.temporal [ none ↦ no_temporal | some t ↦ t ]

abbrev pub summary_severity : Option SceneState → Option String
summary_severity none = none
summary_severity (some s) = s.current_severity

-- `prev_last_sev`, as code points: the last severity, else that of the summary, else the current one.
unfoldable pub last_severity : Option SceneState → Severity → List ℕ
unfolding lower
last_severity prev current = lower (
    or_text (temporal_of prev).last_severity
      (or_text (summary_severity prev) (severity_value current)))

-- `_SEV_ORDER.get(text, 0)`, as the severity of that rank.
unfoldable pub severity_of_text : List ℕ → Severity
unfolding codes same_codes
severity_of_text t =
    if same_codes t (codes "critical")
    then critical
    else if same_codes t (codes "high")
    then high
    else if same_codes t (codes "medium")
    then medium
    else low

-- `int(x or 0)`
abbrev pub count_or_zero : Option ℤ → ℤ
count_or_zero none = pos 0
count_or_zero (some n) = n

-- `_parse_iso`: nothing for a missing or empty text.
abbrev pub parse_iso : (String → Option ℕ) → Option String → Option ℕ
parse_iso parse none = none
parse_iso parse (some t) = if truthy t then parse t else none

abbrev pub minutes : ℕ → ℕ
minutes m = m * 60000000

-- `(channel or "").lower() == name`
unfoldable pub is_channel : Option String → String → Bool
unfolding codes lower same_codes
is_channel channel name = same_codes (lower (or_text channel "")) (codes name)
