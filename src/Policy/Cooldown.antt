-- ===== src/Policy/Cooldown.antt =====
-- The cooldown of core/policy/policy_v0_2.py, of which policy_v0_3.py has a copy.
use proto_v2_engine.Base.{
  ℕ, ◌+◌, ◌≤◌, arith, String, Option, none, some, List, ◌++◌, ltb, leb, if◌then◌else◌, codes, lower,
}
use proto_v2_engine.Policy.Decision.{
  Severity, low, medium, high, critical, is_high, same_severity, severity_value, rank,
}
use proto_v2_engine.Policy.State.{Cooldown, or_text, minutes, is_channel}

abbrev pub base_minutes : Severity → ℕ
base_minutes critical = 10
base_minutes high = 5
base_minutes medium = 2
base_minutes low = 0

abbrev pub max : ℕ → ℕ → ℕ
max a b = if leb b a then a else b

abbrev pub min : ℕ → ℕ → ℕ
min a b = if leb a b then a else b

unfoldable pub cooldown_minutes : Option String → Severity → ℕ
unfolding is_channel
cooldown_minutes channel s =
    if is_channel channel "childcare"
    then max (base_minutes s) (if is_high s then 10 else 5)
    else if is_channel channel "trading"
    then max 0 (min (base_minutes s) 2)
    else if is_channel channel "fnb"
    then max (base_minutes s) (if same_severity s critical then 5 else base_minutes s)
    else base_minutes s

-- f"{(channel or 'unknown').lower()}_{severity}_cooldown"
unfoldable pub cooldown_reason : Option String → Severity → List ℕ
unfolding codes lower
cooldown_reason channel s =
    lower (or_text channel "unknown") ++ codes "_" ++ codes (severity_value s) ++ codes "_cooldown"

-- The cooldown from the time `start`.
unfoldable pub cooldown : (ℕ → String) → Option String → Severity → ℕ → Cooldown
unfolding cooldown_minutes cooldown_reason
cooldown iso channel s start =
    let m = cooldown_minutes channel s in
    if ltb 0 m
    then record {
      until_ts_iso = some (iso (start + minutes m));
      reason = some (cooldown_reason channel s);
    }
    else record { until_ts_iso = none; reason = none }

-- In every channel the cooldown is at most ten minutes and grows with the severity.
cooldown_mono :
    (channel : Option String) (s t : Severity)
    → rank s ≤ rank t
    → (cooldown_minutes channel s ≤ cooldown_minutes channel t) × (cooldown_minutes channel t ≤ 10)
unfolding cooldown_minutes
cooldown_mono channel s t h = (ground arith, ground arith)
