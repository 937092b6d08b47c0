-- ===== src/Policy/Decision.antt =====
-- Decisions and signals of the engine, from core/contracts.py, and the order of severities that the
-- policies of core/policy and core/engine/policy_v0_1.py share.
use proto_v2_engine.Base.{ℕ, String, Bool, true, false, Option, List, leb, if◌then◌else◌}

pub data Severity : Type 0 where
  low medium high critical : Severity

pub data DecisionMode : Type 0 where
  observe_more suppress allow : DecisionMode

pub data SignalType : Type 0 where
  quality uncertainty ood calibration scene emotion policy : SignalType

-- `value` is what `float(signal.value)` returns, and `none` where that raises.
pub record EngineSignal (F : Type 0) : Type 0 where
  pub type : SignalType
  pub name : String
  pub value : Option F
  pub severity : Severity

pub record EngineDecision : Type 0 where
  pub mode : DecisionMode
  pub severity : Severity
  pub rationale : List String

abbrev pub severity_value : Severity → String
severity_value low = "low"
severity_value medium = "medium"
severity_value high = "high"
severity_value critical = "critical"

-- `_SEV_ORDER` and `_ORDER_TO_SEV`
abbrev pub rank : Severity → ℕ
rank low = 0
rank medium = 1
rank high = 2
rank critical = 3

abbrev pub same_severity : Severity → Severity → Bool
same_severity low low = true
same_severity medium medium = true
same_severity high high = true
same_severity critical critical = true
same_severity _ _ = false

-- `sev in ("high", "critical")`
abbrev pub is_high : Severity → Bool
is_high high = true
is_high critical = true
is_high _ = false

-- `_sev_step_up(sev, 1)`, and the same for one step down.
abbrev pub step_up : Severity → Severity
step_up low = medium
step_up medium = high
step_up high = critical
step_up critical = critical

abbrev pub step_down : Severity → Severity
step_down low = low
step_down medium = low
step_down high = medium
step_down critical = high

-- `_max_sev(a, b)`
abbrev pub max_severity : Severity → Severity → Severity
max_severity a b = if leb (rank b) (rank a) then a else b
