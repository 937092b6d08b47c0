-- ===== src/Orchestrator/Routing.antt =====
-- core/orchestrator/routing/recommendation_router.py: from a channel and a severity to a plan of
-- deliveries, which nothing executes. Texts that the code lowers are code points here.
use proto_v2_engine.Base.{
  ℕ, String, Bool, true, false, ◌||◌, Option, none, some, List, [], ◌∷◌, Dict, ◌==◌, if◌then◌else◌,
  codes, lower, same_codes,
}
use proto_v2_engine.Json.{Json}
use proto_v2_engine.Policy.State.{or_text}

-- A payload: its own entries, of which some templates have no `channel` and no `decision_mode`, and
-- `meta`, which is merged over them.
pub record Payload : Type 0 where
  pub channel : Option String
  pub severity : List ℕ
  pub decision_mode : Option (List ℕ)
  pub recommendations : Json
  pub meta : Dict Json

pub record DeliveryPlan : Type 0 where
  pub channel : String
  pub target : String
  pub template : String
  pub payload : Payload

pub data RoutingMode : Type 0 where
  hold notify_manager alert_only log_only : RoutingMode

pub data Priority : Type 0 where
  urgent high_priority normal low_priority : Priority

-- `audit` is the policy's name and `meta`.
pub record OrchestratorDecision : Type 0 where
  pub mode : RoutingMode
  pub priority : Priority
  pub requires_human_review : Bool
  pub reason : String
  pub deliveries : List DeliveryPlan
  pub audit_policy : String
  pub audit_meta : Dict Json

-- `sev in ("high", "critical")`
unfoldable pub is_severe : List ℕ → Bool
unfolding codes same_codes
is_severe sev = same_codes sev (codes "high") || same_codes sev (codes "critical")

-- `_priority_from_severity`, of a text in lower case
unfoldable pub priority_from_severity : List ℕ → Priority
unfolding codes same_codes
priority_from_severity sev =
    if same_codes sev (codes "critical")
    then urgent
    else if same_codes sev (codes "high")
    then high_priority
    else if same_codes sev (codes "medium")
    then normal
    else low_priority

abbrev pub audit_log : String → List ℕ → List ℕ → Json → Dict Json → DeliveryPlan
audit_log ch sev mode recs meta = record {
  channel = "log";
  target = "audit_log";
  template = "AUDIT_V0_3";
  payload = record {
    channel = some ch;
    severity = sev;
    decision_mode = some mode;
    recommendations = recs;
    meta = meta;
  };
}

abbrev pub alert : String → String → String → List ℕ → Json → Dict Json → DeliveryPlan
alert channel target template sev recs meta = record {
  channel = channel;
  target = target;
  template = template;
  payload = record {
    channel = none;
    severity = sev;
    decision_mode = none;
    recommendations = recs;
    meta = meta;
  };
}

-- The branches of `route`, on the channel, the lowered severity and the default delivery.
unfoldable pub route_channel :
    String → List ℕ → DeliveryPlan → Json → Dict Json → OrchestratorDecision
unfolding is_severe priority_from_severity
route_channel ch sev log recs meta =
    if ch == "childcare"
    then record {
      mode = hold;
      priority = priority_from_severity sev;
      requires_human_review = true;
      reason = "human_review_required";
      deliveries = log ∷ alert "console" "stdout" "CHILDCARE_ALERT_V0_3" sev recs meta ∷ [];
      audit_policy = "no_auto_execute_childcare";
      audit_meta = meta;
    }
    else if ch == "fnb"
    then record {
      mode = notify_manager;
      priority = priority_from_severity sev;
      requires_human_review = is_severe sev;
      reason = "notify_manager";
      deliveries =
          log
          ∷ alert "slack" (if is_severe sev then "#ops-alerts" else "#ops") "FNB_NOTIFY_V0_3" sev
              recs meta
          ∷ [];
      audit_policy = "notify_manager_fnb";
      audit_meta = meta;
    }
    else if ch == "trading"
    then record {
      mode = alert_only;
      priority = priority_from_severity sev;
      requires_human_review = false;
      reason = "alert_only_trading";
      deliveries = log ∷ alert "console" "stdout" "TRADING_ALERT_ONLY_V0_3" sev recs meta ∷ [];
      audit_policy = "no_trade_execution_here";
      audit_meta = meta;
    }
    else record {
      mode = log_only;
      priority = priority_from_severity sev;
      requires_human_review = false;
      reason = "unknown_channel_log_only";
      deliveries = log ∷ [];
      audit_policy = "default_log_only";
      audit_meta = meta;
    }

unfoldable pub route :
    Option String → Option String → Option String → Json → Dict Json → OrchestratorDecision
unfolding lower route_channel
route channel severity decision_mode recs meta =
    let ch = or_text channel "unknown" in
    let sev = lower (or_text severity "low") in
    let mode = lower (or_text decision_mode "") in
    route_channel ch sev (audit_log ch sev mode recs meta) recs meta
