-- ===== src/Judgment/Models.antt =====
-- core/judgment/status.py, errors.py, models.py. A `datetime` is a number of ticks since an epoch; a
-- `Dict[str, Any]` is a `Dict Json`.
use proto_v2_engine.Base.{ℕ, String, Bool, Option, List, Dict}
use proto_v2_engine.Json.{Json}

pub data DecisionStatus : Type 0 where
  event_ingested dpa_created human_reviewing approved applied aborted : DecisionStatus

pub DecisionStatus-discrete : Discrete DecisionStatus
DecisionStatus-discrete = hlevel

unfoldable pub status_value : DecisionStatus → String
status_value event_ingested = "EVENT_INGESTED"
status_value dpa_created = "DPA_CREATED"
status_value human_reviewing = "HUMAN_REVIEWING"
status_value approved = "APPROVED"
status_value applied = "APPLIED"
status_value aborted = "ABORTED"

pub record PolicyError : Type 0 where
  pub code : String
  pub http_status : ℕ
  pub detail : String
  pub meta : Option (Dict Json)

unfoldable pub forbidden : String → String → Option (Dict Json) → PolicyError
forbidden code detail meta = record { code = code; http_status = 403; detail = detail; meta = meta }

unfoldable pub conflict : String → String → Option (Dict Json) → PolicyError
conflict code detail meta = record { code = code; http_status = 409; detail = detail; meta = meta }

unfoldable pub unprocessable : String → String → Option (Dict Json) → PolicyError
unprocessable code detail meta = record {
  code = code;
  http_status = 422;
  detail = detail;
  meta = meta;
}

pub record DpaOption : Type 0 where
  pub option_id : String
  pub title : String
  pub summary : Option String
  pub blocked : Bool
  pub blocked_reason : Option String
  pub payload : Dict Json

pub record HumanDecision : Type 0 where
  pub selected_option_id : String
  pub reason_codes : List String
  pub reason_note : Option String
  pub approver_name : String
  pub approver_role : String
  pub signature : String
  pub decided_at : ℕ

pub record DpaRecord : Type 0 where
  pub dpa_id : String
  pub event_id : String
  pub status : DecisionStatus
  pub context_json : Dict Json
  pub options_json : List DpaOption
  pub constraints_json : Dict Json
  pub system_position_json : Dict Json
  pub human_decision_json : Option HumanDecision
  pub created_at : ℕ
  pub updated_at : ℕ
  pub approved_at : Option ℕ
  pub approved_by : Option String
