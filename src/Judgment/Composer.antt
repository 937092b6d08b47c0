-- ===== src/Judgment/Composer.antt =====
-- core/judgment/composer.py: what builds a fresh DPA of an event. `DpaComposer` is the protocol;
-- the two composers of the file are its instances. The time is that of the record's defaults.
use proto_v2_engine.Base.{ℕ, String, ◌≡◌, refl, false, none, some, List, [], ◌∷◌, Dict}
use proto_v2_engine.Json.{Json}
use proto_v2_engine.Judgment.Models.{dpa_created, DpaOption, DpaRecord}

abbrev pub DpaComposer : Type 0
DpaComposer = String → String → Dict Json → ℕ → DpaRecord

-- The protocol's contract: the given id, the default status, no decision yet.
pub record IsComposer (compose : DpaComposer) : Type 0 where
  pub same_id :
      (id event : String) (context : Dict Json) (now : ℕ)
      → (compose id event context now).dpa_id ≡ id
  pub created :
      (id event : String) (context : Dict Json) (now : ℕ)
      → (compose id event context now).status ≡ dpa_created
  pub undecided :
      (id event : String) (context : Dict Json) (now : ℕ)
      → (compose id event context now).human_decision_json ≡ none

-- `DpaRecord(...)` with the defaults of the class.
abbrev fresh_record :
    String → String → Dict Json → List DpaOption → Dict Json → Dict Json → ℕ → DpaRecord
fresh_record id event context options constraints position now = record {
  dpa_id = id;
  event_id = event;
  status = dpa_created;
  context_json = context;
  options_json = options;
  constraints_json = constraints;
  system_position_json = position;
  human_decision_json = none;
  created_at = now;
  updated_at = now;
  approved_at = none;
  approved_by = none;
}

abbrev pub simple_static : List DpaOption → Dict Json → Dict Json → DpaComposer
simple_static options constraints position id event context now =
    fresh_record id event context options constraints position now

abbrev minimal_option : DpaOption
minimal_option = record {
  option_id = "opt_001";
  title = "Proceed (minimal)";
  summary = some "Minimal option for API bring-up";
  blocked = false;
  blocked_reason = none;
  payload = [];
}

abbrev pub minimal : DpaComposer
minimal id event context now = fresh_record id event context (minimal_option ∷ []) [] [] now

pub simple_static-IsComposer :
    (options : List DpaOption) (constraints position : Dict Json)
    → IsComposer (simple_static options constraints position)
simple_static-IsComposer options constraints position = record {
  same_id = λ _ _ _ _. refl;
  created = λ _ _ _ _. refl;
  undecided = λ _ _ _ _. refl;
}

pub minimal-IsComposer : IsComposer minimal
minimal-IsComposer = record {
  same_id = λ _ _ _ _. refl;
  created = λ _ _ _ _. refl;
  undecided = λ _ _ _ _. refl;
}
