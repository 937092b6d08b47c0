-- ===== src/Actions/Gate/Passed.antt =====
-- core/C_action/execution_gate.py and core/C_action/plan_from_receipt.py: the gates that let pass.
use proto_v2_engine.Base.{
  String, false, not, ◌||◌, ◌≡◌, refl, sym, ap, ◌∙◌, ◌⊎◌, inl, inr, some, ok, raise_if,
  raise_if-false, not-false, >>=-elim, Bool-cases, any, ◌==◌, eq-true,
}
use proto_v2_engine.Json.{Json, Fields, bool, str, obj, get_json, is_truthy}
use proto_v2_engine.Actions.Authorization.{
  ExecutionAuthorizationRequest, value_error, field_or, assert_execution_request_valid,
}
use proto_v2_engine.Actions.Gate.{
  Files, exists, require_dict, rebuild, existing, coerce_execution_request, item_path, meta_path,
  is_text_value, check_item, channel_of_item, is_execution_channel,
  enforce_execution_gate_for_queue_item, check_receipt, execution_channels,
  enforce_execution_gate_from_receipt,
}
use proto_v2_engine.Actions.Gate.Authorized.{
  IsAuthorization, require_dict-ok, loads, assert-IsValid, rebuild-IsRebuilt, authorization,
}

pub existing-holds :
    (files : Files) (path : Json) {v : Json}
    → existing files path ≡ ok v
    → (p : String) × (path ≡ str p) × (files p ≡ some (some v))
unfolding existing
existing-holds files path h = >>=-elim (exists files path) _ h (λ there _ h1.
    >>=-elim (raise_if (not there) (value_error "execution_request_path does not exist")) _ h1
      (λ _ _ h2. loads files path h2))

abbrev pub truth_of_auto : Fields → Json
truth_of_auto raw = bool (is_truthy (get_json raw "auto_action"))

abbrev pub given_auto : Fields → Json
given_auto raw = field_or raw "auto_action" (bool false)

module _ (to_str : Json → String) where
  -- The file of the path holds an authorization.
  pub record IsLicensed (files : Files) (path : Json) (auto_action : Fields → Json) (raw : Fields)
      : Type 0 where
    pub file : String
    pub at_file : path ≡ str file
    pub holds : files file ≡ some (some (obj raw))
    pub licensed : IsAuthorization to_str (auto_action raw) raw

  coerced :
      (v : Json) {req : ExecutionAuthorizationRequest}
      → coerce_execution_request to_str v ≡ ok req
      → (raw : Fields) × (v ≡ obj raw)
        × (rebuild to_str (bool (is_truthy (get_json raw "auto_action"))) raw ≡ ok req)
  coerced (obj raw) h = (raw, refl, h)
  coerced Json.null h = cc
  coerced _ h = cc

  check_item-IsLicensed :
      (files : Files) (q : Fields)
      → check_item to_str files q ≡ ok tt
      → (raw : Fields) × IsLicensed files (item_path q) truth_of_auto raw
  unfolding check_item
  check_item-IsLicensed files q h =
      >>=-elim
        (raise_if (not (is_truthy (item_path q))) (value_error "missing execution_request_path")) _
        h
        (λ _ _ h1. >>=-elim (existing files (item_path q)) _ h1 (λ v found h2.
          >>=-elim (coerce_execution_request to_str v) _ h2 (λ req e valid.
            let (file, at_file, holds) = existing-holds files (item_path q) found in
            let (raw, same, rebuilt) = coerced v e in
            (
              raw,
              record {
                file = file;
                at_file = at_file;
                holds = rw same at holds;
                licensed =
                    authorization to_str _ raw req (rebuild-IsRebuilt to_str _ raw req rebuilt)
                      (assert-IsValid req valid);
              },
            ))))

  -- A queue item that the gate lets pass names its channel; where that is one of the four channels of
  -- execution, the file that the item names exists and holds an authorization.
  pub passed_item :
      (files : Files) (q : Fields)
      → enforce_execution_gate_for_queue_item to_str files q ≡ ok tt
      → (channel : Json) × (channel_of_item q ≡ ok channel)
        × ((is_execution_channel channel ≡ ok false)
            ⊎ ((raw : Fields) × IsLicensed files (item_path q) truth_of_auto raw))
  unfolding enforce_execution_gate_for_queue_item
  passed_item files q h = >>=-elim (channel_of_item q) _ h (λ channel e h1.
      >>=-elim (is_execution_channel channel) _ h1 (λ executes e1 h2. (
        channel,
        e,
        elim (Bool-cases executes) [
          | inl t ↦ inr (check_item-IsLicensed files q (rw t at h2))
          | inr t ↦ inl (rw t at e1)
        ],
      )))

  check_receipt-IsLicensed :
      (files : Files) (receipt : Fields) (receipt_path : String)
      → check_receipt to_str files receipt receipt_path ≡ ok tt
      → (raw : Fields) × (licence : IsLicensed files (meta_path receipt) given_auto raw) × (get_json
            licence.licensed.responsibility "judgment_ref"
          ≡ str receipt_path)
  unfolding check_receipt
  check_receipt-IsLicensed files receipt receipt_path h =
      >>=-elim
        (raise_if (not (is_truthy (meta_path receipt)) || not (is_text_value (meta_path receipt)))
          _)
        _ h
        (λ _ _ h1. >>=-elim (existing files (meta_path receipt)) _ h1 (λ v found h2.
          >>=-elim (require_dict v "execution_request must be a JSON object") _ h2
            (λ raw is_dict h3.
              >>=-elim (rebuild to_str (given_auto raw) raw) _ h3 (λ req rebuilt h4.
                >>=-elim (assert_execution_request_valid req) _ h4 (λ _ valid h5.
                  let (file, at_file, holds) = existing-holds files (meta_path receipt) found in
                  let from_raw = rebuild-IsRebuilt to_str (given_auto raw) raw req rebuilt in
                  let licensed =
                    authorization to_str (given_auto raw) raw req from_raw
                      (assert-IsValid req valid) in
                  let same : req.judgment_ref ≡ receipt_path =
                    eq-true _ _
                      (not-false _ (raise_if-false _ (value_error "judgment_ref mismatch") h5)) in
                  (
                    raw,
                    record {
                      file = file;
                      at_file = at_file;
                      holds = rw (require_dict-ok v _ is_dict) at holds;
                      licensed = licensed;
                    },
                    licensed.refers ∙ ap str (sym from_raw.reference ∙ same),
                  ))))))

  -- A receipt that the gate lets pass for a channel of execution names a file that exists and holds an
  -- authorization whose acceptance refers to the receipt itself.
  pub passed_receipt :
      (files : Files) (receipt : Fields) (receipt_path channel : String)
      → enforce_execution_gate_from_receipt to_str files receipt receipt_path channel ≡ ok tt
      → (any (λ c. channel == c) execution_channels ≡ false)
        ⊎ ((raw : Fields) × (licence : IsLicensed files (meta_path receipt) given_auto raw)
            × (get_json licence.licensed.responsibility "judgment_ref" ≡ str receipt_path))
  unfolding enforce_execution_gate_from_receipt
  passed_receipt files receipt receipt_path channel h =
      elim (Bool-cases (any (λ c. channel == c) execution_channels)) [
        | inr t ↦ inl t
        | inl t ↦ inr (check_receipt-IsLicensed files receipt receipt_path (rw t at h))
      ]
