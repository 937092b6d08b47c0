-- ===== src/Tests/Override.antt =====
-- The audit chain of overrides at a concrete file.
use proto_v2_engine.Base.{ℕ, String, ◌≡◌, refl, Option, some, List, [], ◌∷◌, ok, codes, ltb, length}
use proto_v2_engine.Json.{
  Json, Fields, null, int, str, arr, obj, nil, cons, end, field, pos, value_at,
}
use proto_v2_engine.Override.Schema.{Times}
use proto_v2_engine.Override.Chain.{Digest, Verdict, verify_chain}
use proto_v2_engine.Override.Chain.Verified.{IsVerified, verify_chain-IsVerified}

abbrev digest : String
digest = "aaaaaaaaaaaaaaaaaaaaaaaaaaaaaaaaaaaaaaaaaaaaaaaaaaaaaaaaaaaaaaaa"

abbrev hashing : Digest
hashing = record { sha256_hex = λ s. digest; canonical_json = λ j. "{}" }

-- A clock that reads a time as the length of its text.
abbrev times : Times ℕ
times = record { parse_isoz = λ s. some (length (codes s)); is_before = λ a b. ltb a b }

-- The members that every kind of event has, before those of its kind.
abbrev event : (kind id subject prev : String) → Fields → Json
event kind id subject prev rest = obj (
    field "type" (str kind) (
      field "ts" (str "10:00Z") (
        field "event_id" (str id) (
          field "actor" (obj (field "role" (str "operator") (field "subject" (str subject) end))) (
            field "policy_sha256" (str digest) (
              field "target"
                (obj
                  (field "decision_event_id" (str "d-1") (field "decision_hash" (str digest) end)))
                (field "evidence_refs" (arr (cons (str "ev-1") nil)) (
                  field "chain" (obj (field "prev_hash" (str prev) (field "hash" (str digest) end)))
                    (field "auth" null rest)))))))))

abbrev requested : Json
requested = event "OVERRIDE_REQUESTED" "e-1" "ana" "GENESIS" (
    field "request"
      (obj (
        field "requested_action" (str "force_flat") (
          field "reason_code" (str "OTHER")
            (field "reason_text" (str "drift") (field "ttl_sec" (int (pos 600)) end)))))
      end)

abbrev approved : Json
approved = event "OVERRIDE_APPROVED" "e-2" "ben" digest (
    field "ref_request_event_id" (str "e-1") (
      field "approval"
        (obj (
          field "decision" (str "approved") (
            field "constraints"
              (obj (
                field "scope" (arr (cons (str "BTC") nil)) (
                  field "expires_at" (str "10:30:00Z") (field "max_notional" (int (pos 100)) end))))
              end)))
        end))

abbrev executed : Json
executed = event "OVERRIDE_EXECUTED" "e-3" "bot" digest (
    field "ref_request_event_id" (str "e-1") (
      field "ref_approval_event_id" (str "e-2") (
        field "execution"
          (obj (field "effect" (str "flattened") (field "execution_intent_id" (str "x-1") end)))
          end)))

abbrev lines : List (Option Json)
lines = some requested ∷ some approved ∷ some executed ∷ []

abbrev verdict : Verdict
verdict = record { rows = 3; head = digest; tail = digest }

verified : verify_chain hashing times lines ≡ ok verdict
unfolding verify_chain value_at
verified = refl

verify_chain-IsVerified_example : IsVerified hashing times lines verdict
verify_chain-IsVerified_example = verify_chain-IsVerified hashing times lines verdict verified

-- An execution that stands before the request and the approval it names is verified too.
abbrev reversed : List (Option Json)
reversed =
    some (
      event "OVERRIDE_EXECUTED" "e-3" "bot" "GENESIS" (
        field "ref_request_event_id" (str "e-1") (
          field "ref_approval_event_id" (str "e-2") (
            field "execution"
              (obj (field "effect" (str "flattened") (field "execution_intent_id" (str "x-1") end)))
              end))))
    ∷ some approved
    ∷ some (
        event "OVERRIDE_REQUESTED" "e-1" "ana" digest (
          field "request"
            (obj (
              field "requested_action" (str "force_flat") (
                field "reason_code" (str "OTHER")
                  (field "reason_text" (str "drift") (field "ttl_sec" (int (pos 600)) end)))))
            end))
    ∷ []

reversed_verified : verify_chain hashing times reversed ≡ ok verdict
unfolding verify_chain value_at
reversed_verified = refl
