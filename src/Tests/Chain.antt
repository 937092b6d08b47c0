-- ===== src/Tests/Chain.antt =====
-- The chain of judgment events at concrete inputs.
use proto_v2_engine.Base.{
  err, ◌⊎◌, ℕ, String, true, false, ◌≡◌, refl, none, some, List, [], ◌∷◌, ok, is_ok, All, is_blank,
}
use proto_v2_engine.Json.{
  Json, Fields, null, bool, int, decimal, str, arr, obj, nil, cons, end, field, pos, value_at,
}
use proto_v2_engine.Chain.CanonicalJson.{parse_no_duplicate_keys, normalize_for_canonical}
use proto_v2_engine.Chain.CanonicalJson.Normal.{is_plain, normalize-normalize}
use proto_v2_engine.Chain.CanonicalJson.Duplicates.{is_distinct, parse-is_distinct}
use proto_v2_engine.Chain.Hasher.{Printing, compute_event_id, compute_payload_hash}
use proto_v2_engine.Chain.Validator.{
  Clock, known_schema_id, known_schema_hash, check_chain, is_sha256_prefixed,
  validate_core_event_fail_closed,
}
use proto_v2_engine.Chain.Validator.Sound.{IsCoreEvent, validate-IsCoreEvent}
use proto_v2_engine.Chain.Walker.{Entry, walk_and_verify_chain, fine, type_error}
use proto_v2_engine.Chain.Walker.Total.{IsEncoding, HasTextHash, chain_hash_of, walk_returns}
use proto_v2_engine.Chain.Walker.Linked.{strict, IsChainFrom, walk-IsChain}

abbrev digest : String
digest = "sha256:aaaaaaaaaaaaaaaaaaaaaaaaaaaaaaaaaaaaaaaaaaaaaaaaaaaaaaaaaaaaaaaa"

-- A printer and a hash that are constant.
abbrev printing : Printing
printing = record {
  sha256_hex = λ s. "aaaaaaaaaaaaaaaaaaaaaaaaaaaaaaaaaaaaaaaaaaaaaaaaaaaaaaaaaaaaaaaa";
  dumps = λ j. "{}";
  format_f = λ d. d;
  show = λ j. "1";
  is_encodable = λ s. true;
}

printing-IsEncoding : IsEncoding printing
printing-IsEncoding = record {
  parts = λ a b _ _. refl;
  digests = λ s. refl;
  separator = refl;
  pinned = refl;
}

-- Times are read as they stand and are never out of order.
abbrev clock : Clock String
clock = record { parse_z = λ s. some s; is_before = λ a b. some false }

abbrev refs : Fields
refs = field "execution_card_id" null (
    field "parent_card_id" null
      (field "policy_id" null (field "run_id" (str "run-1") (field "approval_id" null end))))

abbrev event : ℕ → Json → Json
event n prev = obj (
    field "event_envelope"
      (obj (
        field "event_id" (str digest) (
          field "event_type" (str "AUDIT_LOGGED") (
            field "occurred_at_utc" (str "2026-01-01T00:00:00Z") (
              field "produced_at_utc" (str "2026-01-01T00:00:01Z") (
                field "system_id" (str "meta-os") (
                  field "domain" (str "trading") (
                    field "asset_or_subject_id" (str "btc") (
                      field "environment" (str "test") (
                        field "classification" (str "internal") (
                          field "chain"
                            (obj (
                              field "chain_snapshot_id" (str "snap-1") (
                                field "prev_event_id" prev
                                  (field "sequence_no" (int (pos n)) end))))
                            (field "actor" (str "ci") (
                              field "artifact_refs" (obj refs) (
                                field "integrity"
                                  (obj (
                                    field "schema_id" (str known_schema_id) (
                                      field "schema_hash" (str known_schema_hash)
                                        (field "payload_hash" (str digest) end))))
                                  end))))))))))))))
      (field "payload"
        (obj (
          field "audit_id" (str "a-1")
            (field "audit_kind" (str "daily") (field "status" (str "ok") end))))
        end))

abbrev good : ℕ → Entry
good i = record { index = i; verdict = true; message = fine }

abbrev chain : List Json
chain = event 1 null ∷ event 2 (str digest) ∷ []

walked : walk_and_verify_chain printing clock strict chain ≡ ok (good 0 ∷ good 1 ∷ [])
unfolding walk_and_verify_chain value_at is_sha256_prefixed is_blank compute_payload_hash
    compute_event_id
walked = refl

valid : validate_core_event_fail_closed printing clock (event 1 null) ≡ ok tt
unfolding validate_core_event_fail_closed value_at is_sha256_prefixed is_blank compute_payload_hash
    compute_event_id
valid = refl

walk-IsChain_example : (snapshot : String) × IsChainFrom printing clock snapshot 1 null none chain
walk-IsChain_example = walk-IsChain printing clock chain (good 0 ∷ good 1 ∷ []) walked refl

validate-IsCoreEvent_example : IsCoreEvent printing clock (event 1 null)
validate-IsCoreEvent_example = validate-IsCoreEvent printing clock (event 1 null) valid

hashes : All (HasTextHash printing) chain
unfolding chain_hash_of value_at
hashes = (tt, (tt, tt))

walk_returns_example :
    (entries : List Entry) × (walk_and_verify_chain printing clock strict chain ≡ ok entries)
walk_returns_example = walk_returns printing clock strict chain printing-IsEncoding hashes

-- A bool counts as a sequence number, and a reference that is null as an empty text.
bool_is_accepted :
    is_ok (
      check_chain (
        field "chain_snapshot_id"
          (str "s")
          (field "prev_event_id" null (field "sequence_no" (bool true) end))))
    ≡ true
unfolding check_chain value_at is_blank
bool_is_accepted = refl

abbrev nested : Json
nested = obj (field "qty" (decimal "1.50") (field "legs" (arr (cons (int (pos 1)) nil)) end))

abbrev nested_normal : Json
nested_normal = obj (field "qty" (str "1.50") (field "legs" (arr (cons (int (pos 1)) nil)) end))

normalized : normalize_for_canonical (λ d. d) nested ≡ ok nested_normal
unfolding normalize_for_canonical
normalized = refl

normalize-normalize_example :
    (is_plain nested_normal ≡ true)
    × (normalize_for_canonical (λ d. d) nested_normal ≡ ok nested_normal)
normalize-normalize_example = normalize-normalize (λ d. d) nested nested_normal normalized

abbrev twice : Fields
twice = field "a" null (field "b" null (field "a" (bool true) end))

parse-is_distinct_example :
    (is_distinct twice ≡ true) × (parse_no_duplicate_keys twice ≡ ok twice)
    ⊎ (is_distinct twice ≡ false) × (is_ok (parse_no_duplicate_keys twice) ≡ false)
parse-is_distinct_example = parse-is_distinct twice

-- A chain hash that is a number passes the validator and makes the next one raise.
abbrev hashed_event : ℕ → Json → Json → Json
hashed_event n prev hash = obj (
    field "event_envelope"
      (obj (
        field "event_id" (str digest) (
          field "event_type" (str "AUDIT_LOGGED") (
            field "occurred_at_utc" (str "2026-01-01T00:00:00Z") (
              field "produced_at_utc" (str "2026-01-01T00:00:01Z") (
                field "system_id" (str "meta-os") (
                  field "domain" (str "trading") (
                    field "asset_or_subject_id" (str "btc") (
                      field "environment" (str "test") (
                        field "classification" (str "internal") (
                          field "chain"
                            (obj (
                              field "chain_snapshot_id" (str "snap-1") (
                                field "prev_event_id" prev
                                  (field "sequence_no" (int (pos n)) end))))
                            (field "actor" (str "ci") (
                              field "artifact_refs" (obj refs) (
                                field "integrity"
                                  (obj (
                                    field "schema_id" (str known_schema_id) (
                                      field "schema_hash" (str known_schema_hash) (
                                        field "payload_hash" (str digest)
                                          (field "chain_hash" hash end)))))
                                  end))))))))))))))
      (field "payload"
        (obj (
          field "audit_id" (str "a-1")
            (field "audit_kind" (str "daily") (field "status" (str "ok") end))))
        end))

number_raises :
    walk_and_verify_chain printing clock strict
      (hashed_event 1 null (int (pos 5)) ∷ hashed_event 2 (str digest) (str digest) ∷ [])
    ≡ err type_error
unfolding walk_and_verify_chain value_at is_sha256_prefixed is_blank compute_payload_hash
    compute_event_id
number_raises = refl
