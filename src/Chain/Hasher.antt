-- ===== src/Chain/Hasher.antt =====
-- core/hasher.py: the texts that are hashed and the identifiers made of them. SHA-256 (as a lower case
-- hex text of the UTF-8 bytes), the printer of JSON and `str` of values other than texts are parameters.
-- `encode("utf-8")` raises at a lone surrogate: which texts it takes is a parameter too.
use Prim.Native.String.{◌++◌ as append}
use proto_v2_engine.Base.{
  String, Bool, Option, none, some, List, [], ◌∷◌, map, Result, ok, err, map_err, ◌>>=◌,
  if◌then◌else◌,
}
use proto_v2_engine.Json.{Json, Fields, null, str, get_json}
use proto_v2_engine.Chain.CanonicalJson.{CanonicalJsonError, canonical_json}

pub record Printing : Type 0 where
  pub sha256_hex : String → String
  pub dumps : Json → String
  pub format_f : String → String
  pub show : Json → String
  pub is_encodable : String → Bool

-- What a hash can raise.
pub data HashError : Type 0 where
  not_canonical : CanonicalJsonError → HashError
  unicode_encode_error : HashError

-- U+001F, the unit separator.
abbrev pub us : String
us = "\u{1f}"

-- `US.join`
unfoldable pub join_us : List String → String
join_us [] = ""
join_us (part ∷ []) = part
join_us (part ∷ next ∷ parts) = append part (append us (join_us (next ∷ parts)))

abbrev pub ref_keys : List String
ref_keys = "execution_card_id" ∷ "parent_card_id" ∷ "policy_id" ∷ "run_id" ∷ "approval_id" ∷ []

module _ (p : Printing) where
  abbrev pub sha256_bytes : String → String
  sha256_bytes s = append "sha256:" (p.sha256_hex s)

  -- The hash of the bytes of a text.
  unfoldable pub encoded_hash : String → Result HashError String
  encoded_hash s = if p.is_encodable s then ok (sha256_bytes s) else err unicode_encode_error

  unfoldable pub compute_payload_hash : Json → Result HashError String
  unfolding canonical_json encoded_hash
  compute_payload_hash payload =
      map_err not_canonical (canonical_json p.format_f p.dumps payload) >>= encoded_hash

  -- `str(v)`
  abbrev pub show_value : Json → String
  show_value (str s) = s
  show_value v = p.show v

  abbrev pub ref_text : Json → String
  ref_text null = ""
  ref_text v = show_value v

  unfoldable pub artifact_refs_fingerprint : Fields → String
  unfolding join_us
  artifact_refs_fingerprint refs =
      join_us (map (λ k. append k (append "=" (ref_text (get_json refs k)))) ref_keys)

  unfoldable pub compute_event_id :
      (event_type system_id domain asset_or_subject_id chain_snapshot_id : String)
      (sequence_no : Json) (artifact_refs : Fields) (payload_hash : String)
      → Result HashError String
  unfolding join_us artifact_refs_fingerprint encoded_hash
  compute_event_id event_type system_id domain asset_or_subject_id chain_snapshot_id sequence_no
        artifact_refs payload_hash =
      encoded_hash (
        join_us (
          event_type
          ∷ system_id
          ∷ domain
          ∷ asset_or_subject_id
          ∷ chain_snapshot_id
          ∷ show_value sequence_no
          ∷ artifact_refs_fingerprint artifact_refs
          ∷ payload_hash
          ∷ []))

  unfoldable pub compute_chain_hash :
      (prev_chain_hash : Option String) (event_id payload_hash schema_hash : String)
      → Result HashError String
  unfolding join_us encoded_hash
  compute_chain_hash none event_id payload_hash schema_hash =
      encoded_hash (join_us (event_id ∷ payload_hash ∷ schema_hash ∷ []))
  compute_chain_hash (some prev) event_id payload_hash schema_hash =
      encoded_hash (join_us (prev ∷ event_id ∷ payload_hash ∷ schema_hash ∷ []))
