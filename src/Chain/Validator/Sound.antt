-- ===== src/Chain/Validator/Sound.antt =====
-- What core/validator.py guarantees for an event that it lets pass.

use proto_v2_engine.Base.{
  raise_if-false, map_err-eq_ok, eq-true, not-false, String, Bool, true, false, not, ◌≡◌, refl, sym,
  ap, ◌∙◌, List, ◌∷◌, ok, err, raise_if, map_err, >>=-eq-ok, >>=-elim, arith, ◌==◌, if◌then◌else◌,
}
use proto_v2_engine.Json.{
  Json, Fields, null, bool, int, float, decimal, str, arr, obj, get_json, is_text, has_key,
}
use proto_v2_engine.Chain.Hasher.{Printing, compute_payload_hash, compute_event_id}
use proto_v2_engine.Chain.Validator.{
  Invalid, Clock, known_schema_id, known_schema_hash, event_types, is_one_of, require_dict,
  require_str, require_sha256_prefixed, require_keys, require_event_type, is_sequence_no,
  check_chain, check_prev_event_id, check_times, check_refs, check_integrity, check_event, env_keys,
  chain_keys, integrity_keys, missing_field, validate_core_event_fail_closed,
}

pub require_dict-eq_ok :
    (v : Json) (name : String) {fs : Fields} → require_dict v name ≡ ok fs → v ≡ obj fs
unfolding require_dict
require_dict-eq_ok (obj gs) name h = cc
require_dict-eq_ok null name h = cc
require_dict-eq_ok (bool _) name h = cc
require_dict-eq_ok (int _) name h = cc
require_dict-eq_ok (float _) name h = cc
require_dict-eq_ok (decimal _) name h = cc
require_dict-eq_ok (str _) name h = cc
require_dict-eq_ok (arr _) name h = cc

require_str-eq_ok : (v : Json) (name : String) {s : String} → require_str v name ≡ ok s → v ≡ str s
unfolding require_str
require_str-eq_ok (str t) name h = ground arith
require_str-eq_ok (obj _) name h = cc
require_str-eq_ok null name h = cc
require_str-eq_ok (bool _) name h = cc
require_str-eq_ok (int _) name h = cc
require_str-eq_ok (float _) name h = cc
require_str-eq_ok (decimal _) name h = cc
require_str-eq_ok (arr _) name h = cc

require_sha256-eq_ok :
    (v : Json) (name : String) {s : String} → require_sha256_prefixed v name ≡ ok s → v ≡ str s
unfolding require_sha256_prefixed
require_sha256-eq_ok (str t) name h = ground arith
require_sha256-eq_ok (obj _) name h = cc
require_sha256-eq_ok null name h = cc
require_sha256-eq_ok (bool _) name h = cc
require_sha256-eq_ok (int _) name h = cc
require_sha256-eq_ok (float _) name h = cc
require_sha256-eq_ok (decimal _) name h = cc
require_sha256-eq_ok (arr _) name h = cc

-- A test that returns its value or refuses.
if_ok :
    {E A : Type 0} (b : Bool) (a : A) (e : E) {r : A}
    → (if b then ok a else err e) ≡ ok r
    → (a ≡ r) × (b ≡ true)
if_ok true a e h = (cc, refl)
if_ok false a e h = cc

require_type-eq_ok :
    (v : Json) {s : String}
    → require_event_type v ≡ ok s
    → (v ≡ str s) × (is_one_of event_types (str s) ≡ true)
unfolding require_event_type
require_type-eq_ok (str t) h =
    let (same, known) = if_ok (is_one_of event_types (str t)) t _ h in
    (ap str same, rw (← same) known)
require_type-eq_ok (obj _) h = cc
require_type-eq_ok null h = cc
require_type-eq_ok (bool _) h = cc
require_type-eq_ok (int _) h = cc
require_type-eq_ok (float _) h = cc
require_type-eq_ok (decimal _) h = cc
require_type-eq_ok (arr _) h = cc

pub require_keys-has :
    (missing : String → Invalid) (fs : Fields) (k : String) (ks : List String) {u : Unit}
    → require_keys missing fs (k ∷ ks) ≡ ok u
    → (has_key fs k ≡ true) × (require_keys missing fs ks ≡ ok u)
unfolding require_keys
require_keys-has missing fs k ks h = ground arith

-- What the chain part of a valid envelope holds.
pub record IsChainPart (chain : Fields) (snapshot : String) : Type 0 where
  pub has_snapshot : get_json chain "chain_snapshot_id" ≡ str snapshot
  pub has_sequence_no : is_sequence_no (get_json chain "sequence_no") ≡ true

check_chain-IsChainPart :
    (chain : Fields) {snapshot : String}
    → check_chain chain ≡ ok snapshot
    → IsChainPart chain snapshot
unfolding check_chain
check_chain-IsChainPart chain {snapshot} h =
    let (_, _, h1) = >>=-eq-ok (require_keys missing_field chain chain_keys) _ h in
    let (s, e, h2) = >>=-eq-ok (require_str (get_json chain "chain_snapshot_id") _) _ h1 in
    let (_, _, h3) = >>=-eq-ok (check_prev_event_id (get_json chain "prev_event_id")) _ h2 in
    let (_, n, h4) =
      >>=-eq-ok (raise_if (not (is_sequence_no (get_json chain "sequence_no"))) _) _ h3 in
    let same : s ≡ snapshot = cc h4 in
    record {
      has_snapshot = require_str-eq_ok _ _ e ∙ ap str same;
      has_sequence_no = not-false _ (raise_if-false _ _ n);
    }

-- What the integrity part holds.
pub record IsIntegrityPart (integ : Fields) (payload_hash : String) : Type 0 where
  pub pinned_schema : get_json integ "schema_hash" ≡ str known_schema_hash
  pub has_payload_hash : get_json integ "payload_hash" ≡ str payload_hash

check_integrity-IsIntegrityPart :
    (integ : Fields) {payload_hash : String}
    → check_integrity integ ≡ ok payload_hash
    → IsIntegrityPart integ payload_hash
unfolding check_integrity
check_integrity-IsIntegrityPart integ h =
    let (_, _, h1) = >>=-eq-ok (require_keys missing_field integ integrity_keys) _ h in
    let (_, _, h2) =
      >>=-eq-ok (raise_if (not (is_text (get_json integ "schema_id") known_schema_id)) _) _ h1 in
    let (s, e, h3) = >>=-eq-ok (require_sha256_prefixed (get_json integ "schema_hash") _) _ h2 in
    let (_, n, h4) = >>=-eq-ok (raise_if (not (s == known_schema_hash)) _) _ h3 in
    let same = eq-true s known_schema_hash (not-false _ (raise_if-false _ _ n)) in
    record {
      pinned_schema = require_sha256-eq_ok _ _ e ∙ ap str same;
      has_payload_hash = require_sha256-eq_ok _ _ h4;
    }

-- An event of the contract: its parts, and the hashes that bind them.
pub record IsCoreEvent {T : Type 0} (p : Printing) (clock : Clock T) (ev : Json) : Type 0 where
  pub event : Fields
  pub env : Fields
  pub payload : Fields
  pub chain : Fields
  pub refs : Fields
  pub integ : Fields
  pub event_type : String
  pub system_id : String
  pub domain : String
  pub subject : String
  pub snapshot : String
  pub payload_hash : String
  pub event_id : String
  pub is_object : ev ≡ obj event
  pub has_env : get_json event "event_envelope" ≡ obj env
  pub has_payload : get_json event "payload" ≡ obj payload
  pub has_type : get_json env "event_type" ≡ str event_type
  pub known_type : is_one_of event_types (str event_type) ≡ true
  pub has_system_id : get_json env "system_id" ≡ str system_id
  pub has_domain : get_json env "domain" ≡ str domain
  pub has_subject : get_json env "asset_or_subject_id" ≡ str subject
  pub in_order : check_times clock env ≡ ok tt
  pub has_chain : get_json env "chain" ≡ obj chain
  pub chain_part : IsChainPart chain snapshot
  pub has_refs : get_json env "artifact_refs" ≡ obj refs
  pub refs_checked : check_refs event_type refs ≡ ok tt
  pub has_integrity : get_json env "integrity" ≡ obj integ
  pub integrity_part : IsIntegrityPart integ payload_hash
  pub hashed : compute_payload_hash p (obj payload) ≡ ok payload_hash
  pub identified : get_json env "event_id" ≡ str event_id
  pub computed_id :
      compute_event_id p event_type system_id domain subject snapshot
        (get_json chain "sequence_no")
        refs
        payload_hash
      ≡ ok event_id

module _ {T : Type 0} (p : Printing) (clock : Clock T) where
  -- An event that the validator lets pass has all its parts, a known type, the pinned schema hash, a
  -- positive sequence number, the hash of its own payload and the identifier made of its own members.
  pub validate-IsCoreEvent :
      (ev : Json) → validate_core_event_fail_closed p clock ev ≡ ok tt → IsCoreEvent p clock ev
  unfolding validate_core_event_fail_closed check_event
  validate-IsCoreEvent (obj event) h =
      >>=-elim (require_dict (get_json event "event_envelope") _) _ h (λ env e_env h1.
        >>=-elim (require_dict (get_json event "payload") _) _ h1 (λ payload e_payload h2.
          >>=-elim (require_keys missing_field env env_keys) _ h2 (λ _ _ h3.
            >>=-elim (require_event_type (get_json env "event_type")) _ h3 (λ event_type e_type h4.
              >>=-elim (require_sha256_prefixed (get_json env "event_id") _) _ h4
                (λ event_id e_id h5.
                  >>=-elim (require_str (get_json env "system_id") _) _ h5 (λ system_id e_sys h6.
                    >>=-elim (require_str (get_json env "domain") _) _ h6 (λ domain e_dom h7.
                      >>=-elim (require_str (get_json env "asset_or_subject_id") _) _ h7
                        (λ subject e_sub h8. >>=-elim (check_times clock env) _ h8 (λ _ e_times h9.
                          >>=-elim (require_dict (get_json env "chain") _) _ h9
                            (λ chain e_chain h10.
                              >>=-elim (check_chain chain) _ h10 (λ snapshot e_snap h11.
                                >>=-elim (require_dict (get_json env "artifact_refs") _) _ h11
                                  (λ refs e_refs h12.
                                    >>=-elim (check_refs event_type refs) _ h12 (λ _ e_check h13.
                                      >>=-elim (require_dict (get_json env "integrity") _) _ h13
                                        (λ integ e_integ h14.
                                          >>=-elim (check_integrity integ) _ h14
                                            (λ payload_hash e_hash h15.
                                              >>=-elim
                                                (map_err _ (compute_payload_hash p (obj payload))) _
                                                h15
                                                (λ computed e_comp h16.
                                                  >>=-elim
                                                    (raise_if (not (payload_hash == computed)) _) _
                                                    h16
                                                    (λ _ e_same h17.
                                                      >>=-elim
                                                        (map_err _ (
                                                          compute_event_id p event_type system_id
                                                            domain subject snapshot
                                                            (get_json chain "sequence_no") refs
                                                            payload_hash))
                                                        _ h17
                                                        (λ computed_eid e_calc h18.
                                                          >>=-elim
                                                            (raise_if
                                                            (not (event_id == computed_eid)) _)
                                                            _ h18
                                                            (λ _ e_eid _. record {
                                                            event = event;
                                                            env = env;
                                                            payload = payload;
                                                            chain = chain;
                                                            refs = refs;
                                                            integ = integ;
                                                            event_type = event_type;
                                                            system_id = system_id;
                                                            domain = domain;
                                                            subject = subject;
                                                            snapshot = snapshot;
                                                            payload_hash = payload_hash;
                                                            event_id = event_id;
                                                            is_object = refl;
                                                            has_env = require_dict-eq_ok _ _ e_env;
                                                            has_payload =
                                                            require_dict-eq_ok _ _ e_payload;
                                                            has_type =
                                                            (require_type-eq_ok
                                                            (get_json env "event_type") e_type).0;
                                                            known_type =
                                                            (require_type-eq_ok
                                                            (get_json env "event_type") e_type).1;
                                                            has_system_id =
                                                            require_str-eq_ok _ _ e_sys;
                                                            has_domain =
                                                            require_str-eq_ok _ _ e_dom;
                                                            has_subject =
                                                            require_str-eq_ok _ _ e_sub;
                                                            in_order = e_times;
                                                            has_chain =
                                                            require_dict-eq_ok _ _ e_chain;
                                                            chain_part =
                                                            check_chain-IsChainPart chain e_snap;
                                                            has_refs =
                                                            require_dict-eq_ok _ _ e_refs;
                                                            refs_checked = e_check;
                                                            has_integrity =
                                                            require_dict-eq_ok _ _ e_integ;
                                                            integrity_part =
                                                            check_integrity-IsIntegrityPart integ
                                                            e_hash;
                                                            hashed =
                                                            map_err-eq_ok _ _ e_comp
                                                            ∙ ap ok (
                                                            sym (
                                                            eq-true _ _ (
                                                            not-false _
                                                            (raise_if-false _ _ e_same))));
                                                            identified =
                                                            require_sha256-eq_ok _ _ e_id;
                                                            computed_id =
                                                            map_err-eq_ok _ _ e_calc
                                                            ∙ ap ok (
                                                            sym (
                                                            eq-true _ _ (
                                                            not-false _
                                                            (raise_if-false _ _ e_eid))));
                                                            })))))))))))))))))))
  validate-IsCoreEvent null h = cc
  validate-IsCoreEvent (bool _) h = cc
  validate-IsCoreEvent (int _) h = cc
  validate-IsCoreEvent (float _) h = cc
  validate-IsCoreEvent (decimal _) h = cc
  validate-IsCoreEvent (str _) h = cc
  validate-IsCoreEvent (arr _) h = cc
