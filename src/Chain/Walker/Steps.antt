-- ===== src/Chain/Walker/Steps.antt =====
-- core/chain_walker.py: the body of the loop, on a valid event.

use proto_v2_engine.Base.{
  ℕ, suc, String, Bool, true, false, not, ◌&&◌, ◌≡◌, refl, ap, ◌∙◌, Option, some, List, [], ◌∷◌,
  ◌++◌, Result, ok, map_err, ◌>>=◌, arith, Bool-cases, inl, inr, if◌then◌else◌,
}
use proto_v2_engine.Json.{Json, Fields, null, str, obj, get_json, has_key, is_null, is_text}
use proto_v2_engine.Chain.Hasher.{Printing, HashError, compute_chain_hash}
use proto_v2_engine.Chain.Validator.{Clock, is_sequence_no, known_schema_hash}
use proto_v2_engine.Chain.Validator.Sound.{IsCoreEvent}
use proto_v2_engine.Chain.Walker.{
  Entry, Raising, WalkOptions, WalkState, encode_error, item, as_optional_text, note_if, note_prev,
  failed, is_number, is_new_snapshot, note_chain_hash, visit_linked, visit_valid, snapshot_changed,
  sequence_not_contiguous, chain_hash_mismatch, fine,
}

-- A member that is not null can be read.
pub item-get_json :
    (fs : Fields) (k : String) → is_null (get_json fs k) ≡ false → item fs k ≡ ok (get_json fs k)
item-get_json fs k h = ground arith

pub item-has_key : (fs : Fields) (k : String) → has_key fs k ≡ true → item fs k ≡ ok (get_json fs k)
item-has_key fs k h = ground arith

item-obj :
    (fs : Fields) (k : String) {gs : Fields} → get_json fs k ≡ obj gs → item fs k ≡ ok (obj gs)
item-obj fs k e = item-get_json fs k (rw e refl) ∙ ap ok e

item-str : (fs : Fields) (k : String) {s : String} → get_json fs k ≡ str s → item fs k ≡ ok (str s)
item-str fs k e = item-get_json fs k (rw e refl) ∙ ap ok e

-- A sequence number is not null.
sequence_no-is_some : (v : Json) → is_sequence_no v ≡ true → is_null v ≡ false
unfolding is_sequence_no
sequence_no-is_some null h = cc
sequence_no-is_some (obj _) h = refl
sequence_no-is_some (str _) h = refl
sequence_no-is_some (Json.bool _) h = refl
sequence_no-is_some (Json.int _) h = refl
sequence_no-is_some (Json.float _) h = refl
sequence_no-is_some (Json.decimal _) h = refl
sequence_no-is_some (Json.arr _) h = refl

module _ {T : Type 0} (p : Printing) (clock : Clock T) (options : WalkOptions) where
  -- A valid event is read without an exception.
  pub visit-valid :
      (i : ℕ) (s : WalkState) (ev : Json) (c : IsCoreEvent p clock ev)
      → visit_valid p clock options i s ev ≡ (
          if is_new_snapshot s.seen_snapshot (str c.snapshot)
          then ok (failed i snapshot_changed ∷ [], s)
          else visit_linked p clock options i s (str c.snapshot) c.env c.chain c.integ)
  unfolding visit_valid
  visit-valid i s ev c = rw c.is_object (
      rw (item-obj c.event "event_envelope" c.has_env) (
        rw (item-obj c.env "chain" c.has_chain) (
          rw (item-obj c.env "integrity" c.has_integrity)
            (rw (item-str c.chain "chain_snapshot_id" c.chain_part.has_snapshot) refl))))

  -- The identifier of a valid event.
  abbrev pub own_id : {ev : Json} → IsCoreEvent p clock ev → Json
  own_id c = get_json c.env "event_id"

  abbrev pub given_hash : {ev : Json} → IsCoreEvent p clock ev → Json
  given_hash c = get_json c.integ "chain_hash"

  abbrev pub has_hash : {ev : Json} → IsCoreEvent p clock ev → Bool
  has_hash c = has_key c.integ "chain_hash"

  -- The chain hash that belongs to a valid event after the hash `prev`.
  abbrev pub own_hash :
      {ev : Json} → IsCoreEvent p clock ev → Option String → Result HashError String
  own_hash c prev = compute_chain_hash p prev c.event_id c.payload_hash known_schema_hash

  -- The state that a valid event of the seen snapshot leaves.
  abbrev pub after : {ev : Json} → WalkState → IsCoreEvent p clock ev → WalkState
  after s c = record {
    seen_snapshot = some (str c.snapshot);
    expected_seq = suc s.expected_seq;
    prev_event_id = own_id c;
    prev_chain_hash = if has_hash c then given_hash c else s.prev_chain_hash;
  }

  -- What the hash test notes, where the computed hash is `own`.
  abbrev pub hash_note : {ev : Json} → ℕ → IsCoreEvent p clock ev → String → List Entry
  hash_note i c own = note_if (not (is_text (given_hash c) own)) i chain_hash_mismatch

  abbrev pub hash_notes :
      {ev : Json} → ℕ → Option String → IsCoreEvent p clock ev → Raising (List Entry)
  hash_notes i prev c =
      if options.verify_chain_hash_if_present && has_hash c
      then (map_err (λ _. encode_error) (own_hash c prev) >>= λ own. ok (hash_note i c own))
      else ok []

  -- All notes of a valid event, with those of the hash test.
  abbrev pub notes : {ev : Json} → ℕ → WalkState → IsCoreEvent p clock ev → List Entry → List Entry
  notes i s c of_hash =
      note_if
        (options.strict_contiguous
          && not (is_number (get_json c.chain "sequence_no") s.expected_seq))
        i sequence_not_contiguous
      ++ (note_prev i s.prev_event_id (get_json c.chain "prev_event_id")
          ++ (of_hash ++ (record { index = i; verdict = true; message = fine } ∷ [])))

  note-hash :
      (i : ℕ) (prev : Json) (h : Option String) (ev : Json) (c : IsCoreEvent p clock ev)
      → as_optional_text prev ≡ ok h
      → note_chain_hash p clock options i prev (own_id c) c.integ ≡ hash_notes i h c
  unfolding note_chain_hash
  note-hash i prev h ev c e = elim (Bool-cases options.verify_chain_hash_if_present) [
    | inr off ↦ rw off refl
    | inl on ↦ elim (Bool-cases (has_hash c)) [
      | inr gone ↦ rw on (rw gone refl)
      | inl here ↦ rw on (
          rw here (
            rw e (
              rw c.identified (
                rw (item-str c.integ "payload_hash" c.integrity_part.has_payload_hash) (
                  rw (item-str c.integ "schema_hash" c.integrity_part.pinned_schema)
                    (rw (item-has_key c.integ "chain_hash" here) refl))))))
    ]
  ]

  visit-linked :
      (i : ℕ) (s : WalkState) (h : Option String) (ev : Json) (c : IsCoreEvent p clock ev)
      → as_optional_text s.prev_chain_hash ≡ ok h
      → visit_linked p clock options i s (str c.snapshot) c.env c.chain c.integ
        ≡ (hash_notes i h c >>= λ of_hash. ok (notes i s c of_hash, after s c))
  unfolding visit_linked
  visit-linked i s h ev c e =
      rw (item-get_json c.chain "sequence_no" (sequence_no-is_some _ c.chain_part.has_sequence_no))
        (rw (item-get_json c.env "event_id" (rw c.identified refl))
          (rw (note-hash i s.prev_chain_hash h ev c e) refl))

  -- A valid event after a chain hash that is a text or absent: what is noted, and the next state.
  pub visit-IsCoreEvent :
      (i : ℕ) (s : WalkState) (h : Option String) (ev : Json) (c : IsCoreEvent p clock ev)
      → as_optional_text s.prev_chain_hash ≡ ok h
      → visit_valid p clock options i s ev ≡ (
          if is_new_snapshot s.seen_snapshot (str c.snapshot)
          then ok (failed i snapshot_changed ∷ [], s)
          else (hash_notes i h c >>= λ of_hash. ok (notes i s c of_hash, after s c)))
  visit-IsCoreEvent i s h ev c e = visit-valid i s ev c ∙ rw (visit-linked i s h ev c e) refl
