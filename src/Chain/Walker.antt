-- ===== src/Chain/Walker.antt =====
-- core/chain_walker.py: the walk over a chain of events. A result has its index, its verdict and its
-- message. An exception that the body lets through is a `WalkError`.
pub mod Steps
pub mod Total
pub mod Linked
use proto_v2_engine.Base.{
  ℕ, zero, suc, String, Bool, true, false, not, ◌&&◌, Option, none, some, List, [], ◌∷◌, ◌++◌,
  Result, ok, err, map_err, ◌>>=◌, eqb, ◌==◌, if◌then◌else◌,
}
use proto_v2_engine.Json.{
  Json, Fields, ℤ, pos, eqz, null, str, obj, value_at, has_key, get_json, is_null, is_text,
  int_value,
}
use proto_v2_engine.Chain.Hasher.{Printing, compute_chain_hash}
use proto_v2_engine.Chain.Validator.{Invalid, Clock, Checked, validate_core_event_fail_closed}

pub data Message : Type 0 where
  empty_chain : Message
  invalid : Invalid → Message
  snapshot_changed sequence_not_contiguous genesis_with_prev prev_event_id_mismatch : Message
  chain_hash_mismatch : Message
  fine : Message

pub record Entry : Type 0 where
  pub index : ℕ
  pub verdict : Bool
  pub message : Message

pub data WalkError : Type 0 where
  key_error : String → WalkError
  type_error : WalkError
  encode_error : WalkError

abbrev pub Raising : Type 0 → Type 0
Raising A = Result WalkError A

abbrev pub found : String → Option Json → Raising Json
found k none = err (key_error k)
found k (some v) = ok v

-- `fs[k]`
abbrev pub item : Fields → String → Raising Json
item fs k = found k (value_at fs k)

abbrev pub as_dict : Json → Raising Fields
as_dict (obj fs) = ok fs
as_dict _ = err type_error

abbrev pub as_text : Json → Raising String
as_text (str s) = ok s
as_text _ = err type_error

-- A part of a hashed text: what is neither a text nor `None` makes `join` raise.
abbrev pub as_optional_text : Json → Raising (Option String)
as_optional_text null = ok none
as_optional_text (str s) = ok (some s)
as_optional_text _ = err type_error

-- `==` of texts and `None`, the values that the validator lets pass here.
abbrev pub same_text : Json → Json → Bool
same_text null v = is_null v
same_text (str s) v = is_text v s
same_text _ v = false

-- `v == n` of a number.
abbrev pub is_number : Json → ℕ → Bool
is_number v n = elim (int_value v) [ none ↦ false | some z ↦ eqz z (pos n) ]

pub record WalkState : Type 0 where
  pub seen_snapshot : Option Json
  pub expected_seq : ℕ
  pub prev_event_id : Json
  pub prev_chain_hash : Json

abbrev pub start : WalkState
start = record {
  seen_snapshot = none;
  expected_seq = 1;
  prev_event_id = null;
  prev_chain_hash = null;
}

pub record WalkOptions : Type 0 where
  pub strict_contiguous : Bool
  pub verify_chain_hash_if_present : Bool

abbrev pub failed : ℕ → Message → Entry
failed i m = record { index = i; verdict = false; message = m }

-- `if test: results.append((i, False, m))`
abbrev pub note_if : Bool → ℕ → Message → List Entry
note_if true i m = failed i m ∷ []
note_if false i m = []

abbrev pub is_new_snapshot : Option Json → Json → Bool
is_new_snapshot none snapshot = false
is_new_snapshot (some seen) snapshot = not (same_text snapshot seen)

-- The test of the link to the event before.
abbrev pub note_prev : ℕ → Json → Json → List Entry
note_prev zero prev_event_id prev = note_if (not (is_null prev)) 0 genesis_with_prev
note_prev (suc i) prev_event_id prev =
    note_if (not (same_text prev prev_event_id)) (suc i) prev_event_id_mismatch

module _ {T : Type 0} (p : Printing) (clock : Clock T) (options : WalkOptions) where
  -- The test of the chain hash, where there is one.
  unfoldable pub note_chain_hash : ℕ → Json → Json → Fields → Raising (List Entry)
  unfolding compute_chain_hash
  note_chain_hash i prev_chain_hash event_id integ =
      if options.verify_chain_hash_if_present && has_key integ "chain_hash"
      then (do
        prev ← as_optional_text prev_chain_hash
        id ← as_text event_id
        payload_hash ← item integ "payload_hash" >>= as_text
        schema_hash ← item integ "schema_hash" >>= as_text
        given ← item integ "chain_hash"
        computed ←
            map_err (λ _. encode_error) (compute_chain_hash p prev id payload_hash schema_hash)
        ok (note_if (not (is_text given computed)) i chain_hash_mismatch))
      else ok []

  -- The body of the loop from the test of the sequence number on, for an event of the seen snapshot.
  unfoldable pub visit_linked :
      ℕ → WalkState → Json → Fields → Fields → Fields → Raising (List Entry × WalkState)
  unfolding note_chain_hash
  visit_linked i s snapshot env chain integ = do
    seq ← item chain "sequence_no"
    event_id ← item env "event_id"
    hash_notes ← note_chain_hash i s.prev_chain_hash event_id integ
    let seq_notes =
        note_if (options.strict_contiguous && not (is_number seq s.expected_seq)) i
          sequence_not_contiguous
    let prev_notes = note_prev i s.prev_event_id (get_json chain "prev_event_id")
    ok (
      seq_notes
          ++ (prev_notes
              ++ (hash_notes ++ (record { index = i; verdict = true; message = fine } ∷ []))),
      record {
        seen_snapshot = some snapshot;
        expected_seq = suc s.expected_seq;
        prev_event_id = event_id;
        prev_chain_hash =
            if has_key integ "chain_hash" then get_json integ "chain_hash" else s.prev_chain_hash;
      },
    )

  -- The body of the loop for a valid event.
  unfoldable pub visit_valid : ℕ → WalkState → Json → Raising (List Entry × WalkState)
  unfolding visit_linked
  visit_valid i s ev = do
    event ← as_dict ev
    env ← item event "event_envelope" >>= as_dict
    chain ← item env "chain" >>= as_dict
    integ ← item env "integrity" >>= as_dict
    snapshot ← item chain "chain_snapshot_id"
    (if is_new_snapshot s.seen_snapshot snapshot
        then ok (failed i snapshot_changed ∷ [], s)
        else visit_linked i s snapshot env chain integ)

  abbrev pub visit_checked : Checked Unit → ℕ → WalkState → Json → Raising (List Entry × WalkState)
  visit_checked (err reason) i s ev = ok (failed i (invalid reason) ∷ [], s)
  visit_checked (ok _) i s ev = visit_valid i s ev

  -- The body of the loop.
  unfoldable pub visit : ℕ → WalkState → Json → Raising (List Entry × WalkState)
  unfolding validate_core_event_fail_closed visit_valid
  visit i s ev = visit_checked (validate_core_event_fail_closed p clock ev) i s ev

  -- The loop from the event `i` on.
  unfoldable pub walk_from : ℕ → WalkState → List Json → Raising (List Entry)
  unfolding visit
  walk_from i s [] = ok []
  walk_from i s (ev ∷ evs) = do
    (entries, s') ← visit i s ev
    rest ← walk_from (suc i) s' evs
    ok (entries ++ rest)

  unfoldable pub walk_and_verify_chain : List Json → Raising (List Entry)
  unfolding walk_from
  walk_and_verify_chain [] = ok (failed 0 empty_chain ∷ [])
  walk_and_verify_chain (ev ∷ evs) = walk_from 0 start (ev ∷ evs)
