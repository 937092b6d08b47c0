-- ===== src/Chain/Walker/Total.antt =====
-- core/chain_walker.py: exceptions of the walk.
use Prim.Native.String.{◌++◌ as append}
use proto_v2_engine.Base.{
  ◌&&◌, Result, err, map_err, >>=-elim, ℕ, suc, String, true, ◌≡◌, refl, Option, none, some, List,
  [], ◌∷◌, ok, All, Result-cases, Bool-cases, inl, inr, ◌++◌,
}
use proto_v2_engine.Json.{Json, Fields, null, str, obj, end, get_json, has_key}
use proto_v2_engine.Chain.Hasher.{
  Printing, HashError, us, not_canonical, unicode_encode_error, encoded_hash, compute_payload_hash,
  compute_event_id, compute_chain_hash,
}
use proto_v2_engine.Chain.CanonicalJson.{canonical_json}
use proto_v2_engine.Chain.Validator.{Clock, known_schema_hash, validate_core_event_fail_closed}
use proto_v2_engine.Chain.Validator.Sound.{IsCoreEvent, validate-IsCoreEvent}
use proto_v2_engine.Chain.Walker.{
  Entry, WalkOptions, WalkState, as_optional_text, is_new_snapshot, failed, empty_chain, invalid,
  snapshot_changed, start, visit, walk_from, walk_and_verify_chain,
}
use proto_v2_engine.Chain.Walker.Steps.{
  visit-IsCoreEvent, own_hash, hash_note, hash_notes, after, notes,
}

abbrev fields_of : Json → Fields
fields_of (obj fs) = fs
fields_of _ = end

-- `event["event_envelope"]["integrity"].get("chain_hash")`
unfoldable pub chain_hash_of : Json → Json
chain_hash_of ev =
    get_json
      (fields_of (get_json (fields_of (get_json (fields_of ev) "event_envelope")) "integrity"))
      "chain_hash"

-- What the code relies on of `encode("utf-8")`: it raises at a lone surrogate only, so that it takes a
-- text of encodable parts, a digest in hexadecimal and a constant.
pub record IsEncoding (p : Printing) : Type 0 where
  pub parts :
      (a b : String)
      → p.is_encodable a ≡ true
      → p.is_encodable b ≡ true
      → p.is_encodable (append a b) ≡ true
  pub digests : (s : String) → p.is_encodable (append "sha256:" (p.sha256_hex s)) ≡ true
  pub separator : p.is_encodable us ≡ true
  pub pinned : p.is_encodable known_schema_hash ≡ true

module _ (p : Printing) where
  -- `None`, or a text that can be encoded.
  abbrev pub IsHashable : Json → Type 0
  IsHashable null = Unit
  IsHashable (str s) = p.is_encodable s ≡ true
  IsHashable _ = ⊥

  abbrev Encodes : Option String → Type 0
  Encodes none = Unit
  Encodes (some s) = p.is_encodable s ≡ true

  hashable-text :
      (v : Json) → IsHashable v → (h : Option String) × (as_optional_text v ≡ ok h) × Encodes h
  hashable-text null h = (none, refl, tt)
  hashable-text (str s) h = (some s, refl, h)
  hashable-text (obj _) h = absurd h
  hashable-text (Json.bool _) h = absurd h
  hashable-text (Json.int _) h = absurd h
  hashable-text (Json.float _) h = absurd h
  hashable-text (Json.decimal _) h = absurd h
  hashable-text (Json.arr _) h = absurd h

  -- A hash that was computed is a digest.
  abbrev hashed : String → Result HashError String
  hashed s = ok s

  ok-eq : (a b : String) → hashed a ≡ hashed b → a ≡ b
  ok-eq a b e = cc e

  encoded_hash-digest :
      (s : String) {own : String}
      → IsEncoding p
      → encoded_hash p s ≡ ok own
      → p.is_encodable own ≡ true
  unfolding encoded_hash
  encoded_hash-digest s {own} u h = elim (Bool-cases (p.is_encodable s)) [
    | inl t ↦
        let same : append "sha256:" (p.sha256_hex s) ≡ own = ok-eq _ _ (rw t at h) in
        rw same at (u.digests s)
    | inr t ↦ let e : err unicode_encode_error ≡ hashed own = rw t at h in absurd (cc e)
  ]

  hashes : (s : String) → p.is_encodable s ≡ true → (own : String) × (encoded_hash p s ≡ ok own)
  unfolding encoded_hash
  hashes s h = (append "sha256:" (p.sha256_hex s), rw h refl)

  joined :
      (id payload_hash : String)
      → IsEncoding p
      → p.is_encodable id ≡ true
      → p.is_encodable payload_hash ≡ true
      → p.is_encodable (append id (append us (append payload_hash (append us known_schema_hash))))
        ≡ true
  joined id payload_hash u i h =
      u.parts id _ i
        (u.parts us _ u.separator (u.parts payload_hash _ h (u.parts us _ u.separator u.pinned)))

  chain_hash-returns :
      (prev : Option String) (id payload_hash : String)
      → IsEncoding p
      → Encodes prev
      → p.is_encodable id ≡ true
      → p.is_encodable payload_hash ≡ true
      → (own : String) × (compute_chain_hash p prev id payload_hash known_schema_hash ≡ ok own)
  unfolding compute_chain_hash
  chain_hash-returns none id payload_hash u e i h = hashes _ (joined id payload_hash u i h)
  chain_hash-returns (some prev) id payload_hash u e i h =
      hashes _ (u.parts prev _ e (u.parts us _ u.separator (joined id payload_hash u i h)))

  payload_hash-digest :
      (payload : Json) {own : String}
      → IsEncoding p
      → compute_payload_hash p payload ≡ ok own
      → p.is_encodable own ≡ true
  unfolding compute_payload_hash
  payload_hash-digest payload u h =
      >>=-elim (map_err not_canonical (canonical_json p.format_f p.dumps payload)) _ h
        (λ s _ e. encoded_hash-digest s u e)

  event_id-digest :
      (event_type system_id domain subject snapshot : String) (seq : Json) (refs : Fields)
      (payload_hash : String) {own : String}
      → IsEncoding p
      → compute_event_id p event_type system_id domain subject snapshot seq refs payload_hash
        ≡ ok own
      → p.is_encodable own ≡ true
  unfolding compute_event_id
  event_id-digest event_type system_id domain subject snapshot seq refs payload_hash u h =
      encoded_hash-digest _ u h

  -- The chain hash of an event, if there is one, is `None` or a text that can be encoded.
  abbrev pub HasTextHash : Json → Type 0
  HasTextHash ev = IsHashable (chain_hash_of ev)

module _ {T : Type 0} (p : Printing) (clock : Clock T) (options : WalkOptions) where
  chain_hash-IsCoreEvent :
      (ev : Json) (c : IsCoreEvent p clock ev) → chain_hash_of ev ≡ get_json c.integ "chain_hash"
  unfolding chain_hash_of
  chain_hash-IsCoreEvent ev c = rw c.is_object (rw c.has_env (rw c.has_integrity refl))

  after-text :
      (s : WalkState) (ev : Json) (c : IsCoreEvent p clock ev)
      → IsHashable p s.prev_chain_hash
      → HasTextHash p ev
      → IsHashable p (after p clock options s c).prev_chain_hash
  after-text s ev c h t = elim (Bool-cases (has_key c.integ "chain_hash")) [
    | inl here ↦ rw here (rw (← chain_hash-IsCoreEvent ev c) t)
    | inr gone ↦ rw gone h
  ]

  own_hash-returns :
      (ev : Json) (c : IsCoreEvent p clock ev) (prev : Option String)
      → IsEncoding p
      → Encodes p prev
      → (own : String) × (own_hash p clock options c prev ≡ ok own)
  own_hash-returns ev c prev u e =
      chain_hash-returns p prev c.event_id c.payload_hash u e
        (event_id-digest p c.event_type c.system_id c.domain c.subject c.snapshot
          (get_json c.chain "sequence_no") c.refs c.payload_hash u c.computed_id)
        (payload_hash-digest p (obj c.payload) u c.hashed)

  hash_notes-returns :
      (i : ℕ) (ev : Json) (c : IsCoreEvent p clock ev) (prev : Option String)
      → IsEncoding p
      → Encodes p prev
      → (of_hash : List Entry) × (hash_notes p clock options i prev c ≡ ok of_hash)
  hash_notes-returns i ev c prev u e =
      let (own, computed) = own_hash-returns ev c prev u e in
      elim (Bool-cases (options.verify_chain_hash_if_present && has_key c.integ "chain_hash")) [
        | inl on ↦ (hash_note p clock options i c own, rw on (rw computed refl))
        | inr off ↦ ([], rw off refl)
      ]

  -- A visit returns, and leaves a text or nothing as the chain hash.
  visit-returns :
      (i : ℕ) (s : WalkState) (ev : Json)
      → IsEncoding p
      → IsHashable p s.prev_chain_hash
      → HasTextHash p ev
      → (es : List Entry) × (s' : WalkState) × (visit p clock options i s ev ≡ ok (es, s'))
        × IsHashable p s'.prev_chain_hash
  unfolding visit
  visit-returns i s ev u h t = elim (Result-cases (validate_core_event_fail_closed p clock ev)) [
    | inr (reason, e) ↦ (failed i (invalid reason) ∷ [], s, rw e refl, h)
    | inl (_, e) ↦
        let c = validate-IsCoreEvent p clock ev e in
        let (prev, given, encodes) = hashable-text p s.prev_chain_hash h in
        let (of_hash, hashing) = hash_notes-returns i ev c prev u encodes in
        elim (Bool-cases (is_new_snapshot s.seen_snapshot (str c.snapshot))) [
          | inl changed ↦ (
            failed i snapshot_changed ∷ [],
            s,
            rw e (rw (visit-IsCoreEvent p clock options i s prev ev c given) (rw changed refl)),
            h,
          )
          | inr same ↦ (
            notes p clock options i s c of_hash,
            after p clock options s c,
            rw e (
                rw (visit-IsCoreEvent p clock options i s prev ev c given)
                  (rw same (rw hashing refl))),
            after-text s ev c h t,
          )
        ]
  ]

  walk-returns :
      (i : ℕ) (s : WalkState) (evs : List Json)
      → IsEncoding p
      → IsHashable p s.prev_chain_hash
      → All (HasTextHash p) evs
      → (entries : List Entry) × (walk_from p clock options i s evs ≡ ok entries)
  unfolding walk_from
  walk-returns i s [] u h t = ([], refl)
  walk-returns i s (ev ∷ evs) u h (t, ts) =
      let (es, s', e, h') = visit-returns i s ev u h t in
      let (rest, e') = walk-returns (suc i) s' evs u h' ts in (es ++ rest, rw e (rw e' refl))

  -- A walk over events whose chain hashes, where given, are null or texts that can be encoded returns its
  -- results, whatever else the events hold, where encoding takes texts of encodable parts.
  pub walk_returns :
      (evs : List Json)
      → IsEncoding p
      → All (HasTextHash p) evs
      → (entries : List Entry) × (walk_and_verify_chain p clock options evs ≡ ok entries)
  unfolding walk_and_verify_chain
  walk_returns [] u t = (failed 0 empty_chain ∷ [], refl)
  walk_returns (ev ∷ evs) u t = walk-returns 0 start (ev ∷ evs) u tt t
