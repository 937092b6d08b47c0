-- ===== src/Chain/Walker/Linked.antt =====
-- core/chain_walker.py: what a chain is in which the walk finds no fault.
use text.Mathlib.TextEquality.{eq_iff}
use proto_v2_engine.Base.{
  and-left, and-both, and-right, not-false, ℕ, suc, String, Bool, true, false, not, ◌≡◌, refl, sym,
  ap, ◌∙◌, ◌⊎◌, Option, none, some, List, [], ◌∷◌, ◌++◌, ok, map_err, map_err-eq_ok, all,
  Result-cases, Bool-cases, >>=-elim, inl, inr, if◌then◌else◌, arith, ◌==◌,
}
use proto_v2_engine.Json.{Json, null, str, get_json, is_text}
use proto_v2_engine.Chain.Hasher.{Printing}
use proto_v2_engine.Chain.Validator.{Clock, validate_core_event_fail_closed}
use proto_v2_engine.Chain.Validator.Sound.{IsCoreEvent, validate-IsCoreEvent}
use proto_v2_engine.Chain.Walker.{
  Entry, Message, Raising, WalkOptions, WalkState, as_optional_text, is_number, is_new_snapshot,
  same_text, failed, empty_chain, sequence_not_contiguous, chain_hash_mismatch, encode_error,
  visit_valid, invalid, snapshot_changed, start, visit, note_if, note_prev, walk_from,
  walk_and_verify_chain,
}
use proto_v2_engine.Chain.Walker.Steps.{
  visit-IsCoreEvent, hash_note, hash_notes, after, own_id, own_hash, given_hash, has_hash, notes,
}

abbrev pub strict : WalkOptions
strict = record { strict_contiguous = true; verify_chain_hash_if_present = true }

abbrev fine_entry : ℕ → Entry
fine_entry i = record { index = i; verdict = true; message = Message.fine }

abbrev pub is_fine : Entry → Bool
is_fine e = e.verdict

all-left : (xs ys : List Entry) → all is_fine (xs ++ ys) ≡ true → all is_fine xs ≡ true
all-left [] ys h = refl
all-left (x ∷ xs) ys h =
    and-both (is_fine x) _ (and-left (is_fine x) _ h) (all-left xs ys (and-right (is_fine x) _ h))

all-right : (xs ys : List Entry) → all is_fine (xs ++ ys) ≡ true → all is_fine ys ≡ true
all-right [] ys h = h
all-right (x ∷ xs) ys h = all-right xs ys (and-right (is_fine x) _ h)

note-fine : (b : Bool) (i : ℕ) (m : Message) → all is_fine (note_if b i m) ≡ true → b ≡ false
note-fine true i m h = cc
note-fine false i m h = refl

ok_pair :
    {A B : Type 0} {a a' : A} {b b' : B} {r : Raising (A × B)}
    → r ≡ ok (a, b)
    → r ≡ ok (a', b')
    → (a ≡ a') × (b ≡ b')
ok_pair h k = let e = sym h ∙ k in (cc e, cc e)

not_failed :
    (i : ℕ) (m : Message) (s s' : WalkState) (es : List Entry)
    {r : Raising (List Entry × WalkState)}
    → r ≡ ok (failed i m ∷ [], s)
    → r ≡ ok (es, s')
    → all is_fine es ≡ true
    → ⊥
not_failed i m s s' es h k fine = cc (rw (← (ok_pair h k).0) at fine)

abbrev raised : List Entry → Raising (List Entry)
raised es = ok es

start_empty :
    (es : List Entry) → ok (failed 0 empty_chain ∷ []) ≡ raised es → failed 0 empty_chain ∷ [] ≡ es
start_empty es h = cc

-- The text that a value is.
abbrev pub text_in : Json → Option String
text_in (str s) = some s
text_in _ = none

-- Notes without a fault, one after the other.
notes-fine :
    (b : Bool) (ys xs zs : List Entry) (i : ℕ) (m : Message)
    → all is_fine (note_if b i m ++ (ys ++ (xs ++ zs))) ≡ true
    → (b ≡ false) × (all is_fine ys ≡ true) × (all is_fine xs ≡ true)
notes-fine true ys xs zs i m h = cc
notes-fine false [] xs zs i m h = (refl, refl, all-left xs zs h)
notes-fine false (y ∷ ys) xs zs i m h =
    let (_, l, r) = notes-fine false ys xs zs i m (and-right (is_fine y) _ h) in
    (refl, and-both (is_fine y) _ (and-left (is_fine y) _ h) l, r)

-- The test of the link, past the first event and on it.
abbrev FineLink : ℕ → Json → Type 0
FineLink i prev_id =
    (v : Json) → all is_fine (note_prev i prev_id v) ≡ true → same_text v prev_id ≡ true

link-suc : (i : ℕ) (prev_id : Json) → FineLink (suc i) prev_id
link-suc i prev_id v h = not-false _ (note-fine _ _ _ h)

link-zero : FineLink 0 null
link-zero null h = refl
link-zero (str _) h = cc
link-zero (Json.obj _) h = cc
link-zero (Json.bool _) h = cc
link-zero (Json.int _) h = cc
link-zero (Json.float _) h = cc
link-zero (Json.decimal _) h = cc
link-zero (Json.arr _) h = cc

is_text-eq : (v : Json) (s : String) → is_text v s ≡ true → v ≡ str s
is_text-eq (str t) s h = ap str (ground (arith, eq_iff t s))
is_text-eq null s h = cc
is_text-eq (Json.obj _) s h = cc
is_text-eq (Json.bool _) s h = cc
is_text-eq (Json.int _) s h = cc
is_text-eq (Json.float _) s h = cc
is_text-eq (Json.decimal _) s h = cc
is_text-eq (Json.arr _) s h = cc

module _ {T : Type 0} (p : Printing) (clock : Clock T) where
  -- The chain hash of an event is the one computed for it after `prev_hash`.
  abbrev pub HashesAfter : {ev : Json} → Option String → IsCoreEvent p clock ev → Type 0
  HashesAfter prev_hash c =
      (own : String) × (own_hash p clock strict c prev_hash ≡ ok own)
      × (given_hash p clock strict c ≡ str own)

  -- The place of a valid event: the snapshot, its number, the identifier of the event before (null for
  -- the first) and the last chain hash.
  pub record IsPlaced (snapshot : String) (n : ℕ) (prev_id : Json) (prev_hash : Option String)
      {ev : Json} (c : IsCoreEvent p clock ev) : Type 0 where
    pub in_snapshot : c.snapshot ≡ snapshot
    pub numbered : is_number (get_json c.chain "sequence_no") n ≡ true
    pub linked : same_text (get_json c.chain "prev_event_id") prev_id ≡ true
    pub hashed : (has_hash p clock strict c ≡ false) ⊎ HashesAfter prev_hash c

  -- The chain hash that the next event builds on.
  abbrev pub next_hash : {ev : Json} → Option String → IsCoreEvent p clock ev → Option String
  next_hash prev_hash c =
      if has_hash p clock strict c then text_in (given_hash p clock strict c) else prev_hash

  -- A chain of valid events, each in its place.
  abbrev pub IsChainFrom : String → ℕ → Json → Option String → List Json → Type 0
  IsChainFrom snapshot n prev_id prev_hash [] = Unit
  IsChainFrom snapshot n prev_id prev_hash (ev ∷ evs) =
      (c : IsCoreEvent p clock ev) × IsPlaced snapshot n prev_id prev_hash c
      × IsChainFrom snapshot (suc n) (own_id p clock strict c) (next_hash prev_hash c) evs

  -- Where the notes of the hash test are fine, the hash that is given is the computed one.
  hash_notes-fine :
      (i : ℕ) (prev_hash : Option String) (ev : Json) (c : IsCoreEvent p clock ev)
      (of_hash : List Entry)
      → hash_notes p clock strict i prev_hash c ≡ ok of_hash
      → all is_fine of_hash ≡ true
      → (has_hash p clock strict c ≡ false) ⊎ HashesAfter prev_hash c
  hash_notes-fine i prev_hash ev c of_hash e fine = elim (Bool-cases (has_hash p clock strict c)) [
    | inr gone ↦ inl gone
    | inl here ↦
        >>=-elim (map_err (λ _. encode_error) (own_hash p clock strict c prev_hash)) _
          (rw here at e)
          (λ own computed e1.
            let same : hash_note p clock strict i c own ≡ of_hash = cc e1 in
            let noted : all is_fine (hash_note p clock strict i c own) ≡ true =
              rw (← same) at fine in
            inr (
              own,
              map_err-eq_ok _ _ computed,
              is_text-eq _ _ (not-false _ (note-fine _ i chain_hash_mismatch noted)),
            ))
  ]

  -- What fine notes say of an event.
  notes-IsPlaced :
      (i : ℕ) (s : WalkState) (prev_hash : Option String) (ev : Json) (c : IsCoreEvent p clock ev)
      (of_hash : List Entry)
      → FineLink i s.prev_event_id
      → hash_notes p clock strict i prev_hash c ≡ ok of_hash
      → all is_fine (notes p clock strict i s c of_hash) ≡ true
      → IsPlaced c.snapshot s.expected_seq s.prev_event_id prev_hash c
  notes-IsPlaced i s prev_hash ev c of_hash link e h =
      let (seq, prev, hash) =
        notes-fine (not (is_number (get_json c.chain "sequence_no") s.expected_seq))
          (note_prev i s.prev_event_id (get_json c.chain "prev_event_id")) of_hash
          (fine_entry i ∷ []) i sequence_not_contiguous h in
      record {
        in_snapshot = refl;
        numbered = not-false _ seq;
        linked = link _ prev;
        hashed = hash_notes-fine i prev_hash ev c of_hash e hash;
      }

  -- The seen snapshot before an event of `snapshot`.
  abbrev Sees : WalkState → String → Type 0
  Sees s snapshot = is_new_snapshot s.seen_snapshot (str snapshot) ≡ false

  same_after :
      (prev_hash : Option String) (s : WalkState) (ev : Json) (c : IsCoreEvent p clock ev)
      → as_optional_text s.prev_chain_hash ≡ ok prev_hash
      → (has_hash p clock strict c ≡ false) ⊎ HashesAfter prev_hash c
      → as_optional_text (after p clock strict s c).prev_chain_hash ≡ ok (next_hash prev_hash c)
  same_after prev_hash s ev c e (inl gone) = rw gone e
  same_after prev_hash s ev c e (inr (own, _, hash)) =
      elim (Bool-cases (has_hash p clock strict c)) [
        | inl here ↦ rw here (rw hash refl)
        | inr gone ↦ rw gone e
      ]

  -- A visit that notes no fault: a valid event in its place, and the state after it.
  visit-IsPlaced :
      (i : ℕ) (s s' : WalkState) (prev_hash : Option String) (ev : Json) (es : List Entry)
      → FineLink i s.prev_event_id
      → as_optional_text s.prev_chain_hash ≡ ok prev_hash
      → visit p clock strict i s ev ≡ ok (es, s')
      → all is_fine es ≡ true
      → (c : IsCoreEvent p clock ev) × Sees s c.snapshot
        × IsPlaced c.snapshot s.expected_seq s.prev_event_id prev_hash c
        × (s' ≡ after p clock strict s c)
  unfolding visit
  visit-IsPlaced i s s' prev_hash ev es link given h fine =
      elim (Result-cases (validate_core_event_fail_closed p clock ev)) [
        | inr (reason, e) ↦ absurd (not_failed i (invalid reason) s s' es refl (rw e at h) fine)
        | inl (u, e) ↦
            let c = validate-IsCoreEvent p clock ev e in
            let visited = visit-IsCoreEvent p clock strict i s prev_hash ev c given in
            let h' : visit_valid p clock strict i s ev ≡ ok (es, s') = rw e at h in
            elim (Bool-cases (is_new_snapshot s.seen_snapshot (str c.snapshot))) [
              | inl changed ↦
                  absurd (not_failed i snapshot_changed s s' es (rw changed at visited) h' fine)
              | inr same ↦
                  >>=-elim (hash_notes p clock strict i prev_hash c) _
                    (sym (rw same at visited) ∙ h')
                    (λ of_hash hashing rest.
                      let (these, then_state) = ok_pair refl rest in
                      (
                        c,
                        same,
                        notes-IsPlaced i s prev_hash ev c of_hash link hashing (rw these fine),
                        sym then_state,
                      ))
            ]
      ]

  Sees-eq :
      (s : WalkState) (seen snapshot : String)
      → s.seen_snapshot ≡ some (str seen)
      → Sees s snapshot
      → snapshot ≡ seen
  Sees-eq s seen snapshot e h =
      ground (arith, eq_iff seen snapshot, not-false (seen == snapshot) (rw e at h))

  walk-IsChainFrom :
      (i : ℕ) (s : WalkState) (snapshot : String) (prev_hash : Option String) (evs : List Json)
      (es : List Entry)
      → FineLink i s.prev_event_id
      → as_optional_text s.prev_chain_hash ≡ ok prev_hash
      → s.seen_snapshot ≡ some (str snapshot)
      → walk_from p clock strict i s evs ≡ ok es
      → all is_fine es ≡ true
      → IsChainFrom snapshot s.expected_seq s.prev_event_id prev_hash evs
  unfolding walk_from
  walk-IsChainFrom i s snapshot prev_hash [] es link given seen h fine = tt
  walk-IsChainFrom i s snapshot prev_hash (ev ∷ evs) es link given seen h fine =
      >>=-elim (visit p clock strict i s ev) _ h (λ (now, s') visited h1.
        >>=-elim (walk_from p clock strict (suc i) s' evs) _ h1 (λ later walked h2.
          let here : now ++ later ≡ es = cc h2 in
          let both : all is_fine (now ++ later) ≡ true = rw here fine in
          let (c, sees, placed, then_state) =
            visit-IsPlaced i s s' prev_hash ev now link given visited (all-left now later both) in
          let same = Sees-eq s snapshot c.snapshot seen sees in
          let walked' : walk_from p clock strict (suc i) (after p clock strict s c) evs ≡ ok later =
            rw then_state at walked in
          (
            c,
            record {
              in_snapshot = same;
              numbered = placed.numbered;
              linked = placed.linked;
              hashed = placed.hashed;
            },
            walk-IsChainFrom (suc i) (after p clock strict s c) snapshot (next_hash prev_hash c) evs
                later (link-suc i (own_id p clock strict c))
                (same_after prev_hash s ev c given placed.hashed) (ap (λ x. some (str x)) same)
                walked' (all-right now later both),
          )))

  -- A strict walk that returns only successes has gone through a chain: every event valid, all in one
  -- snapshot, numbered from 1 on without a gap, each linked to the identifier of the event before (the
  -- first to null), and each given chain hash recomputed from the last one given.
  pub walk-IsChain :
      (evs : List Json) (es : List Entry)
      → walk_and_verify_chain p clock strict evs ≡ ok es
      → all is_fine es ≡ true
      → (snapshot : String) × IsChainFrom snapshot 1 null none evs
  unfolding walk_and_verify_chain walk_from
  walk-IsChain [] es h fine = absurd (cc (rw (← start_empty es h) at fine))
  walk-IsChain (ev ∷ evs) es h fine =
      >>=-elim (visit p clock strict 0 start ev) _ h (λ (now, s') visited h1.
        >>=-elim (walk_from p clock strict 1 s' evs) _ h1 (λ later walked h2.
          let here : now ++ later ≡ es = cc h2 in
          let both : all is_fine (now ++ later) ≡ true = rw here fine in
          let (c, sees, placed, then_state) =
            visit-IsPlaced 0 start s' none ev now link-zero refl visited
              (all-left now later both) in
          let walked' : walk_from p clock strict 1 (after p clock strict start c) evs ≡ ok later =
            rw then_state at walked in
          (
            c.snapshot,
            (
              c,
              placed,
              walk-IsChainFrom 1 (after p clock strict start c) c.snapshot (next_hash none c) evs
                  later (link-suc 0 (own_id p clock strict c))
                  (same_after none start ev c refl placed.hashed) refl walked'
                  (all-right now later both),
            ),
          )))
