-- ===== src/Override/Chain/Verified.antt =====
-- tools/audit/verify_override_chain.py: what holds of the events of a file that is verified.

use proto_v2_engine.Base.{
  map_err-eq_ok, eq-true, String, true, not, ◌≡◌, refl, sym, ap, Option, none, some, List, [], ◌∷◌,
  Result, ok, map_err, length, is_some, All, >>=-elim, ◌==◌,
}
use proto_v2_engine.Json.{Json}
use proto_v2_engine.Override.Schema.{Failure, Times, validate_override_event_full}
use proto_v2_engine.Override.Chain.{
  schema_failure, Digest, Verdict, id_of, prev_hash_of, hash_of, expected_hash, verify, find_event,
  verify_unique, verify_line, verify_lines, verify_all_roles, verify_chain,
}
use proto_v2_engine.Override.Chain.Accounts.{IsAccounted, all-IsAccounted, verify-true}

-- No identifier stands twice.
abbrev pub IsUnique : List Json → Type 0
IsUnique [] = Unit
IsUnique (ev ∷ evs) = (find_event evs (id_of ev) ≡ none) × IsUnique evs

abbrev event_is : Json → Result Failure Json
event_is ev = ok ev

abbrev events_are : List Json → Result Failure (List Json)
events_are evs = ok evs

events_eq : {xs evs : List Json} → events_are xs ≡ ok evs → xs ≡ evs
events_eq h = cc h

abbrev verdict_is : Verdict → Result Failure Verdict
verdict_is v = ok v

verdict_eq : {v w : Verdict} → verdict_is v ≡ ok w → v ≡ w
verdict_eq h = cc h

event_eq : {x ev : Json} → event_is x ≡ ok ev → x ≡ ev
event_eq h = cc h

none-is_some : (o : Option Json) → not (is_some o) ≡ true → o ≡ none
none-is_some none h = refl
none-is_some (some _) h = cc

verify_unique-IsUnique : (evs : List Json) → verify_unique evs ≡ ok tt → IsUnique evs
unfolding verify_unique
verify_unique-IsUnique [] h = tt
verify_unique-IsUnique (ev ∷ evs) h =
    >>=-elim (verify (not (is_some (find_event evs (id_of ev)))) "duplicate event_id") _ h
      (λ _ first rest. (none-is_some _ (verify-true _ _ first), verify_unique-IsUnique evs rest))

module _ {T : Type 0} (d : Digest) (times : Times T) where
  -- Lines that hold valid events, each with the hash before it and its own hash in place.
  abbrev pub IsLinked : String → List (Option Json) → List Json → Type 0
  IsLinked prev [] [] = Unit
  IsLinked prev (line ∷ lines) (ev ∷ evs) =
      (line ≡ some ev)
      × (validate_override_event_full times ev ≡ ok tt)
      × (prev_hash_of ev ≡ prev)
      × (expected_hash d ev ≡ hash_of ev)
      × IsLinked (hash_of ev) lines evs
  IsLinked prev _ _ = ⊥

  line-IsLinked :
      (prev : String) (line : Option Json) (ev : Json)
      → verify_line d times prev line ≡ ok ev
      → (line ≡ some ev)
        × (validate_override_event_full times ev ≡ ok tt)
        × (prev_hash_of ev ≡ prev)
        × (expected_hash d ev ≡ hash_of ev)
  unfolding verify_line
  line-IsLinked prev none ev h = cc
  line-IsLinked prev (some x) ev h =
      >>=-elim (map_err schema_failure (validate_override_event_full times x)) _ h (λ _ valid h1.
        >>=-elim (verify (prev_hash_of x == prev) "prev_hash mismatch") _ h1 (λ _ linked h2.
          >>=-elim (verify (expected_hash d x == hash_of x) "chain hash mismatch") _ h2
            (λ _ hashed h3.
              let same : x ≡ ev = event_eq h3 in
              rw (← same) (
                refl,
                map_err-eq_ok _ _ valid,
                eq-true (prev_hash_of x) prev (verify-true _ _ linked),
                eq-true (expected_hash d x) (hash_of x) (verify-true _ _ hashed),
              ))))

  lines-IsLinked :
      (prev : String) (lines : List (Option Json)) (evs : List Json)
      → verify_lines d times prev lines ≡ ok evs
      → IsLinked prev lines evs
  unfolding verify_lines
  lines-IsLinked prev [] evs h = let same : [] ≡ evs = events_eq h in rw (← same) tt
  lines-IsLinked prev (line ∷ lines) evs h =
      >>=-elim (verify_line d times prev line) _ h (λ ev first h1.
        >>=-elim (verify_lines d times (hash_of ev) lines) _ h1 (λ rest later h2.
          let same : ev ∷ rest ≡ evs = events_eq h2 in
          let (read, valid, linked, hashed) = line-IsLinked prev line ev first in
          rw (← same) (read, valid, linked, hashed, lines-IsLinked (hash_of ev) lines rest later)))

  -- What a verified file holds.
  pub record IsVerified (lines : List (Option Json)) (verdict : Verdict) : Type 0 where
    pub events : List Json
    pub linked : IsLinked "GENESIS" lines events
    pub unique : IsUnique events
    pub accounted : All (IsAccounted times events) events
    pub counted : verdict.rows ≡ length events

  -- A file that is verified holds valid events with different identifiers, the first linked to GENESIS
  -- and each other one to the hash of the event before, with the hash that belongs to its contents. For
  -- every execution there are in the file a request and an approval of that request by another subject
  -- than the one who asked, and the execution is not later than the approval's end.
  pub verify_chain-IsVerified :
      (lines : List (Option Json)) (verdict : Verdict)
      → verify_chain d times lines ≡ ok verdict
      → IsVerified lines verdict
  unfolding verify_chain
  verify_chain-IsVerified [] verdict h = cc
  verify_chain-IsVerified (line ∷ lines) verdict h =
      >>=-elim (verify_lines d times "GENESIS" (line ∷ lines)) _ h (λ events read h1.
        >>=-elim (verify_unique events) _ h1 (λ _ unique h2.
          >>=-elim (verify_all_roles times events events) _ h2 (λ _ roles h3. record {
            events = events;
            linked = lines-IsLinked "GENESIS" (line ∷ lines) events read;
            unique = verify_unique-IsUnique events unique;
            accounted = all-IsAccounted times events events roles (λ x m. m);
            counted = sym (ap (λ (v : Verdict). v.rows) (verdict_eq h3));
          })))
