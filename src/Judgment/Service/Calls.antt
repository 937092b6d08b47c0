-- ===== src/Judgment/Service/Calls.antt =====
-- Calls of the service as data, their sequences, and what one call does to the store.

use proto_v2_engine.Base.{
  ℕ, String, ◌≡◌, refl, Option, none, some, List, [], ◌∷◌, Dict, Result, ok, err, arith, ◌∙◌,
}
use proto_v2_engine.Json.{Json}
use proto_v2_engine.Judgment.Models.{dpa_created, PolicyError, HumanDecision, DpaRecord}
use proto_v2_engine.Judgment.Composer.{DpaComposer, IsComposer}
use proto_v2_engine.Judgment.Repo.{DpaRepository, IsRepository, Stores, already_exists}
use proto_v2_engine.Judgment.Lifecycle.{start_review-eq_ok, submit-eq_ok, apply-eq_ok, abort-eq_ok}
use proto_v2_engine.Judgment.Transitions
use proto_v2_engine.Judgment.Service
use proto_v2_engine.Judgment.Service.{id_or_fresh}

pub data Call : Type 0 where
  create_call : String → Dict Json → Option String → String → ℕ → Call
  review_call : String → String → ℕ → Call
  decide_call : String → HumanDecision → ℕ → Call
  apply_call : String → Option String → Option (Dict Json) → ℕ → Call
  abort_call : String → Option String → ℕ → Call

-- What a call may do to a record that is there.
abbrev pub Moves : Call → DpaRecord → DpaRecord → Type 0
Moves (create_call _ _ _ _ _) d d' = ⊥
Moves (review_call _ _ now) d d' = Transitions.start_review d now ≡ ok d'
Moves (decide_call _ h now) d d' = Transitions.submit_human_decision d h now ≡ ok d'
Moves (apply_call _ _ _ now) d d' = Transitions.apply d now ≡ ok d'
Moves (abort_call _ reason now) d d' = Transitions.abort d reason now ≡ ok d'

abbrev pub target : Call → String
target (create_call _ _ id fresh _) = id_or_fresh id fresh
target (review_call id _ _) = id
target (decide_call id _ _) = id
target (apply_call id _ _ _) = id
target (abort_call id _ _) = id

-- The record that a call may add: the one that is composed for its id, event and context, and only by
-- a call that creates.
abbrev pub Births : DpaComposer → Call → DpaRecord → Type 0
Births compose (create_call event context id fresh now) d =
    d ≡ compose (id_or_fresh id fresh) event context now
Births compose (review_call _ _ _) d = ⊥
Births compose (decide_call _ _ _) d = ⊥
Births compose (apply_call _ _ _ _) d = ⊥
Births compose (abort_call _ _ _) d = ⊥

module _ {S : Type 0} (repo : DpaRepository S) (compose : DpaComposer) where
  unfoldable pub run_call : Call → S → Result PolicyError DpaRecord × S
  run_call (create_call event context id fresh now) =
      Service.create_dpa repo compose event context id fresh now
  run_call (review_call id reviewer now) = Service.start_review repo id reviewer now
  run_call (decide_call id h now) = Service.submit_human_decision repo id h now
  run_call (apply_call id option context now) = Service.apply repo id option context now
  run_call (abort_call id reason now) = Service.abort repo id reason now

  -- A client goes on after an error.
  unfoldable pub serve : S → List Call → S
  serve s [] = s
  serve s (c ∷ cs) = serve (run_call c s).1 cs

Moves-same_id : (c : Call) (d d' : DpaRecord) → Moves c d d' → d'.dpa_id ≡ d.dpa_id
Moves-same_id (create_call _ _ _ _ _) d d' h = absurd h
Moves-same_id (review_call _ _ now) d d' h = ground (arith, start_review-eq_ok d now h)
Moves-same_id (decide_call _ v now) d d' h = ground (arith, submit-eq_ok d now v h)
Moves-same_id (apply_call _ _ _ now) d d' h = ground (arith, apply-eq_ok d now h)
Moves-same_id (abort_call _ reason now) d d' h = ground (arith, abort-eq_ok d now reason h)

module _ {S : Type 0} {repo : DpaRepository S} {Valid : S → Type 0} (laws : IsRepository repo Valid)
    (compose : DpaComposer) where
  -- The outcomes of a call: an error that changes nothing, a new record, a transition of one record.
  pub data Effect (c : Call) (s : S) (r : Result PolicyError DpaRecord) (s' : S) : Type 0 where
    refused : (e : PolicyError) → r ≡ err e → s' ≡ s → Effect c s r s'
    born :
        (d : DpaRecord)
        → r ≡ ok d
        → Births compose c d
        → d.dpa_id ≡ target c
        → repo.get s (target c) ≡ none
        → d.status ≡ dpa_created
        → d.human_decision_json ≡ none
        → Valid s'
        → Stores repo d s s'
        → Effect c s r s'
    moved :
        (d d' : DpaRecord)
        → r ≡ ok d'
        → d'.dpa_id ≡ target c
        → repo.get s (target c) ≡ some d
        → Moves c d d'
        → Valid s'
        → Stores repo d' s s'
        → Effect c s r s'

  -- `save` of a transition's result.
  saved :
      (c : Call) (s : S) (d : DpaRecord) (t : Result PolicyError DpaRecord)
      → Valid s
      → repo.get s (target c) ≡ some d
      → ((d' : DpaRecord) → t ≡ ok d' → Moves c d d')
      → Effect c s (Service.save_result repo t s).0 (Service.save_result repo t s).1
  saved c s d (err e) v h m = refused e refl refl
  saved c s d (ok d') v h m =
      let same = Moves-same_id c d d' (m d' refl) ∙ laws.keyed s (target c) d v h in
      let (returned, valid, stores) = laws.save_known s d' d v (rw same h) in
      moved d d' returned same h (m d' refl) valid stores

  stepped :
      (c : Call) (s : S) (o : Option DpaRecord) (step : DpaRecord → Result PolicyError DpaRecord)
      → Valid s
      → repo.get s (target c) ≡ o
      → ((d d' : DpaRecord) → step d ≡ ok d' → Moves c d d')
      → (let r = Service.step_found repo (Service.found o (target c)) step s in Effect c s r.0 r.1)
  stepped c s none step v h m = refused (Service.dpa_not_found (target c)) refl refl
  stepped c s (some d) step v h m = saved c s d (step d) v h (m d)

  created :
      (c : Call) (s : S) (d : DpaRecord) (o : Option DpaRecord)
      → Valid s
      → repo.get s d.dpa_id ≡ o
      → Births compose c d
      → d.dpa_id ≡ target c
      → d.status ≡ dpa_created
      → d.human_decision_json ≡ none
      → Effect c s (repo.create d s).0 (repo.create d s).1
  created c s d none v h b id st un =
      let (returned, valid, stores) = laws.create_new s d v h in
      born d returned b id (rw id at h) st un valid stores
  created c s d (some x) v h b id st un =
      rw (laws.create_taken s d x h) (refused (already_exists d.dpa_id) refl refl)

  -- Every call is refused and changes nothing, or is a creation and adds the record that is composed for
  -- its id, event and context, or moves one record that is there by the transition that it asks for.
  pub run_call-Effect :
      (c : Call) (s : S)
      → IsComposer compose
      → Valid s
      → Effect c s (run_call repo compose c s).0 (run_call repo compose c s).1
  unfolding run_call Service.create_dpa Service.start_review Service.submit_human_decision
      Service.apply Service.abort
  run_call-Effect (create_call event context id fresh now) s k v =
      let d = compose (id_or_fresh id fresh) event context now in
      created (create_call event context id fresh now) s d (repo.get s d.dpa_id) v refl refl
        (k.same_id _ _ _ _) (k.created _ _ _ _) (k.undecided _ _ _ _)
  run_call-Effect (review_call id reviewer now) s k v =
      stepped (review_call id reviewer now) s (repo.get s id) (λ d. Transitions.start_review d now)
        v refl (λ d d' h. h)
  run_call-Effect (decide_call id w now) s k v =
      stepped (decide_call id w now) s (repo.get s id)
        (λ d. Transitions.submit_human_decision d w now) v refl (λ d d' h. h)
  run_call-Effect (apply_call id option context now) s k v =
      stepped (apply_call id option context now) s (repo.get s id) (λ d. Transitions.apply d now) v
        refl (λ d d' h. h)
  run_call-Effect (abort_call id reason now) s k v =
      stepped (abort_call id reason now) s (repo.get s id) (λ d. Transitions.abort d reason now) v
        refl (λ d d' h. h)
