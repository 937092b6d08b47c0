-- ===== src/Judgment/Service.antt =====
-- `DpaService` of core/judgment/service.py, over any repository and composer. A method maps the
-- store to its result and the store that it leaves. The proofs are in the children.
pub mod Calls
pub mod Invariant
pub mod History
use proto_v2_engine.Base.{
  ℕ, String, Option, none, some, [], ◌∷◌, Dict, Result, ok, err, truthy, if◌then◌else◌,
}
use proto_v2_engine.Json.{Json, str}
use proto_v2_engine.Judgment.Models.{PolicyError, conflict, HumanDecision, DpaRecord}
use proto_v2_engine.Judgment.Composer.{DpaComposer}
use proto_v2_engine.Judgment.Repo.{DpaRepository}
use proto_v2_engine.Judgment.Transitions

unfoldable pub dpa_not_found : String → PolicyError
dpa_not_found id = conflict "DPA_NOT_FOUND" "DPA not found." (some (("dpa_id", str id) ∷ []))

-- `dpa_id or f"dpa_{uuid4().hex}"`, with the fresh text given.
abbrev pub id_or_fresh : Option String → String → String
id_or_fresh none fresh = fresh
id_or_fresh (some id) fresh = if truthy id then id else fresh

abbrev pub found : Option DpaRecord → String → Result PolicyError DpaRecord
found none id = err (dpa_not_found id)
found (some dpa) id = ok dpa

module _ {S : Type 0} (repo : DpaRepository S) where
  unfoldable pub create_dpa :
      DpaComposer
      → String
      → Dict Json
      → Option String
      → String
      → ℕ
      → S
      → Result PolicyError DpaRecord × S
  create_dpa compose event_id context dpa_id fresh now s =
      repo.create (compose (id_or_fresh dpa_id fresh) event_id context now) s

  unfoldable pub get_dpa : String → S → Result PolicyError DpaRecord
  get_dpa dpa_id s = found (repo.get s dpa_id) dpa_id

  -- `dpa = self.get_dpa(...); dpa = step(dpa); return self.repo.save(dpa)`
  abbrev pub save_result : Result PolicyError DpaRecord → S → Result PolicyError DpaRecord × S
  save_result (ok dpa) s = repo.save dpa s
  save_result (err e) s = (err e, s)

  abbrev pub step_found :
      Result PolicyError DpaRecord
      → (DpaRecord → Result PolicyError DpaRecord)
      → S
      → Result PolicyError DpaRecord × S
  step_found (ok dpa) step s = save_result (step dpa) s
  step_found (err e) step s = (err e, s)

  unfoldable pub update :
      String → (DpaRecord → Result PolicyError DpaRecord) → S → Result PolicyError DpaRecord × S
  unfolding get_dpa
  update dpa_id step s = step_found (get_dpa dpa_id s) step s

  -- `reviewer` is not read by the transition.
  unfoldable pub start_review : String → String → ℕ → S → Result PolicyError DpaRecord × S
  unfolding update
  start_review dpa_id reviewer now = update dpa_id (λ dpa. Transitions.start_review dpa now)

  unfoldable pub submit_human_decision :
      String → HumanDecision → ℕ → S → Result PolicyError DpaRecord × S
  unfolding update
  submit_human_decision dpa_id decision now =
      update dpa_id (λ dpa. Transitions.submit_human_decision dpa decision now)

  -- The arguments `selected_option_id` and `context` are accepted and not read.
  unfoldable pub apply :
      String → Option String → Option (Dict Json) → ℕ → S → Result PolicyError DpaRecord × S
  unfolding update
  apply dpa_id selected_option_id context now = update dpa_id (λ dpa. Transitions.apply dpa now)

  unfoldable pub abort : String → Option String → ℕ → S → Result PolicyError DpaRecord × S
  unfolding update
  abort dpa_id reason now = update dpa_id (λ dpa. Transitions.abort dpa reason now)
