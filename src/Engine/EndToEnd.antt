-- ===== src/Engine/EndToEnd.antt =====
-- The engine over the DPA service: runs of core/engine/constitutional_transition.py whose apply port is
-- core/judgment/service.py.
use Prim.Native.String.{◌++◌}
use text.Mathlib.TextEquality.{eq_iff}
use proto_v2_engine.Base.{
  map_err-eq_ok, ℕ, String, ◌≡◌, ap, refl, true, Option, none, some, Result, ok, arith, map_err,
}
use proto_v2_engine.Execution.Exceptions.{Exception, policy_error}
use proto_v2_engine.Execution.Floats.{Floats}
use proto_v2_engine.Execution.Envelope.{EnvelopeArgument}
use proto_v2_engine.Judgment.Models.{
  HumanDecision, DpaRecord, event_ingested, dpa_created, human_reviewing, approved, applied,
  aborted, status_value,
}
use proto_v2_engine.Judgment.Lifecycle.{IsApproval, apply-eq_ok}
use proto_v2_engine.Judgment.Composer.{minimal, minimal-IsComposer}
use proto_v2_engine.Judgment.Repo.{DpaRepository, IsRepository}
use proto_v2_engine.Judgment.Service
use proto_v2_engine.Judgment.Service.Calls.{
  apply_call, run_call, Effect, refused, born, moved, run_call-Effect,
}
use proto_v2_engine.Judgment.Service.Invariant.{IsSoundStore, Effect-IsSoundStore}
use proto_v2_engine.Engine.Transition.{
  JudgmentApproval, JudgmentPort, is_applied_status, constitutional_transition,
}
use proto_v2_engine.Engine.Gate.{Passed, already, carried_out}
use proto_v2_engine.Engine.Run.{transition_no_bypass}
use proto_v2_engine.Engine.Ports.{dpa_status_text, service_port}

-- Of the status texts only that of APPLIED holds the word.
status_text-applied :
    (d : DpaRecord) → is_applied_status (dpa_status_text d) ≡ true → d.status ≡ applied
unfolding is_applied_status dpa_status_text status_value
status_text-applied d h =
    elim d.status
        as (λ st.
          is_applied_status (some (status_value st ++ " " ++ status_value st)) ≡ true
          → st ≡ applied) [
            | event_ingested ↦ λ e. cc
            | dpa_created ↦ λ e. cc
            | human_reviewing ↦ λ e. cc
            | approved ↦ λ e. cc
            | applied ↦ λ e. refl
            | aborted ↦ λ e. cc
          ]
      h

found-eq_ok :
    (o : Option DpaRecord) (id : String) (d : DpaRecord)
    → map_err policy_error (Service.found o id) ≡ ok d
    → o ≡ some d
found-eq_ok none id d h = cc
found-eq_ok (some x) id d h = cc

module _ {S : Type 0} {repo : DpaRepository S} {Valid : S → Type 0} (laws : IsRepository repo Valid)
    (now : ℕ) (dpa_id : String) where
  got :
      (s s' : S) (d : DpaRecord)
      → (service_port repo now).get_dpa dpa_id s ≡ (ok d, s')
      → (repo.get s dpa_id ≡ some d) × (s ≡ s')
  unfolding Service.get_dpa
  got s s' d h = (
    found-eq_ok (repo.get s dpa_id) dpa_id d (ap (λ (p : Result Exception DpaRecord × S). p.0) h),
    ap (λ (p : Result Exception DpaRecord × S). p.1) h,
  )

  -- An `apply` of the service that returned has left the record applied and the store sound.
  service_applied :
      (s s' : S) (option : String) (d d' : DpaRecord)
      → IsSoundStore laws s
      → repo.get s dpa_id ≡ some d
      → (service_port repo now).apply dpa_id option none s ≡ (ok d', s')
      → IsSoundStore laws s' × (repo.get s' dpa_id ≡ some d') × (d'.status ≡ applied)
  unfolding run_call
  service_applied s s' option d d' i there h =
      let call = apply_call dpa_id (some option) none now in
      let left : (run_call repo minimal call s).1 ≡ s' =
        ap (λ (p : Result Exception DpaRecord × S). p.1) h in
      let result =
        map_err-eq_ok policy_error (Service.apply repo dpa_id (some option) none now s).0
          (ap (λ (p : Result Exception DpaRecord × S). p.0) h) in
      let effect = run_call-Effect laws minimal call s minimal-IsComposer i.valid in
      let (stored, done) = outcome effect result in
      (rw (← left) (Effect-IsSoundStore laws call s _ i effect), rw (← left) stored, done)
    where
      outcome :
          Effect laws minimal
            (apply_call dpa_id (some option) none now)
            s
            (Service.apply repo dpa_id (some option) none now s).0
            (Service.apply repo dpa_id (some option) none now s).1
          → (Service.apply repo dpa_id (some option) none now s).0 ≡ ok d'
          → (repo.get (Service.apply repo dpa_id (some option) none now s).1 dpa_id ≡ some d')
            × (d'.status ≡ applied)
      outcome (refused e r _) q = cc
      outcome (born w r _ _ free _ _ _ _) q = cc
      outcome (moved b w r at was m v stores) q =
          let same : w ≡ d' = cc in
          (
            ground (arith, stores dpa_id, eq_iff w.dpa_id dpa_id),
            rw (← same) (ground (arith, apply-eq_ok b now m)),
          )

  module _ {F P Out : Type 0} (f : Floats F) (run_engine : P → Result Exception Out)
      (judgment_port : Option JudgmentPort) (envelope : Option (EnvelopeArgument F))
      (amendment_class : String) (prelude : P) (s s' : S) where
    gate_applied :
        (contract : EnvelopeArgument F) (approval : JudgmentApproval)
        → IsSoundStore laws s
        → Passed f (service_port repo now) dpa_id approval now contract s s'
        → IsSoundStore laws s'
          × ((d : DpaRecord) × (repo.get s' dpa_id ≡ some d) × (d.status ≡ applied))
    gate_applied contract approval i (already d read is_applied) =
        let (there, same) = got s s' d read in
        (rw (← same) i, (d, rw (← same) there, status_text-applied d is_applied))
    gate_applied contract approval i (carried_out d d' s₁ e read _ _ _ done) =
        let (there, same) = got s s₁ d read in
        let (sound, stored, is_applied) =
          service_applied s s' approval.selected_option_id d d' i there (rw (← same) at done) in
        (sound, (d', stored, is_applied))

    -- Where the port is the service over a sound store and the transition returns an output of the
    -- engine, the DPA is in the store afterwards, applied, with a human decision that approves it.
    pub engine_run-applied :
        (out : Out)
        → IsSoundStore laws s
        → constitutional_transition f run_engine judgment_port
            (some (service_port repo now))
            envelope
            amendment_class
            dpa_id
            prelude
            now
            s
          ≡ (ok out, s')
        → (d : DpaRecord) × (h : HumanDecision) × (repo.get s' dpa_id ≡ some d)
          × (d.status ≡ applied)
          × IsApproval d h
    engine_run-applied out i ran =
        let g =
          transition_no_bypass f run_engine judgment_port (some (service_port repo now)) envelope
            amendment_class dpa_id prelude now s s' out ran in
        let same : service_port repo now ≡ g.applier = cc g.applies in
        let (sound, (d, stored, is_applied)) =
          gate_applied g.contract g.approval i (rw (← same) at g.passed) in
        let (h, approval) = (sound.sound dpa_id d stored).approval (rw is_applied refl) in
        (d, h, stored, is_applied, approval)
