-- ===== src/Judgment/Service/History.antt =====
-- What a sequence of calls to core/judgment/service.py can and cannot have done.
use mathlib.Core.List.{Memᴰ}
use text.Mathlib.TextEquality.{eq_iff}
use proto_v2_engine.Base.{
  ℕ, String, ◌≡◌, ◌⊎◌, Result, refl, sym, none, some, List, [], ◌∷◌, arith, inl, inr,
}
use proto_v2_engine.Judgment.Models.{PolicyError, HumanDecision, DpaRecord, applied}
use proto_v2_engine.Judgment.Composer.{DpaComposer, IsComposer}
use proto_v2_engine.Judgment.Repo.{DpaRepository, IsRepository}
use proto_v2_engine.Judgment.Lifecycle.{
  IsApproval, start_review-eq_ok, submit-eq_ok, apply-eq_ok, abort-eq_ok,
}
use proto_v2_engine.Judgment.Service.Calls.{
  Call, create_call, review_call, decide_call, apply_call, abort_call, Moves, target, run_call,
  serve, Effect, refused, born, moved, run_call-Effect,
}
use proto_v2_engine.Judgment.Service.Invariant.{
  IsSoundStore, Effect-IsSoundStore, Stores-cases, serve-IsSoundStore,
}

-- No call moves a record that was applied.
applied_stuck : (c : Call) (d d' : DpaRecord) → d.status ≡ applied → Moves c d d' → ⊥
applied_stuck (create_call _ _ _ _ _) d d' e h = h
applied_stuck (review_call _ _ now) d d' e h = ground (arith, start_review-eq_ok d now h)
applied_stuck (decide_call _ v now) d d' e h = ground (arith, submit-eq_ok d now v h)
applied_stuck (apply_call _ _ _ now) d d' e h = ground (arith, apply-eq_ok d now h)
applied_stuck (abort_call _ reason now) d d' e h = ground (arith, abort-eq_ok d now reason h)

-- The decision that a record holds is the one of some call, or the record held it before.
moved_decision :
    (c : Call) (d d' : DpaRecord) (h : HumanDecision)
    → Moves c d d'
    → d'.human_decision_json ≡ some h
    → (d.human_decision_json ≡ some h) ⊎ ((now : ℕ) × (c ≡ decide_call (target c) h now))
moved_decision (create_call _ _ _ _ _) d d' h m e = absurd m
moved_decision (review_call _ _ now) d d' h m e = ground (arith, start_review-eq_ok d now m)
moved_decision (decide_call id v now) d d' h m e = ground (arith, submit-eq_ok d now v m)
moved_decision (apply_call _ _ _ now) d d' h m e = ground (arith, apply-eq_ok d now m)
moved_decision (abort_call _ reason now) d d' h m e = ground (arith, abort-eq_ok d now reason m)

module _ {S : Type 0} {repo : DpaRepository S} {Valid : S → Type 0}
    (laws : IsRepository repo Valid) where
  applied_kept :
      {compose : DpaComposer} (c : Call) (s s' : S) {r : Result PolicyError DpaRecord} (id : String)
      (d : DpaRecord)
      → Effect laws compose c s r s'
      → repo.get s id ≡ some d
      → d.status ≡ applied
      → repo.get s' id ≡ some d
  applied_kept c s s' id d (refused e _ same) h a = rw same h
  applied_kept c s s' id d (born w _ _ tgt free _ _ _ stores) h a =
      ground (arith, stores id, eq_iff w.dpa_id id)
  applied_kept c s s' id d (moved b w _ tgt was m _ stores) h a =
      ground (arith, stores id, eq_iff w.dpa_id id, applied_stuck c b w)

  -- Some record under `id` holds the decision `h`.
  abbrev Held : S → String → HumanDecision → Type 0
  Held s id h = (d : DpaRecord) × (repo.get s id ≡ some d) × (d.human_decision_json ≡ some h)

  Effect-decision :
      {compose : DpaComposer} (c : Call) (s s' : S) {r : Result PolicyError DpaRecord} (id : String)
      (h : HumanDecision)
      → Effect laws compose c s r s'
      → Held s' id h
      → Held s id h ⊎ ((now : ℕ) × (c ≡ decide_call id h now))
  Effect-decision c s s' id h (refused e _ same) held = inl (rw same at held)
  Effect-decision c s s' id h (born w _ _ _ _ _ un _ stores) (d, e, v) =
      elim (Stores-cases laws s s' w id d stores e) [
        | inl (_, same) ↦ absurd (cc)
        | inr (_, old) ↦ inl (d, old, v)
      ]
  Effect-decision c s s' id h (moved b w _ tgt was m _ stores) (d, e, v) =
      elim (Stores-cases laws s s' w id d stores e) [
        | inl (at, same) ↦ elim (moved_decision c b w h m (rw same v)) [
          | inl before ↦ inl (b, rw (← at, tgt) was, before)
          | inr (now, made) ↦ inr (now, rw (← at, tgt) made)
        ]
        | inr (_, old) ↦ inl (d, old, v)
      ]

  module _ (compose : DpaComposer) (composer : IsComposer compose) where
    -- A record of a sound store that is applied stays as it is under every sequence of calls.
    pub applied_final :
        (s : S) (cs : List Call) (id : String) (d : DpaRecord)
        → IsSoundStore laws s
        → repo.get s id ≡ some d
        → d.status ≡ applied
        → repo.get (serve repo compose s cs) id ≡ some d
    unfolding serve
    applied_final s [] id d i h a = h
    applied_final s (c ∷ cs) id d i h a =
        let s' = (run_call repo compose c s).1 in
        let effect = run_call-Effect laws compose c s composer i.valid in
        applied_final s' cs id d (Effect-IsSoundStore laws c s s' i effect)
          (applied_kept c s s' id d effect h a) a

    decision_source :
        (s : S) (cs : List Call) (id : String) (h : HumanDecision)
        → IsSoundStore laws s
        → Held (serve repo compose s cs) id h
        → Held s id h ⊎ ((now : ℕ) × Memᴰ (decide_call id h now) cs)
    unfolding serve
    decision_source s [] id h i held = inl held
    decision_source s (c ∷ cs) id h i held =
        let s' = (run_call repo compose c s).1 in
        let effect = run_call-Effect laws compose c s composer i.valid in
        elim (decision_source s' cs id h (Effect-IsSoundStore laws c s s' i effect) held) [
          | inl earlier ↦ elim (Effect-decision c s s' id h effect earlier) [
            | inl before ↦ inl before
            | inr (now, made) ↦ inr (now, Memᴰ.head (sym made))
          ]
          | inr (now, later) ↦ inr (now, Memᴰ.tail later)
        ]

    -- After any calls from an empty store, a record that is applied holds a decision that a named
    -- approver signed, for an option of the record that is not blocked, and one of the calls
    -- submitted that decision for that record.
    pub applied_needs_human :
        (s : S) (cs : List Call) (id : String) (d : DpaRecord)
        → Valid s
        → ((j : String) → repo.get s j ≡ none)
        → repo.get (serve repo compose s cs) id ≡ some d
        → d.status ≡ applied
        → (h : HumanDecision) × IsApproval d h × ((now : ℕ) × Memᴰ (decide_call id h now) cs)
    applied_needs_human s cs id d v empty e a =
        let i : IsSoundStore laws s = record {
          valid = v;
          sound = λ j x old. absurd (cc (empty j));
        } in
        let (h, approval) =
          ((serve-IsSoundStore laws compose composer s cs i).sound id d e).approval (rw a refl) in
        elim (decision_source s cs id h i (d, e, approval.recorded)) [
          | inl (x, old, _) ↦ absurd (cc (empty id))
          | inr submitted ↦ (h, approval, submitted)
        ]
