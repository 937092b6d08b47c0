-- ===== src/Judgment/Service/Invariant.antt =====
-- The invariant of the store of core/judgment/service.py: every record that it holds is sound.
use text.Mathlib.TextEquality.{eq_iff}
use proto_v2_engine.Base.{
  String, ◌≡◌, ◌⊎◌, Result, false, none, some, List, [], ◌∷◌, arith, ◌==◌, inl, inr,
}
use proto_v2_engine.Judgment.Models.{PolicyError, DpaRecord, dpa_created}
use proto_v2_engine.Judgment.Composer.{DpaComposer, IsComposer}
use proto_v2_engine.Judgment.Repo.{DpaRepository, IsRepository, Stores}
use proto_v2_engine.Judgment.Lifecycle.{
  IsSound, ◌⟶◌, start_review_edge, submit_edge, apply_edge, abort_edge,
}
use proto_v2_engine.Judgment.Soundness.{
  submit-IsSound, start_review-IsSound, apply-IsSound, abort-IsSound,
}
use proto_v2_engine.Judgment.Service.Calls.{
  Call, create_call, review_call, decide_call, apply_call, abort_call, Moves, target, run_call,
  serve, Effect, refused, born, moved, run_call-Effect,
}

pub Moves_edge : (c : Call) (d d' : DpaRecord) → Moves c d d' → d.status ⟶ d'.status
Moves_edge (create_call _ _ _ _ _) d d' h = absurd h
Moves_edge (review_call _ _ now) d d' h = start_review_edge d now h
Moves_edge (decide_call _ v now) d d' h = submit_edge d now v h
Moves_edge (apply_call _ _ _ now) d d' h = apply_edge d now h
Moves_edge (abort_call _ reason now) d d' h = abort_edge d now reason h

pub Moves-IsSound : (c : Call) (d d' : DpaRecord) → IsSound d → Moves c d d' → IsSound d'
Moves-IsSound (create_call _ _ _ _ _) d d' s h = absurd h
Moves-IsSound (review_call _ _ now) d d' s h = start_review-IsSound d now s h
Moves-IsSound (decide_call _ v now) d d' s h = submit-IsSound d now v h
Moves-IsSound (apply_call _ _ _ now) d d' s h = apply-IsSound d now s h
Moves-IsSound (abort_call _ reason now) d d' s h = abort-IsSound d now reason s h

pub fresh-IsSound :
    (d : DpaRecord) → d.status ≡ dpa_created → d.human_decision_json ≡ none → IsSound d
fresh-IsSound d st un = record { approval = λ e. cc; undecided = λ _. un }

module _ {S : Type 0} {repo : DpaRepository S} {Valid : S → Type 0}
    (laws : IsRepository repo Valid) where
  pub record IsSoundStore (s : S) : Type 0 where
    pub valid : Valid s
    pub sound : (id : String) (d : DpaRecord) → repo.get s id ≡ some d → IsSound d

  -- A record of the new store is the one that was written, or an old one.
  pub Stores-cases :
      (s s' : S) (w : DpaRecord) (id : String) (d : DpaRecord)
      → Stores repo w s s'
      → repo.get s' id ≡ some d
      → ((w.dpa_id ≡ id) × (w ≡ d)) ⊎ (((w.dpa_id == id) ≡ false) × (repo.get s id ≡ some d))
  Stores-cases s s' w id d st h = ground (arith, st id, eq_iff w.dpa_id id)

  pub Effect-IsSoundStore :
      {compose : DpaComposer} (c : Call) (s s' : S) {r : Result PolicyError DpaRecord}
      → IsSoundStore s
      → Effect laws compose c s r s'
      → IsSoundStore s'
  Effect-IsSoundStore c s s' i (refused e _ same) = rw same i
  Effect-IsSoundStore c s s' i (born w _ _ _ _ st un v stores) = record {
    valid = v;
    sound = λ id d h. elim (Stores-cases s s' w id d stores h) [
      | inl (_, e) ↦ rw e at (fresh-IsSound w st un)
      | inr (_, old) ↦ i.sound id d old
    ];
  }
  Effect-IsSoundStore c s s' i (moved b w _ _ was m v stores) = record {
    valid = v;
    sound = λ id d h. elim (Stores-cases s s' w id d stores h) [
      | inl (_, e) ↦ rw e at (Moves-IsSound c b w (i.sound (target c) b was) m)
      | inr (_, old) ↦ i.sound id d old
    ];
  }

  module _ (compose : DpaComposer) (composer : IsComposer compose) where
    -- From a sound store every sequence of calls, refused ones included, leads to a sound store.
    pub serve-IsSoundStore :
        (s : S) (cs : List Call) → IsSoundStore s → IsSoundStore (serve repo compose s cs)
    unfolding serve
    serve-IsSoundStore s [] i = i
    serve-IsSoundStore s (c ∷ cs) i = serve-IsSoundStore (run_call repo compose c s).1 cs (
        Effect-IsSoundStore c s (run_call repo compose c s).1 i
          (run_call-Effect laws compose c s composer i.valid))
