-- ===== src/Learning/Proposals/Outcome.antt =====
-- core/learning/proposals.py: what a call of the engine leaves.
use proto_v2_engine.Base.{
  ◌≡◌, refl, ap, ◌⊎◌, inl, inr, Bool, true, false, Option, none, some, List, ok, err, ◌>>=◌,
}
use proto_v2_engine.Json.{Json}
use proto_v2_engine.Actions.Authorization.{Raising, Failure, accept_keywords, type_error}
use proto_v2_engine.Learning.Proposals.{
  AnomalyEvent, TemplateSpec, Given, Repos, Answer, SkipReason, Refusal, no_matching_template,
  cooldown_active, patch_validation_failed, skip, conversions, create_proposal,
  policy_patch_proposal, queue, queue_if, with_ops, unless_resting, with_template, rests,
  match_template, validate_jsonpatch_ops, auto_propose_from_anomaly,
}

abbrev raises : (B : Type 0) → Failure → Raising B
raises B e = err e

-- What always raises in the end, raises.
bind_raises :
    {A B : Type 0} (m : Raising A) (e : Failure)
    → (e' : Failure) × ((m >>= λ _. raises B e) ≡ raises B e')
bind_raises (ok a) e = (e, refl)
bind_raises (err e') e = (e', refl)

module _ {F : Type 0} (given : Given F) where
  -- One keyword is no field of the class.
  create_raises :
      (t : TemplateSpec F) (event : AnomalyEvent F) (ops : Json)
      → (e : Failure) × (create_proposal given t event ops ≡ err e)
  unfolding create_proposal policy_patch_proposal accept_keywords
  create_raises t event ops = bind_raises (conversions given event) type_error

  abbrev pub IsOutcome : AnomalyEvent F → Repos → Answer → Type 0
  IsOutcome event repos answer =
      ((reason : SkipReason) × (answer ≡ skip given event reason repos))
      ⊎ ((e : Failure) × (answer ≡ (err e, repos)))

  queue_if-IsOutcome :
      (refusal : Option Refusal) (t : TemplateSpec F) (event : AnomalyEvent F) (ops : Json)
      (repos : Repos)
      → IsOutcome event repos (queue_if given refusal t event ops repos)
  queue_if-IsOutcome (some why) t event ops repos = inl (patch_validation_failed why, refl)
  queue_if-IsOutcome none t event ops repos =
      let (e, h) = create_raises t event ops in inr (e, ap (λ r. queue given event r repos) h)

  with_ops-IsOutcome :
      (built : Raising Json) (t : TemplateSpec F) (event : AnomalyEvent F) (repos : Repos)
      → IsOutcome event repos (with_ops given built t event repos)
  with_ops-IsOutcome (err e) t event repos = inr (e, refl)
  with_ops-IsOutcome (ok ops) t event repos = queue_if-IsOutcome _ t event ops repos

  unless_resting-IsOutcome :
      (resting : Raising Bool) (t : TemplateSpec F) (event : AnomalyEvent F) (repos : Repos)
      → IsOutcome event repos (unless_resting given resting t event repos)
  unless_resting-IsOutcome (err e) t event repos = inr (e, refl)
  unless_resting-IsOutcome (ok true) t event repos = inl (cooldown_active t.cooldown_hours, refl)
  unless_resting-IsOutcome (ok false) t event repos = with_ops-IsOutcome _ t event repos

  with_template-IsOutcome :
      (found : Option (TemplateSpec F)) (event : AnomalyEvent F) (repos : Repos)
      → IsOutcome event repos (with_template given found event repos)
  with_template-IsOutcome none event repos = inl (no_matching_template, refl)
  with_template-IsOutcome (some t) event repos = unless_resting-IsOutcome _ t event repos

  -- Whatever the templates, the event and the repositories are, a call either skips, with a receipt that
  -- is appended and names no proposal, or raises and writes nothing: no proposal is ever saved or queued.
  pub auto_propose-IsOutcome :
      (templates : List (TemplateSpec F)) (event : AnomalyEvent F) (repos : Repos)
      → IsOutcome event repos (auto_propose_from_anomaly given templates event repos)
  unfolding auto_propose_from_anomaly
  auto_propose-IsOutcome templates event repos =
      with_template-IsOutcome (match_template given.lt templates event) event repos

  -- A call raises, and leaves no receipt, for every event that a template fits which does not rest and
  -- whose patch is built and valid.
  pub ready_raises :
      (templates : List (TemplateSpec F)) (event : AnomalyEvent F) (repos : Repos)
      (t : TemplateSpec F) (ops : Json)
      → match_template given.lt templates event ≡ some t
      → rests given t event ≡ ok false
      → t.build_patch_ops event (given.active_version event) ≡ ok ops
      → validate_jsonpatch_ops ops t.allowed_path_prefixes ≡ none
      → (e : Failure) × (auto_propose_from_anomaly given templates event repos ≡ (err e, repos))
  unfolding auto_propose_from_anomaly
  ready_raises templates event repos t ops fits_ awake built valid =
      let (e, h) = create_raises t event ops in
      (e, rw fits_ (rw awake (rw built (rw valid (ap (λ r. queue given event r repos) h)))))
