-- ===== src/Governance/Replay.antt =====
-- The evaluations of core/governance/queue_evaluator.py: when a patch is applied, and which baselines
-- are on record then.
use mathlib.Core.List.{Memᴰ}
use text.Mathlib.TextEquality.{eq_iff}
use proto_v2_engine.Base.{
  String, Bool, ◌≡◌, refl, inl, inr, true, false, List, [], ◌∷◌, arith, if◌then◌else◌, ◌==◌,
  Bool-cases,
}
use proto_v2_engine.Governance.Proposal.{PolicyProposal}
use proto_v2_engine.Governance.Queue.{
  QueueResult, applied, skipped, QueueOutcome, QueueDeps, evaluate_proposal_constitutional,
  evaluate_all,
}

abbrev pub is_applied_result : QueueResult → Bool
is_applied_result applied = true
is_applied_result _ = false

-- The results that come of a call of `apply_patch`.
abbrev pub is_patch_result : QueueResult → Bool
is_patch_result applied = true
is_patch_result skipped = true
is_patch_result _ = false

unfoldable pub applied_baselines : List QueueOutcome → List String
applied_baselines [] = []
applied_baselines (o ∷ os) =
    let rest = applied_baselines os in
    if is_applied_result o.result then o.baseline_policy_hash ∷ rest else rest

abbrev pub IsDistinct : List String → Type 0
IsDistinct [] = Unit
IsDistinct (x ∷ xs) = (Memᴰ x xs → ⊥) × IsDistinct xs

-- What the evaluator relies on: a patch that is reported as applied is on record under its baseline,
-- and what is on record stays.
pub record IsPolicyStore {S F : Type 0} (deps : QueueDeps S F) : Type 0 where
  pub records :
      (p : PolicyProposal F) (s : S)
      → (deps.apply_patch p s).0.is_applied ≡ true
      → deps.has_policy_hash_been_applied (deps.apply_patch p s).1 p.baseline.policy_hash ≡ true
  pub keeps :
      (p : PolicyProposal F) (s : S) (h : String)
      → deps.has_policy_hash_been_applied s h ≡ true
      → deps.has_policy_hash_been_applied (deps.apply_patch p s).1 h ≡ true

report_result : (b : Bool) → is_applied_result (if b then applied else skipped) ≡ b
report_result true = refl
report_result false = refl

module _ {S F : Type 0} (deps : QueueDeps S F) where
  -- An evaluation that stopped at a test, or that called `apply_patch`.
  pub data Verdict (p : PolicyProposal F) (s : S) (o : QueueOutcome) (s' : S) : Type 0 where
    stops :
        is_patch_result o.result ≡ false
        → s' ≡ s
        → o.policy_hash_after ≡ o.policy_hash_before
        → Verdict p s o s'
    patches :
        is_applied_result o.result ≡ (deps.apply_patch p s).0.is_applied
        → deps.is_noop p s ≡ false
        → deps.has_policy_hash_been_applied s p.baseline.policy_hash ≡ false
        → p.baseline.policy_hash ≡ deps.get_current_policy_hash s
        → s' ≡ (deps.apply_patch p s).1
        → Verdict p s o s'

  -- An evaluation either leaves the store and the policy hash, with a result other than applied and
  -- skipped, or calls `apply_patch` once, on a proposal that is no no-op, whose baseline is the
  -- current hash and was not applied before; then the result is applied exactly where the patch was.
  pub evaluate-Verdict :
      (p : PolicyProposal F) (s : S)
      → Verdict p s
          (evaluate_proposal_constitutional deps p s).0
          (evaluate_proposal_constitutional deps p s).1
  unfolding evaluate_proposal_constitutional
  evaluate-Verdict p s = elim (Bool-cases (deps.is_noop p s)) [
    | inl n ↦ rw n (stops refl refl refl)
    | inr n ↦ rw n (elim (Bool-cases (deps.has_policy_hash_been_applied s p.baseline.policy_hash)) [
      | inl d ↦ rw d (stops refl refl refl)
      | inr d ↦ rw d (elim (Bool-cases (p.baseline.policy_hash == deps.get_current_policy_hash s)) [
        | inl c ↦ rw c (
            patches (report_result _) n d
              (ground (arith, eq_iff p.baseline.policy_hash (deps.get_current_policy_hash s))) refl)
        | inr c ↦ rw c (stops refl refl refl)
      ])
    ])
  ]

module _ {S F : Type 0} {deps : QueueDeps S F} (laws : IsPolicyStore deps) where
  Verdict-keeps :
      {p : PolicyProposal F} {s s' : S} {o : QueueOutcome} (h : String)
      → Verdict deps p s o s'
      → deps.has_policy_hash_been_applied s h ≡ true
      → deps.has_policy_hash_been_applied s' h ≡ true
  Verdict-keeps h (stops _ same _) e = rw same e
  Verdict-keeps {p} {s} h (patches _ _ _ _ same) e = rw same (laws.keeps p s h e)

  -- An applied result is for a baseline that was not on record and is now.
  Verdict-applied :
      {p : PolicyProposal F} {s s' : S} {o : QueueOutcome}
      → Verdict deps p s o s'
      → is_applied_result o.result ≡ true
      → (deps.has_policy_hash_been_applied s p.baseline.policy_hash ≡ false)
        × (deps.has_policy_hash_been_applied s' p.baseline.policy_hash ≡ true)
  Verdict-applied {o = o} (stops un _ _) e = absurd (ground arith)
  Verdict-applied {p} {s} (patches done _ fresh _ same) e =
      (fresh, rw same (laws.records p s (ground arith)))

  evaluate-baseline :
      (p : PolicyProposal F) (s : S)
      → (evaluate_proposal_constitutional deps p s).0.baseline_policy_hash ≡ p.baseline.policy_hash
  unfolding evaluate_proposal_constitutional
  evaluate-baseline p s = ground arith

  -- Nothing that is on record is applied by later evaluations.
  recorded-unapplied :
      (ps : List (PolicyProposal F)) (s : S) (h : String)
      → deps.has_policy_hash_been_applied s h ≡ true
      → Memᴰ h (applied_baselines (evaluate_all deps ps s).0)
      → ⊥
  unfolding evaluate_all applied_baselines
  recorded-unapplied [] s h e m = elim m [ ]
  recorded-unapplied (p ∷ ps) s h e m =
      let verdict = evaluate-Verdict deps p s in
      let later =
        recorded-unapplied ps (evaluate_proposal_constitutional deps p s).1 h
          (Verdict-keeps h verdict e) in
      elim (Bool-cases (is_applied_result (evaluate_proposal_constitutional deps p s).0.result)) [
        | inr un ↦ later (rw un at m)
        | inl done ↦ here (rw done at m) later (Verdict-applied verdict done).0
      ]
    where
      here :
          Memᴰ h (
            (evaluate_proposal_constitutional deps p s).0.baseline_policy_hash
            ∷ applied_baselines
                (evaluate_all deps ps (evaluate_proposal_constitutional deps p s).1).0)
          → (Memᴰ h (
                applied_baselines
                  (evaluate_all deps ps (evaluate_proposal_constitutional deps p s).1).0)
              → ⊥)
          → deps.has_policy_hash_been_applied s p.baseline.policy_hash ≡ false
          → ⊥
      here (Memᴰ.head same) later fresh =
          let base : h ≡ p.baseline.policy_hash = cc (evaluate-baseline p s) in cc (rw base at e)
      here (Memᴰ.tail m) later fresh = later m

  -- Over any proposals handed to the queue one after the other, the baselines that are applied are
  -- distinct.
  pub applied_once :
      (ps : List (PolicyProposal F)) (s : S)
      → IsDistinct (applied_baselines (evaluate_all deps ps s).0)
  unfolding evaluate_all applied_baselines
  applied_once [] s = tt
  applied_once (p ∷ ps) s =
      let later = applied_once ps (evaluate_proposal_constitutional deps p s).1 in
      elim (Bool-cases (is_applied_result (evaluate_proposal_constitutional deps p s).0.result)) [
        | inr un ↦ rw un later
        | inl done ↦ rw done (
          rw (evaluate-baseline p s) (
              recorded-unapplied ps (evaluate_proposal_constitutional deps p s).1
                p.baseline.policy_hash (Verdict-applied (evaluate-Verdict deps p s) done).1),
          later,
        )
      ]
