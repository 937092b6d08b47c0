-- ===== src/Patches/Flows/Once.antt =====
-- core/B_learning/approval.py: a second application of a proposal that names the policy it is made for.
use text.Mathlib.TextEquality.{eq_iff}
use proto_v2_engine.Base.{
  ℕ, suc, ◌<◌, String, Bool, true, false, not, ◌&&◌, ◌≡◌, refl, sym, ap, ◌∙◌, inl, ◌⊎◌, inr, ok,
  is_ok, ltb, map_err, >>=-elim, Result-cases, not-false, arith, ◌==◌,
}
use proto_v2_engine.Json.{is_truthy, Json, Fields, null, str, get_json, is_text}
use proto_v2_engine.Patches.Patch.{apply_patch}
use proto_v2_engine.Patches.Store.{PolicySnapshot, snapshot, latest}
use proto_v2_engine.Patches.Approval.{
  ApprovalRecord, Files, Hashes, DryRun, Flow, applied, find_proposal, require_ops,
  dry_run_validate,
}
use proto_v2_engine.Patches.Flows.{apply_after_approvals}
use proto_v2_engine.Patches.Flows.Effect.{apply-IsApplication, apply-IsOutcome}

-- The policy that a proposal is made for: its hash is given.
abbrev target : Fields → Json
target proposal = get_json proposal "policy_target_sha256"

abbrev ran : DryRun → Flow DryRun
ran r = ok r

-- Under the strategy `reject` there was no warning.
no_warning : {m : Bool} → (("reject" == "reject") ≡ false) ⊎ (m ≡ false) → m ≡ false
no_warning (inl h) = cc
no_warning (inr h) = h

run_eq : {r r' : DryRun} → ran r ≡ ok r' → r ≡ r'
run_eq e = cc e

-- A value that equals two texts.
same_texts : (v : Json) (a b : String) → is_text v a ≡ true → is_text v b ≡ true → (b == a) ≡ true
same_texts (str s) a b h k = ground (arith, eq_iff s a, eq_iff s b, eq_iff b a)
same_texts null a b h k = cc
same_texts (Json.obj _) a b h k = cc
same_texts (Json.bool _) a b h k = cc
same_texts (Json.int _) a b h k = cc
same_texts (Json.float _) a b h k = cc
same_texts (Json.decimal _) a b h k = cc
same_texts (Json.arr _) a b h k = cc

module _ (h : Hashes) where
  -- What a dry run says of the hashes.
  record IsRun (proposal : Fields) (policy : Json) (result : DryRun) : Type 0 where
    tested :
        result.mismatch
        ≡ (is_truthy (target proposal) && not (is_text (target proposal) (h.sha256_of_obj policy)))
    before : result.before_sha256 ≡ h.sha256_of_obj policy
    after : result.after_sha256 ≡ h.sha256_of_obj result.patched_policy

  dry_run-IsRun :
      (proposal : Fields) (policy : Json) (result : DryRun)
      → dry_run_validate h proposal policy ≡ ok result
      → IsRun proposal policy result
  unfolding dry_run_validate
  dry_run-IsRun proposal policy result e =
      >>=-elim (require_ops (get_json proposal "patch_ops")) _ e (λ ops _ e1.
        >>=-elim (map_err _ (apply_patch ops policy)) _ e1 (λ patched _ e2. record {
          tested = ap (λ (r : DryRun). r.mismatch) (sym (run_eq e2));
          before = ap (λ (r : DryRun). r.before_sha256) (sym (run_eq e2));
          after =
              ap (λ (r : DryRun). r.after_sha256) (sym (run_eq e2))
              ∙ ap (λ (r : DryRun). h.sha256_of_obj r.patched_policy) (run_eq e2);
        }))

  -- A run without a warning of a proposal with a hash: the hash is that of the policy.
  is_current :
      (proposal : Fields) (policy : Json) (result : DryRun)
      → IsRun proposal policy result
      → is_truthy (target proposal) ≡ true
      → result.mismatch ≡ false
      → is_text (target proposal) (h.sha256_of_obj policy) ≡ true
  is_current proposal policy result run given fresh =
      not-false _ (rw given at (sym run.tested ∙ fresh))

  -- Two runs without a warning, the second on the policy that the first patched: the patch changed nothing.
  same_hashes :
      (p p' : Fields) (policy policy' : Json) (r r' : DryRun)
      → IsRun p policy r
      → IsRun p' policy' r'
      → p' ≡ p
      → policy' ≡ r.patched_policy
      → is_truthy (target p) ≡ true
      → r.mismatch ≡ false
      → r'.mismatch ≡ false
      → (r.after_sha256 == r.before_sha256) ≡ true
  same_hashes p p' policy policy' r r' run run' same_p same_policy given fresh fresh' =
      let first = is_current p policy r run given fresh in
      let given' : is_truthy (target p') ≡ true = rw same_p given in
      let second = is_current p' policy' r' run' given' fresh' in
      let second' : is_text (target p) (h.sha256_of_obj r.patched_policy) ≡ true =
        rw (← same_p) (rw (← same_policy) second) in
      rw run.after (
        rw run.before (
          same_texts (target p) (h.sha256_of_obj policy) (h.sha256_of_obj r.patched_policy) first
            second'))

  abbrev at : PolicySnapshot → Flow PolicySnapshot
  at s = ok s

  abbrev found : Fields → Flow Fields
  found p = ok p

  at_eq : {r : Flow PolicySnapshot} {s s' : PolicySnapshot} → r ≡ at s → r ≡ at s' → s ≡ s'
  at_eq e e' = cc (sym e ∙ e')

  found_eq : {r : Flow Fields} {p p' : Fields} → r ≡ found p → r ≡ found p' → p ≡ p'
  found_eq e e' = cc (sym e ∙ e')

  -- After an application under the strategy `reject` that changed the policy, of a proposal that gives
  -- the hash of the policy it is made for, no application of the proposal under that strategy goes
  -- through, whoever approves and applies it, while the policies and the proposals stay as it left
  -- them. The version before it is below 9999.
  pub applied_blocks :
      (id applier comment ts ts' : String) (min_approvals : ℕ) (files files' : Files)
      (rec : ApprovalRecord) (last : PolicySnapshot) (proposal : Fields)
      → apply_after_approvals h id applier comment "reject" ts ts' min_approvals files
        ≡ ok (rec, files')
      → rec.status ≡ applied
      → latest h.sha256_of_obj files.policies ≡ ok last
      → last.version < 9999
      → find_proposal files.proposals id ≡ ok proposal
      → is_truthy (get_json proposal "policy_target_sha256") ≡ true
      → (later : Files) → later.policies ≡ files'.policies
      → later.proposals ≡ files'.proposals
      → (applier' comment' us us' : String) (min_approvals' : ℕ)
      → is_ok (apply_after_approvals h id applier' comment' "reject" us us' min_approvals' later)
        ≡ false
  applied_blocks id applier comment ts ts' min_approvals files files' rec last proposal done status
        at_latest small is_found given later same_policies same_proposals applier' comment' us us'
        min_approvals' =
      elim (Result-cases
        (apply_after_approvals h id applier' comment' "reject" us us' min_approvals' later)) [
          | inr (reason, e) ↦ rw e refl
          | inl ((rec', files''), e) ↦
              let (a, outcome) =
                apply-IsOutcome h id applier comment "reject" ts ts' min_approvals files files' rec
                  done in
              let b =
                apply-IsApplication h id applier' comment' "reject" us us' min_approvals' later
                  files'' rec' e in
              absurd (elim outcome.policies [
                | inl (_, noop, _) ↦ cc (sym noop ∙ status)
                | inr (changed, _, latest') ↦
                    let same_last = at_eq at_latest a.at_latest in
                    let below : ltb a.last.version 9999 ≡ true = rw (← same_last) (ground arith) in
                    let after : latest h.sha256_of_obj later.policies
                        ≡ at (
                            snapshot h.sha256_of_obj (suc a.last.version) a.result.patched_policy) =
                      rw same_policies (rw below at latest') in
                    let same_policy =
                      ap (λ (s : PolicySnapshot). s.policy) (at_eq b.at_latest after) in
                    let here : find_proposal later.proposals id ≡ found a.proposal =
                      rw same_proposals (rw outcome.same_proposals a.is_found) in
                    let given' : is_truthy (target a.proposal) ≡ true =
                      rw (← found_eq is_found a.is_found) given in
                    cc (
                      sym changed
                      ∙ same_hashes a.proposal b.proposal a.last.policy b.last.policy a.result
                          b.result (dry_run-IsRun a.proposal a.last.policy a.result a.is_checked)
                          (dry_run-IsRun b.proposal b.last.policy b.result b.is_checked)
                          (found_eq b.is_found here) same_policy given' (no_warning a.not_stale)
                          (no_warning b.not_stale))
              ])
        ]
