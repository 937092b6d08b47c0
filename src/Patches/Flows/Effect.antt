-- ===== src/Patches/Flows/Effect.antt =====
-- core/B_learning/approval.py: what an application of a patch needs and what it leaves.

use proto_v2_engine.Base.{
  raise_if-false, ℕ, suc, ◌≤◌, String, Bool, true, false, ◌&&◌, All, ◌≡◌, refl, sym, ap, ◌∙◌, ◌⊎◌,
  inl, inr, some, List, [], ◌∷◌, ◌++◌, ok, raise_if, leb, ltb, length, filter, >>=-elim, Bool-cases,
  arith, ◌==◌, if◌then◌else◌,
}
use proto_v2_engine.Json.{Fields}
use proto_v2_engine.Patches.Store.{PolicyFile, PolicySnapshot, snapshot, latest, runtime_error}
use proto_v2_engine.Patches.Store.Versions.{save-latest}
use proto_v2_engine.Patches.Approval.{
  ApprovalRecord, Receipt, Files, Hashes, Flow, DryRun, applied, applied_noop, approvals_for,
  find_proposal, counts, reviewers, dry_run_validate, has_name, pending_approvers,
}
use proto_v2_engine.Patches.Flows.{receipt_for, finish, commit, apply_after_approvals}
use proto_v2_engine.Patches.Flows.Approvers.{
  IsDistinct, IsApprovedBy, distinct_names-IsDistinct, distinct_names-has_name,
  reviewers-IsApprovedBy, All-names,
}

abbrev went_through : ApprovalRecord × Files → Flow (ApprovalRecord × Files)
went_through done = ok done

ok_pair :
    {r r' : ApprovalRecord} {f f' : Files} → went_through (r, f) ≡ ok (r', f') → (r ≡ r') × (f ≡ f')
ok_pair e = (cc e, cc e)

module _ (h : Hashes) (proposal_id applier comment strategy ts ts' : String)
    (min_approvals : ℕ) where
  abbrev pub approvers_of : Files → List String
  approvers_of files = pending_approvers (approvals_for files.approvals proposal_id)

  -- What the call found when it went through.
  pub record IsApplication (files files' : Files) (rec : ApprovalRecord) : Type 0 where
    pub last : PolicySnapshot
    pub proposal : Fields
    pub result : DryRun
    pub at_latest : latest h.sha256_of_obj files.policies ≡ ok last
    pub is_found : find_proposal files.proposals proposal_id ≡ ok proposal
    pub is_checked : dry_run_validate h proposal last.policy ≡ ok result
    pub enough : min_approvals ≤ length (approvers_of files)
    pub no_self_approval :
        (leb 2 min_approvals ≡ false) ⊎ (has_name (approvers_of files) applier ≡ false)
    pub not_stale : ((strategy == "reject") ≡ false) ⊎ (result.mismatch ≡ false)
    pub committed :
        commit h proposal_id applier comment strategy ts ts' min_approvals proposal result
          (approvers_of files)
          last
          files
        ≡ ok (rec, files')

  and_false : (a b : Bool) → (a && b) ≡ false → (a ≡ false) ⊎ (b ≡ false)
  and_false true b e = inr e
  and_false false b e = inl refl

  and_false_swapped : (a b : Bool) → (a && b) ≡ false → (b ≡ false) ⊎ (a ≡ false)
  and_false_swapped true b e = inl e
  and_false_swapped false b e = inr refl

  pub apply-IsApplication :
      (files files' : Files) (rec : ApprovalRecord)
      → apply_after_approvals h proposal_id applier comment strategy ts ts' min_approvals files
        ≡ ok (rec, files')
      → IsApplication files files' rec
  unfolding apply_after_approvals
  apply-IsApplication files files' rec e =
      >>=-elim
        (raise_if (leb 2 min_approvals && has_name (approvers_of files) applier) runtime_error) _ e
        (λ _ self e1.
          >>=-elim (raise_if (ltb (length (approvers_of files)) min_approvals) runtime_error) _ e1
            (λ _ enough e2.
              >>=-elim (latest h.sha256_of_obj files.policies) _ e2 (λ last at_latest e3.
                >>=-elim (find_proposal files.proposals proposal_id) _ e3 (λ proposal is_found e4.
                  >>=-elim (dry_run_validate h proposal last.policy) _ e4 (λ result is_checked e5.
                    >>=-elim (raise_if (result.mismatch && strategy == "reject") runtime_error) _ e5
                      (λ _ stale e6. record {
                        last = last;
                        proposal = proposal;
                        result = result;
                        at_latest = at_latest;
                        is_found = is_found;
                        is_checked = is_checked;
                        enough = ground (arith, raise_if-false _ runtime_error enough);
                        no_self_approval = and_false _ _ (raise_if-false _ runtime_error self);
                        not_stale = and_false_swapped _ _ (raise_if-false _ runtime_error stale);
                        committed = e6;
                      }))))))

  -- A set of names that carries an application: different, enough, each with its approval, and without
  -- the applier where two are needed.
  pub record IsQuorum (records : List ApprovalRecord) (names : List String) : Type 0 where
    pub distinct : IsDistinct names
    pub enough : min_approvals ≤ length names
    pub approved : All (λ n. IsApprovedBy records proposal_id n) names
    pub no_self_approval : (leb 2 min_approvals ≡ false) ⊎ (has_name names applier ≡ false)

  -- An application that goes through rests on a quorum: at least `min_approvals` different reviewers,
  -- each with a pending approval of the proposal on record, and the applier none of them where two or
  -- more approvals are needed.
  pub apply-IsQuorum :
      (files files' : Files) (rec : ApprovalRecord)
      → apply_after_approvals h proposal_id applier comment strategy ts ts' min_approvals files
        ≡ ok (rec, files')
      → (names : List String) × IsQuorum files.approvals names
  unfolding pending_approvers
  apply-IsQuorum files files' rec e =
      let a = apply-IsApplication files files' rec e in
      (
        approvers_of files,
        record {
          distinct =
              distinct_names-IsDistinct
                (reviewers (filter counts (approvals_for files.approvals proposal_id)));
          enough = a.enough;
          approved = All-names (approvers_of files) (λ n here.
              reviewers-IsApprovedBy files.approvals proposal_id n (
                distinct_names-has_name
                  (reviewers (filter counts (approvals_for files.approvals proposal_id))) n here));
          no_self_approval = a.no_self_approval;
        },
      )

  -- What an application leaves.
  pub record IsOutcome (files files' : Files) (rec : ApprovalRecord) (last : PolicySnapshot)
      (result : DryRun) : Type 0 where
    pub recorded : files'.approvals ≡ files.approvals ++ (rec ∷ [])
    pub same_proposals : files'.proposals ≡ files.proposals
    pub receipted :
        (r : Receipt) × (files'.receipts ≡ files.receipts ++ (r ∷ []))
        × (rec.receipt_hash ≡ some (h.sha256_of_receipt r))
    pub policies :
        ((result.after_sha256 == result.before_sha256) ≡ true)
          × (rec.status ≡ applied_noop)
          × (files'.policies ≡ files.policies)
        ⊎ ((result.after_sha256 == result.before_sha256) ≡ false)
          × (rec.status ≡ applied)
          × (latest h.sha256_of_obj files'.policies
              ≡ ok (
                  if ltb last.version 9999
                  then snapshot h.sha256_of_obj (suc last.version) result.patched_policy
                  else last))

  -- What the end of an application writes.
  finish-cases :
      (proposal : Fields) (r : Receipt) (policies : List PolicyFile) (files files' : Files)
      (rec : ApprovalRecord)
      → went_through (finish h proposal_id applier comment ts' proposal r policies files)
        ≡ ok (rec, files')
      → (files'.approvals ≡ files.approvals ++ (rec ∷ []))
        × (files'.proposals ≡ files.proposals)
        × (files'.receipts ≡ files.receipts ++ (r ∷ []))
        × (rec.receipt_hash ≡ some (h.sha256_of_receipt r))
        × (rec.status ≡ (if r.is_noop then applied_noop else applied))
        × (files'.policies ≡ policies)
  finish-cases proposal r policies files files' rec e =
      let (same_rec, same_files) = ok_pair e in
      (
        sym (ap (λ (f : Files). f.approvals) same_files)
            ∙ ap (λ x. files.approvals ++ (x ∷ [])) same_rec,
        sym (ap (λ (f : Files). f.proposals) same_files),
        sym (ap (λ (f : Files). f.receipts) same_files),
        sym (ap (λ (x : ApprovalRecord). x.receipt_hash) same_rec),
        sym (ap (λ (x : ApprovalRecord). x.status) same_rec),
        sym (ap (λ (f : Files). f.policies) same_files),
      )

  abbrev receipt_of :
      Fields → DryRun → List String → Bool → PolicySnapshot → PolicySnapshot → Receipt
  receipt_of proposal result approvers noop before after =
      receipt_for h proposal_id applier strategy comment ts min_approvals proposal result approvers
        noop before after

  commit-IsOutcome :
      (proposal : Fields) (result : DryRun) (approvers : List String) (last : PolicySnapshot)
      (files files' : Files) (rec : ApprovalRecord)
      → latest h.sha256_of_obj files.policies ≡ ok last
      → commit h proposal_id applier comment strategy ts ts' min_approvals proposal result approvers
          last files
        ≡ ok (rec, files')
      → IsOutcome files files' rec last result
  unfolding commit
  commit-IsOutcome proposal result approvers last files files' rec at_latest e =
      elim (Bool-cases (result.after_sha256 == result.before_sha256)) [
        | inl same ↦
            let r = receipt_of proposal result approvers true last last in
            let (approvals, proposals, receipts, hash, status, policies) =
              finish-cases proposal r files.policies files files' rec (rw same at e) in
            record {
              recorded = approvals;
              same_proposals = proposals;
              receipted = (r, receipts, hash);
              policies = inl (same, status, policies);
            }
        | inr changed ↦
            let (dir, saved, found) =
              save-latest h.sha256_of_obj result.patched_policy files.policies last at_latest in
            let new = snapshot h.sha256_of_obj (suc last.version) result.patched_policy in
            let r = receipt_of proposal result approvers false last new in
            let (approvals, proposals, receipts, hash, status, policies) =
              finish-cases proposal r dir files files' rec (rw saved at rw changed at e) in
            record {
              recorded = approvals;
              same_proposals = proposals;
              receipted = (r, receipts, hash);
              policies = inr (changed, status, rw policies found);
            }
      ]

  -- An application that goes through appends its record and one receipt with that record's hash, and
  -- leaves the proposals. Where the patch changes nothing the policies stay and the record says so; else
  -- the patched policy is saved under the next number and is the latest one, up to number 9999.
  pub apply-IsOutcome :
      (files files' : Files) (rec : ApprovalRecord)
      → apply_after_approvals h proposal_id applier comment strategy ts ts' min_approvals files
        ≡ ok (rec, files')
      → (a : IsApplication files files' rec) × IsOutcome files files' rec a.last a.result
  apply-IsOutcome files files' rec e =
      let a = apply-IsApplication files files' rec e in
      (
        a,
        commit-IsOutcome a.proposal a.result (approvers_of files) a.last files files' rec
            a.at_latest a.committed,
      )
