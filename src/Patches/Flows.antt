-- ===== src/Patches/Flows.antt =====
-- core/B_learning/approval.py: `approve_only` and `apply_after_approvals` over the files.
pub mod Approvers
pub mod Recorded
pub mod Effect
pub mod Once
use proto_v2_engine.Base.{
  ℕ, suc, String, Bool, true, false, not, ◌&&◌, ◌||◌, Option, none, some, List, [], ◌∷◌, ◌++◌, ok,
  err, ◌>>=◌, ◌>>◌, raise_if, leb, ltb, eqb, length, all, filter, codes, is_prefix, truthy, ◌==◌,
  if◌then◌else◌,
}
use proto_v2_engine.Json.{
  put_field, is_truthy, or_else, Json, Items, Fields, null, str, arr, obj, nil, cons, end, field,
  get_json, is_null,
}
use proto_v2_engine.Patches.Pointer.{split_slashes}
use proto_v2_engine.Patches.Store.{
  PolicyFile, PolicySnapshot, runtime_error, latest, save_new_version,
}
use proto_v2_engine.Patches.Approval.{
  ApprovalRecord, Receipt, Files, Hashes, Flow, DryRun, pending, applied, applied_noop,
  approvals_for, find_proposal, dry_run_validate, has_name, pending_approvers, sorted,
}

-- `proposal.get("evidence") or {}`, put into a dict if it is none.
unfoldable pub evidence_of : Json → Fields
unfolding is_truthy
evidence_of (obj fs) = fs
evidence_of v = if is_truthy v then field "_raw" v end else end

module _ (h : Hashes) where
  abbrev is_channel_code : ℕ → Bool
  is_channel_code c = h.is_alnum c || eqb c b'_' || eqb c b'-'

  -- The second part of a path under `/thresholds/`, where it is a channel's identifier.
  abbrev channel_of : List String → Option String
  channel_of [] = none
  channel_of (_ ∷ []) = none
  channel_of (_ ∷ inferred ∷ _) =
      if all is_channel_code (codes inferred) && truthy inferred then some inferred else none

  abbrev inferred_from : String → Option String
  inferred_from path =
      if is_prefix (codes "/thresholds/") (codes path)
      then channel_of (filter truthy (split_slashes path))
      else none

  abbrev channel_in_op : Json → Option String
  channel_in_op (str path) = inferred_from path
  channel_in_op _ = none

  abbrev path_in : Json → Json
  path_in (obj op) = get_json op "path"
  path_in _ = null

  abbrev first_channel : Option String → Json → Json
  first_channel (some c) rest = str c
  first_channel none rest = rest

  -- The loop over the operations: the first that names a channel.
  unfoldable pub infer_channel : Items → Json
  unfolding split_slashes filter codes is_prefix
  infer_channel nil = null
  infer_channel (cons op ops) = first_channel (channel_in_op (path_in op)) (infer_channel ops)

  abbrev infer_from : Json → Json
  infer_from (arr ops) = infer_channel ops
  infer_from _ = null

  unfoldable pub channel_for : Fields → Fields → Json
  unfolding is_truthy infer_channel
  channel_for proposal evidence =
      let given = or_else (get_json proposal "channel") (get_json evidence "channel") in
      if is_null given then infer_from (get_json proposal "patch_ops") else given

  -- The evidence with the channel in it.
  unfoldable pub evidence_with : Fields → Json → Fields
  unfolding put_field
  evidence_with evidence channel =
      if is_null channel then evidence else put_field evidence "channel" channel

  unfoldable pub approve_only :
      (proposal_id reviewer comment now : String) → Files → Flow (ApprovalRecord × Files)
  unfolding find_proposal
  approve_only proposal_id reviewer comment now files = do
    proposal ← find_proposal files.proposals proposal_id
    let rec : ApprovalRecord = record {
      proposal_id = proposal_id;
      decision = "approved";
      reviewer = reviewer;
      ts_iso = now;
      comment = comment;
      policy_target_sha256 = get_json proposal "policy_target_sha256";
      status = pending;
      before_version = none;
      before_sha256 = none;
      after_version = none;
      after_sha256 = none;
      receipt_hash = none;
    }
    ok (
      rec,
      record {
        approvals = files.approvals ++ (rec ∷ []);
        proposals = files.proposals;
        policies = files.policies;
        receipts = files.receipts;
      },
    )

  -- The call's arguments that only the receipt and the record keep.
  abbrev pub Note : Type 0
  Note = String × String × String

  -- The receipt of an application from one snapshot to another.
  abbrev pub receipt_for :
      (proposal_id applier strategy comment ts : String) (min_approvals : ℕ)
      → Fields
      → DryRun
      → List String
      → Bool
      → PolicySnapshot
      → PolicySnapshot
      → Receipt
  receipt_for proposal_id applier strategy comment ts min_approvals proposal result approvers noop
        before after =
      let evidence = evidence_of (get_json proposal "evidence") in
      let channel = channel_for proposal evidence in
      record {
        proposal_id = proposal_id;
        applier = applier;
        ts_iso = ts;
        comment = comment;
        channel = channel;
        before_policy_version = before.version;
        before_policy_sha256 = before.sha256;
        after_policy_version = after.version;
        after_policy_sha256 = after.sha256;
        artifact_hash = get_json proposal "artifact_hash";
        has_warning = result.mismatch;
        patch_ops = get_json proposal "patch_ops";
        evidence = evidence_with evidence channel;
        strategy = strategy;
        is_noop = noop;
        approvers_used = sorted approvers;
        min_approvals = min_approvals;
      }

  -- The record of an application.
  abbrev pub record_for :
      (proposal_id applier comment ts : String) → Fields → Receipt → ApprovalRecord
  record_for proposal_id applier comment ts proposal receipt = record {
    proposal_id = proposal_id;
    decision = "approved";
    reviewer = applier;
    ts_iso = ts;
    comment = comment;
    policy_target_sha256 = get_json proposal "policy_target_sha256";
    status = if receipt.is_noop then applied_noop else applied;
    before_version = some receipt.before_policy_version;
    before_sha256 = some receipt.before_policy_sha256;
    after_version = some receipt.after_policy_version;
    after_sha256 = some receipt.after_policy_sha256;
    receipt_hash = some (h.sha256_of_receipt receipt);
  }

  -- The receipt and the record are written behind the others.
  abbrev pub finish :
      (proposal_id applier comment ts : String)
      → Fields
      → Receipt
      → List PolicyFile
      → Files
      → ApprovalRecord × Files
  finish proposal_id applier comment ts proposal receipt policies files =
      let rec = record_for proposal_id applier comment ts proposal receipt in
      (
        rec,
        record {
          approvals = files.approvals ++ (rec ∷ []);
          proposals = files.proposals;
          policies = policies;
          receipts = files.receipts ++ (receipt ∷ []);
        },
      )

  -- The end of an application that found no reason to stop.
  unfoldable pub commit :
      (proposal_id applier comment strategy ts ts' : String) (min_approvals : ℕ)
      → Fields
      → DryRun
      → List String
      → PolicySnapshot
      → Files
      → Flow (ApprovalRecord × Files)
  unfolding save_new_version evidence_of channel_for evidence_with sorted
  commit proposal_id applier comment strategy ts ts' min_approvals proposal result approvers last
        files =
      if result.after_sha256 == result.before_sha256
      then ok (
          finish proposal_id applier comment ts' proposal
            (receipt_for proposal_id applier strategy comment ts min_approvals proposal result
              approvers true last last)
            files.policies files)
      else (save_new_version h.sha256_of_obj result.patched_policy files.policies
          >>= λ (new, policies). ok (
              finish proposal_id applier comment ts' proposal
                (receipt_for proposal_id applier strategy comment ts min_approvals proposal result
                  approvers false last new)
                policies files))

  unfoldable pub apply_after_approvals :
      (proposal_id applier comment strategy ts ts' : String) (min_approvals : ℕ)
      → Files
      → Flow (ApprovalRecord × Files)
  unfolding approvals_for pending_approvers has_name latest find_proposal dry_run_validate commit
  apply_after_approvals proposal_id applier comment strategy ts ts' min_approvals files = do
    let approvers = pending_approvers (approvals_for files.approvals proposal_id)
    raise_if (leb 2 min_approvals && has_name approvers applier) runtime_error
    raise_if (ltb (length approvers) min_approvals) runtime_error
    last ← latest h.sha256_of_obj files.policies
    proposal ← find_proposal files.proposals proposal_id
    result ← dry_run_validate h proposal last.policy
    raise_if (result.mismatch && strategy == "reject") runtime_error
    commit proposal_id applier comment strategy ts ts' min_approvals proposal result approvers last
        files
