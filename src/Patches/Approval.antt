-- ===== src/Patches/Approval.antt =====
-- core/B_learning/approval.py: the approvals of policy patches and their application. A JSONL file is the
-- list of its records. The texts of times are arguments; SHA-256, and what `isalnum` says of a code
-- point, are parameters.
use Prim.Native.Nat.{Ordering}
use Prim.Native.String.{compare}
use proto_v2_engine.Base.{
  ℕ, String, Bool, true, false, not, ◌&&◌, Option, List, [], ◌∷◌, Result, ok, err, ◌>>=◌, map_err,
  any, filter, truthy, ◌==◌, if◌then◌else◌,
}
use proto_v2_engine.Json.{is_truthy, Json, Items, Fields, arr, cons, get_json, is_text}
use proto_v2_engine.Patches.Patch.{apply_patch}
use proto_v2_engine.Patches.Store.{FlowError, PolicyFile, key_error, patch_error}

pub data Status : Type 0 where
  pending applied rejected applied_noop : Status

abbrev pub is_pending : Status → Bool
is_pending pending = true
is_pending _ = false

pub record ApprovalRecord : Type 0 where
  pub proposal_id : String
  pub decision : String
  pub reviewer : String
  pub ts_iso : String
  pub comment : String
  pub policy_target_sha256 : Json
  pub status : Status
  pub before_version : Option ℕ
  pub before_sha256 : Option String
  pub after_version : Option ℕ
  pub after_sha256 : Option String
  pub receipt_hash : Option String

-- What is printed as the receipt of an application.
pub record Receipt : Type 0 where
  pub proposal_id : String
  pub applier : String
  pub ts_iso : String
  pub comment : String
  pub channel : Json
  pub before_policy_version : ℕ
  pub before_policy_sha256 : String
  pub after_policy_version : ℕ
  pub after_policy_sha256 : String
  pub artifact_hash : Json
  pub has_warning : Bool
  pub patch_ops : Json
  pub evidence : Fields
  pub strategy : String
  pub is_noop : Bool
  pub approvers_used : List String
  pub min_approvals : ℕ

-- The files that the flows read and write.
pub record Files : Type 0 where
  pub approvals : List ApprovalRecord
  pub proposals : List Fields
  pub policies : List PolicyFile
  pub receipts : List Receipt

pub record Hashes : Type 0 where
  pub sha256_of_obj : Json → String
  pub sha256_of_receipt : Receipt → String
  pub is_alnum : ℕ → Bool

abbrev pub Flow : Type 0 → Type 0
Flow A = Result FlowError A

unfoldable pub approvals_for : List ApprovalRecord → String → List ApprovalRecord
unfolding filter
approvals_for records id = filter (λ r. r.proposal_id == id) records

unfoldable pub find_proposal : List Fields → String → Flow Fields
find_proposal [] id = err key_error
find_proposal (p ∷ ps) id =
    let rest = find_proposal ps id in if is_text (get_json p "proposal_id") id then ok p else rest

pub record DryRun : Type 0 where
  pub mismatch : Bool
  pub before_sha256 : String
  pub after_sha256 : String
  pub patched_policy : Json

-- `patch_ops`, where it is a list that is not empty.
unfoldable pub require_ops : Json → Flow Items
require_ops (arr (cons op ops)) = ok (cons op ops)
require_ops _ = err patch_error

module _ (h : Hashes) where
  -- The one warning there is, `BASE_POLICY_HASH_MISMATCH`, is the field `mismatch`.
  unfoldable pub dry_run_validate : Fields → Json → Flow DryRun
  unfolding require_ops is_truthy apply_patch
  dry_run_validate proposal policy = do
    ops ← require_ops (get_json proposal "patch_ops")
    patched ← map_err (λ _. patch_error) (apply_patch ops policy)
    ok record {
      mismatch =
          is_truthy (get_json proposal "policy_target_sha256")
          && not (is_text (get_json proposal "policy_target_sha256") (h.sha256_of_obj policy));
      before_sha256 = h.sha256_of_obj policy;
      after_sha256 = h.sha256_of_obj patched;
      patched_policy = patched;
    }

-- A set of reviewers, in the order of their first approvals.
unfoldable pub has_name : List String → String → Bool
has_name names s = any (λ n. n == s) names

unfoldable pub distinct_names : List String → List String
unfolding has_name
distinct_names [] = []
distinct_names (s ∷ ss) = let rest = distinct_names ss in if has_name rest s then rest else s ∷ rest

unfoldable pub reviewers : List ApprovalRecord → List String
reviewers [] = []
reviewers (r ∷ rs) = r.reviewer ∷ reviewers rs

abbrev pub counts : ApprovalRecord → Bool
counts r = r.decision == "approved" && is_pending r.status && truthy r.reviewer

-- `pending_approvers`
unfoldable pub pending_approvers : List ApprovalRecord → List String
unfolding filter reviewers distinct_names
pending_approvers rs = distinct_names (reviewers (filter counts rs))

-- `sorted`
unfoldable insert_name : String → List String → List String
insert_name s [] = s ∷ []
insert_name s (t ∷ ts) =
    let rest = insert_name s ts in
    if (elim (compare s t) [ Ordering.gt ↦ false | _ ↦ true ]) then s ∷ t ∷ ts else t ∷ rest

unfoldable pub sorted : List String → List String
unfolding insert_name
sorted [] = []
sorted (s ∷ ss) = insert_name s (sorted ss)
