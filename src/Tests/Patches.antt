-- ===== src/Tests/Patches.antt =====
-- The patches of policies at concrete inputs.
use proto_v2_engine.Base.{
  [], some, ℕ, String, true, false, ◌≡◌, refl, none, List, [], ◌∷◌, ok, is_ok, eqb, ltb, arith,
  if◌then◌else◌,
}
use proto_v2_engine.Json.{
  is_truthy, Json, Fields, int, str, arr, obj, nil, cons, end, field, pos, value_at, get_json,
}
use proto_v2_engine.Patches.Pointer.{split_pointer}
use proto_v2_engine.Patches.Document.{get_at, exists_at}
use proto_v2_engine.Patches.Patch.{apply_op, apply_patch}
use proto_v2_engine.Patches.Patch.Replace.{replace-get_at}
use proto_v2_engine.Patches.Store.{PolicyFile, snapshot, latest, save_new_version}
use proto_v2_engine.Patches.Store.Versions.{save-latest}
use proto_v2_engine.Patches.Approval.{
  ApprovalRecord, Receipt, Files, Hashes, DryRun, pending, find_proposal,
}
use proto_v2_engine.Patches.Flows.{receipt_for, finish, apply_after_approvals, approve_only}
use proto_v2_engine.Patches.Flows.Effect.{
  IsQuorum, IsApplication, IsOutcome, apply-IsQuorum, apply-IsOutcome,
}
use proto_v2_engine.Patches.Flows.Recorded.{written}
use proto_v2_engine.Patches.Flows.Once.{applied_blocks}

abbrev policy : ℕ → Json
policy n = obj (field "limit" (int (pos n)) end)

-- Enough of a hash to tell the policies of this scene apart.
abbrev sha : Json → String
sha (obj (field k (int (pos n)) fs)) = if eqb n 1 then "one" else "two"
sha _ = "other"

abbrev hashes : Hashes
hashes = record { sha256_of_obj = sha; sha256_of_receipt = λ r. "r1"; is_alnum = λ c. true }

abbrev patch_op : Json
patch_op =
    obj (field "op" (str "replace") (field "path" (str "/limit") (field "value" (int (pos 2)) end)))

abbrev proposal : Fields
proposal =
    field "proposal_id" (str "p1")
      (field "patch_ops" (arr (cons patch_op nil)) (field "policy_target_sha256" (str "one") end))

abbrev approval : String → ApprovalRecord
approval reviewer = record {
  proposal_id = "p1";
  decision = "approved";
  reviewer = reviewer;
  ts_iso = "t0";
  comment = "";
  policy_target_sha256 = str "one";
  status = pending;
  before_version = none;
  before_sha256 = none;
  after_version = none;
  after_sha256 = none;
  receipt_hash = none;
}

abbrev files : Files
files = record {
  approvals = approval "ana" ∷ approval "ben" ∷ approval "ana" ∷ [];
  proposals = proposal ∷ [];
  policies = record { number = 1; content = policy 1 } ∷ [];
  receipts = [];
}

abbrev run : DryRun
run = record {
  mismatch = false;
  before_sha256 = "one";
  after_sha256 = "two";
  patched_policy = policy 2;
}

abbrev receipt : Receipt
receipt =
    receipt_for hashes "p1" "cy" "reject" "go" "t1" 2 proposal run ("ben" ∷ "ana" ∷ []) false
      (snapshot sha 1 (policy 1)) (snapshot sha 2 (policy 2))

abbrev both : ApprovalRecord × Files
both =
    finish hashes "p1" "cy" "go" "t2" proposal receipt
      (record { number = 1; content = policy 1 } ∷ record { number = 2; content = policy 2 } ∷ [])
      files

applied_here :
    apply_after_approvals hashes "p1" "cy" "go" "reject" "t1" "t2" 2 files ≡ ok (both.0, both.1)
unfolding apply_after_approvals value_at
applied_here = refl

at_first : latest sha files.policies ≡ ok (snapshot sha 1 (policy 1))
unfolding latest
at_first = refl

found_here : find_proposal files.proposals "p1" ≡ ok proposal
unfolding find_proposal value_at
found_here = refl

given_target : is_truthy (get_json proposal "policy_target_sha256") ≡ true
unfolding is_truthy value_at
given_target = refl

apply-IsQuorum_example :
    (names : List String) × IsQuorum hashes "p1" "cy" "go" "reject" "t1" "t2" 2 files.approvals
      names
apply-IsQuorum_example =
    apply-IsQuorum hashes "p1" "cy" "go" "reject" "t1" "t2" 2 files both.1 both.0 applied_here

apply-IsOutcome_example :
    (a : IsApplication hashes "p1" "cy" "go" "reject" "t1" "t2" 2 files both.1 both.0) × IsOutcome
      hashes "p1" "cy" "go" "reject" "t1" "t2" 2 files both.1 both.0 a.last a.result
apply-IsOutcome_example =
    apply-IsOutcome hashes "p1" "cy" "go" "reject" "t1" "t2" 2 files both.1 both.0 applied_here

applied_blocks_example :
    is_ok (apply_after_approvals hashes "p1" "dee" "again" "reject" "t3" "t4" 1 both.1) ≡ false
applied_blocks_example =
    applied_blocks hashes "p1" "cy" "go" "t1" "t2" 2 files both.1 both.0 (snapshot sha 1 (policy 1))
      proposal applied_here refl at_first (omega arith) found_here given_target both.1 refl refl
      "dee" "again" "t3" "t4" 1

save-latest_example :
    (dir' : List PolicyFile) × (save_new_version sha (policy 2) files.policies
      ≡ ok (snapshot sha 2 (policy 2), dir'))
    × (latest sha dir'
        ≡ ok (if ltb 1 9999 then snapshot sha 2 (policy 2) else snapshot sha 1 (policy 1)))
save-latest_example = save-latest sha (policy 2) files.policies (snapshot sha 1 (policy 1)) at_first

-- A version of five digits is lost: the latest one is still the one before.
lost :
    latest sha (
      record { number = 9999; content = policy 1 }
      ∷ record { number = 10000; content = policy 2 }
      ∷ [])
    ≡ ok (snapshot sha 9999 (policy 1))
unfolding latest
lost = refl

abbrev replace_op : Fields
replace_op =
    field "op" (str "replace") (field "path" (str "/limit") (field "value" (int (pos 2)) end))

op_kind : get_json replace_op "op" ≡ str "replace"
unfolding value_at
op_kind = refl

op_path : get_json replace_op "path" ≡ str "/limit"
unfolding value_at
op_path = refl

op_value : value_at replace_op "value" ≡ some (int (pos 2))
unfolding value_at
op_value = refl

op_parts : split_pointer "/limit" ≡ ok ("limit" ∷ [])
unfolding split_pointer
op_parts = refl

op_applied : apply_op (obj replace_op) (policy 1) ≡ ok (policy 2)
unfolding apply_op value_at
op_applied = refl

replace-get_at_example :
    (exists_at (policy 1) ("limit" ∷ []) ≡ true)
    × (get_at (policy 2) ("limit" ∷ []) ≡ ok (int (pos 2)))
replace-get_at_example =
    replace-get_at replace_op (policy 1) (policy 2) (int (pos 2)) "/limit" ("limit" ∷ []) op_kind
      op_path op_value op_parts op_applied

ops_applied : apply_patch (cons patch_op nil) (policy 1) ≡ ok (policy 2)
unfolding apply_patch value_at
ops_applied = refl

abbrev fresh_files : Files
fresh_files = record {
  approvals = [];
  proposals = files.proposals;
  policies = files.policies;
  receipts = [];
}

abbrev after_ana : Files
after_ana = record {
  approvals = written "p1" "ana" "go" "t0" proposal ∷ [];
  proposals = files.proposals;
  policies = files.policies;
  receipts = [];
}

approved_here :
    approve_only hashes "p1" "ana" "go" "t0" fresh_files
    ≡ ok (written "p1" "ana" "go" "t0" proposal, after_ana)
unfolding approve_only value_at
approved_here = refl
