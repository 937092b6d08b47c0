-- ===== src/Tests/Judgment.antt =====
-- The DPA service and the approval queue at concrete inputs.
use mathlib.Core.List.{Memᴰ}
use proto_v2_engine.Base.{ℕ, ◌≡◌, refl, Option, none, some, err, List, [], ◌∷◌, Dict, get}
use proto_v2_engine.Judgment.Models.{HumanDecision, DpaRecord, approved, applied}
use proto_v2_engine.Judgment.Lifecycle.{IsApproval}
use proto_v2_engine.Judgment.Composer.{minimal, minimal-IsComposer}
use proto_v2_engine.Judgment.Repo.Memory.{in_memory, in_memory-IsRepository}
use proto_v2_engine.Judgment.Repo.File.{
  Plain, PlainFields, Codec, leaf, plain_text, member, dict, no_field, entry, plain_at, get_dpa,
  scan, decode_error,
}
use proto_v2_engine.Judgment.Repo.File.Printed.{fields_as_read}
use proto_v2_engine.Judgment.Service.Calls.{
  run_call, serve, decide_call, Effect, run_call-Effect, abort_call, apply_call,
}
use proto_v2_engine.Judgment.Service.Invariant.{IsSoundStore, serve-IsSoundStore}
use proto_v2_engine.Judgment.Service.History.{applied_final, applied_needs_human}
use proto_v2_engine.Judgment.Approvals
use proto_v2_engine.Judgment.Approvals.{ApprovalQueueItem, Event, snapshot, status_event, write_all}
use proto_v2_engine.Judgment.Approvals.Refinement.{file_refines_memory}
use proto_v2_engine.Tests.Scene.{whole_run, item, decision, approving, applying}

abbrev applied_store : Dict DpaRecord
applied_store = serve in_memory minimal [] applying

empty-IsSoundStore : IsSoundStore in_memory-IsRepository []
unfolding get
empty-IsSoundStore = record { valid = tt; sound = λ id d e. cc }

serve-IsSoundStore_example : IsSoundStore in_memory-IsRepository applied_store
serve-IsSoundStore_example =
    serve-IsSoundStore in_memory-IsRepository minimal minimal-IsComposer [] applying
      empty-IsSoundStore

abbrev fresh : DpaRecord
fresh = minimal "dpa_1" "evt_1" [] 1

abbrev decided : DpaRecord
decided = record fresh {
  human_decision_json = some decision;
  status = approved;
  approved_at = some 10;
  approved_by = some "Kim (Approver)";
  updated_at = 3;
}

abbrev done : DpaRecord
done = record decided { status = applied; updated_at = 4 }

applied_store-get : get applied_store "dpa_1" ≡ some done
unfolding whole_run
applied_store-get = refl

applied_needs_human_example :
    (h : HumanDecision) × IsApproval done h
    × ((now : ℕ) × Memᴰ (decide_call "dpa_1" h now) applying)
applied_needs_human_example =
    applied_needs_human in_memory-IsRepository minimal minimal-IsComposer [] applying "dpa_1" done
      tt (unfold get in λ j. refl) applied_store-get refl

applied_final_example :
    get (serve in_memory minimal applied_store (abort_call "dpa_1" none 9 ∷ approving)) "dpa_1"
    ≡ some done
applied_final_example =
    applied_final in_memory-IsRepository minimal minimal-IsComposer applied_store
      (abort_call "dpa_1" none 9 ∷ approving) "dpa_1" done serve-IsSoundStore_example
      applied_store-get refl

run_call-Effect_example :
    Effect in_memory-IsRepository minimal
      (apply_call "dpa_1" none none 4)
      applied_store
      (run_call in_memory minimal (apply_call "dpa_1" none none 4) applied_store).0
      (run_call in_memory minimal (apply_call "dpa_1" none none 4) applied_store).1
run_call-Effect_example =
    run_call-Effect in_memory-IsRepository minimal (apply_call "dpa_1" none none 4) applied_store
      minimal-IsComposer (serve-IsSoundStore_example.valid)

-- A record is printed with itself as one of its values.
abbrev dump : DpaRecord → PlainFields DpaRecord
dump d =
    entry "dpa_id" (plain_text d.dpa_id)
      (entry "status" (member d.status) (entry "self" (leaf d) no_field))

abbrev itself : Option (Plain DpaRecord) → Option DpaRecord
itself (some (leaf d)) = some d
itself _ = none

abbrev codec : Codec DpaRecord (PlainFields DpaRecord)
codec = record {
  model_dump = dump;
  dumps = λ fs. fs;
  loads = λ fs. some (dict (fields_as_read leaf fs));
  build = λ fs. itself (plain_at fs "self");
}

-- A line that cannot be read makes every look-up raise.
broken_line :
    get_dpa (record codec { loads = λ _. none }) (no_field ∷ []) "dpa_1" ≡ err decode_error
unfolding get_dpa scan
broken_line = refl

abbrev writes : List Event
writes = status_event "appr_2" "APPROVED" ∷ snapshot item ∷ status_event "appr_1" "APPROVED" ∷ []

file_refines_memory_example :
    (Approvals.file_backed.get_latest_by_approval_id
        (write_all Approvals.file_backed writes [])
        "appr_1"
      ≡ Approvals.in_memory.get_latest_by_approval_id
          (write_all Approvals.in_memory writes [])
          "appr_1")
    × (Approvals.file_backed.get_latest_for_dpa (write_all Approvals.file_backed writes []) "appr_1"
        ≡ Approvals.in_memory.get_latest_for_dpa (write_all Approvals.in_memory writes []) "appr_1")
file_refines_memory_example = file_refines_memory writes "appr_1" (refl, (refl, (refl, tt)))
