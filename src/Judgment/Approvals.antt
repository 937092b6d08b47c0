-- ===== src/Judgment/Approvals.antt =====
-- The approval queue: core/judgment/persistence/approval_queue.py keeps an append-only log of JSON
-- objects and reduces it at each read; inmemory_queue.py keeps the reduced dictionary. A line of
-- the log is the object that it holds: a whole item, which has the key `dpa_id`, or a status event.
pub mod Refinement
use proto_v2_engine.Base.{
  ℕ, String, Option, none, some, List, [], ◌∷◌, ◌++◌, Dict, get, put, values, ◌==◌, truthy,
  if◌then◌else◌,
}

pub record ApprovalQueueItem : Type 0 where
  pub approval_id : String
  pub dpa_id : String
  pub event_id : String
  pub selected_option_id : String
  pub status : String
  pub authority_id : String
  pub rationale_ref : String

pub data Event : Type 0 where
  snapshot : ApprovalQueueItem → Event
  status_event : String → String → Event

abbrev pub event_id_of : Event → String
event_id_of (snapshot item) = item.approval_id
event_id_of (status_event id _) = id

-- `if aid in st: st[aid]["status"] = status`
abbrev pub patch :
    Option ApprovalQueueItem → String → String → Dict ApprovalQueueItem → Dict ApprovalQueueItem
patch none id status st = st
patch (some item) id status st = put st id (record item { status = status })

unfoldable pub reduce_event : Dict ApprovalQueueItem → Event → Dict ApprovalQueueItem
reduce_event st (snapshot item) =
    if truthy item.approval_id then put st item.approval_id item else st
reduce_event st (status_event id status) = if truthy id then patch (get st id) id status st else st

-- `_reduce`
unfoldable pub reduce : Dict ApprovalQueueItem → List Event → Dict ApprovalQueueItem
reduce st [] = st
reduce st (e ∷ log) = reduce (reduce_event st e) log

-- The loop of `get_latest_for_dpa`, from the item that it last kept.
unfoldable pub last_for_dpa :
    Option ApprovalQueueItem → List ApprovalQueueItem → String → Option ApprovalQueueItem
last_for_dpa last [] id = last
last_for_dpa last (item ∷ items) id =
    last_for_dpa (if item.dpa_id == id then some item else last) items id

-- The methods of a queue over a state `Q`: the protocol `ApprovalQueuePort` of ports.py.
pub record ApprovalQueue (Q : Type 0) : Type 0 where
  pub enqueue : ApprovalQueueItem → Q → Q
  pub set_status : String → String → Q → Q
  pub get_latest_by_approval_id : Q → String → Option ApprovalQueueItem
  pub get_latest_for_dpa : Q → String → Option ApprovalQueueItem

-- `FileBackedApprovalQueue`
abbrev pub file_backed : ApprovalQueue (List Event)
file_backed = record {
  enqueue = λ item log. log ++ snapshot item ∷ [];
  set_status = λ id status log. log ++ status_event id status ∷ [];
  get_latest_by_approval_id = λ log id. get (reduce [] log) id;
  get_latest_for_dpa = λ log id. last_for_dpa none (values (reduce [] log)) id;
}

-- `InMemoryApprovalQueue`
abbrev pub in_memory : ApprovalQueue (Dict ApprovalQueueItem)
in_memory = record {
  enqueue = λ item by_id. put by_id item.approval_id item;
  set_status = λ id status by_id. patch (get by_id id) id status by_id;
  get_latest_by_approval_id = λ by_id id. get by_id id;
  get_latest_for_dpa = λ by_id id. last_for_dpa none (values by_id) id;
}

-- A sequence of writes, each given as the event that it logs.
abbrev pub write : {Q : Type 0} → ApprovalQueue Q → Event → Q → Q
write queue (snapshot item) q = queue.enqueue item q
write queue (status_event id status) q = queue.set_status id status q

unfoldable pub write_all : {Q : Type 0} → ApprovalQueue Q → List Event → Q → Q
write_all queue [] q = q
write_all queue (e ∷ es) q = write_all queue es (write queue e q)
