-- ===== src/Storage/ApprovalQueue.antt =====
-- infra/storage/approval_queue_repo.py: the queue of reviews as a log. A line holds a dict, whose id is a
-- text, or cannot be read. The ids and the times of new records are arguments.
pub mod Views
pub mod Recent
use Prim.Native.Char.{code}
use Prim.Native.Nat.{Ordering}
use Prim.Native.String.{compare}
use proto_v2_engine.Base.{
  ℕ, String, Bool, true, false, not, ◌&&◌, Option, none, some, List, [], ◌∷◌, ◌++◌, Dict, get, put,
  values, Result, ok, err, truthy, is_some, filter, take, map, upper, lstrip, rstrip, strip, codes,
  same_codes, ◌==◌, if◌then◌else◌,
}
use proto_v2_engine.Json.{
  Json, Fields, null, str, obj, end, field, value_at, get_json, is_null, is_text, is_truthy,
  put_field,
}

abbrev pub Log : Type 0
Log = List (Option Fields)

-- A ValueError for a status that is none of the three.
pub data InvalidStatus : Type 0 where
  invalid_status : InvalidStatus

-- The records that hold for each id.
pub record Latest : Type 0 where
  pub enqueues : Dict Fields
  pub updates : Dict Fields

abbrev pub text_of : Json → String
text_of (str s) = s
text_of _ = ""

abbrev pub id_of : Fields → String
id_of r = text_of (get_json r "approval_id")

abbrev pub is_type : Fields → String → Bool
is_type r t = is_text (get_json r "record_type") t

unfoldable pub merge_record : Latest → Fields → Latest
merge_record st r =
    if not (truthy (id_of r))
    then st
    else if is_type r "APPROVAL_ENQUEUE_V1"
    then record st { enqueues = put st.enqueues (id_of r) r }
    else if is_type r "APPROVAL_UPDATE_V1"
    then record st { updates = put st.updates (id_of r) r }
    else st

unfoldable pub merge_lines : Latest → Log → Latest
unfolding merge_record
merge_lines st [] = st
merge_lines st (none ∷ log) = merge_lines st log
merge_lines st (some r ∷ log) = merge_lines (merge_record st r) log

abbrev pub set_unless_null : String → Json → Fields → Fields
set_unless_null k v view = if is_null v then view else put_field view k v

abbrev status_after : Fields → Fields → Json
status_after upd view = elim (value_at upd "status") [ none ↦ get_json view "status" | some s ↦ s ]

-- `if upd`: an empty dict changes nothing.
unfoldable pub view_of : Fields → Option Fields → Fields
view_of base none = base
view_of base (some upd) =
    if is_truthy (obj upd)
    then set_unless_null "review_metadata" (get_json upd "metadata") (
        set_unless_null "reviewer_role" (get_json upd "reviewer_role") (
          set_unless_null "reviewer_id" (get_json upd "reviewer_id") (
            set_unless_null "status_note" (get_json upd "note") (
              put_field (put_field base "status" (status_after upd base)) "status_updated_ts"
                (get_json upd "ts")))))
    else base

unfoldable pub merge_views : Dict Fields → Dict Fields → Dict Fields
unfolding view_of
merge_views [] updates = []
merge_views ((id, base) ∷ m) updates = (id, view_of base (get updates id)) ∷ merge_views m updates

abbrev pub latest : Log → Latest
latest log = merge_lines (record { enqueues = []; updates = [] }) log

unfoldable pub merge_latest_views : Log → Dict Fields
unfolding merge_lines merge_views
merge_latest_views log = merge_views (latest log).enqueues (latest log).updates

unfoldable pub get_by_id : Log → String → Option Fields
unfolding merge_latest_views get
get_by_id log id = get (merge_latest_views log) id

abbrev pub append_record : Fields → Log → Log
append_record r log = log ++ (some r ∷ [])

abbrev pub enqueue_record : String → String → Fields → Fields
enqueue_record approval_id ts proposal = field "record_type" (str "APPROVAL_ENQUEUE_V1") (
    field "approval_id" (str approval_id) (
      field "ts" (str ts) (
        field "kind" (str "POLICY_PATCH_PROPOSAL_REVIEW") (
          field "proposal_id" (get_json proposal "proposal_id") (
            field "org_id" (get_json proposal "org_id") (
              field "site_id" (get_json proposal "site_id") (
                field "channel" (get_json proposal "channel")
                  (field "status" (str "PENDING") (field "proposal" (obj proposal) end)))))))))

unfoldable pub enqueue : String → String → Fields → Log → String × Log
enqueue approval_id ts proposal log =
    (approval_id, append_record (enqueue_record approval_id ts proposal) log)

abbrev statuses : List String
statuses = "PENDING" ∷ "APPROVED" ∷ "REJECTED" ∷ []

abbrev first_same : List ℕ → List String → Option String
first_same cs [] = none
first_same cs (s ∷ ss) = if same_codes cs (codes s) then some s else first_same cs ss

-- `(status or "").strip().upper()`, where it is one of the three.
unfoldable pub normal_status : String → Option String
unfolding codes upper same_codes lstrip rstrip
normal_status status = first_same (upper (strip status)) statuses

abbrev pub note_json : Option String → Json
note_json none = null
note_json (some n) = str n

abbrev mark_record : String → String → String → Option String → Fields
mark_record approval_id ts status note = field "record_type" (str "APPROVAL_UPDATE_V1") (
    field "approval_id" (str approval_id)
      (field "ts" (str ts) (field "status" (str status) (field "note" (note_json note) end))))

-- What a reviewer says.
pub record Review : Type 0 where
  pub reviewer_id : String
  pub reviewer_role : String
  pub notes : Option String
  pub metadata : Fields

abbrev pub update_record : String → String → String → Review → Fields
update_record approval_id ts status r = field "record_type" (str "APPROVAL_UPDATE_V1") (
    field "approval_id" (str approval_id) (
      field "ts" (str ts) (
        field "status" (str status) (
          field "note" (note_json r.notes) (
            field "reviewer_id" (str r.reviewer_id) (
              field "reviewer_role" (str r.reviewer_role)
                (field "metadata" (obj r.metadata) end)))))))

abbrev mark_as :
    Option String → String → String → Option String → Log → Result InvalidStatus Unit × Log
mark_as none approval_id ts comment log = (err invalid_status, log)
mark_as (some s) approval_id ts comment log =
    (ok tt, append_record (mark_record approval_id ts s comment) log)

unfoldable pub mark_status :
    String → String → String → Option String → Log → Result InvalidStatus Unit × Log
unfolding normal_status
mark_status approval_id ts status comment log =
    mark_as (normal_status status) approval_id ts comment log

abbrev pub update_as :
    Option String → String → String → Review → Log → Result InvalidStatus Bool × Log
update_as none approval_id ts r log = (err invalid_status, log)
update_as (some s) approval_id ts r log =
    if is_some (get_by_id log approval_id)
    then (ok true, append_record (update_record approval_id ts s r) log)
    else (ok false, log)

unfoldable pub update_status :
    String → String → String → Review → Log → Result InvalidStatus Bool × Log
unfolding normal_status get_by_id
update_status approval_id ts status r log = update_as (normal_status status) approval_id ts r log
