-- ===== src/Actions/Queue.antt =====
-- core/C_action/queue_router.py (the queue item) and core/C_action/queue_consumer.py. The disk holds what
-- stands at a place, and a path leads to a place, so that two paths may lead to one. Writing goes through,
-- by way of path + ".tmp"; whether a file can be removed is a parameter, and so are the clock, the digest
-- of a name, the stem of a path, and the name, time and size that `os.stat` gives.
pub mod Processed
pub mod Routed
use Prim.Native.String.{◌++◌ as append}
use Prim.Native.Char.{code}
use proto_v2_engine.Base.{
  ℕ, zero, suc, String, Bool, true, false, not, ◌&&◌, ◌||◌, Option, none, some, List, [], ◌∷◌, Dict,
  get, put, remove, Result, ok, err, ◌>>=◌, ◌>>◌, raise_if, take, eqb, truthy, is_some, is_space,
  lower, lstrip, rstrip, strip, codes, same_codes, ◌==◌, if◌then◌else◌,
}
use proto_v2_engine.Json.{
  Json, Fields, null, bool, str, arr, obj, nil, end, field, get_json, is_truthy, or_else, put_field,
}
use proto_v2_engine.Actions.Authorization.{Raising, value_error, type_error, attribute_error}
use proto_v2_engine.Actions.Plan.{DeliveryPlan, delivery_plan, asdict}
use proto_v2_engine.Actions.Gate.{
  Files, load_json, exists, or_empty, text_of, enforce_execution_gate_for_queue_item,
}

pub record Host : Type 0 where
  pub to_str : Json → String
  pub now_iso : String
  pub sha8 : String → String
  pub stem : String → String
  pub stat_name : String → String
  pub place : String → String
  pub can_remove : String → Bool

abbrev pub Disk : Type 0
Disk = Dict (Option Json)

abbrev is_absolute : String → Bool
is_absolute String.[] = false
is_absolute (String.◌∷◌ c s) = eqb (code c) b'/'

abbrev ends_with_slash : List ℕ → Bool
ends_with_slash [] = false
ends_with_slash (c ∷ []) = eqb c b'/'
ends_with_slash (c ∷ d ∷ cs) = ends_with_slash (d ∷ cs)

-- `os.path.join` of two parts.
unfoldable pub join : String → String → String
unfolding codes
join a b =
    if is_absolute b
    then b
    else if not (truthy a) || ends_with_slash (codes a)
    then append a b
    else append a (append "/" b)

-- A part of a path that is no text raises.
abbrev pub text_part : Json → Raising String
text_part (str s) = ok s
text_part _ = err type_error

-- base_dir/channel/folder/name.json
unfoldable pub item_file : String → Json → String → String → Raising String
unfolding join
item_file base channel folder name = do
  part ← text_part channel
  ok (join (join (join base part) folder) (append name ".json"))

abbrev dict_of : Json → Raising Fields
dict_of (obj fs) = ok fs
dict_of _ = err attribute_error

-- A text that is not blank, without the blanks around it.
abbrev stripped : Json → Option Json
stripped (str p) = if truthy (strip p) then some (str (strip p)) else none
stripped _ = none

abbrev read_receipt : Raising Json → Raising (Option Json)
read_receipt (err _) = ok none
read_receipt (ok v) = do
  r ← dict_of v
  meta ← dict_of (or_empty (get_json r "meta"))
  ok (
      stripped
        (or_else (get_json meta "execution_request_path") (get_json r "execution_request_path")))

unfoldable pub extract_execution_request_path : Files → Json → Raising (Option Json)
unfolding load_json lstrip rstrip
extract_execution_request_path files (str p) =
    if truthy p && is_some (files p) then read_receipt (load_json files (str p)) else ok none
extract_execution_request_path files _ = ok none

abbrev pub meta_of : Option Json → Json
meta_of none = obj end
meta_of (some path) = obj (field "execution_request_path" path end)

abbrev pub gate_stub : DeliveryPlan → String → Option Json → Fields
gate_stub plan plan_path exec = field "channel" plan.channel (
    field "meta" (meta_of exec) (
      field "receipt_path" plan.receipt_path
        (field "plan_path" (str plan_path) (field "plan_id" plan.plan_id end))))

unfoldable pub queue_payload : DeliveryPlan → String → Option Json → Fields
queue_payload plan plan_path exec = field "queue_item_type" (str "DELIVERY_PLAN") (
    field "channel" plan.channel (
      field "status" (str "PENDING") (
        field "plan_id" plan.plan_id (
          field "proposal_id" plan.proposal_id (
            field "ts_iso" plan.ts_iso (
              field "policy_version" plan.policy_version (
                field "policy_sha256" plan.policy_sha256 (
                  field "noop_apply" plan.noop_apply (
                    field "warnings" plan.warnings (
                      field "approvers_used" plan.approvers_used (
                        field "plan_path" (str plan_path) (
                          field "receipt_path" plan.receipt_path (
                            field "evidence_scene_ids" plan.evidence_scene_ids (
                              field "evidence_sample_ids" plan.evidence_sample_ids (
                                field "evidence_snapshot_ids" plan.evidence_snapshot_ids
                                  (field "meta" (meta_of exec) end))))))))))))))))

-- Without a plan file the class is called with nine of its fields missing, and raises.
abbrev plan_of_json : Json → Raising DeliveryPlan
plan_of_json (obj d) = delivery_plan d
plan_of_json _ = err type_error

unfoldable pub plan_at : Files → Json → Raising DeliveryPlan
unfolding load_json
plan_at files (str p) =
    if is_some (files p) then load_json files (str p) >>= plan_of_json else err type_error
plan_at files _ = err type_error

unfoldable pub plan_from_queue_item : Files → Fields → Raising DeliveryPlan
unfolding plan_at
plan_from_queue_item files q = plan_at files (get_json q "plan_path")

abbrev pub delivery_status : Json
delivery_status = obj (
    field "mode" (str "ARTIFACT_ONLY") (
      field "executed" (bool false) (
        field "forwarded_to_orchestrator" (bool false)
          (field "forward_payload_path" null (field "notes" (arr nil) end)))))

abbrev pub channel_or_unknown : DeliveryPlan → Fields → Json
channel_or_unknown plan q = or_else plan.channel (or_else (get_json q "channel") (str "unknown"))

module _ (host : Host) where
  open host use {to_str, now_iso, sha8, stem, stat_name, place, can_remove}

  -- What the paths lead to.
  abbrev pub view : Disk → Files
  view disk p = get disk (place p)

  abbrev pub temporary : String → String
  temporary path = append path ".tmp"

  -- The temporary file is written over whatever stands there, and then moved to the path.
  abbrev pub save_json : Disk → String → Json → Disk
  save_json disk path v = put (remove disk (place (temporary path))) (place path) (some v)

  -- `try: os.remove(path) except Exception: pass`
  abbrev pub try_remove : Disk → String → Disk
  try_remove disk path = if can_remove path then remove disk (place path) else disk

  -- The file's name is `f"{plan.plan_id}.json"`.
  unfoldable pub route_to_queue : DeliveryPlan → String → String → Disk → Raising (String × Disk)
  unfolding extract_execution_request_path item_file enforce_execution_gate_for_queue_item
      queue_payload put
  route_to_queue plan plan_path base disk = do
    raise_if (not (is_truthy plan.channel))
        (value_error "DeliveryPlan.channel is required (unknown queue disabled)")
    out_path ← item_file base plan.channel "pending" (text_of to_str plan.plan_id)
    exec ← extract_execution_request_path (view disk) plan.receipt_path
    enforce_execution_gate_for_queue_item to_str (view disk) (gate_stub plan plan_path exec)
    ok (out_path, save_json disk out_path (obj (queue_payload plan plan_path exec)))

  abbrev id_or_unknown : String → String → String
  id_or_unknown pid path =
      if truthy pid && not (same_codes (lower pid) (codes "unknown"))
      then pid
      else append "unknown_" (sha8 (stat_name path))

  -- A plan id that is true and no text has no `strip`.
  unfoldable pub safe_id : Json → String → Raising String
  unfolding lstrip rstrip lower codes same_codes
  safe_id (str s) path = ok (id_or_unknown (strip s) path)
  safe_id v path = if is_truthy v then err attribute_error else ok (id_or_unknown "" path)

  unfoldable pub processed_item : Fields → DeliveryPlan → String → Fields
  unfolding put_field asdict
  processed_item q plan path =
      put_field
        (put_field
          (put_field
            (put_field
              (put_field
                (put_field (put_field q "status" (str "PROCESSED")) "processed_ts_iso"
                  (str now_iso))
                "processor" (str "queue_consumer"))
              "action_executed" (bool false))
            "delivery_status" delivery_status)
          "plan" (obj (asdict plan)))
        "idempotency_key" (str (sha8 (stem path)))

  unfoldable pub consume_one : String → String → Disk → Raising (String × Disk)
  unfolding load_json enforce_execution_gate_for_queue_item plan_from_queue_item safe_id item_file
      processed_item put remove
  consume_one path base disk = do
    v ← load_json (view disk) (str path)
    q ← dict_of v
    enforce_execution_gate_for_queue_item to_str (view disk) q
    plan ← plan_from_queue_item (view disk) q
    safe_plan_id ← safe_id (or_else plan.plan_id (get_json q "plan_id")) path
    processed_path ← item_file base (channel_or_unknown plan q) "processed" safe_plan_id
    ok (
      processed_path,
      try_remove (save_json disk processed_path (obj (processed_item q plan path))) path,
    )

  -- The loop over the paths: what an item raises ends it, and what came before stays.
  unfoldable pub consume_all : List String → String → Disk → Raising (List String) × Disk
  unfolding consume_one
  consume_all [] base disk = (ok [], disk)
  consume_all (p ∷ ps) base disk = elim (consume_one p base disk) [
    | err e ↦ (err e, disk)
    | ok (out, disk') ↦
        (((consume_all ps base disk').0 >>= λ outs. ok (out ∷ outs)), (consume_all ps base disk').1)
  ]

  -- `listed` are the paths that the pattern matches, in the order of their times.
  unfoldable pub consume_pending : List String → ℕ → String → Disk → Raising (List String) × Disk
  unfolding consume_all
  consume_pending listed limit base disk = consume_all (take limit listed) base disk
