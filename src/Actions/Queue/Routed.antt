-- ===== src/Actions/Queue/Routed.antt =====
-- core/C_action: an item that was routed is consumed.
use text.Mathlib.TextEquality.{eq_iff}
use proto_v2_engine.Base.{
  String, true, not, ◌≡◌, refl, sym, ap, ◌∙◌, Option, none, some, get, put, get-put, remove,
  get-remove, Dict, ok, raise_if, not-false, raise_if-false, >>=-elim, Bool-cases, inl, inr, arith,
}
use proto_v2_engine.Json.{Json, Fields, str, obj, get_json, value_at, is_truthy, or_else}
use proto_v2_engine.Actions.Authorization.{value_error}
use proto_v2_engine.Actions.Plan.{DeliveryPlan, asdict, delivery_plan-asdict}
use proto_v2_engine.Actions.Gate.{
  Files, existing, exists, load_json, item_path, check_item, channel_of_item, is_execution_channel,
  enforce_execution_gate_for_queue_item, text_of,
}
use proto_v2_engine.Actions.Gate.Passed.{existing-holds}
use proto_v2_engine.Actions.Queue.Processed.{parts}
use proto_v2_engine.Actions.Queue.{
  Host, Disk, view, temporary, save_json, try_remove, item_file, text_part,
  extract_execution_request_path, gate_stub, queue_payload, route_to_queue, consume_one,
  plan_from_queue_item, plan_at, safe_id, processed_item, channel_or_unknown,
}

-- Every file stays that was there.
abbrev Extends : Files → Files → Type 0
Extends files files' = (p : String) (c : Option Json) → files p ≡ some c → files' p ≡ some c

kept :
    {A : Type 0} (m : Dict A) (out tmp j : String) (v c : A)
    → get m out ≡ none
    → get m tmp ≡ none
    → get m j ≡ some c
    → get (put (remove m tmp) out v) j ≡ some c
kept m out tmp j v c fresh free h =
    ground (arith, eq_iff out j, eq_iff tmp j, get-put (remove m tmp) out j v, get-remove m tmp j)

save-Extends :
    (host : Host) (disk : Disk) (out : String) (v : Json)
    → view host disk out ≡ none
    → view host disk (temporary host out) ≡ none
    → Extends (view host disk) (view host (save_json host disk out v))
save-Extends host disk out v fresh free p c h =
    kept disk (host.place out) (host.place (temporary host out)) (host.place p) (some v) c fresh
      free h

existing_holds :
    (files : Files) (p : String) {v : Json}
    → files p ≡ some (some v)
    → existing files (str p) ≡ ok v
unfolding existing exists load_json
existing_holds files p h = rw h refl

existing-Extends :
    (files files' : Files) (path : Json) {v : Json}
    → Extends files files'
    → existing files path ≡ ok v
    → existing files' path ≡ ok v
existing-Extends files files' path more h =
    let (p, same, holds) = existing-holds files path h in
    rw same (existing_holds files' p (more p _ holds))

module _ (to_str : Json → String) where
  check_item-Extends :
      (files files' : Files) (q : Fields)
      → Extends files files'
      → check_item to_str files q ≡ ok tt
      → check_item to_str files' q ≡ ok tt
  unfolding check_item
  check_item-Extends files files' q more h =
      >>=-elim
        (raise_if (not (is_truthy (item_path q))) (value_error "missing execution_request_path")) _
        h
        (λ _ has h1.
          >>=-elim (existing files (item_path q)) _ h1
            (λ v found h2. rw has (rw (existing-Extends files files' (item_path q) more found) h2)))

  gate-Extends :
      (files files' : Files) (q : Fields)
      → Extends files files'
      → enforce_execution_gate_for_queue_item to_str files q ≡ ok tt
      → enforce_execution_gate_for_queue_item to_str files' q ≡ ok tt
  unfolding enforce_execution_gate_for_queue_item
  gate-Extends files files' q more h = >>=-elim (channel_of_item q) _ h (λ channel e h1.
      >>=-elim (is_execution_channel channel) _ h1 (λ executes e1 h2. rw e (
        rw e1 (elim (Bool-cases executes) [
          | inl t ↦ rw t (check_item-Extends files files' q more (rw t at h2))
          | inr t ↦ rw t refl
        ]))))

  gate-payload :
      (files : Files) (plan : DeliveryPlan) (plan_path : String) (exec : Option Json)
      → enforce_execution_gate_for_queue_item to_str files (gate_stub plan plan_path exec)
        ≡ enforce_execution_gate_for_queue_item to_str files (queue_payload plan plan_path exec)
  unfolding enforce_execution_gate_for_queue_item check_item queue_payload value_at
  gate-payload files plan plan_path exec = refl

stored :
    (host : Host) (disk : Disk) (out : String) (v : Json)
    → view host (save_json host disk out v) out ≡ some (some v)
stored host disk out v =
    let here = host.place out in
    ground (
      arith,
      eq_iff here here,
      get-put (remove disk (host.place (temporary host out))) here here (some v),
    )

text_part-ok : (v : Json) {s : String} → text_part v ≡ ok s → v ≡ str s
text_part-ok (str t) h = cc
text_part-ok Json.null h = cc
text_part-ok _ h = cc

-- The file's folder and name do not matter for whether the path can be built.
item_file-ok :
    (base : String) (channel : Json) (folder name : String) {out : String}
    → item_file base channel folder name ≡ ok out
    → (part : String) × (channel ≡ str part)
unfolding item_file
item_file-ok base channel folder name h =
    >>=-elim (text_part channel) _ h (λ part e _. (part, text_part-ok channel e))

item_file_text :
    (base part folder name : String)
    → (target : String) × (item_file base (str part) folder name ≡ ok target)
unfolding item_file
item_file_text base part folder name = (_, refl)

item_file-any :
    (base : String) (channel : Json) (part folder name : String)
    → channel ≡ str part
    → (target : String) × (item_file base channel folder name ≡ ok target)
item_file-any base channel part folder name e =
    let (target, h) = item_file_text base part folder name in (target, rw e h)

or_else-same : (v : Json) → or_else v v ≡ v
or_else-same v = ground arith

module _ (host : Host) where
  safe_id_text : (id path : String) → (name : String) × (safe_id host (str id) path ≡ ok name)
  unfolding safe_id
  safe_id_text id path = (_, refl)

  safe_id-text :
      (v : Json) (id path : String) → v ≡ str id → (name : String) × (safe_id host v path ≡ ok name)
  safe_id-text v id path e = let (name, h) = safe_id_text id path in (name, rw e h)

  payload_id :
      (plan : DeliveryPlan) (plan_path : String) (exec : Option Json)
      → or_else plan.plan_id (get_json (queue_payload plan plan_path exec) "plan_id") ≡ plan.plan_id
  unfolding queue_payload value_at
  payload_id plan plan_path exec = or_else-same plan.plan_id

  planned :
      (files : Files) (plan : DeliveryPlan) (plan_path : String) (exec : Option Json)
      → files plan_path ≡ some (some (obj (asdict plan)))
      → plan_from_queue_item files (queue_payload plan plan_path exec) ≡ ok plan
  unfolding plan_from_queue_item plan_at load_json queue_payload value_at
  planned files plan plan_path exec h = rw h (delivery_plan-asdict plan)

  read_back :
      (disk : Disk) (out : String) (q : Fields)
      → load_json (view host (save_json host disk out (obj q))) (str out) ≡ ok (obj q)
  unfolding load_json
  read_back disk out q = rw (stored host disk out (obj q))

  consumes :
      (plan : DeliveryPlan) (id part plan_path base out : String) (exec : Option Json) (disk : Disk)
      → plan.plan_id ≡ str id
      → plan.channel ≡ str part
      → is_truthy plan.channel ≡ true
      → view host disk plan_path ≡ some (some (obj (asdict plan)))
      → load_json (view host disk) (str out) ≡ ok (obj (queue_payload plan plan_path exec))
      → enforce_execution_gate_for_queue_item host.to_str
          (view host disk)
          (queue_payload plan plan_path exec)
        ≡ ok tt
      → (target : String) × (consume_one host out base disk
          ≡ ok (
            target,
            try_remove host
                (save_json host disk target
                  (obj (processed_item host (queue_payload plan plan_path exec) plan out)))
                out,
          ))
  unfolding consume_one
  consumes plan id part plan_path base out exec disk named channel has saved there passed =
      let q = queue_payload plan plan_path exec in
      let both_ids : or_else plan.plan_id (get_json q "plan_id") ≡ str id =
        payload_id plan plan_path exec ∙ named in
      let same_channel : channel_or_unknown plan q ≡ str part = rw has channel in
      let (name, e1) = safe_id-text (or_else plan.plan_id (get_json q "plan_id")) id out both_ids in
      let (target, e2) =
        item_file-any base (channel_or_unknown plan q) part "processed" name same_channel in
      (
        target,
        rw there (
            rw passed
              (rw (planned (view host disk) plan plan_path exec saved) (rw e1 (rw e2 refl)))),
      )

  -- A plan that was routed from its saved file, to a path that led to nothing and whose temporary file led
  -- to nothing, is consumed from there: the gate lets the item pass again, a record that holds the plan
  -- is written, and the item is removed where it can be.
  pub routed_is_consumed :
      (plan : DeliveryPlan) (id plan_path base out : String) (disk after : Disk)
      → plan.plan_id ≡ str id
      → view host disk plan_path ≡ some (some (obj (asdict plan)))
      → view host disk out ≡ none
      → view host disk (temporary host out) ≡ none
      → route_to_queue host plan plan_path base disk ≡ ok (out, after)
      → (q : Fields) × (target : String) × (view host after out ≡ some (some (obj q)))
        × (consume_one host out base after
            ≡ ok (
              target,
              try_remove host
                  (save_json host after target (obj (processed_item host q plan out)))
                  out,
            ))
  unfolding route_to_queue
  routed_is_consumed plan id plan_path base out disk after named saved fresh free h =
      >>=-elim (raise_if (not (is_truthy plan.channel)) _) _ h (λ _ has h1.
        >>=-elim (item_file base plan.channel "pending" (text_of host.to_str plan.plan_id)) _ h1
          (λ o placed h2.
            >>=-elim (extract_execution_request_path (view host disk) plan.receipt_path) _ h2
              (λ exec _ h3.
                >>=-elim
                  (enforce_execution_gate_for_queue_item host.to_str (view host disk)
                    (gate_stub plan plan_path exec))
                  _ h3
                  (λ _ passed h4.
                    let (same, written) = parts o out _ after h4 in
                    let q = queue_payload plan plan_path exec in
                    let more = save-Extends host disk out (obj q) fresh free in
                    let (part, text) =
                      item_file-ok base plan.channel "pending" (text_of host.to_str plan.plan_id)
                        placed in
                    let here = save_json host disk out (obj q) in
                    let (target, e) =
                      consumes plan id part plan_path base out exec here named text
                        (not-false _ (
                          raise_if-false _
                            (value_error
                              "DeliveryPlan.channel is required (unknown queue disabled)")
                            has))
                        (more plan_path _ saved) (read_back disk out q)
                        (gate-Extends host.to_str (view host disk) (view host here) q more (
                          sym (gate-payload host.to_str (view host disk) plan plan_path exec)
                          ∙ passed)) in
                    let arrived : after ≡ here =
                      sym written ∙ ap (λ o'. save_json host disk o' (obj q)) same in
                    (q, target, rw arrived (stored host disk out (obj q)), rw arrived e)))))
