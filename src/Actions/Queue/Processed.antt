-- ===== src/Actions/Queue/Processed.antt =====
-- core/C_action/queue_consumer.py: what a consumption of the queue leaves.
use text.Mathlib.TextEquality.{eq_iff}
use proto_v2_engine.Base.{
  refl, ℕ, String, Bool, true, false, ◌⊎◌, ◌∙◌, if◌then◌else◌, ◌≡◌, ap, none, some, List, [], ◌∷◌,
  Dict, get, put, get-put, remove, get-remove, ok, err, ◌>>=◌, >>=-elim, Result-cases, arith, take,
  inl, inr, ◌==◌,
}
use proto_v2_engine.Json.{Json, Fields, bool, str, obj, get_json, value_at-put_field, or_else}
use proto_v2_engine.Actions.Authorization.{Raising}
use proto_v2_engine.Actions.Plan.{DeliveryPlan, asdict}
use proto_v2_engine.Actions.Gate.{load_json, enforce_execution_gate_for_queue_item}
use proto_v2_engine.Actions.Gate.Authorized.{loads}
use proto_v2_engine.Actions.Queue.{
  Host, Disk, view, temporary, dict_of, consume_one, consume_all, consume_pending,
  plan_from_queue_item, processed_item, safe_id, item_file, channel_or_unknown,
}

dict_of-ok : (v : Json) {q : Fields} → dict_of v ≡ ok q → v ≡ obj q
dict_of-ok (obj fs) h = cc
dict_of-ok Json.null h = cc
dict_of-ok _ h = cc

-- A temporary file that is replaced, the file that is written, and one that is removed where that is
-- possible.
abbrev replaced : {A : Type 0} → Dict A → String → String → A → Dict A
replaced m tmp out v = put (remove m tmp) out v

abbrev removed_if : {A : Type 0} → Bool → Dict A → String → Dict A
removed_if b m path = if b then remove m path else m

written-get :
    {A : Type 0} (m : Dict A) (path out tmp : String) (v : A) (b : Bool)
    → ((path == out) ≡ false) ⊎ (b ≡ false)
    → get (removed_if b (replaced m tmp out v) path) out ≡ some v
written-get m path out tmp v true (inl h) = ground (
  arith,
  eq_iff out out,
  get-remove (replaced m tmp out v) path out,
  get-put (remove m tmp) out out v,
)
written-get m path out tmp v true (inr h) = cc
written-get m path out tmp v false h =
    ground (arith, eq_iff out out, get-put (remove m tmp) out out v)

removed-get :
    {A : Type 0} (m : Dict A) (path : String) (b : Bool)
    → b ≡ true
    → get (removed_if b m path) path ≡ none
removed-get m path true h = ground (arith, eq_iff path path, get-remove m path path)
removed-get m path false h = cc

replaced-get :
    {A : Type 0} (m : Dict A) (out tmp j : String) (v : A)
    → (out == j) ≡ false
    → (tmp == j) ≡ false
    → get (replaced m tmp out v) j ≡ get m j
replaced-get m out tmp j v h k = ground (arith, get-put (remove m tmp) out j v, get-remove m tmp j)

removed-other :
    {A : Type 0} (m : Dict A) (path j : String) (b : Bool)
    → ((path == j) ≡ false) ⊎ (b ≡ false)
    → get (removed_if b m path) j ≡ get m j
removed-other m path j true (inl h) = ground (arith, get-remove m path j)
removed-other m path j true (inr h) = cc
removed-other m path j false h = refl

abbrev pub returned : {A B : Type 0} → A → B → Raising (A × B)
returned a b = ok (a, b)

pub parts : {A B : Type 0} (a a' : A) (b b' : B) → returned a b ≡ ok (a', b') → (a ≡ a') × (b ≡ b')
parts a a' b b' e = (cc e, cc e)

abbrev both : {A B : Type 0} → A → B → A × B
both a b = (a, b)

both-parts : {A B : Type 0} (a a' : A) (b b' : B) → both a b ≡ both a' b' → (a ≡ a') × (b ≡ b')
both-parts a a' b b' e = (ap (λ p. p.0) e, ap (λ p. p.1) e)

abbrev all_done : List String → Raising (List String)
all_done outs = ok outs

all_done-eq : (outs outs' : List String) → all_done outs ≡ all_done outs' → outs ≡ outs'
all_done-eq outs outs' e = cc e

module _ (host : Host) where
  -- The record of a processed item says that nothing was executed.
  pub record IsRecord (v : Fields) (plan : DeliveryPlan) : Type 0 where
    pub is_processed : get_json v "status" ≡ str "PROCESSED"
    pub executes_nothing : get_json v "action_executed" ≡ bool false
    pub holds_plan : get_json v "plan" ≡ obj (asdict plan)

  processed_item-IsRecord :
      (q : Fields) (plan : DeliveryPlan) (path : String)
      → IsRecord (processed_item host q plan path) plan
  unfolding processed_item
  processed_item-IsRecord q plan path = record {
    is_processed = simp value_at-put_field;
    executes_nothing = simp value_at-put_field;
    holds_plan = simp value_at-put_field;
  }

  -- The places of two paths differ.
  abbrev pub Apart : String → String → Type 0
  Apart p q = (host.place p == host.place q) ≡ false

  pub record IsProcessed (path : String) (disk : Disk) (out : String) (disk' : Disk) : Type 0 where
    pub item : Fields
    pub plan : DeliveryPlan
    pub written : Fields
    pub was_pending : view host disk path ≡ some (some (obj item))
    pub passed : enforce_execution_gate_for_queue_item host.to_str (view host disk) item ≡ ok tt
    pub planned : plan_from_queue_item (view host disk) item ≡ ok plan
    pub is_record : IsRecord written plan
    pub removed : host.can_remove path ≡ true → view host disk' path ≡ none
    pub saved :
        Apart path out ⊎ (host.can_remove path ≡ false)
        → view host disk' out ≡ some (some (obj written))
    pub others :
        (j : String)
        → Apart path j ⊎ (host.can_remove path ≡ false)
        → Apart out j
        → Apart (temporary host out) j
        → view host disk' j ≡ view host disk j

  consume_one-IsProcessed :
      (path base : String) (disk disk' : Disk) (out : String)
      → consume_one host path base disk ≡ ok (out, disk')
      → IsProcessed path disk out disk'
  unfolding consume_one
  consume_one-IsProcessed path base disk disk' out h =
      >>=-elim (load_json (view host disk) (str path)) _ h (λ v loaded h1.
        >>=-elim (dict_of v) _ h1 (λ q is_dict h2.
          >>=-elim (enforce_execution_gate_for_queue_item host.to_str (view host disk) q) _ h2
            (λ _ passed h3.
              >>=-elim (plan_from_queue_item (view host disk) q) _ h3 (λ plan planned h4.
                >>=-elim (safe_id host (or_else plan.plan_id (get_json q "plan_id")) path) _ h4
                  (λ name _ h5.
                    >>=-elim (item_file base (channel_or_unknown plan q) "processed" name) _ h5
                      (λ target _ h6.
                        let (same, after) = parts target out _ disk' h6 in
                        let (pending, at_path, held) = loads (view host disk) (str path) loaded in
                        let same_path : path ≡ pending = cc at_path in
                        record {
                          item = q;
                          plan = plan;
                          written = processed_item host q plan path;
                          was_pending = rw (← dict_of-ok v is_dict) (rw (same_path) held);
                          passed = passed;
                          planned = planned;
                          is_record = processed_item-IsRecord q plan path;
                          removed = λ can. rw (← after) (removed-get _ (host.place path) _ can);
                          saved = rw (← same) (
                              rw (← after) (
                                written-get disk (host.place path) (host.place target)
                                  (host.place (temporary host target)) _ (host.can_remove path)));
                          others = rw (← same) (
                              rw (← after) (λ j off out_off tmp_off.
                                removed-other _ (host.place path) (host.place j) _ off
                                ∙ replaced-get disk _ (host.place (temporary host target))
                                    (host.place j) _ out_off tmp_off));
                        }))))))

  -- The items that a loop has gone through, one after the other, and what it wrote for each.
  pub data Run : List String → List String → Disk → Disk → Type 0 where
    nothing : {disk : Disk} → Run [] [] disk disk
    next :
        {p out : String} {ps outs : List String} {disk disk' after : Disk}
        → IsProcessed p disk out disk'
        → Run ps outs disk' after
        → Run (p ∷ ps) (out ∷ outs) disk after

  consume_all-Run :
      (ps : List String) (base : String) (disk after : Disk) (outs : List String)
      → consume_all host ps base disk ≡ both (all_done outs) after
      → Run ps outs disk after
  unfolding consume_all
  consume_all-Run [] base disk after outs h =
      let (e, same) = both-parts (all_done []) (all_done outs) disk after h in
      rw (← all_done-eq [] outs e) (rw (← same) nothing)
  consume_all-Run (p ∷ ps) base disk after outs h =
      elim (Result-cases (consume_one host p base disk)) [
        | inr (e, failed) ↦
            absurd
              (cc (both-parts (err e) (all_done outs) disk after (rw (failed, consume_all) at h)).0)
        | inl ((out, disk'), done) ↦
            let rest = consume_all host ps base disk' in
            let (e, same) =
              both-parts (rest.0 >>= λ os. all_done (out ∷ os)) (all_done outs) rest.1 after
                (rw (done, consume_all) at h) in
            >>=-elim rest.0 _ e (λ os finished e1. rw (← all_done-eq (out ∷ os) outs e1) (
              next (consume_one-IsProcessed p base disk disk' out done)
                (consume_all-Run ps base disk' after os (λ i. (finished i, same i)))))
      ]

  -- A consumption of the queue that returns has gone through the first `limit` listed items in their
  -- order. Each led to a dict that the gate lets pass and that names a file with its plan. Where the item
  -- can be removed it was, and where it cannot or is at another place, a record with status PROCESSED, the
  -- plan and no executed action stands at the path that is returned for it. A path that leads to none of
  -- the item, that record and its temporary file leads to what it did.
  pub consume_pending-Run :
      (listed : List String) (limit : ℕ) (base : String) (disk after : Disk) (outs : List String)
      → consume_pending host listed limit base disk ≡ (ok outs, after)
      → Run (take limit listed) outs disk after
  unfolding consume_pending
  consume_pending-Run listed limit base disk after outs h =
      consume_all-Run (take limit listed) base disk after outs h
