-- ===== src/Storage/ApprovalQueue/Views.antt =====
-- infra/storage/approval_queue_repo.py: what a review changes in the views.
use mathlib.Core.Option
use proto_v2_engine.Base.{
  String, Bool, true, false, ◌≡◌, refl, sym, ap, ◌∙◌, inl, inr, Bool-cases, Option, none, some,
  Option-cases, [], ◌∷◌, Dict, get, put, get-put, Result, ok, err, truthy, is_some, eq-true,
  eq_self, arith, ◌==◌, if◌then◌else◌,
}
use proto_v2_engine.Json.{
  Json, Fields, str, obj, get_json, or_null, value_at, is_null, is_truthy, value_at-put_field,
}
use proto_v2_engine.Storage.ApprovalQueue.{
  Log, InvalidStatus, Latest, Review, merge_record, merge_lines, merge_views, merge_latest_views,
  latest, view_of, set_unless_null, get_by_id, append_record, update_record, update_as,
  update_status, normal_status, invalid_status,
}

abbrev both : {A B : Type 0} → A → B → A × B
both a b = (a, b)

abbrev answered : Bool → Result InvalidStatus Bool
answered b = ok b

get-merge_views :
    (m u : Dict Fields) (j : String)
    → get (merge_views m u) j ≡ Option.map (λ base. view_of base (get u j)) (get m j)
unfolding merge_views get
get-merge_views [] u j = refl
get-merge_views ((id, base) ∷ m) u j = elim (Bool-cases (id == j)) [
  | inl t ↦ rw t (rw (eq-true id j t) refl)
  | inr t ↦ rw t (get-merge_views m u j)
]

merge_lines-append :
    (st : Latest) (log : Log) (r : Fields)
    → merge_lines st (append_record r log) ≡ merge_record (merge_lines st log) r
unfolding merge_lines
merge_lines-append st [] r = refl
merge_lines-append st (none ∷ log) r = merge_lines-append st log r
merge_lines-append st (some q ∷ log) r = merge_lines-append (merge_record st q) log r

merge_record-update :
    (st : Latest) (id ts status : String) (r : Review)
    → truthy id ≡ true
    → merge_record st (update_record id ts status r)
      ≡ record st { updates = put st.updates id (update_record id ts status r) }
unfolding merge_record value_at
merge_record-update st id ts status r h = rw h refl

put_at :
    (u : Dict Fields) (id j : String) (x : Fields) → (id == j) ≡ true → get (put u id x) j ≡ some x
put_at u id j x t = ground (arith, get-put u id j x)

put_off :
    (u : Dict Fields) (id j : String) (x : Fields)
    → (id == j) ≡ false
    → get (put u id x) j ≡ get u j
put_off u id j x t = ground (arith, get-put u id j x)

views-put :
    (m u : Dict Fields) (id j : String) (x : Fields)
    → get (merge_views m (put u id x)) j ≡ (
        if id == j
        then Option.map (λ base. view_of base (some x)) (get m j)
        else get (merge_views m u) j)
views-put m u id j x = elim (Bool-cases (id == j)) [
  | inl t ↦ rw t (
      get-merge_views m (put u id x) j
      ∙ ap (λ o. Option.map (λ base. view_of base o) (get m j)) (put_at u id j x t))
  | inr t ↦ rw t (
      get-merge_views m (put u id x) j
      ∙ ap (λ o. Option.map (λ base. view_of base o) (get m j)) (put_off u id j x t)
      ∙ sym (get-merge_views m u j))
]

-- The views after a review are the old ones, but for the one that it names.
views-update :
    (log : Log) (id ts status : String) (r : Review) (j : String)
    → truthy id ≡ true
    → get_by_id (append_record (update_record id ts status r) log) j ≡ (
        if id == j
        then Option.map
            (λ base. view_of base (some (update_record id ts status r)))
            (get (latest log).enqueues j)
        else get_by_id log j)
unfolding get_by_id merge_latest_views
views-update log id ts status r j h = rw (merge_lines-append _ log (update_record id ts status r)) (
    rw (merge_record-update (latest log) id ts status r h)
      (views-put (latest log).enqueues (latest log).updates id j (update_record id ts status r)))

-- What a review leaves of a view, and what it writes.
pub record IsReviewed (base v : Fields) (status : String) (r : Review) : Type 0 where
  pub has_status : get_json v "status" ≡ str status
  pub has_reviewer : get_json v "reviewer_id" ≡ str r.reviewer_id
  pub has_role : get_json v "reviewer_role" ≡ str r.reviewer_role
  pub has_metadata : get_json v "review_metadata" ≡ obj r.metadata
  pub same_proposal : get_json v "proposal" ≡ get_json base "proposal"

reviewed :
    (base : Fields) (id ts status reviewer role : String) (metadata : Fields)
    (notes : Option String)
    → IsReviewed base
        (view_of base (
          some (
            update_record id ts status record {
              reviewer_id = reviewer;
              reviewer_role = role;
              notes = notes;
              metadata = metadata;
            })))
        status
        record { reviewer_id = reviewer; reviewer_role = role; notes = notes; metadata = metadata }
unfolding view_of value_at is_truthy
reviewed base id ts status reviewer role metadata none = record {
  has_status = simp value_at-put_field;
  has_reviewer = simp value_at-put_field;
  has_role = simp value_at-put_field;
  has_metadata = simp value_at-put_field;
  same_proposal = simp value_at-put_field;
}
reviewed base id ts status reviewer role metadata (some n) = record {
  has_status = simp value_at-put_field;
  has_reviewer = simp value_at-put_field;
  has_role = simp value_at-put_field;
  has_metadata = simp value_at-put_field;
  same_proposal = simp value_at-put_field;
}

base_of :
    (log : Log) (id : String) {v : Fields}
    → get_by_id log id ≡ some v
    → (base : Fields) × (get (latest log).enqueues id ≡ some base)
unfolding get_by_id merge_latest_views
base_of log id {v} h = elim (Option-cases (get (latest log).enqueues id)) [
  | inl missing ↦
      let gone : none ≡ some v =
        rw (get-merge_views (latest log).enqueues (latest log).updates id, missing) at h in
      absurd (cc gone)
  | inr found ↦ found
]

set_unless_null-other :
    (k j : String) (v : Json) (view : Fields)
    → (k == j) ≡ false
    → value_at (set_unless_null k v view) j ≡ value_at view j
set_unless_null-other k j v view h = elim (Bool-cases (is_null v)) [
  | inl t ↦ rw t refl
  | inr t ↦ rw t (value_at-put_field view k j v ∙ rw h refl)
]

-- No record changes the proposal of a view.
view_of-proposal :
    (base : Fields) (o : Option Fields)
    → get_json (view_of base o) "proposal" ≡ get_json base "proposal"
unfolding view_of
view_of-proposal base none = refl
view_of-proposal base (some upd) = elim (Bool-cases (is_truthy (obj upd))) [
  | inr t ↦ rw t refl
  | inl t ↦ rw t (
      ap or_null (
        set_unless_null-other "review_metadata" "proposal" (get_json upd "metadata") _ refl
        ∙ set_unless_null-other "reviewer_role" "proposal" (get_json upd "reviewer_role") _ refl
        ∙ set_unless_null-other "reviewer_id" "proposal" (get_json upd "reviewer_id") _ refl
        ∙ set_unless_null-other "status_note" "proposal" (get_json upd "note") _ refl
        ∙ value_at-put_field _ "status_updated_ts" "proposal" (get_json upd "ts")
        ∙ value_at-put_field base "status" "proposal" _))
]

-- The review that went through.
went :
    (o : Option String) (id ts : String) (r : Review) (log log' : Log)
    → both (update_as o id ts r log).0 (update_as o id ts r log).1 ≡ both (answered true) log'
    → (s : String) × (o ≡ some s)
      × (is_some (get_by_id log id) ≡ true)
      × (log' ≡ append_record (update_record id ts s r) log)
went none id ts r log log' h = let e : err invalid_status ≡ answered true = ap (λ p. p.0) h in cc e
went (some s) id ts r log log' h = elim (Bool-cases (is_some (get_by_id log id))) [
  | inl t ↦ (s, refl, t, sym (ap (λ p. p.1) (rw t at h)))
  | inr t ↦ let e : answered false ≡ answered true = ap (λ p. p.0) (rw t at h) in absurd (cc e)
]

some_of : {A : Type 0} (o : Option A) → is_some o ≡ true → (a : A) × (o ≡ some a)
some_of none h = cc
some_of (some a) h = (a, refl)

view_after :
    (base : Fields) (id ts status : String) (r : Review)
    → IsReviewed base (view_of base (some (update_record id ts status r))) status r
view_after base id ts status r =
    reviewed base id ts status r.reviewer_id r.reviewer_role r.metadata r.notes

-- A view has the proposal of its enqueue record.
proposal_of :
    (log : Log) (id : String) (base old : Fields)
    → get (latest log).enqueues id ≡ some base
    → get_by_id log id ≡ some old
    → get_json old "proposal" ≡ get_json base "proposal"
unfolding get_by_id merge_latest_views
proposal_of log id base old enq was =
    let view : some (view_of base (get (latest log).updates id)) ≡ some old =
      rw (get-merge_views (latest log).enqueues (latest log).updates id, enq) at was in
    let same : view_of base (get (latest log).updates id) ≡ old = cc view in
    ap (λ v. get_json v "proposal") (sym same) ∙ view_of-proposal base (get (latest log).updates id)

IsReviewed-transport :
    (base old v : Fields) (status : String) (r : Review)
    → get_json old "proposal" ≡ get_json base "proposal"
    → IsReviewed base v status r
    → IsReviewed old v status r
IsReviewed-transport base old v status r same now = record {
  has_status = now.has_status;
  has_reviewer = now.has_reviewer;
  has_role = now.has_role;
  has_metadata = now.has_metadata;
  same_proposal = now.same_proposal ∙ sym same;
}

appended :
    (log : Log) (id ts status : String) (r : Review) (base : Fields) (j : String)
    → truthy id ≡ true
    → get (latest log).enqueues id ≡ some base
    → get_by_id (append_record (update_record id ts status r) log) j ≡ (
        if id == j
        then some (view_of base (some (update_record id ts status r)))
        else get_by_id log j)
appended log id ts status r base j h enq = elim (Bool-cases (id == j)) [
  | inl t ↦
      views-update log id ts status r j h
      ∙ rw t (
          ap (λ o. Option.map (λ b. view_of b (some (update_record id ts status r))) o)
            (ap (get (latest log).enqueues) (sym (eq-true id j t)) ∙ enq))
  | inr t ↦ views-update log id ts status r j h ∙ rw t refl
]

-- After a review that is taken, the status that it names is one of the three, the view of its approval has
-- that status, the reviewer, the role and the metadata, and the proposal that it had; and the view of every other approval is what it was.
pub update_status-views :
    (log log' : Log) (id ts status : String) (r : Review) (j : String)
    → truthy id ≡ true
    → update_status id ts status r log ≡ both (answered true) log'
    → (s : String) × (old v : Fields) × (normal_status status ≡ some s)
      × (get_by_id log id ≡ some old)
      × (get_by_id log' id ≡ some v)
      × IsReviewed old v s r
      × (get_by_id log' j ≡ (if id == j then some v else get_by_id log j))
unfolding update_status
update_status-views log log' id ts status r j h e =
    let (s, is_normal, there, after) = went (normal_status status) id ts r log log' e in
    let (old, was) = some_of (get_by_id log id) there in
    let (base, enq) = base_of log id was in
    let v = view_of base (some (update_record id ts s r)) in
    (
      s,
      old,
      v,
      is_normal,
      was,
      ap (λ l. get_by_id l id) after ∙ appended log id ts s r base id h enq ∙ rw (eq_self id) refl,
      IsReviewed-transport base old v s r (proposal_of log id base old enq was)
          (view_after base id ts s r),
      ap (λ l. get_by_id l j) after ∙ appended log id ts s r base j h enq,
    )
