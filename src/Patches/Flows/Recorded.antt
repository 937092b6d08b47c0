-- ===== src/Patches/Flows/Recorded.antt =====
-- core/B_learning/approval.py: what an approval that is recorded changes for later applications.
use text.Mathlib.TextEquality.{eq_iff}
use proto_v2_engine.Json.{Fields, get_json}
use proto_v2_engine.Base.{
  none, String, Bool, true, false, ◌&&◌, ◌||◌, ◌≡◌, refl, sym, ap, ◌∙◌, inl, inr, List, [], ◌∷◌,
  ◌++◌, ok, filter, filter-append, truthy, >>=-elim, Bool-cases, arith, ◌==◌,
}
use proto_v2_engine.Patches.Approval.{
  ApprovalRecord, Files, Hashes, Flow, approvals_for, find_proposal, counts, reviewers, has_name,
  distinct_names, pending_approvers, is_pending, pending,
}
use proto_v2_engine.Patches.Flows.{approve_only}

-- The set has the names of the list.
has_name-distinct_names :
    (ss : List String) (n : String) → has_name (distinct_names ss) n ≡ has_name ss n
unfolding has_name distinct_names
has_name-distinct_names [] n = refl
has_name-distinct_names (s ∷ ss) n = elim (Bool-cases (has_name (distinct_names ss) s)) [
  | inl t ↦ elim (Bool-cases (s == n)) [
    | inl e ↦
        let same : has_name (distinct_names ss) n ≡ true = ground (arith, eq_iff s n) in
        rw t (rw same (rw e refl))
    | inr e ↦ rw t (rw e (has_name-distinct_names ss n))
  ]
  | inr t ↦ rw t (ap (λ b. s == n || b) (has_name-distinct_names ss n))
]

has_name-append :
    (xs ys : List ApprovalRecord) (n : String)
    → has_name (reviewers (xs ++ ys)) n ≡ (has_name (reviewers xs) n || has_name (reviewers ys) n)
unfolding has_name reviewers
has_name-append [] ys n = refl
has_name-append (x ∷ xs) ys n = elim (Bool-cases (x.reviewer == n)) [
  | inl t ↦ rw t refl
  | inr t ↦ rw t (has_name-append xs ys n)
]

-- The approvers of a proposal, by the names in its counted records.
approvers-has_name :
    (rs : List ApprovalRecord) (id n : String)
    → has_name (pending_approvers (approvals_for rs id)) n
      ≡ has_name (reviewers (filter counts (approvals_for rs id))) n
unfolding pending_approvers
approvers-has_name rs id n =
    has_name-distinct_names (reviewers (filter counts (approvals_for rs id))) n

counted-append :
    (rs ss : List ApprovalRecord) (id : String)
    → filter counts (approvals_for (rs ++ ss) id)
      ≡ filter counts (approvals_for rs id) ++ filter counts (approvals_for ss id)
unfolding approvals_for
counted-append rs ss id =
    ap (filter counts) (filter-append (λ r. r.proposal_id == id) rs ss)
    ∙ filter-append counts (filter (λ r. r.proposal_id == id) rs)
        (filter (λ r. r.proposal_id == id) ss)

approvers-append :
    (rs ss : List ApprovalRecord) (id n : String)
    → has_name (pending_approvers (approvals_for (rs ++ ss) id)) n ≡ (
        has_name (pending_approvers (approvals_for rs id)) n
        || has_name (reviewers (filter counts (approvals_for ss id))) n)
approvers-append rs ss id n =
    approvers-has_name (rs ++ ss) id n
    ∙ ap (λ xs. has_name (reviewers xs) n) (counted-append rs ss id)
    ∙ has_name-append (filter counts (approvals_for rs id)) (filter counts (approvals_for ss id)) n
    ∙ ap (λ b. b || has_name (reviewers (filter counts (approvals_for ss id))) n)
        (sym (approvers-has_name rs id n))

-- One pending approval, as `approve_only` writes it.
one-approval :
    (r : ApprovalRecord) (id n : String)
    → r.decision ≡ "approved"
    → is_pending r.status ≡ true
    → has_name (reviewers (filter counts (approvals_for (r ∷ []) id))) n
      ≡ ((r.proposal_id == id && truthy r.reviewer) && r.reviewer == n)
unfolding has_name reviewers filter approvals_for
one-approval r id n approved pends = elim (Bool-cases (r.proposal_id == id)) [
  | inr t ↦ rw t refl
  | inl t ↦ rw t (
      rw approved (
        rw pends (elim (Bool-cases (truthy r.reviewer)) [
          | inl u ↦ rw u (or_false (r.reviewer == n))
          | inr u ↦ rw u refl
        ])))
]
  where
    or_false : (b : Bool) → (b || false) ≡ b
    or_false true = refl
    or_false false = refl

-- The record that `approve_only` writes.
abbrev pub written : String → String → String → String → Fields → ApprovalRecord
written id reviewer comment now proposal = record {
  proposal_id = id;
  decision = "approved";
  reviewer = reviewer;
  ts_iso = now;
  comment = comment;
  policy_target_sha256 = get_json proposal "policy_target_sha256";
  status = pending;
  before_version = none;
  before_sha256 = none;
  after_version = none;
  after_sha256 = none;
  receipt_hash = none;
}

abbrev recorded : ApprovalRecord × Files → Flow (ApprovalRecord × Files)
recorded done = ok done

recorded_eq : {a b : ApprovalRecord × Files} → recorded a ≡ ok b → a ≡ b
recorded_eq e = cc e

-- An approval that is recorded adds its reviewer, if a name is given, to the approvers of its proposal
-- and changes neither those of any other proposal nor the proposals, the policies and the receipts.
approve_only-has_name :
    (h : Hashes) (id reviewer comment now : String) (files files' : Files) (rec : ApprovalRecord)
    (other n : String)
    → approve_only h id reviewer comment now files ≡ ok (rec, files')
    → (has_name (pending_approvers (approvals_for files'.approvals other)) n ≡ (
        has_name (pending_approvers (approvals_for files.approvals other)) n
        || ((id == other && truthy reviewer) && reviewer == n)))
      × (files'.proposals ≡ files.proposals)
      × (files'.policies ≡ files.policies)
      × (files'.receipts ≡ files.receipts)
unfolding approve_only
approve_only-has_name h id reviewer comment now files files' rec other n e =
    >>=-elim (find_proposal files.proposals id) _ e (λ proposal _ e1.
      let same = recorded_eq e1 in
      let r = written id reviewer comment now proposal in
      rw (← ap (λ (x : ApprovalRecord × Files). x.1) same) (
        approvers-append files.approvals (r ∷ []) other n
            ∙ ap (λ b. has_name (pending_approvers (approvals_for files.approvals other)) n || b)
                (one-approval r other n refl refl),
        refl,
        refl,
        refl,
      ))
