-- ===== src/Patches/Flows/Approvers.antt =====
-- core/B_learning/approval.py: the set of reviewers whose approvals count.
use mathlib.Core.List.{Memᴰ}
use text.Mathlib.TextEquality.{eq_iff}
use proto_v2_engine.Base.{
  Bool, All, ◌||◌, String, true, false, ◌≡◌, refl, inl, inr, List, [], ◌∷◌, filter, Bool-cases,
  arith, ◌==◌,
}
use proto_v2_engine.Patches.Approval.{
  ApprovalRecord, approvals_for, counts, reviewers, has_name, distinct_names,
}

abbrev pub IsDistinct : List String → Type 0
IsDistinct [] = Unit
IsDistinct (s ∷ ss) = (has_name ss s ≡ false) × IsDistinct ss

-- An approval of the proposal that is pending and has a reviewer, among the records.
pub record IsApprovedBy (records : List ApprovalRecord) (id reviewer : String) : Type 0 where
  pub approval : ApprovalRecord
  pub is_recorded : Memᴰ approval records
  pub for_proposal : (approval.proposal_id == id) ≡ true
  pub counted : counts approval ≡ true
  pub by_reviewer : approval.reviewer ≡ reviewer

pub distinct_names-IsDistinct : (ss : List String) → IsDistinct (distinct_names ss)
unfolding distinct_names
distinct_names-IsDistinct [] = tt
distinct_names-IsDistinct (s ∷ ss) = elim (Bool-cases (has_name (distinct_names ss) s)) [
  | inl t ↦ rw t (distinct_names-IsDistinct ss)
  | inr t ↦ rw t (t, distinct_names-IsDistinct ss)
]

-- A name in the set is in the list.
pub distinct_names-has_name :
    (ss : List String) (n : String) → has_name (distinct_names ss) n ≡ true → has_name ss n ≡ true
unfolding distinct_names has_name
distinct_names-has_name [] n h = h
distinct_names-has_name (s ∷ ss) n h = elim (Bool-cases (has_name (distinct_names ss) s)) [
  | inl t ↦ ground (arith, distinct_names-has_name ss n (rw t at h))
  | inr t ↦ elim (Bool-cases (s == n)) [
    | inl e ↦ rw e refl
    | inr e ↦ rw e (distinct_names-has_name ss n (rw e at rw t at h))
  ]
]

one_more :
    (r : ApprovalRecord) {rs : List ApprovalRecord} {id n : String}
    → IsApprovedBy rs id n
    → IsApprovedBy (r ∷ rs) id n
one_more r found = record {
  approval = found.approval;
  is_recorded = Memᴰ.tail found.is_recorded;
  for_proposal = found.for_proposal;
  counted = found.counted;
  by_reviewer = found.by_reviewer;
}

-- A name in the list of the records that pass both tests is that of such a record.
pub reviewers-IsApprovedBy :
    (rs : List ApprovalRecord) (id n : String)
    → has_name (reviewers (filter counts (approvals_for rs id))) n ≡ true
    → IsApprovedBy rs id n
unfolding reviewers filter approvals_for has_name
reviewers-IsApprovedBy [] id n h = cc
reviewers-IsApprovedBy (r ∷ rs) id n h = elim (Bool-cases (r.proposal_id == id)) [
  | inr e ↦ one_more r (reviewers-IsApprovedBy rs id n (rw e at h))
  | inl e ↦ elim (Bool-cases (counts r)) [
    | inr c ↦ one_more r (reviewers-IsApprovedBy rs id n (rw c at rw e at h))
    | inl c ↦ elim (Bool-cases (r.reviewer == n)) [
      | inl same ↦ record {
        approval = r;
        is_recorded = Memᴰ.head refl;
        for_proposal = e;
        counted = c;
        by_reviewer = ground (arith, eq_iff r.reviewer n);
      }
      | inr other ↦ one_more r (reviewers-IsApprovedBy rs id n (rw other at rw c at rw e at h))
    ]
  ]
]

-- What holds of every name that is found in a list holds of its members.
pub All-names :
    {P : String → Type 0} (names : List String)
    → ((n : String) → has_name names n ≡ true → P n)
    → All P names
unfolding has_name
All-names [] h = tt
All-names (s ∷ ss) h = (
  h s (ground (arith, eq_iff s s)),
  All-names ss (λ n here. h n (or-true (s == n) (has_name ss n) here)),
)
  where
    or-true : (a b : Bool) → b ≡ true → (a || b) ≡ true
    or-true true b e = refl
    or-true false b e = e
