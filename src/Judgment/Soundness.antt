-- ===== src/Judgment/Soundness.antt =====
-- The invariant of one record, under the transitions of core/judgment/transitions.py.
use Prim.Native.String.{◌++◌}
use Prim.Native.String.append
use Prim.Native.String.compare
use proto_v2_engine.Base.{ℕ, String, ◌≡◌, refl, true, Option, ok, arith, truthy}
use proto_v2_engine.Judgment.Models.{approved, applied, HumanDecision, DpaRecord}
use proto_v2_engine.Judgment.Transitions.{
  approver_text, start_review, submit_human_decision, apply, abort,
}
use proto_v2_engine.Judgment.Lifecycle.{
  IsSound, start_review-eq_ok, submit-eq_ok, apply-eq_ok, abort-eq_ok,
}

module _ (dpa : DpaRecord) (now : ℕ) {dpa' : DpaRecord} where
  pub submit-IsSound :
      (decision : HumanDecision) → submit_human_decision dpa decision now ≡ ok dpa' → IsSound dpa'
  submit-IsSound decision h =
      let (open_status, changed, name, role, sign, (o, offered, free)) =
        submit-eq_ok dpa now decision h in
      record {
        approval = λ _. (
          decision,
          record {
            recorded = ground arith;
            named = name;
            in_role = role;
            signed = sign;
            option = o;
            offered = ground arith;
            unblocked = free;
            decided_at = ground arith;
            decided_by = ground arith;
          },
        );
        undecided = λ e. ground arith;
      }

  pub start_review-IsSound : IsSound dpa → start_review dpa now ≡ ok dpa' → IsSound dpa'
  start_review-IsSound s h = ground (arith, start_review-eq_ok dpa now h)

  pub apply-IsSound : IsSound dpa → apply dpa now ≡ ok dpa' → IsSound dpa'
  apply-IsSound s h =
      let (was, changed) = apply-eq_ok dpa now h in
      let (decision, a) = s.approval (ground arith) in
      rw changed (record {
        approval = λ _. (
          decision,
          record {
            recorded = a.recorded;
            named = a.named;
            in_role = a.in_role;
            signed = a.signed;
            option = a.option;
            offered = a.offered;
            unblocked = a.unblocked;
            decided_at = a.decided_at;
            decided_by = a.decided_by;
          },
        );
        undecided = λ e. cc;
      })

  pub abort-IsSound :
      (reason : Option String) → IsSound dpa → abort dpa reason now ≡ ok dpa' → IsSound dpa'
  abort-IsSound reason s h = ground (arith, abort-eq_ok dpa now reason h)

-- An approver's text is never empty.
present-append : (s t : String) → truthy s ≡ true → truthy (s ++ t) ≡ true
present-append String.[] t h = cc
present-append (String.◌∷◌ c s) t h = rw append.cons (rw compare.cons-nil refl)

approver_text-present :
    (h : HumanDecision) → truthy h.approver_name ≡ true → truthy (approver_text h) ≡ true
unfolding approver_text
approver_text-present h e = present-append h.approver_name (" (" ++ h.approver_role ++ ")") e

-- `apply` of a sound record that is approved returns it as applied: no guard refuses it.
apply-ok_of_sound :
    (dpa : DpaRecord) (now : ℕ)
    → IsSound dpa
    → dpa.status ≡ approved
    → apply dpa now ≡ ok (record dpa { status = applied; updated_at = now })
unfolding apply
apply-ok_of_sound dpa now s e =
    let (h, a) = s.approval (ground arith) in ground (arith, a, approver_text-present h a.named)
