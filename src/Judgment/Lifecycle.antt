-- ===== src/Judgment/Lifecycle.antt =====
-- What core/judgment/transitions.py does to one record: the edges of the status machine, and what a
-- record that was approved or applied must hold.

use proto_v2_engine.Base.{
  ℕ, String, ◌≡◌, ◌⊎◌, Bool, true, false, Option, none, some, ok, arith, truthy,
}
use proto_v2_engine.Judgment.Models.{
  DecisionStatus, event_ingested, dpa_created, human_reviewing, approved, applied, aborted,
  DpaOption, HumanDecision, DpaRecord,
}
use proto_v2_engine.Judgment.Transitions.{
  is_open, is_terminal, with_reason, find_option, approver_text, start_review,
  submit_human_decision, apply, abort,
}

infix 40 ◌⟶◌
pub data ◌⟶◌ : DecisionStatus → DecisionStatus → Type 0 where
  review : dpa_created ⟶ human_reviewing
  review_again : human_reviewing ⟶ human_reviewing
  decide : dpa_created ⟶ approved
  decide_reviewed : human_reviewing ⟶ approved
  carry_out : approved ⟶ applied
  give_up_event : event_ingested ⟶ aborted
  give_up_created : dpa_created ⟶ aborted
  give_up_reviewing : human_reviewing ⟶ aborted
  give_up_approved : approved ⟶ aborted
  stay_aborted : aborted ⟶ aborted

pub ruleset edges = (
  review, review_again, decide, decide_reviewed, carry_out, give_up_event, give_up_created,
  give_up_reviewing, give_up_approved, stay_aborted,
)

abbrev pub is_decided : DecisionStatus → Bool
is_decided approved = true
is_decided applied = true
is_decided _ = false

-- `h` is the decision that approved `d`: signed by a named approver, for an option that `d` offers
-- and does not block.
pub record IsApproval (d : DpaRecord) (h : HumanDecision) : Type 0 where
  pub recorded : d.human_decision_json ≡ some h
  pub named : truthy h.approver_name ≡ true
  pub in_role : truthy h.approver_role ≡ true
  pub signed : truthy h.signature ≡ true
  pub option : DpaOption
  pub offered : find_option d.options_json h.selected_option_id ≡ some option
  pub unblocked : option.blocked ≡ false
  pub decided_at : d.approved_at ≡ some h.decided_at
  pub decided_by : d.approved_by ≡ some (approver_text h)

-- What holds of a record between two calls.
pub record IsSound (d : DpaRecord) : Type 0 where
  pub approval : is_decided d.status ≡ true → (h : HumanDecision) × IsApproval d h
  pub undecided : is_open d.status ≡ true → d.human_decision_json ≡ none

-- What a call that returned has tested, and what it returns.
module _ (dpa : DpaRecord) (now : ℕ) {dpa' : DpaRecord} where
  pub start_review-eq_ok :
      start_review dpa now ≡ ok dpa'
      → (is_open dpa.status ≡ true)
        × (dpa' ≡ record dpa { status = human_reviewing; updated_at = now })
  unfolding start_review
  start_review-eq_ok h = ground arith

  pub submit-eq_ok :
      (decision : HumanDecision)
      → submit_human_decision dpa decision now ≡ ok dpa'
      → (is_open dpa.status ≡ true)
        × (dpa' ≡ record dpa {
          human_decision_json = some decision;
          status = approved;
          approved_at = some decision.decided_at;
          approved_by = some (approver_text decision);
          updated_at = now;
        })
        × (truthy decision.approver_name ≡ true)
        × (truthy decision.approver_role ≡ true)
        × (truthy decision.signature ≡ true)
        × ((o : DpaOption) × (find_option dpa.options_json decision.selected_option_id ≡ some o)
            × (o.blocked ≡ false))
  unfolding submit_human_decision
  submit-eq_ok decision h = ground arith

  pub apply-eq_ok :
      apply dpa now ≡ ok dpa'
      → (dpa.status ≡ approved) × (dpa' ≡ record dpa { status = applied; updated_at = now })
  unfolding apply
  apply-eq_ok h = ground arith

  pub abort-eq_ok :
      (reason : Option String)
      → abort dpa reason now ≡ ok dpa'
      → ((dpa.status ≡ aborted) × (dpa' ≡ dpa))
        ⊎ ((is_terminal dpa.status ≡ false)
            × (dpa' ≡ record dpa {
              status = aborted;
              updated_at = now;
              constraints_json = with_reason reason dpa.constraints_json;
            }))
  unfolding abort
  abort-eq_ok reason h = ground arith

  pub start_review_edge : start_review dpa now ≡ ok dpa' → dpa.status ⟶ dpa'.status
  unfolding start_review
  start_review_edge h = grind (arith, edges)

  pub submit_edge :
      (decision : HumanDecision)
      → submit_human_decision dpa decision now ≡ ok dpa'
      → dpa.status ⟶ dpa'.status
  submit_edge decision h = grind (arith, edges, submit-eq_ok decision h)

  pub apply_edge : apply dpa now ≡ ok dpa' → dpa.status ⟶ dpa'.status
  apply_edge h = grind (arith, edges, apply-eq_ok h)

  pub abort_edge :
      (reason : Option String) → abort dpa reason now ≡ ok dpa' → dpa.status ⟶ dpa'.status
  unfolding abort
  abort_edge reason h = grind (arith, edges)
