-- ===== src/Governance/Eligibility.antt =====
-- When core/governance/proposal_validator.py lets a proposal pass: its guards against a description.
use mathlib.Core.List.{Memᴰ}
use text.Mathlib.TextEquality.{eq_iff}
use proto_v2_engine.Base.{
  String, Bool, ◌≡◌, ◌↔◌, refl, true, false, Option, none, some, List, ok, arith, any-true,
  true-any, is_empty, is_blank, ◌==◌,
}
use proto_v2_engine.Json.{ℤ, pos, ltz, eqz-eq, eqz_refl}
use proto_v2_engine.Execution.Floats.{Floats}
use proto_v2_engine.Governance.Proposal.{PolicyProposal, ObservationWindow, is_window_consistent}
use proto_v2_engine.Governance.HumanGate.{evaluate_human_gate}
use proto_v2_engine.Governance.Validator.{
  CanonParams, differs, falls_short, is_above, names_section, check_window, check_gate,
  validate_proposal_prequeue,
}

pub record IsEligible {F : Type 0} (f : Floats F) (params : CanonParams F) (canon pack : String)
    (p : PolicyProposal F) : Type 0 where
  pub canon_pinned : canon ≡ "1.0"
  pub pack_pinned : pack ≡ "1.0"
  pub section : Memᴰ "AQ" p.preconditions.constitution.required_sections
  pub window : is_window_consistent p.preconditions.observation_window ≡ true
  pub n_min : (n : ℤ) → params.n_min ≡ some n → p.preconditions.sample.n_min ≡ n
  pub sampled : ltz p.preconditions.sample.n_observed p.preconditions.sample.n_min ≡ false
  pub confirmed :
      (k : ℤ)
      → params.k_confirmations ≡ some k
      → ltz p.preconditions.stability.k_confirmations k ≡ false
  pub close :
      (m : F) → params.epsilon_max ≡ some m → f.lt m p.preconditions.stability.epsilon ≡ false
  pub summarised : is_blank p.preconditions.stability.summary ≡ false
  pub limit : (l : ℤ) → params.limit_x ≡ some l → p.rate_limit.limit_x ≡ l
  pub limit_nonneg : ltz p.rate_limit.limit_x (pos 0) ≡ false
  pub marked :
      (evaluate_human_gate p).0 ≡ true
      → (p.human_gate.required ≡ true) × (is_empty p.human_gate.reasons ≡ false)

differs-false : (o : Option ℤ) (x n : ℤ) → differs o x ≡ false → o ≡ some n → x ≡ n
differs-false none x n h e = cc
differs-false (some m) x n h e = let same : m ≡ n = cc e in rw (← same) (eqz-eq x m (ground arith))

false-differs : (o : Option ℤ) (x : ℤ) → ((n : ℤ) → o ≡ some n → x ≡ n) → differs o x ≡ false
false-differs none x h = refl
false-differs (some m) x h = rw (h m refl) (rw (eqz_refl m) refl)

false-falls_short :
    (o : Option ℤ) (x : ℤ) → ((k : ℤ) → o ≡ some k → ltz x k ≡ false) → falls_short o x ≡ false
false-falls_short none x h = refl
false-falls_short (some k) x h = h k refl

false-is_above :
    {F : Type 0} (f : Floats F) (o : Option F) (x : F)
    → ((m : F) → o ≡ some m → f.lt m x ≡ false)
    → is_above f o x ≡ false
false-is_above f none x h = refl
false-is_above f (some m) x h = h m refl

ok-check_gate :
    (required marked : Bool) (reasons : List String)
    → (required ≡ true → (marked ≡ true) × (is_empty reasons ≡ false))
    → check_gate required marked reasons ≡ ok tt
ok-check_gate false marked reasons h = refl
ok-check_gate true marked reasons h = rw (h refl).0 (rw (h refl).1 refl)

names_section-Memᴰ : (sections : List String) → names_section sections ≡ true → Memᴰ "AQ" sections
unfolding names_section
names_section-Memᴰ sections h =
    let (s, m, e) = any-true (λ s. s == "AQ") sections h in
    let same : s ≡ "AQ" = ground (arith, eq_iff s "AQ") in rw same at m

Memᴰ-names_section : (sections : List String) → Memᴰ "AQ" sections → names_section sections ≡ true
unfolding names_section
Memᴰ-names_section sections m = true-any (λ s. s == "AQ") "AQ" sections m refl

check_window-ok : (w : ObservationWindow) → check_window w ≡ ok tt → is_window_consistent w ≡ true
unfolding check_window is_window_consistent
check_window-ok w h = ground arith

ok-check_window : (w : ObservationWindow) → is_window_consistent w ≡ true → check_window w ≡ ok tt
unfolding check_window is_window_consistent
ok-check_window w h = ground arith

module _ {F : Type 0} (f : Floats F) (params : CanonParams F) (canon pack : String)
    (p : PolicyProposal F) where
  validate-IsEligible :
      validate_proposal_prequeue f params canon pack p ≡ ok tt → IsEligible f params canon pack p
  unfolding validate_proposal_prequeue
  validate-IsEligible h = record {
    canon_pinned = ground (arith, eq_iff canon "1.0");
    pack_pinned = ground (arith, eq_iff pack "1.0");
    section = names_section-Memᴰ p.preconditions.constitution.required_sections (ground arith);
    window = check_window-ok p.preconditions.observation_window (ground arith);
    n_min = λ n e. differs-false params.n_min p.preconditions.sample.n_min n (ground arith) e;
    sampled = ground arith;
    confirmed = λ k e. ground arith;
    close = λ m e. ground arith;
    summarised = ground arith;
    limit = λ l e. differs-false params.limit_x p.rate_limit.limit_x l (ground arith) e;
    limit_nonneg = ground arith;
    marked = λ e. (ground arith, ground arith);
  }

  IsEligible-validate :
      IsEligible f params canon pack p → validate_proposal_prequeue f params canon pack p ≡ ok tt
  unfolding validate_proposal_prequeue
  IsEligible-validate i =
      let named = Memᴰ-names_section p.preconditions.constitution.required_sections i.section in
      let framed = ok-check_window p.preconditions.observation_window i.window in
      let n_min = false-differs params.n_min p.preconditions.sample.n_min i.n_min in
      let limit = false-differs params.limit_x p.rate_limit.limit_x i.limit in
      let short =
        false-falls_short params.k_confirmations p.preconditions.stability.k_confirmations
          i.confirmed in
      let above = false-is_above f params.epsilon_max p.preconditions.stability.epsilon i.close in
      let gate =
        ok-check_gate (evaluate_human_gate p).0 p.human_gate.required p.human_gate.reasons
          i.marked in
      rw i.canon_pinned (
        rw i.pack_pinned (
          rw named (
            rw framed (
              rw n_min (
                rw i.sampled
                  (rw short (rw above (rw i.summarised (rw limit (rw i.limit_nonneg gate))))))))))

  -- The pre-queue validation raises nothing exactly where the proposal is eligible: the versions are
  -- pinned, the section AQ is named, the window, sample, stability and rate limit meet the parameters
  -- that are given, and a proposal which a human must approve is marked so with reasons.
  pub validate_iff_IsEligible :
      (validate_proposal_prequeue f params canon pack p ≡ ok tt) ↔ IsEligible f params canon pack p
  validate_iff_IsEligible = (validate-IsEligible, IsEligible-validate)
