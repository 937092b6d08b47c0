-- ===== src/Policy/Escalation.antt =====
-- How core/policy/policy_v0_2.py and policy_v0_3.py move the severity of a decision.
use mathlib.Core.List.{Memᴰ}
use proto_v2_engine.Base.{
  ℕ, ◌≤◌, String, Bool, ◌≡◌, ◌⊎◌, inl, inr, refl, true, false, ◌&&◌, Option, none, some, List, [],
  ◌∷◌, ◌+◌, arith, Bool-cases, ◌∙◌, lower, codes, same_codes, if◌then◌else◌,
}
use proto_v2_engine.Execution.Floats.{Floats}
use proto_v2_engine.Policy.Decision.{
  Severity, low, high, critical, EngineSignal, EngineDecision, is_high, step_down,
}
use proto_v2_engine.Policy.State.{
  SceneState, last_severity, severity_of_text, temporal_of, parse_iso, minutes,
}
use proto_v2_engine.Policy.V02.{accumulate, with_severity, time_or_now, compute_policy_v0_2}
use proto_v2_engine.Policy.V03.{
  safe_from, safe_conditions, is_held, decay_hold_minutes, compute_policy_v0_3,
}

with_severity-severity :
    (d : EngineDecision) (s : Severity) (note : String)
    → ((with_severity d s note).severity ≡ s) × ((with_severity d s note).mode ≡ d.mode)
unfolding with_severity
with_severity-severity d s note = ground arith

accumulate-cases :
    (before current : Severity)
    → (accumulate before current ≡ current)
      ⊎ ((current ≡ high) × (is_high before ≡ true) × (accumulate before current ≡ critical))
accumulate-cases before current = ground arith

module _ (parse : String → Option ℕ) (iso : ℕ → String) (now : ℕ) (channel : Option String)
    (current : EngineDecision) (prev : Option SceneState) where
  -- Accumulation keeps the mode, and either keeps the severity or raises high to critical where the
  -- previous severity was high or critical.
  accumulation :
      (now_ts_iso : Option String)
      → ((compute_policy_v0_2 parse iso now channel current prev now_ts_iso).decision.mode
          ≡ current.mode)
        × (((compute_policy_v0_2 parse iso now channel current prev now_ts_iso).decision.severity
              ≡ current.severity)
            ⊎ ((current.severity ≡ high)
                × (is_high (severity_of_text (last_severity prev current.severity)) ≡ true)
                × ((compute_policy_v0_2 parse iso now channel current prev
                      now_ts_iso).decision.severity
                    ≡ critical)))
  unfolding compute_policy_v0_2
  accumulation now_ts_iso =
      let before = severity_of_text (last_severity prev current.severity) in
      let (severity, mode) =
        with_severity-severity current (accumulate before current.severity)
          "policy_v0.2: accumulation → " in
      (mode, rw severity (accumulate-cases before current.severity))

-- With no previous state the current severity stands for the previous one, so that a decision of
-- high severity leaves the accumulation as critical, in every channel and at every time.
first_window_escalates :
    (parse : String → Option ℕ) (iso : ℕ → String) (now : ℕ) (channel : Option String)
    (current : EngineDecision) (now_ts_iso : Option String)
    → current.severity ≡ high
    → (compute_policy_v0_2 parse iso now channel current none now_ts_iso).decision.severity
      ≡ critical
unfolding compute_policy_v0_2 last_severity severity_of_text lower codes same_codes
first_window_escalates parse iso now channel current now_ts_iso h =
    let effective : accumulate (severity_of_text (last_severity none current.severity))
          current.severity
        ≡ critical =
      rw h refl in
    (with_severity-severity current _ "policy_v0.2: accumulation → ").0 ∙ effective

module _ {F : Type 0} (f : Floats F) where
  safe_from-unhigh :
      (ss : List (EngineSignal F)) (m : Severity) (q u : Bool)
      → safe_from f m q u ss ≡ true
      → (is_high m ≡ false) × ((s : EngineSignal F) → Memᴰ s ss → is_high s.severity ≡ false)
  unfolding safe_from
  safe_from-unhigh [] m q u h = (ground arith, λ s x. elim x [ ])
  safe_from-unhigh (t ∷ ss) m q u h =
      let (kept, later) = safe_from-unhigh ss _ _ _ h in
      (ground arith, λ s x. member s x (ground arith) later)
    where
      member :
          (s : EngineSignal F)
          → Memᴰ s (t ∷ ss)
          → is_high t.severity ≡ false
          → ((r : EngineSignal F) → Memᴰ r ss → is_high r.severity ≡ false)
          → is_high s.severity ≡ false
      member s (Memᴰ.head e) here later = rw e here
      member s (Memᴰ.tail y) here later = later s y

  is_held-time :
      (channel : Option String) (last : Option ℕ) (now : ℕ)
      → is_held channel last now ≡ true
      → (t : ℕ) × (last ≡ some t) × (t + minutes (decay_hold_minutes channel) ≤ now)
  unfolding is_held
  is_held-time channel none now h = cc
  is_held-time channel (some t) now h = (t, refl, ground arith)

  module _ (parse : String → Option ℕ) (iso : ℕ → String) (now : ℕ) (channel : Option String)
      (current : EngineDecision) (signals : List (EngineSignal F)) (prev : Option SceneState)
      (now_ts_iso : String) where
    abbrev decided : EngineDecision
    decided = (compute_policy_v0_3 f parse iso now channel current signals prev now_ts_iso).decision

    abbrev previous : Severity
    previous = severity_of_text (last_severity prev current.severity)

    abbrev window_end : ℕ
    window_end = time_or_now parse iso now (parse_iso parse (some now_ts_iso))

    abbrev last_time : Option ℕ
    last_time = parse_iso parse (temporal_of prev).last_ts_iso

    abbrev test : Bool
    test = safe_conditions f signals && is_held channel last_time window_end

    -- The decay keeps the mode. It keeps the severity too, unless no signal is high or critical and
    -- the time of the previous decision lies back by at least the channel's hold; then the severity is
    -- the one a step below the previous.
    decay :
        (decided.mode ≡ current.mode)
        × ((decided.severity ≡ current.severity)
            ⊎ (((s : EngineSignal F) → Memᴰ s signals → is_high s.severity ≡ false)
                × ((t : ℕ) × (last_time ≡ some t)
                    × (t + minutes (decay_hold_minutes channel) ≤ window_end))
                × (decided.severity ≡ step_down previous)))
    unfolding compute_policy_v0_3 safe_conditions
    decay =
        let set =
          with_severity-severity current (if test then step_down previous else current.severity)
            "policy_v0.3: decay/cooldown → " in
        (
          set.1,
          elim (Bool-cases test) [
            | inr e ↦ inl (set.0 ∙ rw e refl)
            | inl e ↦ inr (
              (safe_from-unhigh signals low true true (ground arith)).1,
              is_held-time channel last_time window_end (ground arith),
              set.0 ∙ rw e refl,
            )
          ],
        )
