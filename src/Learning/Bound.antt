-- ===== src/Learning/Bound.antt =====
-- How many emissions core/learning_os/rate_limiter.py allows in a window of one period.
use text.Mathlib.TextEquality.{eq_iff}
use mathlib.Core.List as List
use proto_v2_engine.Base.{
  ℕ, ◌+◌, ◌≤◌, ◌<◌, String, Bool, ◌≡◌, ◌⊎◌, refl, ◌∙◌, inl, inr, true, false, ◌&&◌, List, [], ◌∷◌,
  ◌++◌, arith, get, length, length-append, length-filter_le, filter, filter-append, filter-filter,
  ◌==◌, Bool-cases,
}
use proto_v2_engine.Json.{ℤ, pos, negsuc}
use proto_v2_engine.Learning.RateLimiter.{
  RateLimiter, is_recent, reaches, record_if, check_and_record,
}
use proto_v2_engine.Learning.Window.{
  Calls, IsOrdered, last_time, emitted, emissions, fresh, is_recent_mono, Tracks, step-Tracks,
  check-parameters,
}

-- No window that ends at `start` or later holds more than `l` of the emissions.
abbrev pub IsBounded : ℤ → ℕ → List ℕ → ℕ → Type 0
IsBounded period l history start =
    (now : ℕ) → start ≤ now → length (filter (is_recent period now) history) ≤ l

-- Windows only lose emissions as the clock goes on.
window_shrinks :
    (period : ℤ) (history : List ℕ) (t now : ℕ)
    → t ≤ now
    → length (filter (is_recent period now) history) ≤ length (filter (is_recent period t) history)
window_shrinks period history t now le =
    rw
      (← filter-filter (is_recent period t) (is_recent period now) history
        (λ x. is_recent_mono period t now x le))
      (length-filter_le (is_recent period now) (filter (is_recent period t) history))

emitted-IsBounded :
    (period : ℤ) (l : ℕ) (history : List ℕ) (k j : String) (t : ℕ) (allowed : Bool)
    → IsBounded period l history t
    → (j == k ≡ true → allowed ≡ true → length (filter (is_recent period t) history) < l)
    → IsBounded period l (history ++ emitted k j t allowed) t
emitted-IsBounded period l history k j t allowed bound room now le =
    rw (filter-append (is_recent period now) history (emitted k j t allowed)) (
      rw
        (length-append (filter (is_recent period now) history)
          (filter (is_recent period now) (emitted k j t allowed)))
        (split (Bool-cases (j == k && allowed))))
  where
    split :
        ((j == k && allowed) ≡ true) ⊎ ((j == k && allowed) ≡ false)
        → length (filter (is_recent period now) history)
            + length (filter (is_recent period now) (emitted k j t allowed))
          ≤ l
    split (inr e) =
        let none_left : List ℕ = [] in
        rw e (ground (arith, bound now le, length-filter_le (is_recent period now) none_left))
    split (inl e) = rw e (
        ground (
          arith,
          room (ground arith) (ground arith),
          window_shrinks period history t now le,
          length-filter_le (is_recent period now) (t ∷ []),
        ))

record_if-allowed :
    (b : Bool) (limiter : RateLimiter) (key : String) (now : ℕ) (ts : List ℕ)
    → (record_if b limiter key now ts).0.allowed ≡ true
    → b ≡ false
record_if-allowed true limiter key now ts h = cc
record_if-allowed false limiter key now ts h = refl

reaches-false : (limit : ℤ) (l n : ℕ) → limit ≡ pos l → reaches limit n ≡ false → n < l
reaches-false (pos m) l n e h = let same : m ≡ l = cc e in rw (← same) (ground arith)
reaches-false (negsuc m) l n e h = cc

step-IsBounded :
    (limiter : RateLimiter) (k j : String) (t start l : ℕ) (history : List ℕ)
    → limiter.limit_x ≡ pos l
    → start ≤ t
    → Tracks limiter k history start
    → IsBounded limiter.period_seconds l history start
    → IsBounded limiter.period_seconds l
        (history ++ emitted k j t (check_and_record j t limiter).0.allowed)
        t
unfolding check_and_record
step-IsBounded limiter k j t start l history limited le tracks bound =
    emitted-IsBounded limiter.period_seconds l history k j t _
      (λ now later. bound now (ground arith))
      (λ e a.
        let same : j ≡ k = ground (arith, eq_iff j k) in
        room (reaches-false _ l _ limited (record_if-allowed _ limiter j t _ a))
          (rw (← same) at (tracks t le)))
  where
    room : {kept old : List ℕ} → length kept < l → kept ≡ old → length old < l
    room h e = rw (← e) h

emissions-IsBounded :
    (cs : Calls) (limiter : RateLimiter) (k : String) (start l : ℕ) (history : List ℕ)
    → limiter.limit_x ≡ pos l
    → IsOrdered start cs
    → Tracks limiter k history start
    → IsBounded limiter.period_seconds l history start
    → IsBounded limiter.period_seconds l (history ++ emissions k cs limiter) (last_time start cs)
unfolding emissions
emissions-IsBounded [] limiter k start l history limited ordered tracks bound =
    rw (List.append-nil history) bound
emissions-IsBounded ((j, t) ∷ cs) limiter k start l history limited ordered tracks bound =
    let (period, limit) = check-parameters limiter j t in
    let new = emitted k j t (check_and_record j t limiter).0.allowed in
    let next =
      emissions-IsBounded cs (check_and_record j t limiter).1 k t l (history ++ new)
        (limit ∙ limited) ordered.1 (step-Tracks limiter k j t start history ordered.0 tracks)
        (rw period (step-IsBounded limiter k j t start l history limited ordered.0 tracks bound)) in
    rw (← List.append_assoc history new (emissions k cs (check_and_record j t limiter).1))
      (rw period at next)

-- For a limiter with the limit `l` that starts with no events, and calls on a clock that does not go
-- back: no window of one period that ends at the last call or later holds more than `l` of the
-- emissions that it allowed under a key.
pub emissions_bounded :
    (period : ℤ) (l : ℕ) (k : String) (cs : Calls) (now : ℕ)
    → IsOrdered 0 cs
    → last_time 0 cs ≤ now
    → length (filter (is_recent period now) (emissions k cs (fresh period (pos l)))) ≤ l
unfolding get filter
emissions_bounded period l k cs now ordered le =
    emissions-IsBounded cs (fresh period (pos l)) k 0 l [] refl ordered (λ now' h. refl)
      (λ now' h. ground arith) now le
