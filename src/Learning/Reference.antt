-- ===== src/Learning/Reference.antt =====
-- The decisions of core/learning_os/rate_limiter.py against a limiter that keeps every emission.
use mathlib.Core.List as List
use proto_v2_engine.Base.{
  ℕ, ◌≤◌, String, Bool, ◌≡◌, refl, ◌∙◌, true, false, not, List, [], ◌∷◌, ◌++◌, get, length, filter,
}
use proto_v2_engine.Json.{ℤ}
use proto_v2_engine.Learning.RateLimiter.{
  RateLimiter, is_recent, reaches, record_if, check_and_record,
}
use proto_v2_engine.Learning.Window.{
  Calls, IsOrdered, last_time, emitted, emissions, fresh, Tracks, step-Tracks, check-parameters,
}

-- The limiter after the calls.
unfoldable pub after_calls : Calls → RateLimiter → RateLimiter
after_calls [] limiter = limiter
after_calls ((j, t) ∷ cs) limiter = after_calls cs (check_and_record j t limiter).1

after-parameters :
    (cs : Calls) (limiter : RateLimiter)
    → ((after_calls cs limiter).period_seconds ≡ limiter.period_seconds)
      × ((after_calls cs limiter).limit_x ≡ limiter.limit_x)
unfolding after_calls
after-parameters [] limiter = (refl, refl)
after-parameters ((j, t) ∷ cs) limiter =
    let (period, limit) = check-parameters limiter j t in
    let (period', limit') = after-parameters cs (check_and_record j t limiter).1 in
    (period' ∙ period, limit' ∙ limit)

after-Tracks :
    (cs : Calls) (limiter : RateLimiter) (k : String) (start : ℕ) (history : List ℕ)
    → IsOrdered start cs
    → Tracks limiter k history start
    → Tracks (after_calls cs limiter) k (history ++ emissions k cs limiter) (last_time start cs)
unfolding after_calls emissions
after-Tracks [] limiter k start history ordered tracks = rw (List.append-nil history) tracks
after-Tracks ((j, t) ∷ cs) limiter k start history ordered tracks =
    let new = emitted k j t (check_and_record j t limiter).0.allowed in
    rw (← List.append_assoc history new (emissions k cs (check_and_record j t limiter).1)) (
      after-Tracks cs (check_and_record j t limiter).1 k t (history ++ new) ordered.1
        (step-Tracks limiter k j t start history ordered.0 tracks))

allowed_lem :
    (b : Bool) (limiter : RateLimiter) (key : String) (now : ℕ) (ts : List ℕ)
    → (record_if b limiter key now ts).0.allowed ≡ not b
allowed_lem true limiter key now ts = refl
allowed_lem false limiter key now ts = refl

-- After any calls on a clock that does not go back, a call of a limiter that started with no events
-- is allowed exactly where fewer than the limit of all the emissions under its key are recent:
-- forgetting the old ones changes no decision.
pub check_exact :
    (period limit : ℤ) (k : String) (cs : Calls) (now : ℕ)
    → IsOrdered 0 cs
    → last_time 0 cs ≤ now
    → (check_and_record k now (after_calls cs (fresh period limit))).0.allowed
      ≡ not (
          reaches limit
            (length (filter (is_recent period now) (emissions k cs (fresh period limit)))))
unfolding check_and_record get filter
check_exact period limit k cs now ordered le =
    let (same_period, same_limit) = after-parameters cs (fresh period limit) in
    let tracks = after-Tracks cs (fresh period limit) k 0 [] ordered (λ now' h. refl) now le in
    allowed_lem _ (after_calls cs (fresh period limit)) k now _
    ∙ rw tracks (rw same_period (rw same_limit refl))
