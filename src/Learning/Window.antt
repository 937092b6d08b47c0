-- ===== src/Learning/Window.antt =====
-- Sequences of calls of core/learning_os/rate_limiter.py: what they emit, and what the limiter still
-- keeps of it.
use text.Mathlib.TextEquality.{eq_iff}
use mathlib.Core.List as List
use proto_v2_engine.Base.{
  ℕ, ◌≤◌, String, Bool, ◌≡◌, ap, ◌∙◌, inl, inr, true, false, ◌&&◌, List, [], ◌∷◌, ◌++◌, arith, get,
  get-put, filter, filter-append, filter-filter, ◌==◌, if◌then◌else◌, Bool-cases,
}
use proto_v2_engine.Json.{ℤ, pos, negsuc}
use proto_v2_engine.Learning.RateLimiter.{
  RateLimiter, is_recent, times_of, record_if, check_and_record,
}

abbrev pub Calls : Type 0
Calls = List (String × ℕ)

-- The clock does not go back.
abbrev pub IsOrdered : ℕ → Calls → Type 0
IsOrdered start [] = Unit
IsOrdered start ((_, t) ∷ cs) = (start ≤ t) × IsOrdered t cs

-- The last time that was read.
abbrev pub last_time : ℕ → Calls → ℕ
last_time start [] = start
last_time start ((_, t) ∷ cs) = last_time t cs

-- What a call with the key `j` emits under the key `k`.
abbrev pub emitted : String → String → ℕ → Bool → List ℕ
emitted k j t allowed = if j == k && allowed then t ∷ [] else []

unfoldable pub emissions : String → Calls → RateLimiter → List ℕ
emissions k [] limiter = []
emissions k ((j, t) ∷ cs) limiter =
    let (decision, limiter') = check_and_record j t limiter in
    emitted k j t decision.allowed ++ emissions k cs limiter'

abbrev pub fresh : ℤ → ℤ → RateLimiter
fresh period limit = record { period_seconds = period; limit_x = limit; events = [] }

pub is_recent_mono :
    (period : ℤ) (now later t : ℕ)
    → now ≤ later
    → is_recent period later t ≡ true
    → is_recent period now t ≡ true
is_recent_mono (pos w) now later t le h = ground arith
is_recent_mono (negsuc w) now later t le h = ground arith

-- What is kept under `k` and what was emitted there do not differ for any later call.
abbrev pub Tracks : RateLimiter → String → List ℕ → ℕ → Type 0
Tracks limiter k history start =
    (now : ℕ)
    → start ≤ now
    → filter (is_recent limiter.period_seconds now) (times_of (get limiter.events k))
      ≡ filter (is_recent limiter.period_seconds now) history

recorded-Tracks :
    (b : Bool) (limiter : RateLimiter) (k j : String) (t : ℕ) (ts history : List ℕ)
    → (j == k ≡ true
        → (now : ℕ) → t ≤ now
        → filter (is_recent limiter.period_seconds now) ts
          ≡ filter (is_recent limiter.period_seconds now) history)
    → (j == k ≡ false → Tracks limiter k history t)
    → Tracks
        (record_if b limiter j t ts).1
        k
        (history ++ emitted k j t (record_if b limiter j t ts).0.allowed)
        t
recorded-Tracks true limiter k j t ts history same other now le = elim (Bool-cases (j == k)) [
  | inl e ↦ rw (get-put limiter.events j k ts) (rw e (rw (List.append-nil history) (same e now le)))
  | inr e ↦
      rw (get-put limiter.events j k ts) (rw e (rw (List.append-nil history) (other e now le)))
]
recorded-Tracks false limiter k j t ts history same other now le = elim (Bool-cases (j == k)) [
  | inl e ↦ rw (get-put limiter.events j k (ts ++ t ∷ [])) (
      rw e (
        rw (filter-append (is_recent limiter.period_seconds now) ts (t ∷ [])) (
          rw (filter-append (is_recent limiter.period_seconds now) history (t ∷ [])) (
            ap (λ r. r ++ filter (is_recent limiter.period_seconds now) (t ∷ []))
              (same e now le)))))
  | inr e ↦
      rw (get-put limiter.events j k (ts ++ t ∷ []))
        (rw e (rw (List.append-nil history) (other e now le)))
]

pub step-Tracks :
    (limiter : RateLimiter) (k j : String) (t start : ℕ) (history : List ℕ)
    → start ≤ t
    → Tracks limiter k history start
    → Tracks
        (check_and_record j t limiter).1
        k
        (history ++ emitted k j t (check_and_record j t limiter).0.allowed)
        t
unfolding check_and_record
step-Tracks limiter k j t start history le tracks =
    recorded-Tracks _ limiter k j t _ history
      (λ e now later.
        filter-filter (is_recent limiter.period_seconds t) (is_recent limiter.period_seconds now) _
          (λ x. is_recent_mono limiter.period_seconds t now x later)
        ∙ rw (← key e) at (tracks now (ground arith)))
      (λ e now later. tracks now (ground arith))
  where
    key : j == k ≡ true → j ≡ k
    key e = ground (arith, eq_iff j k)

pub check-parameters :
    (limiter : RateLimiter) (j : String) (t : ℕ)
    → ((check_and_record j t limiter).1.period_seconds ≡ limiter.period_seconds)
      × ((check_and_record j t limiter).1.limit_x ≡ limiter.limit_x)
unfolding check_and_record
check-parameters limiter j t = ground arith
