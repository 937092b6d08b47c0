-- ===== src/Learning/RateLimiter.antt =====
-- core/learning_os/rate_limiter.py: the limiter of emissions by key. The times of a call are numbers of
-- seconds.
use proto_v2_engine.Base.{
  ℕ, suc, ◌+◌, ◌-◌, String, Bool, true, false, Option, none, some, List, [], ◌∷◌, ◌++◌, leb, Dict,
  get, put, length, filter,
}
use proto_v2_engine.Json.{ℤ, pos, negsuc}

pub record RateLimitDecision : Type 0 where
  pub allowed : Bool
  pub reason : String

pub record RateLimiter : Type 0 where
  pub period_seconds : ℤ
  pub limit_x : ℤ
  pub events : Dict (List ℕ)

-- `t >= now - period_seconds`
abbrev pub is_recent : ℤ → ℕ → ℕ → Bool
is_recent (pos w) now t = leb (now - w) t
is_recent (negsuc w) now t = leb (now + suc w) t

-- `n >= limit_x`, for a length `n`
abbrev pub reaches : ℤ → ℕ → Bool
reaches (pos l) n = leb l n
reaches (negsuc _) n = true

-- `setdefault(key, [])`
abbrev pub times_of : Option (List ℕ) → List ℕ
times_of none = []
times_of (some ts) = ts

abbrev pub record_if : Bool → RateLimiter → String → ℕ → List ℕ → RateLimitDecision × RateLimiter
record_if true limiter key now ts = (
  record { allowed = false; reason = "RATE_LIMIT_EXCEEDED" },
  record limiter { events = put limiter.events key ts },
)
record_if false limiter key now ts = (
  record { allowed = true; reason = "OK" },
  record limiter { events = put limiter.events key (ts ++ now ∷ []) },
)

unfoldable pub check_and_record : String → ℕ → RateLimiter → RateLimitDecision × RateLimiter
check_and_record key now limiter =
    let ts = filter (is_recent limiter.period_seconds now) (times_of (get limiter.events key)) in
    record_if (reaches limiter.limit_x (length ts)) limiter key now ts
