-- ===== src/Execution/NoopAdapter.antt =====
-- core/execution_adapter/contract.py and impl_noop.py: the adapter that checks a request and blocks it
-- all the same. `parse` is `datetime.fromisoformat` of a text with its `Z` replaced, and gives nothing
-- where that raises; `now` is what `datetime.now` returns.
use mathlib.Core.List.{Memᴰ}
use text.Mathlib.TextEquality.{eq_iff}
use proto_v2_engine.Base.{
  ℕ, ◌<◌, String, Bool, ◌≡◌, ◌↔◌, refl, true, false, not, Option, none, some, List, Result, ok, err,
  ◌>>=◌, ◌>>◌, raise_if, leb, any, any-true, true-any, is_empty, ◌==◌, arith,
}

pub record ApprovalArtifact : Type 0 where
  pub approval_id : String
  pub decision : String
  pub approver_id : String
  pub expires_at_utc : String
  pub policy_refs : List String

-- `ExecutionEnvelope` of core/execution_adapter/contract.py.
pub record AdapterEnvelope : Type 0 where
  pub execution_scope : String
  pub allowed_actions : List String
  pub allowed_venues : List String
  pub max_size : String
  pub time_limit_utc : String
  pub idempotency_key : String
  pub risk_flags : List String

-- The three entries that are read of `capabilities`; a missing one is empty, as `_as_set` makes it.
pub record Capabilities : Type 0 where
  pub allowed_scopes : List String
  pub allowed_actions : List String
  pub allowed_venues : List String

pub data AdapterError : Type 0 where
  execution_blocked : String → String → AdapterError
  value_error : AdapterError

pub record ExecutionResultBlocked : Type 0 where
  pub status : String
  pub reason_code : String
  pub reason_detail : String

abbrev pub noop_blocked : ExecutionResultBlocked
noop_blocked = record {
  status = "BLOCKED";
  reason_code = "NOOP_BLOCKED";
  reason_detail = "noop adapter: execution disabled in Phase-2";
}

-- `x in xs`
abbrev pub contains : List String → String → Bool
contains xs x = any (λ y. y == x) xs

-- `not xs.isdisjoint(ys)`
unfoldable pub shares : List String → List String → Bool
shares xs ys = any (contains ys) xs

abbrev expired_at : Option ℕ → ℕ → Result AdapterError Bool
expired_at none now = err value_error
expired_at (some t) now = ok (leb t now)

module _ (parse : String → Option ℕ) where
  unfoldable pub is_expired : ApprovalArtifact → ℕ → Result AdapterError Bool
  is_expired approval now = expired_at (parse approval.expires_at_utc) now

  unfoldable pub execute :
      AdapterEnvelope
      → ApprovalArtifact
      → List String
      → Capabilities
      → ℕ
      → Result AdapterError ExecutionResultBlocked
  unfolding is_expired shares
  execute env approval evidence capabilities now = do
    raise_if (is_empty evidence)
        (execution_blocked "NO_EVIDENCE" "missing evidence: evidence_event_ids is empty")
    expired ← is_expired approval now
    raise_if expired (execution_blocked "APPROVAL_EXPIRED" "approval expired")
    raise_if (not (contains capabilities.allowed_scopes env.execution_scope))
        (execution_blocked "CAPABILITY_MISSING" "execution_scope not allowed")
    raise_if (is_empty env.allowed_actions)
        (execution_blocked "NO_ACTION" "missing allowed_actions")
    raise_if (is_empty env.allowed_venues) (execution_blocked "NO_VENUE" "missing allowed_venues")
    raise_if (not (shares env.allowed_actions capabilities.allowed_actions))
        (execution_blocked "CAPABILITY_MISSING" "allowed_actions not permitted")
    raise_if (not (shares env.allowed_venues capabilities.allowed_venues))
        (execution_blocked "CAPABILITY_MISSING" "allowed_venues not permitted")
    ok noop_blocked

-- What a request needs to come to the last line.
pub record IsLicensed (parse : String → Option ℕ) (env : AdapterEnvelope)
    (approval : ApprovalArtifact) (evidence : List String) (capabilities : Capabilities) (now : ℕ)
    : Type 0 where
  pub proved : is_empty evidence ≡ false
  pub expires_at : ℕ
  pub parsed : parse approval.expires_at_utc ≡ some expires_at
  pub valid : now < expires_at
  pub scoped : Memᴰ env.execution_scope capabilities.allowed_scopes
  pub action : String
  pub asked : Memᴰ action env.allowed_actions
  pub granted : Memᴰ action capabilities.allowed_actions
  pub venue : String
  pub venue_asked : Memᴰ venue env.allowed_venues
  pub venue_granted : Memᴰ venue capabilities.allowed_venues

contains-Memᴰ : (xs : List String) (x : String) → contains xs x ≡ true → Memᴰ x xs
contains-Memᴰ xs x h =
    let (y, m, e) = any-true (λ y. y == x) xs h in
    let same : y ≡ x = ground (arith, eq_iff y x) in rw same at m

Memᴰ-contains : (xs : List String) (x : String) → Memᴰ x xs → contains xs x ≡ true
Memᴰ-contains xs x m = true-any (λ y. y == x) x xs m (ground (arith, eq_iff x x))

shares-Memᴰ : (xs ys : List String) → shares xs ys ≡ true → (x : String) × Memᴰ x xs × Memᴰ x ys
unfolding shares
shares-Memᴰ xs ys h = let (x, m, e) = any-true (contains ys) xs h in (x, m, contains-Memᴰ ys x e)

Memᴰ-shares : (xs ys : List String) (x : String) → Memᴰ x xs → Memᴰ x ys → shares xs ys ≡ true
unfolding shares
Memᴰ-shares xs ys x m n = true-any (contains ys) x xs m (Memᴰ-contains ys x n)

Memᴰ-filled : (xs : List String) (x : String) → Memᴰ x xs → is_empty xs ≡ false
Memᴰ-filled xs x (Memᴰ.head e) = refl
Memᴰ-filled xs x (Memᴰ.tail m) = refl

module _ (parse : String → Option ℕ) (env : AdapterEnvelope) (approval : ApprovalArtifact)
    (evidence : List String) (capabilities : Capabilities) (now : ℕ) where
  execute-IsLicensed :
      (r : ExecutionResultBlocked)
      → execute parse env approval evidence capabilities now ≡ ok r
      → IsLicensed parse env approval evidence capabilities now
  unfolding execute is_expired
  execute-IsLicensed r h =
      let (t, parsed, later) : (t : ℕ) × (parse approval.expires_at_utc ≡ some t) × (now < t) =
        ground arith in
      let (action, asked, granted) =
        shares-Memᴰ env.allowed_actions capabilities.allowed_actions (ground arith) in
      let (venue, venue_asked, venue_granted) =
        shares-Memᴰ env.allowed_venues capabilities.allowed_venues (ground arith) in
      record {
        proved = ground arith;
        expires_at = t;
        parsed = parsed;
        valid = later;
        scoped = contains-Memᴰ capabilities.allowed_scopes env.execution_scope (ground arith);
        action = action;
        asked = asked;
        granted = granted;
        venue = venue;
        venue_asked = venue_asked;
        venue_granted = venue_granted;
      }

  IsLicensed-execute :
      IsLicensed parse env approval evidence capabilities now
      → execute parse env approval evidence capabilities now ≡ ok noop_blocked
  unfolding execute is_expired
  IsLicensed-execute l =
      let scoped = Memᴰ-contains capabilities.allowed_scopes env.execution_scope l.scoped in
      let actions =
        Memᴰ-shares env.allowed_actions capabilities.allowed_actions l.action l.asked l.granted in
      let venues =
        Memᴰ-shares env.allowed_venues capabilities.allowed_venues l.venue l.venue_asked
          l.venue_granted in
      let some_action = Memᴰ-filled env.allowed_actions l.action l.asked in
      let some_venue = Memᴰ-filled env.allowed_venues l.venue l.venue_asked in
      let valid : leb l.expires_at now ≡ false = ground (arith, l.valid) in
      rw l.proved (
        rw l.parsed
          (rw valid (rw scoped (rw some_action (rw some_venue (rw actions (rw venues refl)))))))

  -- The adapter returns its result of a disabled execution exactly for a request with evidence, an
  -- approval that is not expired, a scope that is allowed and an action and a venue that are both
  -- asked for and granted; every other request raises.
  execute_iff_IsLicensed :
      (execute parse env approval evidence capabilities now ≡ ok noop_blocked)
      ↔ IsLicensed parse env approval evidence capabilities now
  execute_iff_IsLicensed = (execute-IsLicensed noop_blocked, IsLicensed-execute)
