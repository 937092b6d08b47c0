-- ===== src/Execution/Envelope.antt =====
-- core/contracts/actions.py, meta_judgment_envelope.py, execution_envelope.py: the envelope that the
-- boundary issues, the checks that pydantic makes when it is built, and its expiry. Integers that the
-- checks keep positive are ℕ; `F` is the type of the floats.
use Prim.Native.String.{count}
use proto_v2_engine.Base.{
  ℕ, String, Bool, true, false, not, ◌&&◌, Option, none, some, List, leb, any, all, is_empty, ◌==◌,
}
use proto_v2_engine.Execution.Floats.{Floats}

pub data ExecutionAction : Type 0 where
  apply : ExecutionAction

abbrev pub same_action : ExecutionAction → ExecutionAction → Bool
same_action apply apply = true

pub data TraceLevel : Type 0 where
  trace_minimal trace_standard trace_full : TraceLevel

pub data RetentionPolicy : Type 0 where
  volatile append_only immutable : RetentionPolicy

pub record EnvelopeMeta : Type 0 where
  pub contract_id : String
  pub envelope_id : String
  pub issued_at : ℕ
  pub expires_at : Option ℕ
  pub issuer : String
  pub version : String

pub record ResourceCeiling (F : Type 0) : Type 0 where
  pub cpu_pct : F
  pub mem_mb : ℕ

pub record DataScope : Type 0 where
  pub allowed_sources : List String
  pub forbidden_sources : List String

pub record Constraints (F : Type 0) : Type 0 where
  pub latency_budget_ms : ℕ
  pub resource_ceiling : ResourceCeiling F
  pub data_scope : DataScope

pub record Audit : Type 0 where
  pub trace_level : TraceLevel
  pub retention_policy : RetentionPolicy

pub record HumanApproval : Type 0 where
  pub approver_id : String
  pub approval_ref : String

pub record ExecutionAuthority (F : Type 0) : Type 0 where
  pub domain : String
  pub allowed_actions : List ExecutionAction
  pub forbidden_actions : List ExecutionAction
  pub confidence_floor : F

pub record ExecutionEnvelope (F : Type 0) : Type 0 where
  pub meta : EnvelopeMeta
  pub authority : ExecutionAuthority F
  pub constraints : Constraints F
  pub audit : Audit
  pub human_approval : HumanApproval

-- What arrives where an envelope is expected; `isinstance` tells the two apart.
pub data EnvelopeArgument (F : Type 0) : Type 0 where
  foreign : EnvelopeArgument F
  genuine : ExecutionEnvelope F → EnvelopeArgument F

abbrev pub has_action : List ExecutionAction → ExecutionAction → Bool
has_action actions a = any (λ x. same_action x a) actions

abbrev pub has_source : List String → String → Bool
has_source sources s = any (λ x. x == s) sources

-- `_invariants`: no action is both allowed and forbidden.
unfoldable pub is_disjoint : List ExecutionAction → List ExecutionAction → Bool
is_disjoint allowed denied = all (λ a. not (has_action denied a)) allowed

-- `Field(min_length=n)` of a text.
abbrev at_least : ℕ → String → Bool
at_least n text = leb n (count text)

module _ {F : Type 0} (f : Floats F) where
  -- What pydantic checks when an envelope is built: each `Field` and `_invariants`.
  unfoldable pub is_wellformed : ExecutionEnvelope F → Bool
  unfolding is_disjoint
  is_wellformed e =
      at_least 8 e.meta.contract_id
      && at_least 8 e.meta.envelope_id
      && at_least 3 e.meta.issuer
      && at_least 3 e.meta.version
      && at_least 1 e.authority.domain
      && not (is_empty e.authority.allowed_actions)
      && f.le f.zero e.authority.confidence_floor
      && f.le e.authority.confidence_floor f.one
      && leb 1 e.constraints.latency_budget_ms
      && f.le f.zero e.constraints.resource_ceiling.cpu_pct
      && f.le e.constraints.resource_ceiling.cpu_pct (f.ratio 100 1)
      && leb 1 e.constraints.resource_ceiling.mem_mb
      && not (is_empty e.constraints.data_scope.allowed_sources)
      && at_least 3 e.human_approval.approver_id
      && at_least 3 e.human_approval.approval_ref
      && is_disjoint e.authority.allowed_actions e.authority.forbidden_actions

-- `is_expired`, at the time `now`.
unfoldable pub is_expired : {F : Type 0} → ExecutionEnvelope F → ℕ → Bool
is_expired e now = elim e.meta.expires_at [ none ↦ false | some t ↦ leb t now ]
