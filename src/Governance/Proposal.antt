-- ===== src/Governance/Proposal.antt =====
-- core/governance/proposal_schema.py: what a policy proposal holds, and the validators of the schema.
-- `F` is the type of floats. `created_at` and the other times are texts, as in the code.
use proto_v2_engine.Base.{
  String, Bool, false, not, ◌&&◌, Option, none, some, List, truthy, is_blank,
}
use proto_v2_engine.Json.{Json, ℤ, is_positive}

pub data SourceKind : Type 0 where
  learning human external_source : SourceKind

pub record Source : Type 0 where
  pub kind : SourceKind
  pub name : String
  pub run_id : String
  pub created_at : String

pub data ScopeSeverity : Type 0 where
  low medium high : ScopeSeverity

pub data BlastRadius : Type 0 where
  local service system external : BlastRadius

pub record Scope : Type 0 where
  pub domain : String
  pub subsystem : String
  pub severity : ScopeSeverity
  pub blast_radius : BlastRadius

pub record ConstitutionReq : Type 0 where
  pub required_sections : List String
  pub constitution_hash : String

pub data WindowMode : Type 0 where
  time events : WindowMode

pub record ObservationWindow : Type 0 where
  pub mode : WindowMode
  pub t_window : Option String
  pub n_events : Option ℤ

pub record SampleReq : Type 0 where
  pub n_min : ℤ
  pub n_observed : ℤ

pub record StabilityReq (F : Type 0) : Type 0 where
  pub k_confirmations : ℤ
  pub epsilon : F
  pub summary : String

pub record Preconditions (F : Type 0) : Type 0 where
  pub constitution : ConstitutionReq
  pub observation_window : ObservationWindow
  pub sample : SampleReq
  pub stability : StabilityReq F

pub record Baseline : Type 0 where
  pub policy_snapshot_id : String
  pub policy_hash : String

pub data PatchFormat : Type 0 where
  jsonpatch mergepatch custom : PatchFormat

pub record Patch : Type 0 where
  pub format : PatchFormat
  pub content : Json

pub record Explain : Type 0 where
  pub current_policy_summary : String
  pub proposed_policy_summary : String
  pub rationale : String
  pub expected_impact : String
  pub rollback_scope : String
  pub risks : List String
  pub assumptions : List String
  pub evidence_refs : List String

pub record RateLimit : Type 0 where
  pub period : String
  pub limit_x : ℤ
  pub cooldown : String
  pub rest_required : Bool

pub record HumanGate : Type 0 where
  pub required : Bool
  pub reasons : List String

pub record PolicyProposal (F : Type 0) : Type 0 where
  pub proposal_id : String
  pub source : Source
  pub scope : Scope
  pub preconditions : Preconditions F
  pub baseline : Baseline
  pub patch : Patch
  pub explain : Explain
  pub rate_limit : RateLimit
  pub human_gate : HumanGate

-- `t_window` present and not empty
abbrev pub has_text : Option String → Bool
has_text none = false
has_text (some t) = truthy t

-- `n_events` present and above 0
abbrev pub has_events : Option ℤ → Bool
has_events none = false
has_events (some n) = is_positive n

-- `_window_consistency`, and the same test in the pre-queue validation.
unfoldable pub is_window_consistent : ObservationWindow → Bool
is_window_consistent w = elim w.mode [ time ↦ has_text w.t_window | events ↦ has_events w.n_events ]

-- `_non_empty` of the five texts of an explanation.
unfoldable pub is_explained : Explain → Bool
is_explained e =
    not (is_blank e.current_policy_summary)
    && not (is_blank e.proposed_policy_summary)
    && not (is_blank e.rationale)
    && not (is_blank e.expected_impact)
    && not (is_blank e.rollback_scope)

-- The validators of the schema together. The one of `blast_radius` in `_basic_consistency` is the type.
unfoldable pub is_consistent : {F : Type 0} → PolicyProposal F → Bool
unfolding is_window_consistent is_explained
is_consistent p =
    is_window_consistent p.preconditions.observation_window
    && is_explained p.explain
    && not (is_blank p.baseline.policy_hash)
