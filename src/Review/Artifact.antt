-- ===== src/Review/Artifact.antt =====
-- The pinned contract, artifact and execution inputs of domain/review.py.
-- Identifiers, digests and texts that are never inspected are only compared and sorted, so they
-- are numbers. A model's own `content_digest` is a function of its other fields (Review/Digests).
use nokinc_factory.Prelude.{ℕ, Bool, Option, List, ℕ_discrete, Eq, eq_of_discrete}

abbrev pub Identifier : Type 0
Identifier = ℕ

abbrev pub Digest : Type 0
Digest = ℕ

-- A `Moment`: microseconds, in UTC.
abbrev pub Moment : Type 0
Moment = ℕ

-- A nonblank text that the rules never look into.
abbrev pub Prose : Type 0
Prose = ℕ

pub record ReviewScope : Type 0 where
  pub tenant_id : Identifier
  pub work_item_id : Identifier
  pub session_id : Identifier

pub record PinnedReference : Type 0 where
  pub name : Identifier
  pub digest : Digest

pub record QualityCriterion : Type 0 where
  pub criterion_id : Identifier
  pub predicate : Prose
  pub mandatory : Bool
  pub required_evidence : List Identifier

pub data RiskTier : Type 0 where
  t0 t1 t2 : RiskTier

pub record QualityContract : Type 0 where
  pub tenant_id : Identifier
  pub work_item_id : Identifier
  pub contract_version : Identifier
  pub criteria : List QualityCriterion
  pub artifact_scope : List Identifier
  pub scope_in : List Prose
  pub scope_out : List Prose
  pub design_refs : List PinnedReference
  pub design_not_applicable_reason : Option Prose
  pub risk_tier : RiskTier

pub record ReviewPolicy : Type 0 where
  pub policy_version : Identifier
  pub min_review_passes : ℕ
  pub max_review_passes : ℕ
  pub max_implementation_repairs : ℕ
  pub same_unresolved_failure_limit : ℕ
  pub max_invocations : ℕ
  pub max_tokens : ℕ
  pub max_cost_microusd : ℕ
  pub max_elapsed_seconds : ℕ
  pub require_different_family : Bool

pub data Role : Type 0 where
  producer reviewer : Role

pub record ModelIdentity : Type 0 where
  pub provider : Identifier
  pub model : Identifier
  pub canonical_model_id : Identifier
  pub family : Option Identifier
  pub qualification_ref : Option Digest
  pub capability_refs : List Digest
  pub role : Role

pub record ArtifactRef : Type 0 where
  pub scope : ReviewScope
  pub artifact_key : Identifier
  pub payload_digest : Digest
  pub producers : List ModelIdentity
  pub contract_digest : Digest
  pub context_digest : Digest
  pub inputs : List PinnedReference
  pub build_refs : List PinnedReference

pub record ReviewBinding : Type 0 where
  pub scope : ReviewScope
  pub artifact_digest : Digest
  pub contract_digest : Digest
  pub context_digest : Digest

pub record Usage : Type 0 where
  pub tokens : ℕ
  pub cost_microusd : ℕ

pub record Reservation : Type 0 where
  pub tokens : ℕ
  pub cost_microusd : ℕ
  pub seconds : ℕ

unfoldable pub RiskTier-discrete : Discrete RiskTier
RiskTier-discrete = hlevel

unfoldable pub Role-discrete : Discrete Role
Role-discrete = hlevel

unfoldable pub ReviewScope-discrete : Discrete ReviewScope
ReviewScope-discrete = hlevel ℕ_discrete

unfoldable pub PinnedReference-discrete : Discrete PinnedReference
PinnedReference-discrete = hlevel ℕ_discrete

unfoldable pub QualityCriterion-discrete : Discrete QualityCriterion
QualityCriterion-discrete = hlevel ℕ_discrete

unfoldable pub QualityContract-discrete : Discrete QualityContract
QualityContract-discrete =
    hlevel (ℕ_discrete, PinnedReference-discrete, QualityCriterion-discrete, RiskTier-discrete)

unfoldable pub ReviewPolicy-discrete : Discrete ReviewPolicy
ReviewPolicy-discrete = hlevel ℕ_discrete

unfoldable pub ModelIdentity-discrete : Discrete ModelIdentity
ModelIdentity-discrete = hlevel (ℕ_discrete, Role-discrete)

unfoldable pub ArtifactRef-discrete : Discrete ArtifactRef
ArtifactRef-discrete =
    hlevel (ℕ_discrete, ReviewScope-discrete, ModelIdentity-discrete, PinnedReference-discrete)

unfoldable pub ReviewBinding-discrete : Discrete ReviewBinding
ReviewBinding-discrete = hlevel (ℕ_discrete, ReviewScope-discrete)

unfoldable pub Usage-discrete : Discrete Usage
Usage-discrete = hlevel ℕ_discrete

unfoldable pub Reservation-discrete : Discrete Reservation
Reservation-discrete = hlevel ℕ_discrete

instance abbrev pub risk_tier_eq : Eq RiskTier
risk_tier_eq = eq_of_discrete RiskTier-discrete

instance abbrev pub role_eq : Eq Role
role_eq = eq_of_discrete Role-discrete

instance abbrev pub scope_eq : Eq ReviewScope
scope_eq = eq_of_discrete ReviewScope-discrete

instance abbrev pub pinned_eq : Eq PinnedReference
pinned_eq = eq_of_discrete PinnedReference-discrete

instance abbrev pub model_eq : Eq ModelIdentity
model_eq = eq_of_discrete ModelIdentity-discrete

instance abbrev pub artifact_eq : Eq ArtifactRef
artifact_eq = eq_of_discrete ArtifactRef-discrete

instance abbrev pub binding_eq : Eq ReviewBinding
binding_eq = eq_of_discrete ReviewBinding-discrete
