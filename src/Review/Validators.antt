-- ===== src/Review/Validators.antt =====
-- The field bounds and `model_validator` checks of the ARP-1 models (domain/review.py,
-- domain/review_report.py): what pydantic accepts after decoding.
use nokinc_factory.Prelude.{
  ℕ, Bool, true, false, not, ◌&&◌, Option, none, some, map, nonempty, any, all, is_distinct, leb,
  ltb, ◌==◌, nat_eq,
}
use nokinc_factory.Review.Artifact.{
  QualityCriterion, QualityContract, ReviewPolicy, ModelIdentity, ArtifactRef, Reservation,
  PinnedReference, Role, role_eq,
}
use nokinc_factory.Review.Report.{
  CriterionDisposition, Evidence, Finding, FindingResolution, FindingRecheck, ReviewReport,
  RepairReport,
}
use nokinc_factory.Review.Session.{ReviewSeed, Invocation}

unfoldable pub criterion_valid : QualityCriterion → Bool
criterion_valid c = nonempty c.required_evidence && is_distinct c.required_evidence

abbrev given : Option ℕ → Bool
given none = false
given (some x) = true

unfoldable pub contract_valid : QualityContract → Bool
unfolding criterion_valid
contract_valid c =
    nonempty c.criteria
    && all criterion_valid c.criteria
    && nonempty c.artifact_scope
    && nonempty c.scope_in
    && nonempty c.scope_out
    && is_distinct (map (λ (k : QualityCriterion). k.criterion_id) c.criteria)
    && is_distinct c.artifact_scope
    && is_distinct (map (λ (r : PinnedReference). r.name) c.design_refs)
    && any (λ k. k.mandatory) c.criteria
    && (elim (nonempty c.design_refs) [
      | true ↦ not (given c.design_not_applicable_reason)
      | false ↦ given c.design_not_applicable_reason
    ])

unfoldable pub policy_valid : ReviewPolicy → Bool
policy_valid p =
    leb 2 p.min_review_passes
    && leb 2 p.max_review_passes
    && leb p.max_implementation_repairs 3
    && leb 1 p.same_unresolved_failure_limit
    && leb p.same_unresolved_failure_limit 2
    && ltb 0 p.max_invocations
    && ltb 0 p.max_tokens
    && ltb 0 p.max_cost_microusd
    && ltb 0 p.max_elapsed_seconds
    && leb p.min_review_passes p.max_review_passes

unfoldable pub model_valid : ModelIdentity → Bool
model_valid m = is_distinct m.capability_refs

unfoldable pub artifact_valid : ArtifactRef → Bool
unfolding model_valid
artifact_valid a =
    nonempty a.producers
    && all model_valid a.producers
    && is_distinct (map (λ (m : ModelIdentity). m.canonical_model_id) a.producers)
    && is_distinct (map (λ (r : PinnedReference). r.name) a.inputs)
    && is_distinct (map (λ (r : PinnedReference). r.name) a.build_refs)
    && all (λ m. m.role == Role.producer) a.producers

unfoldable pub reservation_valid : Reservation → Bool
reservation_valid r = ltb 0 r.tokens && ltb 0 r.seconds

unfoldable pub invocation_valid : Invocation → Bool
unfolding model_valid reservation_valid
invocation_valid i = model_valid i.actor && reservation_valid i.reservation

unfoldable pub seed_valid : ReviewSeed → Bool
unfolding contract_valid policy_valid model_valid artifact_valid
seed_valid s =
    contract_valid s.contract
    && policy_valid s.policy
    && model_valid s.original_doer
    && all model_valid s.reviewers
    && artifact_valid s.initial_artifact

abbrev disposition_valid : CriterionDisposition → Bool
disposition_valid c = is_distinct (map (λ (e : Evidence). e.evidence_id) c.evidence)

unfoldable pub report_valid : ReviewReport → Bool
unfolding model_valid
report_valid r =
    model_valid r.reviewer
    && all disposition_valid r.criteria
    && all (λ (f : Finding). nonempty f.evidence) r.findings
    && all (λ (k : FindingRecheck). nonempty k.evidence) r.rechecks

unfoldable pub repair_valid : RepairReport → Bool
unfolding model_valid artifact_valid
repair_valid r =
    model_valid r.producer
    && artifact_valid r.artifact
    && nonempty r.resolutions
    && all (λ (f : FindingResolution). nonempty f.evidence) r.resolutions
