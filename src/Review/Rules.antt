-- ===== src/Review/Rules.antt =====
-- Qualification and report checks, policy/review_rules.py.
use nokinc_factory.Prelude.{
  ◌-◌, ◌*◌, Bool, true, false, not, ◌&&◌, ◌||◌, List, [], ◌∷◌, ◌++◌, map, Option, none, some,
  nonempty, any, all, contains, is_distinct, is_subset, first?, last?, last_match?, dedup, leb, ltb,
  if◌then◌else◌, ◌==◌, nat_eq, option_eq, Result, err, ◌>>◌, require, for_each, length,
}
use nokinc_factory.Review.Artifact.{
  Identifier, Digest, Moment, RiskTier, Role, QualityCriterion, ModelIdentity, ArtifactRef,
  ReviewBinding, risk_tier_eq, role_eq, scope_eq, model_eq, binding_eq,
}
use nokinc_factory.Review.Reason.{ReviewReason, reason_eq}
use nokinc_factory.Review.Report.{
  Evidence, CriterionDisposition, Finding, FindingRecheck, FindingKind, Severity, Disposition,
  Verdict, ReviewReport, severity_eq, kind_eq, disposition_eq, verdict_eq,
}
use nokinc_factory.Review.Session.{
  ReviewSeed, ReviewState, Invocation, FindingRecord, ResolutionRecord, open_findings,
  invocation_eq,
}
use nokinc_factory.Review.Digests.{Digests}

-- `ReviewViolation` carries its reason; any other `ValueError` is `invalid`.
pub data ReviewError : Type 0 where
  violation : ReviewReason → ReviewError
  invalid : ReviewError

abbrev pub Checked {ℓ} : Type ℓ → Type ℓ
Checked A = Result ReviewError A

-- `require(condition, reason)`.
abbrev pub check : Bool → ReviewReason → Checked (Unit {0})
check c r = require c (violation r)

-- `distinct(values)`.
abbrev pub distinct : List Digest → Checked (Unit {0})
distinct xs = require (is_distinct xs) invalid

abbrev pub is_some {ℓ} : {A : Type ℓ} → Option A → Bool
is_some none = false
is_some (some x) = true

unfoldable pub qualified : ModelIdentity → Bool
qualified m = is_some m.family && is_some m.qualification_ref && nonempty m.capability_refs

unfoldable pub independent_of : Bool → ModelIdentity → ModelIdentity → Checked (Unit {0})
unfolding qualified
independent_of family_required reviewer producer = do
  check (qualified producer && producer.role == Role.producer) ReviewReason.identity_unavailable
  check
      (not (reviewer.canonical_model_id == producer.canonical_model_id)
        && not (reviewer.model == producer.model))
      ReviewReason.identity_unavailable
  check (not family_required || not (reviewer.family == producer.family))
      ReviewReason.identity_unavailable

unfoldable pub family_required : ReviewSeed → Bool
family_required seed =
    seed.contract.risk_tier == RiskTier.t2 || seed.policy.require_different_family

unfoldable pub independent : ReviewSeed → ArtifactRef → ModelIdentity → Checked (Unit {0})
unfolding family_required independent_of qualified for_each
independent seed artifact reviewer = do
  check (qualified reviewer && reviewer.role == Role.reviewer) ReviewReason.identity_unavailable
  for_each (independent_of (family_required seed) reviewer) artifact.producers

unfoldable pub within_window : ReviewSeed → ReviewState → Moment → Bool
within_window seed state now =
    leb state.last_at now
    && leb seed.started_at now
    && ltb (now - seed.started_at) (seed.policy.max_elapsed_seconds * 1000000)

unfoldable pub blocking : ReviewSeed → Finding → Bool
blocking seed finding =
    elim (first? (λ (c : QualityCriterion). c.criterion_id == finding.criterion_id)
      seed.contract.criteria) [
        | none ↦ true
        | some criterion ↦
            criterion.mandatory
            || not (finding.kind == FindingKind.advisory)
            || not (finding.severity == Severity.low)
      ]

unfoldable pub evidence_binding : List Evidence → Digest → Checked (Unit {0})
evidence_binding evidence artifact_digest =
    check (all (λ item. item.artifact_digest == artifact_digest) evidence)
      ReviewReason.missing_evidence

abbrev pub criterion_ids : ReviewSeed → List Identifier
criterion_ids seed = map (λ (c : QualityCriterion). c.criterion_id) seed.contract.criteria

-- The checks of `validate_report` on one criterion's disposition.
unfoldable pub criterion_credit :
    QualityCriterion → CriterionDisposition → ReviewReport → Checked (Unit {0})
criterion_credit criterion item report = do
  check
      (not (item.status == Disposition.pass)
        || is_subset criterion.required_evidence
            (map (λ (e : Evidence). e.evidence_id) item.evidence))
      ReviewReason.missing_evidence
  check (not criterion.mandatory || not (item.status == Disposition.not_applicable))
      ReviewReason.incomplete_criteria
  check
      (not criterion.mandatory
        || not (item.status == Disposition.fail)
        || any (λ (f : Finding). f.criterion_id == item.criterion_id) report.findings)
      ReviewReason.incomplete_criteria

-- The keys of the two dicts are equal before a criterion is looked up, so it is there.
unfoldable pub disposition_credit :
    ReviewSeed → ReviewReport → CriterionDisposition → Checked (Unit {0})
unfolding criterion_credit
disposition_credit seed report item =
    elim (last_match? (λ (c : QualityCriterion). c.criterion_id == item.criterion_id)
      seed.contract.criteria) [
        | none ↦ err invalid
        | some criterion ↦ criterion_credit criterion item report
      ]

unfoldable pub validate_report : ReviewSeed → ReviewState → ReviewReport → Checked (Unit {0})
unfolding disposition_credit blocking for_each
validate_report seed state report =
    let expected = criterion_ids seed in
    let actual = map (λ (c : CriterionDisposition). c.criterion_id) report.criteria in
    do
      check
          (report.complete
            && is_distinct actual
            && is_subset actual expected
            && is_subset expected actual)
          ReviewReason.incomplete_criteria
      for_each (disposition_credit seed report) report.criteria
      for_each
          (λ (f : Finding).
            check (contains expected f.criterion_id || f.kind == FindingKind.contract_gap)
              ReviewReason.contract_gap)
          report.findings
      check
          (not (report.verdict == Verdict.changes_required)
            || any (blocking seed) report.findings
            || any (λ (r : FindingRecord). r.blocking) (open_findings state))
          ReviewReason.unsupported_verdict

module _ (d : Digests) where
  -- `ArtifactRef.binding`.
  unfoldable pub binding_of : ArtifactRef → ReviewBinding
  binding_of a = record {
    scope = a.scope;
    artifact_digest = d.artifact a;
    contract_digest = a.contract_digest;
    context_digest = a.context_digest;
  }

  -- `Finding.fingerprint`, always derived and never taken from a report.
  unfoldable pub fingerprint : Finding → Digest
  fingerprint f = d.finding_keys f.criterion_id f.behavior_id f.cause_id

  unfoldable pub artifact_binding : ReviewSeed → ArtifactRef → Checked (Unit {0})
  artifact_binding seed artifact =
      check
        (artifact.scope == seed.scope
          && artifact.contract_digest == d.contract seed.contract
          && artifact.context_digest == seed.initial_artifact.context_digest
          && contains seed.contract.artifact_scope artifact.artifact_key)
        ReviewReason.binding_mismatch

  unfoldable pub validate_seed : ReviewSeed → Checked (Unit {0})
  unfolding artifact_binding independent qualified for_each
  validate_seed seed = do
    check
        (seed.scope.tenant_id == seed.contract.tenant_id
          && seed.scope.work_item_id == seed.contract.work_item_id)
        ReviewReason.binding_mismatch
    artifact_binding seed seed.initial_artifact
    check
        (contains seed.initial_artifact.producers seed.original_doer
          && seed.original_doer.role == Role.producer
          && qualified seed.original_doer)
        ReviewReason.identity_unavailable
    check (nonempty seed.reviewers) ReviewReason.identity_unavailable
    distinct (map d.model seed.reviewers)
    for_each (independent seed seed.initial_artifact) seed.reviewers

  -- A recorded resolution answers the record's latest report on the artifact as it is now.
  unfoldable pub reconciles : ReviewState → FindingRecord → ResolutionRecord → Bool
  unfolding fingerprint
  reconciles state item r =
      r.resolution.fingerprint == fingerprint item.finding
      && r.resolution.report_digest == item.report_digest
      && r.artifact_digest == d.artifact state.artifact

  unfoldable pub needs_repair : ReviewState → Bool
  unfolding reconciles
  needs_repair state =
      any
        (λ (item : FindingRecord).
          item.blocking && not (any (reconciles state item) state.resolutions))
        (open_findings state)

  unfoldable pub validate_report_binding :
      ReviewSeed → ReviewState → Invocation → ReviewReport → Checked (Unit {0})
  unfolding independent evidence_binding fingerprint for_each
  validate_report_binding seed state invocation report =
      let bound = report.binding.artifact_digest in
      do
        check
            (report.invocation_id == invocation.invocation_id
              && report.binding == invocation.binding
              && report.reviewer == invocation.actor)
            ReviewReason.binding_mismatch
        independent seed state.artifact report.reviewer
        distinct (map fingerprint report.findings)
        distinct (map (λ (r : FindingRecheck). r.fingerprint) report.rechecks)
        for_each (λ (c : CriterionDisposition). evidence_binding c.evidence bound) report.criteria
        for_each
            (λ (f : Finding).
              check (f.artifact_digest == bound) ReviewReason.binding_mismatch
              >> evidence_binding f.evidence bound)
            report.findings
        for_each (λ (r : FindingRecheck). evidence_binding r.evidence bound) report.rechecks

  -- The reasons that the latest of the valid reports gives, if there is one.
  unfoldable pub latest_reasons : ReviewSeed → ReviewState → List ReviewReason
  unfolding binding_of
  latest_reasons seed state = elim (last? state.valid_completed_reports) [
    | none ↦ ReviewReason.unreviewed_artifact ∷ []
    | some latest ↦
        (if latest.binding == binding_of state.artifact
          then []
          else ReviewReason.unreviewed_artifact ∷ [])
        ++ (if not (latest.verdict == Verdict.accept)
              || any
                  (λ (item : CriterionDisposition).
                    any
                      (λ (c : QualityCriterion). c.mandatory && c.criterion_id == item.criterion_id)
                      seed.contract.criteria
                    && not (item.status == Disposition.pass))
                  latest.criteria
            then ReviewReason.mandatory_criteria ∷ []
            else [])
  ]

  unfoldable pub eligibility_reasons : ReviewSeed → ReviewState → List ReviewReason
  unfolding latest_reasons dedup
  eligibility_reasons seed state = dedup (
      state.terminal_reasons
      ++ ((if is_some state.pending then ReviewReason.pending ∷ [] else [])
          ++ ((if ltb (length state.valid_completed_reports) seed.policy.min_review_passes
                then ReviewReason.min_reviews ∷ []
                else [])
              ++ ((if any (λ (r : FindingRecord). r.blocking) (open_findings state)
                    then ReviewReason.open_blockers ∷ []
                    else [])
                  ++ latest_reasons seed state))))
