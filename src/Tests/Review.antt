-- ===== src/Tests/Review.antt =====
-- The theorems on review units, applied to the runs of a small unit.
use nokinc_factory.Prelude.{
  ◌≡◌, refl, ◌↔◌, inl, ℕ, true, false, [], ◌∷◌, none, some, any, nonempty, ok, arith, ℕ_discrete,
  dedup, for_each,
}
use nokinc_factory.Review.Artifact.{
  RiskTier-discrete, Role-discrete, ReviewScope-discrete, PinnedReference-discrete,
  QualityCriterion-discrete, QualityContract-discrete, ReviewPolicy-discrete,
  ModelIdentity-discrete, ArtifactRef-discrete, ReviewBinding-discrete, Usage-discrete,
  Reservation-discrete,
}
use nokinc_factory.Review.Report.{
  Disposition-discrete, Verdict-discrete, Severity-discrete, FindingKind-discrete, Remedy-discrete,
  RecheckStatus-discrete, Evidence-discrete, CriterionDisposition-discrete, Finding-discrete,
  FindingResolution-discrete, FindingRecheck-discrete, ReviewReport-discrete,
}
use nokinc_factory.Review.Session.{
  ReviewState, InvocationKind, Invocation, DecisionStatus, FindingRecord, InvocationKind-discrete,
  ExecutionStop-discrete, ReviewReason-discrete, ReviewSeed-discrete, Invocation-discrete,
  InvocationReceipt-discrete, Completion-discrete, ReviewAttempt-discrete, FindingRecord-discrete,
  ResolutionRecord-discrete, FailureCount-discrete, BudgetState-discrete, ReviewState-discrete,
  ReviewSession-discrete,
}
use nokinc_factory.Review.Validators.{
  criterion_valid, contract_valid, policy_valid, model_valid, artifact_valid, reservation_valid,
  invocation_valid, seed_valid, report_valid, repair_valid,
}
use nokinc_factory.Review.Rules.{
  qualified, independent_of, family_required, independent, within_window, blocking,
  evidence_binding, criterion_credit, disposition_credit, validate_report, binding_of, fingerprint,
  artifact_binding, validate_seed, reconciles, needs_repair, validate_report_binding,
  latest_reasons, eligibility_reasons,
}
use nokinc_factory.Review.Findings.{
  is_blocker, stop_reasons, count_blockers, repeated_reasons, artifact_changed, by_fingerprint,
  retain_finding, retain_findings, retain_stops, known_evidence, close_case, recheck_answered,
  recheck_named, recheck_step, recheck_all, report_case, report_finding, report_findings,
  reconcile_findings, open_items, resolve_finding, resolve_all, reconcile_repair,
}
use nokinc_factory.Review.Reducer.{
  ends_unit, failure, settle, out_of_time, initial_state, reserve_kind, reserve, receipt_reason,
  account, exhausted, capacity, parse_review, parse_repair, credit_review, attempt_review,
  finish_review, attempt_repair, finish_repair, completion_reason, conclude, complete_pending,
  complete,
}
use nokinc_factory.Review.Policy.{
  receipt_valid, attempt_valid, session_valid, apply_completion, replay_attempt, replay,
  validate_session, start_session, reserve_invocation, deliver, redeliver, answer,
  complete_invocation, decision_reasons, decision_status, decision_of, evaluate,
}
use nokinc_factory.Review.Persistence.{
  TransitionKind, extend_reserve, extend_complete, extend, validate_extension,
}
use nokinc_factory.Review.Reason.{ReviewReason}
use nokinc_factory.Review.Eligibility.{
  IsEligible, IsFresh, eligibility_reasons-IsEligible, evaluate-IsFresh,
}
use nokinc_factory.Review.Accounts.{IsCounted, validate_session-IsCounted}
use nokinc_factory.Review.Charges.{IsCharged, validate_session-IsCharged}
use nokinc_factory.Review.Budget.{IsBounded, replayed-IsBounded}
use nokinc_factory.Review.Settlement.{Settles, Overruns, complete_pending-Settles, overrun_stops}
use nokinc_factory.Review.Shape.{Shape, replay-Shape}
use nokinc_factory.Review.Closure.{reserve_invocation-valid, complete_invocation-valid}
use nokinc_factory.Review.Delivery.{complete_invocation-again}
use nokinc_factory.Review.Extension.{
  Follows, validate_extension-Follows, reserve_invocation-validate_extension,
}
use nokinc_factory.Review.Continuity.{Blocks, reconcile_findings_blocked}
use nokinc_factory.Tests.Unit.{
  digests, reviewer, artifact, held, receipt_of, seed, accepting, finding,
}
use nokinc_factory.Tests.Runs.{
  began, deliver_review, call_of, delivered, reserved1, reviewed1, reserved2, reviewed2, decided,
  reserving2, delivering2, evaluating,
}

evaluate-IsFresh_example :
    (DecisionStatus.eligible ≡ DecisionStatus.eligible) ↔ IsFresh digests reviewed2 artifact 6000
evaluate-IsFresh_example = evaluate-IsFresh digests reviewed2 artifact 6000 decided evaluating

eligibility_reasons-IsEligible_example :
    (nonempty (eligibility_reasons digests seed reviewed2.state) ≡ false)
    ↔ IsEligible digests seed reviewed2.state
eligibility_reasons-IsEligible_example = eligibility_reasons-IsEligible digests seed reviewed2.state

abbrev record_of : ℕ → FindingRecord
record_of times = record {
  finding = finding;
  report_digest = 100;
  blocking = true;
  occurrences = times;
  closed_by = none;
  closed_artifact_digest = none;
}

abbrev found : ReviewState
found = record began { findings = record_of 1 ∷ [] }

-- What the operations return on the unit.
unit_runs :
    (Overruns digests seed reserved1.state (call_of 100 2000) (delivered 100 200 1 3000))
    × (Blocks 101112 (by_fingerprint digests [] found.findings))
    × (initial_state digests seed ≡ ok began)
    × (replay digests seed began reviewed2.attempts ≡ ok reviewed2.state)
    × (replay digests seed began reserved2.attempts ≡ ok reserved2.state)
    × (validate_extension digests (some reserved1) reviewed1 ≡ ok TransitionKind.complete)
    × (reconcile_findings digests seed found (accepting 101)
        ≡ ok (record_of 2 ∷ [], ReviewReason.repeated_failure ∷ []))
unfolding ℕ_discrete dedup for_each RiskTier-discrete Role-discrete ReviewScope-discrete
    PinnedReference-discrete QualityCriterion-discrete QualityContract-discrete
    ReviewPolicy-discrete ModelIdentity-discrete ArtifactRef-discrete ReviewBinding-discrete
    Usage-discrete Reservation-discrete Disposition-discrete Verdict-discrete Severity-discrete
    FindingKind-discrete Remedy-discrete RecheckStatus-discrete Evidence-discrete
    CriterionDisposition-discrete Finding-discrete FindingResolution-discrete
    FindingRecheck-discrete ReviewReport-discrete InvocationKind-discrete ExecutionStop-discrete
    ReviewReason-discrete ReviewSeed-discrete Invocation-discrete InvocationReceipt-discrete
    Completion-discrete ReviewAttempt-discrete FindingRecord-discrete ResolutionRecord-discrete
    FailureCount-discrete BudgetState-discrete ReviewState-discrete ReviewSession-discrete
    criterion_valid contract_valid policy_valid model_valid artifact_valid reservation_valid
    invocation_valid seed_valid report_valid repair_valid qualified independent_of family_required
    independent within_window blocking evidence_binding criterion_credit disposition_credit
    validate_report binding_of fingerprint artifact_binding validate_seed reconciles needs_repair
    validate_report_binding latest_reasons eligibility_reasons stop_reasons count_blockers
    repeated_reasons artifact_changed by_fingerprint retain_finding retain_findings retain_stops
    known_evidence close_case recheck_answered recheck_named recheck_step recheck_all report_case
    report_finding report_findings reconcile_findings open_items resolve_finding resolve_all
    reconcile_repair ends_unit failure settle out_of_time initial_state reserve_kind reserve
    receipt_reason account exhausted capacity parse_review parse_repair credit_review attempt_review
    finish_review attempt_repair finish_repair completion_reason conclude complete_pending complete
    receipt_valid attempt_valid session_valid apply_completion replay_attempt replay
    validate_session start_session reserve_invocation deliver redeliver answer complete_invocation
    decision_reasons decision_status decision_of evaluate extend_reserve extend_complete extend
    validate_extension
unit_runs = (inl (omega arith), (record_of 1, refl, refl), refl, refl, refl, refl, refl)

initial_is : initial_state digests seed ≡ ok began
initial_is = unit_runs.2

replayed_is : replay digests seed began reviewed2.attempts ≡ ok reviewed2.state
replayed_is = unit_runs.3

replayed-IsBounded_example : IsBounded seed reviewed2.state
replayed-IsBounded_example =
    replayed-IsBounded digests seed began reviewed2.attempts reviewed2.state initial_is replayed_is

replay_flying : replay digests seed began reserved2.attempts ≡ ok reserved2.state
replay_flying = unit_runs.4

replay-Shape_example : Shape digests seed began reserved2.attempts reserved2.state
replay-Shape_example =
    replay-Shape digests seed began reserved2.attempts reserved2.state refl replay_flying

complete_pending-Settles_example :
    Settles
      (account digests reserved1.state (call_of 100 2000) (delivered 100 50 1 3000)).0
      (complete_pending digests seed reserved1.state (call_of 100 2000) (delivered 100 50 1 3000))
complete_pending-Settles_example =
    complete_pending-Settles digests seed reserved1.state (call_of 100 2000)
      (delivered 100 50 1 3000)

overruns : Overruns digests seed reserved1.state (call_of 100 2000) (delivered 100 200 1 3000)
overruns = unit_runs.0

overrun_stops_example :
    nonempty
      (complete_pending digests seed reserved1.state
        (call_of 100 2000)
        (delivered 100 200 1 3000)).terminal_reasons
    ≡ true
overrun_stops_example =
    overrun_stops digests seed reserved1.state (call_of 100 2000) (delivered 100 200 1 3000)
      overruns

abbrev repair_call : Invocation
repair_call = record (call_of 100 2000) { kind = InvocationKind.repair }

reserve_invocation-valid_example : validate_session digests reserved2 ≡ ok reserved2
reserve_invocation-valid_example =
    reserve_invocation-valid digests reviewed1 101 InvocationKind.review reviewer held 4000
      reserved2 reserving2

complete_invocation-valid_example : validate_session digests reviewed2 ≡ ok reviewed2
complete_invocation-valid_example =
    complete_invocation-valid digests reserved2 101 (some (receipt_of 101 50)) (some 2) 5000 none
      reviewed2 delivering2

complete_invocation-again_example : deliver_review reviewed2 101 50 2 9000 ≡ ok reviewed2
complete_invocation-again_example =
    complete_invocation-again digests reserved2 101 (some (receipt_of 101 50)) (some 2) 5000 9000
      none reviewed2 delivering2

extension_is : validate_extension digests (some reserved1) reviewed1 ≡ ok TransitionKind.complete
extension_is = unit_runs.5

validate_extension-Follows_example : Follows digests reserved1 reviewed1 TransitionKind.complete
validate_extension-Follows_example =
    validate_extension-Follows digests reserved1 reviewed1 TransitionKind.complete extension_is

reserve_invocation-validate_extension_example :
    validate_extension digests (some reviewed1) reserved2 ≡ ok TransitionKind.reserve
reserve_invocation-validate_extension_example =
    reserve_invocation-validate_extension digests reviewed1 101 InvocationKind.review reviewer held
      4000 reserved2 reserving2

validate_session-IsCounted_example : IsCounted reviewed2.attempts reviewed2.state
validate_session-IsCounted_example =
    validate_session-IsCounted digests reviewed2 reviewed2 complete_invocation-valid_example

validate_session-IsCharged_example : IsCharged digests reviewed2.attempts reviewed2.state
validate_session-IsCharged_example =
    validate_session-IsCharged digests reviewed2 reviewed2 complete_invocation-valid_example

Blocks-is : Blocks 101112 (by_fingerprint digests [] found.findings)
Blocks-is = unit_runs.1

reconciled_is :
    reconcile_findings digests seed found (accepting 101)
    ≡ ok (record_of 2 ∷ [], ReviewReason.repeated_failure ∷ [])
reconciled_is = unit_runs.6

reconcile_findings_blocked_example : any is_blocker (record_of 2 ∷ []) ≡ true
reconcile_findings_blocked_example =
    reconcile_findings_blocked digests 101112 seed found (accepting 101) (record_of 2 ∷ [])
      (ReviewReason.repeated_failure ∷ []) Blocks-is tt reconciled_is
