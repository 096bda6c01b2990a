-- ===== src/Tests/Runs.antt =====
-- A unit that is reviewed twice and accepted, one whose review asks for a change, and one whose call
-- overruns its reservation.
use nokinc_factory.Prelude.{◌≡◌, refl, ℕ, [], ◌∷◌, none, some, ok, dedup, for_each, ℕ_discrete}
use nokinc_factory.Review.Session.{
  ReviewSession, ReviewState, Completion, InvocationKind, Invocation, ReviewDecision,
  DecisionStatus, InvocationKind-discrete, ExecutionStop-discrete, ReviewReason-discrete,
  ReviewSeed-discrete, Invocation-discrete, InvocationReceipt-discrete, Completion-discrete,
  ReviewAttempt-discrete, FindingRecord-discrete, ResolutionRecord-discrete, FailureCount-discrete,
  BudgetState-discrete, ReviewState-discrete, ReviewSession-discrete,
}
use nokinc_factory.Review.Artifact.{
  RiskTier-discrete, Role-discrete, ReviewScope-discrete, PinnedReference-discrete,
  QualityCriterion-discrete, QualityContract-discrete, ReviewPolicy-discrete,
  ModelIdentity-discrete, ArtifactRef-discrete, ReviewBinding-discrete, Usage-discrete,
  Reservation-discrete,
}
use nokinc_factory.Review.Report.{
  Disposition-discrete, Verdict-discrete, Severity-discrete, FindingKind-discrete, Remedy-discrete,
  RecheckStatus-discrete, Evidence-discrete, CriterionDisposition-discrete, Finding-discrete,
  FindingResolution-discrete, FindingRecheck-discrete, ReviewReport-discrete,
}
use nokinc_factory.Review.Rules.{
  Checked, qualified, independent_of, family_required, independent, within_window, blocking,
  evidence_binding, criterion_credit, disposition_credit, validate_report, binding_of, fingerprint,
  artifact_binding, validate_seed, reconciles, needs_repair, validate_report_binding,
  latest_reasons, eligibility_reasons,
}
use nokinc_factory.Review.Findings.{
  stop_reasons, count_blockers, repeated_reasons, artifact_changed, by_fingerprint, retain_finding,
  retain_findings, retain_stops, known_evidence, close_case, recheck_answered, recheck_named,
  recheck_step, recheck_all, report_case, report_finding, report_findings, reconcile_findings,
  open_items, resolve_finding, resolve_all, reconcile_repair,
}
use nokinc_factory.Review.Validators.{
  criterion_valid, contract_valid, policy_valid, model_valid, artifact_valid, reservation_valid,
  invocation_valid, seed_valid, report_valid, repair_valid,
}
use nokinc_factory.Review.Reducer.{
  no_budget, ends_unit, failure, settle, out_of_time, initial_state, reserve_kind, reserve,
  receipt_reason, account, exhausted, capacity, parse_review, parse_repair, credit_review,
  attempt_review, finish_review, attempt_repair, finish_repair, completion_reason, conclude,
  complete_pending, complete,
}
use nokinc_factory.Review.Policy.{
  receipt_valid, attempt_valid, session_valid, apply_completion, replay_attempt, replay,
  validate_session, start_session, reserve_invocation, deliver, redeliver, answer,
  complete_invocation, decision_reasons, decision_status, decision_of, evaluate,
}
use nokinc_factory.Tests.Unit.{
  digests, scope, contract, policy, doer, reviewer, artifact, held, receipt_of, seed, binding,
  accepting,
}

abbrev pub began : ReviewState
began = record {
  artifact = artifact;
  last_at = 1000;
  budget = no_budget;
  pending = none;
  invocation_ids = [];
  execution_ids = [];
  valid_completed_reports = [];
  findings = [];
  resolutions = [];
  failures = [];
  terminal_reasons = [];
}

abbrev pub session0 : ReviewSession
session0 = record { seed = seed; attempts = []; state = began }

abbrev pub reserve_review : ReviewSession → ℕ → ℕ → Checked ReviewSession
reserve_review s call now =
    reserve_invocation digests s call InvocationKind.review reviewer held now

abbrev pub deliver_review : ReviewSession → ℕ → ℕ → ℕ → ℕ → Checked ReviewSession
deliver_review s call tokens text now =
    complete_invocation digests s call (some (receipt_of call tokens)) (some text) now none

abbrev pub call_of : ℕ → ℕ → Invocation
call_of call now = record {
  invocation_id = call;
  kind = InvocationKind.review;
  binding = binding;
  actor = reviewer;
  reservation = held;
  started_at = now;
}

abbrev pub delivered : ℕ → ℕ → ℕ → ℕ → Completion
delivered call tokens text now = record {
  invocation_id = call;
  finished_at = now;
  receipt = some (receipt_of call tokens);
  output_json = some text;
  failure_reason = none;
}

abbrev pub reserved1 : ReviewSession
reserved1 = record {
  seed = seed;
  attempts = record { invocation = call_of 100 2000; completion = none } ∷ [];
  state = record began {
    budget = record no_budget {
      invocations = 1;
      tokens_reserved = 100;
      cost_microusd_reserved = 10;
    };
    pending = some (call_of 100 2000);
    last_at = 2000;
    invocation_ids = 100 ∷ [];
  };
}

abbrev pub reviewed1 : ReviewSession
reviewed1 = record {
  seed = seed;
  attempts =
      record { invocation = call_of 100 2000; completion = some (delivered 100 50 1 3000) } ∷ [];
  state = record began {
    budget = record no_budget { invocations = 1; tokens_spent = 50; cost_microusd_spent = 5 };
    last_at = 3000;
    invocation_ids = 100 ∷ [];
    execution_ids = 1105 ∷ [];
    valid_completed_reports = accepting 100 ∷ [];
  };
}

pub reserving1 : reserve_review session0 100 2000 ≡ ok reserved1
unfolding ℕ_discrete dedup for_each RiskTier-discrete Role-discrete ReviewScope-discrete
    ModelIdentity-discrete ArtifactRef-discrete ReviewBinding-discrete Usage-discrete
    BudgetState-discrete ReviewState-discrete latest_reasons eligibility_reasons settle out_of_time
    initial_state reserve_kind reserve receipt_reason replay_attempt replay validate_session
    start_session reserve_invocation deliver
reserving1 = refl

pub delivering1 : deliver_review reserved1 100 50 1 3000 ≡ ok reviewed1
unfolding ℕ_discrete dedup for_each RiskTier-discrete Role-discrete ReviewScope-discrete
    ModelIdentity-discrete ArtifactRef-discrete ReviewBinding-discrete Usage-discrete
    Reservation-discrete Disposition-discrete Verdict-discrete Severity-discrete
    ReviewReport-discrete InvocationKind-discrete ReviewSeed-discrete Invocation-discrete
    BudgetState-discrete ReviewState-discrete validate_report binding_of needs_repair
    validate_report_binding latest_reasons eligibility_reasons report_findings reconcile_findings
    settle out_of_time initial_state reserve_kind reserve receipt_reason account exhausted capacity
    parse_review attempt_review finish_review completion_reason conclude complete_pending complete
    replay_attempt replay validate_session start_session complete_invocation decision_reasons
delivering1 = refl

abbrev pub reserved2 : ReviewSession
reserved2 = record {
  seed = seed;
  attempts =
      record { invocation = call_of 100 2000; completion = some (delivered 100 50 1 3000) }
      ∷ record { invocation = call_of 101 4000; completion = none }
      ∷ [];
  state = record began {
    budget = record no_budget {
      invocations = 2;
      tokens_spent = 50;
      cost_microusd_spent = 5;
      tokens_reserved = 100;
      cost_microusd_reserved = 10;
    };
    pending = some (call_of 101 4000);
    last_at = 4000;
    invocation_ids = 100 ∷ 101 ∷ [];
    execution_ids = 1105 ∷ [];
    valid_completed_reports = accepting 100 ∷ [];
  };
}

abbrev pub reviewed2 : ReviewSession
reviewed2 = record {
  seed = seed;
  attempts =
      record { invocation = call_of 100 2000; completion = some (delivered 100 50 1 3000) }
      ∷ record { invocation = call_of 101 4000; completion = some (delivered 101 50 2 5000) }
      ∷ [];
  state = record began {
    budget = record no_budget { invocations = 2; tokens_spent = 100; cost_microusd_spent = 10 };
    last_at = 5000;
    invocation_ids = 100 ∷ 101 ∷ [];
    execution_ids = 1105 ∷ 1106 ∷ [];
    valid_completed_reports = accepting 100 ∷ accepting 101 ∷ [];
  };
}

pub reserving2 : reserve_review reviewed1 101 4000 ≡ ok reserved2
unfolding ℕ_discrete dedup for_each RiskTier-discrete Role-discrete ReviewScope-discrete
    ModelIdentity-discrete ArtifactRef-discrete ReviewBinding-discrete Usage-discrete
    Reservation-discrete Disposition-discrete Verdict-discrete Severity-discrete
    RecheckStatus-discrete Evidence-discrete CriterionDisposition-discrete Finding-discrete
    ReviewReport-discrete InvocationKind-discrete BudgetState-discrete ReviewState-discrete
    validate_report binding_of fingerprint artifact_binding validate_seed reconciles needs_repair
    validate_report_binding latest_reasons eligibility_reasons stop_reasons count_blockers
    report_case report_finding report_findings reconcile_findings ends_unit failure settle
    out_of_time initial_state reserve_kind reserve receipt_reason account exhausted capacity
    parse_review parse_repair credit_review attempt_review finish_review attempt_repair
    finish_repair completion_reason conclude complete_pending complete receipt_valid attempt_valid
    session_valid apply_completion replay_attempt replay validate_session start_session
    reserve_invocation deliver
reserving2 = refl

pub delivering2 : deliver_review reserved2 101 50 2 5000 ≡ ok reviewed2
unfolding ℕ_discrete dedup for_each RiskTier-discrete Role-discrete ReviewScope-discrete
    PinnedReference-discrete QualityCriterion-discrete QualityContract-discrete
    ReviewPolicy-discrete ModelIdentity-discrete ArtifactRef-discrete ReviewBinding-discrete
    Usage-discrete Reservation-discrete Disposition-discrete Verdict-discrete Severity-discrete
    FindingKind-discrete Remedy-discrete RecheckStatus-discrete Evidence-discrete
    CriterionDisposition-discrete Finding-discrete FindingResolution-discrete
    FindingRecheck-discrete ReviewReport-discrete InvocationKind-discrete ExecutionStop-discrete
    ReviewReason-discrete ReviewSeed-discrete Invocation-discrete InvocationReceipt-discrete
    Completion-discrete ReviewAttempt-discrete FindingRecord-discrete ResolutionRecord-discrete
    FailureCount-discrete BudgetState-discrete ReviewState-discrete ReviewSession-discrete
    criterion_valid contract_valid policy_valid model_valid artifact_valid reservation_valid
    invocation_valid seed_valid report_valid repair_valid qualified independent_of family_required
    independent within_window blocking evidence_binding criterion_credit disposition_credit
    validate_report binding_of fingerprint artifact_binding validate_seed reconciles needs_repair
    validate_report_binding latest_reasons eligibility_reasons stop_reasons count_blockers
    repeated_reasons artifact_changed by_fingerprint retain_finding retain_findings retain_stops
    known_evidence close_case recheck_answered recheck_named recheck_step recheck_all report_case
    report_finding report_findings reconcile_findings open_items resolve_finding resolve_all
    reconcile_repair ends_unit failure settle out_of_time initial_state reserve_kind reserve
    receipt_reason account exhausted capacity parse_review parse_repair credit_review attempt_review
    finish_review attempt_repair finish_repair completion_reason conclude complete_pending complete
    receipt_valid attempt_valid session_valid apply_completion replay_attempt replay
    validate_session start_session reserve_invocation deliver redeliver answer complete_invocation
    decision_reasons decision_status decision_of evaluate
delivering2 = refl

abbrev pub decided : ReviewDecision
decided = record {
  status = DecisionStatus.eligible;
  reasons = [];
  session_digest = 0;
  artifact_digest = 70;
  completed_reviews = 2;
}

pub evaluating : evaluate digests reviewed2 artifact 6000 ≡ ok decided
unfolding ℕ_discrete dedup for_each RiskTier-discrete Role-discrete ReviewScope-discrete
    PinnedReference-discrete QualityCriterion-discrete QualityContract-discrete
    ReviewPolicy-discrete ModelIdentity-discrete ArtifactRef-discrete ReviewBinding-discrete
    Usage-discrete Reservation-discrete Disposition-discrete Verdict-discrete Severity-discrete
    FindingKind-discrete Remedy-discrete RecheckStatus-discrete Evidence-discrete
    CriterionDisposition-discrete Finding-discrete FindingResolution-discrete
    FindingRecheck-discrete ReviewReport-discrete InvocationKind-discrete ExecutionStop-discrete
    ReviewReason-discrete ReviewSeed-discrete Invocation-discrete InvocationReceipt-discrete
    Completion-discrete ReviewAttempt-discrete FindingRecord-discrete ResolutionRecord-discrete
    FailureCount-discrete BudgetState-discrete ReviewState-discrete ReviewSession-discrete
    criterion_valid contract_valid policy_valid model_valid artifact_valid reservation_valid
    invocation_valid seed_valid report_valid repair_valid qualified independent_of family_required
    independent within_window blocking evidence_binding criterion_credit disposition_credit
    validate_report binding_of fingerprint artifact_binding validate_seed reconciles needs_repair
    validate_report_binding latest_reasons eligibility_reasons stop_reasons count_blockers
    repeated_reasons artifact_changed by_fingerprint retain_finding retain_findings retain_stops
    known_evidence close_case recheck_answered recheck_named recheck_step recheck_all report_case
    report_finding report_findings reconcile_findings open_items resolve_finding resolve_all
    reconcile_repair ends_unit failure settle out_of_time initial_state reserve_kind reserve
    receipt_reason account exhausted capacity parse_review parse_repair credit_review attempt_review
    finish_review attempt_repair finish_repair completion_reason conclude complete_pending complete
    receipt_valid attempt_valid session_valid apply_completion replay_attempt replay
    validate_session start_session reserve_invocation deliver redeliver answer complete_invocation
    decision_reasons decision_status decision_of evaluate
evaluating = refl

pub starting :
    start_session digests scope contract policy doer (reviewer ∷ []) artifact 1000 ≡ ok session0
unfolding ℕ_discrete dedup for_each RiskTier-discrete Role-discrete ReviewScope-discrete
    PinnedReference-discrete QualityCriterion-discrete QualityContract-discrete
    ReviewPolicy-discrete ModelIdentity-discrete ArtifactRef-discrete ReviewBinding-discrete
    Usage-discrete Reservation-discrete Disposition-discrete Verdict-discrete Severity-discrete
    FindingKind-discrete Remedy-discrete RecheckStatus-discrete Evidence-discrete
    CriterionDisposition-discrete Finding-discrete FindingResolution-discrete
    FindingRecheck-discrete ReviewReport-discrete InvocationKind-discrete ExecutionStop-discrete
    ReviewReason-discrete ReviewSeed-discrete Invocation-discrete InvocationReceipt-discrete
    Completion-discrete ReviewAttempt-discrete FindingRecord-discrete ResolutionRecord-discrete
    FailureCount-discrete BudgetState-discrete ReviewState-discrete ReviewSession-discrete
    criterion_valid contract_valid policy_valid model_valid artifact_valid reservation_valid
    invocation_valid seed_valid report_valid repair_valid qualified independent_of family_required
    independent within_window blocking evidence_binding criterion_credit disposition_credit
    validate_report binding_of fingerprint artifact_binding validate_seed reconciles needs_repair
    validate_report_binding latest_reasons eligibility_reasons stop_reasons count_blockers
    repeated_reasons artifact_changed by_fingerprint retain_finding retain_findings retain_stops
    known_evidence close_case recheck_answered recheck_named recheck_step recheck_all report_case
    report_finding report_findings reconcile_findings open_items resolve_finding resolve_all
    reconcile_repair ends_unit failure settle out_of_time initial_state reserve_kind reserve
    receipt_reason account exhausted capacity parse_review parse_repair credit_review attempt_review
    finish_review attempt_repair finish_repair completion_reason conclude complete_pending complete
    receipt_valid attempt_valid session_valid apply_completion replay_attempt replay
    validate_session start_session reserve_invocation deliver redeliver answer complete_invocation
    decision_reasons decision_status decision_of evaluate
starting = refl
