-- ===== src/Tests/Orchestration.antt =====
-- A coordinator that reserves and executes one review, and the theorems on coordinators applied to it.
use nokinc_factory.Prelude.{
  ◌≡◌, refl, ℕ, ◌≤◌, true, List, [], ◌∷◌, Option, some, ℕ_discrete, dedup, for_each,
}
use nokinc_factory.Review.Artifact.{
  RiskTier-discrete, Role-discrete, ReviewScope-discrete, ModelIdentity-discrete,
  ArtifactRef-discrete, ReviewBinding-discrete, Usage-discrete, Reservation-discrete,
}
use nokinc_factory.Review.Report.{
  Disposition-discrete, Verdict-discrete, Severity-discrete, ReviewReport-discrete,
}
use nokinc_factory.Review.Session.{
  InvocationKind-discrete, ReviewSeed-discrete, Invocation-discrete, BudgetState-discrete,
  ReviewState-discrete,
}
use nokinc_factory.Review.Rules.{
  validate_report, binding_of, needs_repair, validate_report_binding, latest_reasons,
  eligibility_reasons,
}
use nokinc_factory.Review.Findings.{report_findings, reconcile_findings}
use nokinc_factory.Review.Reducer.{
  settle, out_of_time, initial_state, reserve_kind, reserve, receipt_reason, account, exhausted,
  capacity, parse_review, attempt_review, finish_review, completion_reason, conclude,
  complete_pending, complete,
}
use nokinc_factory.Review.Policy.{
  replay_attempt, replay, validate_session, start_session, reserve_invocation, deliver,
  complete_invocation, decision_reasons, decision_status, decision_of, evaluate,
}
use nokinc_factory.Orchestration.Programs.{
  Call, Program, Event, Trace, after, here, Returned, ReceiptField, OutputField, follow,
}
use nokinc_factory.Orchestration.Steps.{
  ReviewOrchestrator, OrchestrationResult, outside_window, run, request_of,
}
use nokinc_factory.Orchestration.Returns.{valid_receipt, normalize_fields, normalize_result}
use nokinc_factory.Orchestration.Guards.{Right, guard, run-guard}
use nokinc_factory.Orchestration.Counts.{executions, run-executions}
use nokinc_factory.Orchestration.Outputs.{IsKept, normalize_result-IsKept}
use nokinc_factory.Tests.Unit.{digests, scope, artifact, held, receipt_of}
use nokinc_factory.Tests.Runs.{session0, reserved1, reviewed1, call_of}

abbrev coordinator : ReviewOrchestrator
coordinator = record { scope = scope; parent = 4; reservation = held }

-- Every text is 10 bytes long.
abbrev lengths : ℕ → Option ℕ
lengths text = some 10

abbrev events : List Event
events =
    (Call.load_current scope, some session0)
    ∷ (Call.observe scope 30, artifact)
    ∷ (Call.clock, 1500)
    ∷ (Call.new_invocation_id, 100)
    ∷ (Call.clock, 2000)
    ∷ (Call.authorize (call_of 100 2000), true)
    ∷ (Call.compare_and_reserve scope (some 0) reserved1 4, true)
    ∷ (Call.authorize (call_of 100 2000), true)
    ∷ (Call.observe scope 30, artifact)
    ∷ (Call.clock, 2500)
    ∷ (
      Call.execute (request_of digests lengths coordinator reserved1 (call_of 100 2000)),
      Returned.execution_result (ReceiptField.a_receipt (receipt_of 100 50)) (OutputField.a_text 1),
    )
    ∷ (Call.clock, 3000)
    ∷ (Call.compare_and_reserve scope (some 0) reviewed1 4, true)
    ∷ []

calls : (rest : Program OrchestrationResult) × Trace (run digests lengths coordinator 1) events rest
unfolding ℕ_discrete dedup for_each RiskTier-discrete Role-discrete ReviewScope-discrete
    ModelIdentity-discrete ArtifactRef-discrete ReviewBinding-discrete Usage-discrete
    Reservation-discrete Disposition-discrete Verdict-discrete Severity-discrete
    ReviewReport-discrete InvocationKind-discrete ReviewSeed-discrete Invocation-discrete
    BudgetState-discrete ReviewState-discrete validate_report binding_of needs_repair
    validate_report_binding latest_reasons eligibility_reasons report_findings reconcile_findings
    settle out_of_time initial_state reserve_kind reserve receipt_reason account exhausted capacity
    parse_review attempt_review finish_review completion_reason conclude complete_pending complete
    replay_attempt replay validate_session start_session reserve_invocation deliver
    complete_invocation decision_reasons decision_status decision_of evaluate outside_window run
    valid_receipt
calls = (
  _,
  after (
      after (
        after
          (after (after (after (after (after (after (after (after (after (after here)))))))))))),
)

run-guard_example : (right : Right) × (follow guard Right.idle events ≡ some right)
run-guard_example = run-guard digests lengths coordinator 1 events calls.0 calls.1

run-executions_example : executions events ≤ 1
run-executions_example = run-executions digests lengths coordinator 1 events calls.0 calls.1

normalize_result-IsKept_example : IsKept lengths (receipt_of 100 50) (
    normalize_result lengths (
      Returned.execution_result
        (ReceiptField.a_receipt (receipt_of 100 50))
        (OutputField.a_text 1)))
unfolding normalize_fields normalize_result
normalize_result-IsKept_example =
    normalize_result-IsKept lengths (receipt_of 100 50) (OutputField.a_text 1) refl
