-- ===== src/Tests/Store.antt =====
-- A unit that is provisioned, registered, created and reserved in the store, and the theorems on the
-- store applied to it.
use nokinc_factory.Prelude.{
  ◌≡◌, refl, ℕ, true, false, List, [], ◌∷◌, Option, none, some, last?, ok, ℕ_discrete, dedup,
  for_each, nat_eq, All, arith,
}
use nokinc_factory.Review.Artifact.{
  RiskTier-discrete, Role-discrete, ReviewScope-discrete, PinnedReference-discrete,
  QualityCriterion-discrete, QualityContract-discrete, ReviewPolicy-discrete,
  ModelIdentity-discrete, ArtifactRef-discrete, ReviewBinding-discrete, Usage-discrete,
  Reservation-discrete, scope_eq,
}
use nokinc_factory.Review.Report.{
  Disposition-discrete, Verdict-discrete, Severity-discrete, FindingKind-discrete, Remedy-discrete,
  RecheckStatus-discrete, Evidence-discrete, CriterionDisposition-discrete, Finding-discrete,
  FindingResolution-discrete, FindingRecheck-discrete, ReviewReport-discrete,
}
use nokinc_factory.Review.Session.{
  InvocationKind-discrete, ExecutionStop-discrete, ReviewReason-discrete, ReviewSeed-discrete,
  Invocation-discrete, InvocationReceipt-discrete, Completion-discrete, ReviewAttempt-discrete,
  FindingRecord-discrete, ResolutionRecord-discrete, FailureCount-discrete, BudgetState-discrete,
  ReviewState-discrete, ReviewSession-discrete, ReviewSession,
}
use nokinc_factory.Review.Validators.{
  criterion_valid, contract_valid, policy_valid, model_valid, artifact_valid, reservation_valid,
  invocation_valid, seed_valid, report_valid, repair_valid,
}
use nokinc_factory.Review.Rules.{
  qualified, independent_of, family_required, independent, within_window, blocking,
  evidence_binding, criterion_credit, disposition_credit, validate_report, binding_of, fingerprint,
  artifact_binding, validate_seed, reconciles, needs_repair, validate_report_binding,
  latest_reasons, eligibility_reasons,
}
use nokinc_factory.Review.Findings.{
  stop_reasons, count_blockers, repeated_reasons, artifact_changed, by_fingerprint, retain_finding,
  retain_findings, retain_stops, known_evidence, close_case, recheck_answered, recheck_named,
  recheck_step, recheck_all, report_case, report_finding, report_findings, reconcile_findings,
  open_items, resolve_finding, resolve_all, reconcile_repair,
}
use nokinc_factory.Review.Reducer.{
  ends_unit, failure, settle, out_of_time, initial_state, reserve_kind, reserve, receipt_reason,
  account, exhausted, capacity, parse_review, parse_repair, credit_review, attempt_review,
  finish_review, attempt_repair, finish_repair, completion_reason, conclude, complete_pending,
  complete, no_budget,
}
use nokinc_factory.Review.Policy.{
  receipt_valid, attempt_valid, session_valid, apply_completion, replay_attempt, replay,
  validate_session, start_session, reserve_invocation, deliver, redeliver, answer,
  complete_invocation, decision_reasons, decision_status, decision_of, evaluate,
}
use nokinc_factory.Review.Persistence.{
  TransitionKind, TransitionKind-discrete, extend_reserve, extend_complete, extend,
  validate_extension,
}
use nokinc_factory.Review.Digests.{Digests}
use nokinc_factory.Store.Tables.{
  is_parent, ParentBudget, ParentBudget-discrete, Counter, BudgetRow, ReviewTables,
  ReviewStoreGrant, Encodings, EventRow,
}
use nokinc_factory.Store.Swap.{
  decode_row, decode_present, commit, compare, compare_and_reserve, load_current, read_history,
  history,
}
use nokinc_factory.Store.Rows.{
  highest, check_tip, within_limits, next_counters, set_usage, set_session, append_event,
  next_usage,
}
use nokinc_factory.Store.Admin.{provision_as, provision, register_as, register, fresh_row}
use nokinc_factory.Store.Reached.{Reached, no_rows, Reached-IsBalanced}
use nokinc_factory.Store.Readers.{Reached-history}
use nokinc_factory.Store.Writers.{compare_and_reserve_once, compare_and_reserve-IsWithin, IsWithin}
use nokinc_factory.Store.Balance.{IsBalanced}
use nokinc_factory.Tests.Unit.{digests, scope, seed}
use nokinc_factory.Tests.Runs.{session0, reserved1, reviewed1}

-- A session's digest is its last time here.
abbrev hashes : Digests
hashes = record digests { session = λ (s : ReviewSession). s.state.last_at }

abbrev encodings : Encodings
encodings = record { size = λ s. 1000; seed = λ s. 7 }

abbrev grant : ReviewStoreGrant
grant = record { tenant_id = 1; subject_id = 8 }

abbrev limits : ParentBudget
limits = record {
  tenant_id = 1;
  work_item_id = 2;
  budget_id = 4;
  max_invocations = 5;
  max_repairs = 2;
  max_tokens = 500;
  max_cost_microusd = 50;
  expires_at = 100000000;
}

abbrev provisioned : ReviewTables
provisioned = record {
  budgets = fresh_row limits ∷ [];
  registrations = [];
  sessions = [];
  events = [];
}

abbrev enrolled : ReviewTables
enrolled = record {
  budgets = fresh_row limits ∷ [];
  registrations = record { scope = scope; budget_id = 4; seed_digest = 7 } ∷ [];
  sessions = [];
  events = [];
}

abbrev usage0 : Counter → ℕ
usage0 = next_usage (λ key. 0) no_budget no_budget

abbrev event0 : EventRow
event0 = record {
  scope = scope;
  sequence = 1;
  kind = TransitionKind.create;
  subject_id = 8;
  before_digest = none;
  after_digest = 1000;
  document = session0;
  invocation_id = none;
  provider = none;
  execution_id = none;
}

abbrev created : ReviewTables
created = record {
  budgets = record { limits = limits; usage = usage0 } ∷ [];
  registrations = record { scope = scope; budget_id = 4; seed_digest = 7 } ∷ [];
  sessions =
      record { scope = scope; document = session0; digest = 1000; sequence = 1; format_version = 1 }
      ∷ [];
  events = event0 ∷ [];
}

abbrev event1 : EventRow
event1 = record {
  scope = scope;
  sequence = 2;
  kind = TransitionKind.reserve;
  subject_id = 8;
  before_digest = some 1000;
  after_digest = 2000;
  document = reserved1;
  invocation_id = some 100;
  provider = none;
  execution_id = none;
}

abbrev reserved : ReviewTables
reserved = record {
  budgets =
      record { limits = limits; usage = next_usage usage0 no_budget reserved1.state.budget } ∷ [];
  registrations = record { scope = scope; budget_id = 4; seed_digest = 7 } ∷ [];
  sessions =
      record {
        scope = scope;
        document = reserved1;
        digest = 2000;
        sequence = 2;
        format_version = 1;
      }
      ∷ [];
  events = event0 ∷ event1 ∷ [];
}

-- What the operations return on the tables, one after the other.
table_runs :
    (provision limits no_rows ≡ ok provisioned)
    × (register hashes encodings seed 4 provisioned ≡ ok enrolled)
    × (compare_and_reserve hashes encodings grant scope none session0 4 1500 enrolled
        ≡ ok (true, created))
    × (compare_and_reserve hashes encodings grant scope (some 1000) reserved1 4 2500 created
        ≡ ok (true, reserved))
    × (compare_and_reserve hashes encodings grant scope (some 1000) reviewed1 4 3500 reserved
        ≡ ok (false, reserved))
unfolding ℕ_discrete dedup for_each RiskTier-discrete Role-discrete ReviewScope-discrete
    PinnedReference-discrete QualityCriterion-discrete QualityContract-discrete
    ReviewPolicy-discrete ModelIdentity-discrete ArtifactRef-discrete ReviewBinding-discrete
    Usage-discrete Reservation-discrete Disposition-discrete Verdict-discrete Severity-discrete
    FindingKind-discrete Remedy-discrete RecheckStatus-discrete Evidence-discrete
    CriterionDisposition-discrete Finding-discrete FindingResolution-discrete
    FindingRecheck-discrete ReviewReport-discrete InvocationKind-discrete ExecutionStop-discrete
    ReviewReason-discrete ReviewSeed-discrete Invocation-discrete InvocationReceipt-discrete
    Completion-discrete ReviewAttempt-discrete FindingRecord-discrete ResolutionRecord-discrete
    FailureCount-discrete BudgetState-discrete ReviewState-discrete ReviewSession-discrete
    criterion_valid contract_valid policy_valid model_valid artifact_valid reservation_valid
    invocation_valid seed_valid report_valid repair_valid qualified independent_of family_required
    independent within_window blocking evidence_binding criterion_credit disposition_credit
    validate_report binding_of fingerprint artifact_binding validate_seed reconciles needs_repair
    validate_report_binding latest_reasons eligibility_reasons stop_reasons count_blockers
    repeated_reasons artifact_changed by_fingerprint retain_finding retain_findings retain_stops
    known_evidence close_case recheck_answered recheck_named recheck_step recheck_all report_case
    report_finding report_findings reconcile_findings open_items resolve_finding resolve_all
    reconcile_repair ends_unit failure settle out_of_time initial_state reserve_kind reserve
    receipt_reason account exhausted capacity parse_review parse_repair credit_review attempt_review
    finish_review attempt_repair finish_repair completion_reason conclude complete_pending complete
    receipt_valid attempt_valid session_valid apply_completion replay_attempt replay
    validate_session start_session reserve_invocation deliver redeliver answer complete_invocation
    decision_reasons decision_status decision_of evaluate TransitionKind-discrete extend_reserve
    extend_complete extend validate_extension ParentBudget-discrete highest check_tip within_limits
    next_counters set_usage set_session append_event decode_row decode_present commit compare
    compare_and_reserve provision_as provision register_as register load_current read_history
    history
table_runs = (refl, refl, refl, refl, refl)

provisioning : provision limits no_rows ≡ ok provisioned
provisioning = table_runs.0

enrolling : register hashes encodings seed 4 provisioned ≡ ok enrolled
enrolling = table_runs.1

creating :
    compare_and_reserve hashes encodings grant scope none session0 4 1500 enrolled
    ≡ ok (true, created)
creating = table_runs.2

reserving :
    compare_and_reserve hashes encodings grant scope (some 1000) reserved1 4 2500 created
    ≡ ok (true, reserved)
reserving = table_runs.3

losing :
    compare_and_reserve hashes encodings grant scope (some 1000) reviewed1 4 3500 reserved
    ≡ ok (false, reserved)
losing = table_runs.4

reached : Reached hashes encodings reserved
reached =
    Reached.answered grant scope (some 1000) reserved1 4 2500 created reserved true
      (Reached.answered grant scope none session0 4 1500 enrolled created true
        (Reached.registered seed 4 provisioned enrolled
          (Reached.provisioned limits no_rows provisioned Reached.created provisioning) enrolling)
        creating)
      reserving

Reached-IsBalanced_example : IsBalanced reserved
Reached-IsBalanced_example = Reached-IsBalanced hashes encodings reserved reached

Reached-history_example :
    (chain : List ReviewSession) × (history hashes encodings grant scope reserved ≡ ok chain)
    × (load_current hashes encodings grant scope reserved ≡ ok (last? chain))
Reached-history_example =
    Reached-history hashes encodings reserved grant scope
      (record { scope = scope; budget_id = 4; seed_digest = 7 }) reached refl
      (ground (arith, scope_eq.beq_iff scope scope))

compare_and_reserve_once_example : (false ≡ false) × (reserved ≡ reserved)
compare_and_reserve_once_example =
    compare_and_reserve_once hashes encodings grant grant scope (some 1000) reserved1 reviewed1 4 4
      2500 3500 created reserved reserved false
      (λ (h : ◌≡◌ {A = Option ℕ} (some 1000) (some 2000)). absurd (ground (arith, h))) reserving
      losing

compare_and_reserve-IsWithin_example :
    All (λ (b : BudgetRow). is_parent 1 2 b ≡ true → IsWithin b.limits b.usage) reserved.budgets
compare_and_reserve-IsWithin_example =
    compare_and_reserve-IsWithin hashes encodings grant scope (some 1000) reserved1 4 2500 created
      reserved event1 (tt, tt) reserving refl refl
