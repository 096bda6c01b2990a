-- ===== src/Tests/Evidence.antt =====
-- A contract for new behavior with its baseline and candidate runs, and the theorems on them.
use nokinc_factory.Prelude.{ℕ, true, List, [], ◌∷◌, ◌==◌, nat_eq, Bool}
use nokinc_factory.Evidence.Suites.{CaseOutcome, StoryKind, CaseResult, SuiteRun, BaselineContract}

abbrev contract : BaselineContract
contract = record {
  work_item_id = 1;
  story_kind = StoryKind.new_behavior;
  baseline_sha = 2;
  baseline_suite_digest = 3;
  frozen_suite_digest = 4;
  runner_digest = 5;
  environment_digest = 6;
  baseline_cases = 10 ∷ [];
  frozen_cases = 10 ∷ 11 ∷ [];
  expected_red_cases = 11 ∷ [];
}

abbrev run_of : ℕ → ℕ → ℕ → ℕ → List CaseResult → SuiteRun
run_of id source suite exit cases = record {
  work_item_id = 1;
  run_id = id;
  source_sha = source;
  suite_digest = suite;
  runner_digest = 5;
  environment_digest = 6;
  completed = true;
  exit_code = exit;
  collection_errors = 0;
  cases = cases;
}

abbrev result : ℕ → CaseOutcome → CaseResult
result id outcome = record { case_id = id; outcome = outcome }

abbrev before : SuiteRun
before = run_of 20 2 3 0 (result 10 CaseOutcome.pass ∷ [])

abbrev frozen : SuiteRun
frozen = run_of 21 2 4 1 (result 10 CaseOutcome.pass ∷ result 11 CaseOutcome.assertion_failure ∷ [])

abbrev candidate : SuiteRun
candidate = run_of 22 9 4 0 (result 10 CaseOutcome.pass ∷ result 11 CaseOutcome.pass ∷ [])

abbrev contract_digest : BaselineContract → ℕ
contract_digest c = c.work_item_id

abbrev run_digest : SuiteRun → ℕ
run_digest r = r.run_id

abbrev is_sha : ℕ → Bool
is_sha n = n == 9
