-- ===== src/Evidence/Verdicts.antt =====
-- What a passing decision of policy/baseline.py establishes.
use nokinc_factory.Prelude.{
  ◌≡◌, ◌≢◌, ℕ, Bool, true, List, [], map, Result, some, All, nat_eq, option_eq, ok,
}
use nokinc_factory.Evidence.Suites.{
  outcome_eq, StoryKind, story_eq, CaseResult, SuiteRun, run_valid, BaselineContract, same_members,
  contract_valid, DecisionStatus, reason_eq, TestEvidenceDecision,
}
use nokinc_factory.Evidence.Baseline.{outcome_of, required, exit_of, Refused}

-- A complete run of a suite on a source, by the contract's runner in its environment, in which each
-- expected case and no other ran and came out as required.
pub record IsAsExpected (c : BaselineContract) (run : SuiteRun) (source suite : ℕ)
    (expected red : List ℕ) : Type 0 where
  pub work_item : run.work_item_id ≡ c.work_item_id
  pub source_is : run.source_sha ≡ source
  pub suite_is : run.suite_digest ≡ suite
  pub runner : run.runner_digest ≡ c.runner_digest
  pub environment : run.environment_digest ≡ c.environment_digest
  pub complete : run.completed ≡ true
  pub collected : run.collection_errors ≡ 0
  pub inventory : same_members (map (λ (k : CaseResult). k.case_id) run.cases) expected ≡ true
  pub some_expected : expected ≢ []
  pub exit : run.exit_code ≡ exit_of red
  pub came_out : All (λ id. outcome_of run id ≡ some (required red id)) expected

-- What both runs of a passing baseline are: the old suite is green, and the frozen suite, in another
-- run of the same source, fails exactly in the declared cases.
pub record IsRedGreen (c : BaselineContract) (before frozen : SuiteRun) : Type 0 where
  pub contract_ok : contract_valid c ≡ true
  pub has_behavior : c.story_kind ≢ StoryKind.infrastructure
  pub before_ok : run_valid before ≡ true
  pub frozen_ok : run_valid frozen ≡ true
  pub green : IsAsExpected c before c.baseline_sha c.baseline_suite_digest c.baseline_cases []
  pub red :
      IsAsExpected c frozen c.baseline_sha c.frozen_suite_digest c.frozen_cases c.expected_red_cases
  pub two_runs : before.run_id ≢ frozen.run_id

-- The call returned a decision that passes.
abbrev pub Passes : Result Refused TestEvidenceDecision → Type 0
Passes r = (made : TestEvidenceDecision) × (r ≡ ok made) × (made.status ≡ DecisionStatus.pass)

module _ (contract_digest : BaselineContract → ℕ) (run_digest : SuiteRun → ℕ) where
  -- What a passing candidate is.
  pub record IsGreen (is_sha : ℕ → Bool) (c : BaselineContract) (sha : ℕ) (run : SuiteRun)
      : Type 0 where
    pub contract_ok : contract_valid c ≡ true
    pub sha_ok : is_sha sha ≡ true
    pub run_ok : run_valid run ≡ true
    pub green : IsAsExpected c run sha c.frozen_suite_digest c.frozen_cases []
