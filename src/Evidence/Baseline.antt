-- ===== src/Evidence/Baseline.antt =====
-- The decisions of policy/baseline.py. The content digests of a contract and of a run are
-- parameters, as JSON and SHA-256 are not this code.
use nokinc_factory.Prelude.{
  ℕ, Bool, not, ◌&&◌, List, [], ◌∷◌, ◌++◌, map, Option, none, some, contains, dedup, last_match?,
  nonempty, ◌==◌, nat_eq, option_eq, if◌then◌else◌, Result, ok, require, ◌>>◌,
}
use nokinc_factory.Evidence.Suites.{
  CaseOutcome, outcome_eq, StoryKind, story_eq, CaseResult, SuiteRun, run_valid, BaselineContract,
  same_members, contract_valid, DecisionStatus, Reason, reason_eq, TestEvidenceDecision,
}

abbrev pub unless : Bool → Reason → List Reason
unless valid reason = if valid then [] else reason ∷ []

unfoldable pub identity : BaselineContract → SuiteRun → ℕ → ℕ → List Reason
identity contract run source suite =
    unless (run.work_item_id == contract.work_item_id) Reason.work_item_mismatch
    ++ (unless (run.source_sha == source) Reason.source_mismatch
        ++ (unless (run.suite_digest == suite) Reason.suite_mismatch
            ++ (unless (run.runner_digest == contract.runner_digest) Reason.runner_mismatch
                ++ (unless (run.environment_digest == contract.environment_digest)
                      Reason.environment_mismatch
                    ++ (unless run.completed Reason.incomplete_execution
                        ++ unless (run.collection_errors == 0) Reason.collection_errors)))))

-- `actual.get(case_id)`.
abbrev pub outcome_of : SuiteRun → ℕ → Option CaseOutcome
outcome_of run id = elim (last_match? (λ (c : CaseResult). c.case_id == id) run.cases) [
  | none ↦ none
  | some c ↦ some c.outcome
]

abbrev pub required : List ℕ → ℕ → CaseOutcome
required red id = if contains red id then CaseOutcome.assertion_failure else CaseOutcome.pass

-- The loop over the expected cases.
unfoldable pub unexpected : SuiteRun → List ℕ → List ℕ → List Reason
unexpected run red [] = []
unexpected run red (id ∷ ids) =
    unless (outcome_of run id == some (required red id)) Reason.unexpected_test_outcome
    ++ unexpected run red ids

abbrev pub exit_of : List ℕ → ℕ
exit_of red = if nonempty red then 1 else 0

unfoldable pub outcomes : SuiteRun → List ℕ → List ℕ → List Reason
unfolding unexpected
outcomes run expected red =
    unless
      (same_members (map (λ (c : CaseResult). c.case_id) run.cases) expected && nonempty expected)
      Reason.inventory_mismatch
    ++ (unless (run.exit_code == exit_of red) Reason.unexpected_process_exit
        ++ unexpected run red expected)

abbrev pub baseline_reasons : BaselineContract → SuiteRun → SuiteRun → List Reason
baseline_reasons c before frozen =
    identity c before c.baseline_sha c.baseline_suite_digest
    ++ (identity c frozen c.baseline_sha c.frozen_suite_digest
        ++ (unless (not (before.run_id == frozen.run_id)) Reason.replayed_run
            ++ (outcomes before c.baseline_cases []
                ++ outcomes frozen c.frozen_cases c.expected_red_cases)))

abbrev pub candidate_reasons : BaselineContract → ℕ → SuiteRun → List Reason
candidate_reasons c sha run =
    identity c run sha c.frozen_suite_digest ++ outcomes run c.frozen_cases []

-- A model that pydantic refuses.
pub data Refused : Type 0 where
  validation_error : Refused

module _ (contract_digest : BaselineContract → ℕ) (run_digest : SuiteRun → ℕ) where
  unfoldable pub decision : BaselineContract → List SuiteRun → List Reason → TestEvidenceDecision
  unfolding dedup
  decision contract reports reasons = record {
    status = if nonempty reasons then DecisionStatus.fail else DecisionStatus.pass;
    contract_digest = contract_digest contract;
    evidence_digests = map run_digest reports;
    reasons = dedup reasons;
  }

  -- A decision without evidence.
  abbrev pub undecided : BaselineContract → DecisionStatus → Reason → TestEvidenceDecision
  undecided contract status reason = record {
    status = status;
    contract_digest = contract_digest contract;
    evidence_digests = [];
    reasons = reason ∷ [];
  }

  -- The two runs of a contract that is not for infrastructure.
  unfoldable pub verify_runs :
      BaselineContract → Option SuiteRun → Option SuiteRun → Result Refused TestEvidenceDecision
  unfolding identity outcomes decision run_valid
  verify_runs c (some before) (some frozen) = do
    require (run_valid before) validation_error
    require (run_valid frozen) validation_error
    ok (decision c (before ∷ frozen ∷ []) (baseline_reasons c before frozen))
  verify_runs c _ _ =
      ok (undecided c DecisionStatus.not_available Reason.missing_baseline_execution)

  unfoldable pub verify_baseline :
      BaselineContract → Option SuiteRun → Option SuiteRun → Result Refused TestEvidenceDecision
  unfolding verify_runs contract_valid
  verify_baseline c before frozen = do
    require (contract_valid c) validation_error
    if c.story_kind == StoryKind.infrastructure
        then ok (undecided c DecisionStatus.not_applicable Reason.infrastructure_only)
        else verify_runs c before frozen

  -- `is_sha` is the pattern of `GitSHA`.
  unfoldable pub verify_candidate :
      (ℕ → Bool) → BaselineContract → ℕ → Option SuiteRun → Result Refused TestEvidenceDecision
  unfolding identity outcomes decision run_valid contract_valid
  verify_candidate is_sha c sha none = do
    require (contract_valid c) validation_error
    require (is_sha sha) validation_error
    ok (undecided c DecisionStatus.not_available Reason.missing_candidate_execution)
  verify_candidate is_sha c sha (some run) = do
    require (contract_valid c) validation_error
    require (is_sha sha) validation_error
    require (run_valid run) validation_error
    ok (decision c (run ∷ []) (candidate_reasons c sha run))
