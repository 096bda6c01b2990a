-- ===== src/Evidence/Suites.antt =====
-- The models of domain/gate_evidence.py. Identifiers, digests and case ids are numbers; the string
-- patterns and size limits of the fields are those of pydantic and not repeated here.
use nokinc_factory.Prelude.{
  ℕ, Bool, false, not, ◌&&◌, ◌||◌, List, map, all, contains, is_distinct, is_subset, nonempty, Eq,
  ◌==◌, nat_eq, eq_of_discrete, if◌then◌else◌,
}

pub data CaseOutcome : Type 0 where
  pass assertion_failure error skipped : CaseOutcome

unfoldable pub CaseOutcome-discrete : Discrete CaseOutcome
CaseOutcome-discrete = hlevel

instance abbrev pub outcome_eq : Eq CaseOutcome
outcome_eq = eq_of_discrete CaseOutcome-discrete

pub data StoryKind : Type 0 where
  new_behavior bug_fix refactor infrastructure : StoryKind

unfoldable pub StoryKind-discrete : Discrete StoryKind
StoryKind-discrete = hlevel

instance abbrev pub story_eq : Eq StoryKind
story_eq = eq_of_discrete StoryKind-discrete

pub record CaseResult : Type 0 where
  pub case_id : ℕ
  pub outcome : CaseOutcome

-- The fields of `ProbeBinding` and its own.
pub record SuiteRun : Type 0 where
  pub work_item_id : ℕ
  pub run_id : ℕ
  pub source_sha : ℕ
  pub suite_digest : ℕ
  pub runner_digest : ℕ
  pub environment_digest : ℕ
  pub completed : Bool
  pub exit_code : ℕ
  pub collection_errors : ℕ
  pub cases : List CaseResult

-- `_case_ids`.
unfoldable pub run_valid : SuiteRun → Bool
run_valid run = is_distinct (map (λ (c : CaseResult). c.case_id) run.cases)

pub record BaselineContract : Type 0 where
  pub work_item_id : ℕ
  pub story_kind : StoryKind
  pub baseline_sha : ℕ
  pub baseline_suite_digest : ℕ
  pub frozen_suite_digest : ℕ
  pub runner_digest : ℕ
  pub environment_digest : ℕ
  pub baseline_cases : List ℕ
  pub frozen_cases : List ℕ
  pub expected_red_cases : List ℕ

-- `set(xs) == set(ys)`.
abbrev pub same_members : List ℕ → List ℕ → Bool
same_members xs ys = is_subset xs ys && is_subset ys xs

-- `set(xs)` and `set(ys)` have nothing in common.
abbrev pub disjoint : List ℕ → List ℕ → Bool
disjoint xs ys = all (λ x. not (contains ys x)) xs

-- `_scoped_expectations`: the branch that the kind of story takes.
unfoldable pub scope_valid : BaselineContract → Bool
scope_valid c =
    let red = c.expected_red_cases in
    if c.story_kind == StoryKind.infrastructure
    then not (nonempty red)
    else if not (nonempty c.baseline_cases)
        || not (nonempty c.frozen_cases)
        || not (is_subset c.baseline_cases c.frozen_cases)
    then false
    else if c.story_kind == StoryKind.refactor
    then not (
        nonempty red
        || not (same_members c.baseline_cases c.frozen_cases)
        || not (c.baseline_suite_digest == c.frozen_suite_digest))
    else nonempty red && is_subset red c.frozen_cases && disjoint red c.baseline_cases

unfoldable pub contract_valid : BaselineContract → Bool
unfolding scope_valid
contract_valid c =
    is_distinct c.baseline_cases
    && is_distinct c.frozen_cases
    && is_distinct c.expected_red_cases
    && scope_valid c

pub data DecisionStatus : Type 0 where
  pass fail not_available not_applicable : DecisionStatus

pub data Reason : Type 0 where
  work_item_mismatch source_mismatch suite_mismatch runner_mismatch : Reason
  environment_mismatch incomplete_execution collection_errors inventory_mismatch : Reason
  unexpected_process_exit unexpected_test_outcome replayed_run : Reason
  infrastructure_only missing_baseline_execution missing_candidate_execution : Reason

unfoldable pub Reason-discrete : Discrete Reason
Reason-discrete = hlevel

instance abbrev pub reason_eq : Eq Reason
reason_eq = eq_of_discrete Reason-discrete

-- `evidence_scope` and `authorizes_merge` have one value each.
pub record TestEvidenceDecision : Type 0 where
  pub status : DecisionStatus
  pub contract_digest : ℕ
  pub evidence_digests : List ℕ
  pub reasons : List Reason
