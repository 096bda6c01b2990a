-- ===== src/Review/Session.antt =====
-- The attempt ledger and its materialized state, domain/review_session.py.
use nokinc_factory.Prelude.{
  ℕ, Bool, true, false, Option, none, some, List, ℕ_discrete, Eq, eq_of_discrete, keep,
}
use nokinc_factory.Review.Artifact.{
  Identifier, Digest, Moment, ReviewScope, QualityContract, ReviewPolicy, ModelIdentity,
  ArtifactRef, ReviewBinding, Usage, Reservation, ReviewScope-discrete, QualityContract-discrete,
  ReviewPolicy-discrete, ModelIdentity-discrete, ArtifactRef-discrete, ReviewBinding-discrete,
  Usage-discrete, Reservation-discrete,
}
use nokinc_factory.Review.Report.{
  Finding, FindingResolution, ReviewReport, Finding-discrete, FindingResolution-discrete,
  ReviewReport-discrete,
}
use nokinc_factory.Review.Reason.{ReviewReason}

pub record ReviewSeed : Type 0 where
  pub scope : ReviewScope
  pub contract : QualityContract
  pub policy : ReviewPolicy
  pub original_doer : ModelIdentity
  pub reviewers : List ModelIdentity
  pub initial_artifact : ArtifactRef
  pub started_at : Moment

pub data InvocationKind : Type 0 where
  review repair : InvocationKind

pub record Invocation : Type 0 where
  pub invocation_id : Identifier
  pub kind : InvocationKind
  pub binding : ReviewBinding
  pub actor : ModelIdentity
  pub reservation : Reservation
  pub started_at : Moment

pub record InvocationReceipt : Type 0 where
  pub binding : ReviewBinding
  pub invocation_id : Identifier
  pub execution_id : Identifier
  pub actual_model : ModelIdentity
  pub usage : Usage
  pub cached : Bool

pub data ExecutionStop : Type 0 where
  artifact_drift time_window authorization_revoked execution_invalid output_limit : ExecutionStop

-- `output_json` is one name for each text: what it says is read by the decoder of Review/Digests.
pub record Completion : Type 0 where
  pub invocation_id : Identifier
  pub finished_at : Moment
  pub receipt : Option InvocationReceipt
  pub output_json : Option ℕ
  pub failure_reason : Option ExecutionStop

pub record ReviewAttempt : Type 0 where
  pub invocation : Invocation
  pub completion : Option Completion

pub record FindingRecord : Type 0 where
  pub finding : Finding
  pub report_digest : Digest
  pub blocking : Bool
  pub occurrences : ℕ
  pub closed_by : Option Digest
  pub closed_artifact_digest : Option Digest

pub record ResolutionRecord : Type 0 where
  pub resolution : FindingResolution
  pub repair_invocation_id : Identifier
  pub artifact_digest : Digest
  pub producer : ModelIdentity

pub record FailureCount : Type 0 where
  pub reason : ReviewReason
  pub occurrences : ℕ

pub record BudgetState : Type 0 where
  pub invocations : ℕ
  pub repairs : ℕ
  pub tokens_spent : ℕ
  pub cost_microusd_spent : ℕ
  pub tokens_reserved : ℕ
  pub cost_microusd_reserved : ℕ

pub record ReviewState : Type 0 where
  pub artifact : ArtifactRef
  pub last_at : Moment
  pub budget : BudgetState
  pub pending : Option Invocation
  pub invocation_ids : List Identifier
  pub execution_ids : List Digest
  pub valid_completed_reports : List ReviewReport
  pub findings : List FindingRecord
  pub resolutions : List ResolutionRecord
  pub failures : List FailureCount
  pub terminal_reasons : List ReviewReason

abbrev pub is_open : FindingRecord → Bool
is_open item = elim item.closed_by [ none ↦ true | some _ ↦ false ]

abbrev pub open_findings : ReviewState → List FindingRecord
open_findings s = keep is_open s.findings

pub record ReviewSession : Type 0 where
  pub seed : ReviewSeed
  pub attempts : List ReviewAttempt
  pub state : ReviewState

pub data DecisionStatus : Type 0 where
  eligible needs_review needs_repair blocked escalate : DecisionStatus

pub record ReviewDecision : Type 0 where
  pub status : DecisionStatus
  pub reasons : List ReviewReason
  pub session_digest : Digest
  pub artifact_digest : Digest
  pub completed_reviews : ℕ

-- Equality of the ledger's parts.
unfoldable pub InvocationKind-discrete : Discrete InvocationKind
InvocationKind-discrete = hlevel

unfoldable pub ExecutionStop-discrete : Discrete ExecutionStop
ExecutionStop-discrete = hlevel

unfoldable pub ReviewReason-discrete : Discrete ReviewReason
ReviewReason-discrete = hlevel

unfoldable pub ReviewSeed-discrete : Discrete ReviewSeed
ReviewSeed-discrete = hlevel (
  ℕ_discrete, ReviewScope-discrete, QualityContract-discrete, ReviewPolicy-discrete,
  ModelIdentity-discrete, ArtifactRef-discrete,
)

unfoldable pub Invocation-discrete : Discrete Invocation
Invocation-discrete = hlevel (
  ℕ_discrete, InvocationKind-discrete, ReviewBinding-discrete, ModelIdentity-discrete,
  Reservation-discrete,
)

unfoldable pub InvocationReceipt-discrete : Discrete InvocationReceipt
InvocationReceipt-discrete =
    hlevel (ℕ_discrete, ReviewBinding-discrete, ModelIdentity-discrete, Usage-discrete)

unfoldable pub Completion-discrete : Discrete Completion
Completion-discrete = hlevel (ℕ_discrete, InvocationReceipt-discrete, ExecutionStop-discrete)

unfoldable pub ReviewAttempt-discrete : Discrete ReviewAttempt
ReviewAttempt-discrete = hlevel (Invocation-discrete, Completion-discrete)

unfoldable pub FindingRecord-discrete : Discrete FindingRecord
FindingRecord-discrete = hlevel (ℕ_discrete, Finding-discrete)

unfoldable pub ResolutionRecord-discrete : Discrete ResolutionRecord
ResolutionRecord-discrete = hlevel (ℕ_discrete, FindingResolution-discrete, ModelIdentity-discrete)

unfoldable pub FailureCount-discrete : Discrete FailureCount
FailureCount-discrete = hlevel (ℕ_discrete, ReviewReason-discrete)

unfoldable pub BudgetState-discrete : Discrete BudgetState
BudgetState-discrete = hlevel ℕ_discrete

unfoldable pub ReviewState-discrete : Discrete ReviewState
ReviewState-discrete = hlevel (
  ℕ_discrete, ArtifactRef-discrete, BudgetState-discrete, Invocation-discrete,
  ReviewReport-discrete, FindingRecord-discrete, ResolutionRecord-discrete, FailureCount-discrete,
  ReviewReason-discrete,
)

unfoldable pub ReviewSession-discrete : Discrete ReviewSession
ReviewSession-discrete = hlevel (ReviewSeed-discrete, ReviewAttempt-discrete, ReviewState-discrete)

instance abbrev pub seed_eq : Eq ReviewSeed
seed_eq = eq_of_discrete ReviewSeed-discrete

instance abbrev pub invocation_eq : Eq Invocation
invocation_eq = eq_of_discrete Invocation-discrete

instance abbrev pub receipt_eq : Eq InvocationReceipt
receipt_eq = eq_of_discrete InvocationReceipt-discrete

instance abbrev pub stop_eq : Eq ExecutionStop
stop_eq = eq_of_discrete ExecutionStop-discrete

instance abbrev pub attempt_eq : Eq ReviewAttempt
attempt_eq = eq_of_discrete ReviewAttempt-discrete

instance abbrev pub state_eq : Eq ReviewState
state_eq = eq_of_discrete ReviewState-discrete

instance abbrev pub session_eq : Eq ReviewSession
session_eq = eq_of_discrete ReviewSession-discrete
