-- ===== src/Review/Policy.antt =====
-- The session operations of policy/review.py: start, reserve, complete, evaluate. Each of them first
-- replays the attempt ledger and refuses a session whose state is not the replayed one.
use nokinc_factory.Prelude.{
  ℕ, Bool, true, not, ◌&&◌, ◌||◌, List, [], ◌∷◌, ◌++◌, Option, none, some, nonempty, all, any,
  contains, dedup, first?, init, ltb, length, if◌then◌else◌, ◌==◌, nat_eq, option_eq, ok, err,
  ◌>>=◌, ◌>>◌, require,
}
use nokinc_factory.Review.Artifact.{
  Identifier, Moment, ReviewScope, QualityContract, ReviewPolicy, ModelIdentity, ArtifactRef,
  Reservation, artifact_eq,
}
use nokinc_factory.Review.Reason.{ReviewReason, reason_eq}
use nokinc_factory.Review.Session.{
  ReviewSeed, ReviewState, ReviewSession, ReviewAttempt, Invocation, InvocationKind,
  InvocationReceipt, ExecutionStop, Completion, ReviewDecision, DecisionStatus, receipt_eq, stop_eq,
  state_eq,
}
use nokinc_factory.Review.Digests.{Digests}
use nokinc_factory.Review.Validators.{seed_valid, invocation_valid, model_valid, artifact_valid}
use nokinc_factory.Review.Rules.{
  Checked, invalid, within_window, binding_of, needs_repair, eligibility_reasons,
}
use nokinc_factory.Review.Reducer.{initial_state, reserve, complete}

unfoldable pub receipt_valid : Option InvocationReceipt → Bool
unfolding model_valid
receipt_valid none = true
receipt_valid (some proof) = model_valid proof.actual_model

unfoldable pub attempt_valid : ReviewAttempt → Bool
unfolding receipt_valid invocation_valid
attempt_valid a =
    invocation_valid a.invocation
    && (elim a.completion [ none ↦ true | some c ↦ receipt_valid c.receipt ])

-- `ReviewSession.model_validate`. The state's own parts are not listed: the state must equal the
-- replayed one, whose parts were validated when they were made.
unfoldable pub session_valid : ReviewSession → Bool
unfolding seed_valid attempt_valid
session_valid s = seed_valid s.seed && all attempt_valid s.attempts

abbrev pub is_for : Identifier → ReviewAttempt → Bool
is_for invocation_id a = a.invocation.invocation_id == invocation_id

-- The same receipt, output and stop: a delivery that was made before.
abbrev pub same_delivery : Completion → Completion → Bool
same_delivery c new =
    c.receipt == new.receipt
    && c.output_json == new.output_json
    && c.failure_reason == new.failure_reason

module _ (d : Digests) where
  -- `if attempt.completion is not None: expected = complete(...)`.
  unfoldable pub apply_completion :
      ReviewSeed → ReviewState → Option Completion → Checked ReviewState
  apply_completion seed state none = ok state
  apply_completion seed state (some completion) = complete d seed state completion

  unfoldable pub replay_attempt : ReviewSeed → ReviewState → ReviewAttempt → Checked ReviewState
  unfolding apply_completion
  replay_attempt seed state attempt = do
    reserved ← reserve d seed state attempt.invocation
    apply_completion seed reserved attempt.completion

  unfoldable pub replay : ReviewSeed → ReviewState → List ReviewAttempt → Checked ReviewState
  replay seed state [] = ok state
  replay seed state (a ∷ as') = do next ← replay_attempt seed state a; replay seed next as'

  unfoldable pub validate_session : ReviewSession → Checked ReviewSession
  unfolding session_valid
  validate_session session = do
    require (session_valid session) invalid
    first ← initial_state d session.seed
    expected ← replay session.seed first session.attempts
    require (expected == session.state) invalid
    ok session

  unfoldable pub start_session :
      ReviewScope
      → QualityContract
      → ReviewPolicy
      → ModelIdentity
      → List ModelIdentity
      → ArtifactRef
      → Moment
      → Checked ReviewSession
  unfolding seed_valid
  start_session scope contract policy original_doer reviewers artifact now = do
    let seed : ReviewSeed = record {
      scope = scope;
      contract = contract;
      policy = policy;
      original_doer = original_doer;
      reviewers = reviewers;
      initial_artifact = artifact;
      started_at = now;
    }
    require (seed_valid seed) invalid
    state ← initial_state d seed
    ok (record { seed = seed; attempts = []; state = state })

  abbrev pub invocation_of :
      ReviewSession
      → Identifier
      → InvocationKind
      → ModelIdentity
      → Reservation
      → Moment
      → Invocation
  invocation_of session invocation_id kind actor reservation now = record {
    invocation_id = invocation_id;
    kind = kind;
    binding = binding_of d session.state.artifact;
    actor = actor;
    reservation = reservation;
    started_at = now;
  }

  unfoldable pub reserve_invocation :
      ReviewSession
      → Identifier
      → InvocationKind
      → ModelIdentity
      → Reservation
      → Moment
      → Checked ReviewSession
  unfolding invocation_valid
  reserve_invocation given invocation_id kind actor reservation now = do
    session ← validate_session given
    let invocation = invocation_of session invocation_id kind actor reservation now
    require (invocation_valid invocation) invalid
    state ← reserve d session.seed session.state invocation
    ok (record {
      seed = session.seed;
      attempts = session.attempts ++ record { invocation = invocation; completion = none } ∷ [];
      state = state;
    })

  -- A delivery for `previous`, which is not completed yet.
  unfoldable pub deliver : ReviewSession → ReviewAttempt → Completion → Checked ReviewSession
  deliver session previous completion = do
    state ← complete d session.seed session.state completion
    ok (record {
      seed = session.seed;
      attempts =
          init session.attempts
          ++ record { invocation = previous.invocation; completion = some completion } ∷ [];
      state = state;
    })

  -- What a delivery does, by whether the attempt that it names was completed before.
  unfoldable pub redeliver :
      ReviewSession → ReviewAttempt → Completion → Option Completion → Checked ReviewSession
  unfolding deliver
  redeliver session previous new (some c) = if same_delivery c new then ok session else err invalid
  redeliver session previous new none = deliver session previous new

  unfoldable pub answer : ReviewSession → Completion → Option ReviewAttempt → Checked ReviewSession
  unfolding redeliver
  answer session new none = err invalid
  answer session new (some previous) = redeliver session previous new previous.completion

  -- `output_json` is the text that was delivered, or the JSON of the report that was.
  unfoldable pub complete_invocation :
      ReviewSession
      → Identifier
      → Option InvocationReceipt
      → Option ℕ
      → Moment
      → Option ExecutionStop
      → Checked ReviewSession
  unfolding receipt_valid answer
  complete_invocation given invocation_id receipt output_json now failure_reason = do
    session ← validate_session given
    require (receipt_valid receipt) invalid
    answer session
        (record {
          invocation_id = invocation_id;
          finished_at = now;
          receipt = receipt;
          output_json = output_json;
          failure_reason = failure_reason;
        })
        (first? (is_for invocation_id) session.attempts)

  -- The reasons against a session, the artifact that is observed now and the time.
  unfoldable pub decision_reasons : ReviewSession → ArtifactRef → Moment → List ReviewReason
  decision_reasons session current now =
      eligibility_reasons d session.seed session.state
      ++ ((if current == session.state.artifact then [] else ReviewReason.artifact_drift ∷ [])
          ++ (if within_window session.seed session.state now
              then []
              else ReviewReason.time_window ∷ []))

  unfoldable pub decision_status : ReviewSession → List ReviewReason → DecisionStatus
  decision_status session reasons =
      if not (nonempty reasons)
      then DecisionStatus.eligible
      else if any (contains reasons) (
          ReviewReason.critical ∷ ReviewReason.contract_gap ∷ ReviewReason.review_escalated
          ∷ ReviewReason.repeated_failure ∷ [])
      then DecisionStatus.escalate
      else if nonempty session.state.terminal_reasons
          || any (contains reasons) (ReviewReason.artifact_drift ∷ ReviewReason.time_window ∷ [])
      then DecisionStatus.blocked
      else if needs_repair d session.state
          && ltb session.state.budget.repairs session.seed.policy.max_implementation_repairs
      then DecisionStatus.needs_repair
      else DecisionStatus.needs_review

  -- The decision on a session that was validated.
  unfoldable pub decision_of : ReviewSession → ArtifactRef → Moment → ReviewDecision
  unfolding decision_reasons decision_status dedup
  decision_of session current now =
      let reasons = decision_reasons session current now in
      record {
        status = decision_status session reasons;
        reasons = dedup reasons;
        session_digest = d.session session;
        artifact_digest = d.artifact session.state.artifact;
        completed_reviews = length session.state.valid_completed_reports;
      }

  unfoldable pub evaluate : ReviewSession → ArtifactRef → Moment → Checked ReviewDecision
  unfolding artifact_valid
  evaluate given current now = do
    session ← validate_session given
    require (artifact_valid current) invalid
    ok (decision_of session current now)
