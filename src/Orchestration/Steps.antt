-- ===== src/Orchestration/Steps.antt =====
-- The coordinator of application/review.py.
use nokinc_factory.Prelude.{
  ℕ, zero, suc, ◌+◌, ◌*◌, ◌-◌, Bool, true, false, not, ◌&&◌, ◌||◌, List, [], ◌∷◌, Option, none,
  some, leb, ltb, ◌==◌, nat_eq, if◌then◌else◌,
}
use nokinc_factory.Review.Artifact.{
  Identifier, Moment, ReviewScope, Reservation, ModelIdentity, ArtifactRef, scope_eq, artifact_eq,
}
use nokinc_factory.Review.Session.{
  ExecutionStop, Invocation, InvocationKind, InvocationReceipt, DecisionStatus, ReviewDecision,
  ReviewSession, open_findings, session_eq,
}
use nokinc_factory.Review.Digests.{Digests}
use nokinc_factory.Review.Policy.{
  complete_invocation, evaluate, reserve_invocation, validate_session,
}
use nokinc_factory.Orchestration.Programs.{
  Call, Program, returns, raised, ◌>>=◌, ask, checked, given, ExecutionRequest,
}
use nokinc_factory.Orchestration.Returns.{normalize_result}

pub data RunStatus : Type 0 where
  finished advanced awaiting_settlement contended paused : RunStatus

pub record OrchestrationResult : Type 0 where
  pub status : RunStatus
  pub decision : ReviewDecision

-- What the constructor is given beside the calls.
pub record ReviewOrchestrator : Type 0 where
  pub scope : ReviewScope
  pub parent : Identifier
  pub reservation : Reservation

abbrev pub result_of : RunStatus → ReviewDecision → OrchestrationResult
result_of status decision = record { status = status; decision = decision }

-- Whether a decision is one of ELIGIBLE, BLOCKED and ESCALATE.
abbrev pub is_final : DecisionStatus → Bool
is_final DecisionStatus.eligible = true
is_final DecisionStatus.blocked = true
is_final DecisionStatus.escalate = true
is_final DecisionStatus.needs_repair = false
is_final DecisionStatus.needs_review = false

abbrev pub is_repair : DecisionStatus → Bool
is_repair DecisionStatus.needs_repair = true
is_repair _ = false

abbrev pub head? : List ModelIdentity → Option ModelIdentity
head? [] = none
head? (x ∷ xs) = some x

abbrev pub kind_of : Bool → InvocationKind
kind_of true = InvocationKind.repair
kind_of false = InvocationKind.review

-- The reviewers of a seed are not empty; an index out of range would raise.
abbrev pub actor_of : ReviewSession → Bool → Option ModelIdentity
actor_of current true = some current.seed.original_doer
actor_of current false = head? current.seed.reviewers

-- Whether the time is outside the call's window or the unit's.
unfoldable pub outside_window : ReviewSession → Invocation → Moment → Bool
outside_window pending invocation now =
    not (
      leb invocation.started_at now
      && ltb now (invocation.started_at + invocation.reservation.seconds * 1000000))
    || leb (pending.seed.started_at + pending.seed.policy.max_elapsed_seconds * 1000000) now

-- The end of `_dispatch_stop`.
unfoldable pub stop_at : ReviewSession → Invocation → ArtifactRef → Moment → Option ExecutionStop
unfolding outside_window
stop_at pending invocation observed now =
    if not (observed == pending.state.artifact)
    then some ExecutionStop.artifact_drift
    else if outside_window pending invocation now
    then some ExecutionStop.time_window
    else none

module _ (d : Digests) (utf8_length : ℕ → Option ℕ) (o : ReviewOrchestrator) where
  unfoldable pub current : Program ReviewSession
  current = do
    loaded ← ask (Call.load_current o.scope)
    stored ← given loaded
    session ← checked (validate_session d stored)
    if session.seed.scope == o.scope then returns session else raised

  unfoldable pub decision : ReviewSession → Program ReviewDecision
  decision session = do
    observed ← ask (Call.observe o.scope session.state.artifact.artifact_key)
    now ← ask Call.clock
    checked (evaluate d session observed now)

  -- `_dispatch_stop` after the authorization was asked for.
  unfoldable pub stop_after : ReviewSession → Invocation → Bool → Program (Option ExecutionStop)
  unfolding stop_at
  stop_after pending invocation false = returns (some ExecutionStop.authorization_revoked)
  stop_after pending invocation true = do
    observed ← ask (Call.observe o.scope pending.state.artifact.artifact_key)
    now ← ask Call.clock
    returns (stop_at pending invocation observed now)

  unfoldable pub dispatch_stop : ReviewSession → Invocation → Program (Option ExecutionStop)
  unfolding stop_after
  dispatch_stop pending invocation = do
    allowed ← ask (Call.authorize invocation)
    stop_after pending invocation allowed

  -- `_settle` with the session that is stored after it.
  unfoldable pub settled : ReviewSession → ReviewSession → Bool → Program OrchestrationResult
  unfolding decision
  settled complete actual accepted = do
    decided ← decision actual
    returns (
        result_of
          (if not accepted && not (actual == complete)
            then RunStatus.contended
            else if is_final decided.status
            then RunStatus.finished
            else RunStatus.advanced)
          decided)

  unfoldable pub settle :
      ReviewSession
      → Invocation
      → Option InvocationReceipt
      → Option ℕ
      → Option ExecutionStop
      → Program OrchestrationResult
  unfolding current settled
  settle pending invocation receipt output stop = do
    now ← ask Call.clock
    complete ←
        checked (complete_invocation d pending invocation.invocation_id receipt output now stop)
    accepted ← ask (Call.compare_and_reserve o.scope (some (d.session pending)) complete o.parent)
    actual ← current
    settled complete actual accepted

  abbrev pub request_of : ReviewSession → Invocation → ExecutionRequest
  request_of pending invocation = record {
    invocation = invocation;
    contract = pending.seed.contract;
    artifact = pending.state.artifact;
    findings = open_findings pending.state;
    resolutions = pending.state.resolutions;
  }

  -- The execution, unless something stops it.
  unfoldable pub execute :
      ReviewSession → Invocation → Option ExecutionStop → Program OrchestrationResult
  unfolding settle normalize_result
  execute pending invocation (some stop) = settle pending invocation none none (some stop)
  execute pending invocation none = do
    returned ← ask (Call.execute (request_of pending invocation))
    let normal = normalize_result utf8_length returned
    settle pending invocation normal.receipt normal.output normal.stop

  -- A step after the store answered.
  unfoldable pub dispatch : ReviewSession → Invocation → Bool → Program OrchestrationResult
  unfolding current decision dispatch_stop execute
  dispatch pending invocation false = do
    actual ← current
    decided ← decision actual
    returns (result_of RunStatus.contended decided)
  dispatch pending invocation true = do
    stop ← dispatch_stop pending invocation
    execute pending invocation stop

  -- A step after the authorization was asked for.
  unfoldable pub commit :
      ReviewSession → ReviewSession → Invocation → Bool → Program OrchestrationResult
  unfolding dispatch
  commit session pending invocation false = raised
  commit session pending invocation true = do
    won ← ask (Call.compare_and_reserve o.scope (some (d.session session)) pending o.parent)
    dispatch pending invocation won

  unfoldable pub reserve : ReviewSession → Bool → Program OrchestrationResult
  unfolding commit
  reserve session repair = do
    actor ← given (actor_of session repair)
    id ← ask Call.new_invocation_id
    now ← ask Call.clock
    pending ← checked (reserve_invocation d session id (kind_of repair) actor o.reservation now)
    invocation ← given pending.state.pending
    allowed ← ask (Call.authorize invocation)
    commit session pending invocation allowed

  -- A step after its decision, by the pending call of the session.
  unfoldable pub proceed :
      ReviewSession → ReviewDecision → Option Invocation → Program OrchestrationResult
  unfolding reserve
  proceed session decided (some pending) = returns (result_of RunStatus.awaiting_settlement decided)
  proceed session decided none =
      if is_final decided.status
      then returns (result_of RunStatus.finished decided)
      else reserve session (is_repair decided.status)

  unfoldable pub step : Program OrchestrationResult
  unfolding current decision proceed
  step = do
    session ← current
    decided ← decision session
    proceed session decided session.state.pending

  -- The loop of `run` after a step, with the steps that are left.
  unfoldable pub continue_run : ℕ → OrchestrationResult → RunStatus → Program OrchestrationResult
  unfolding step
  continue_run zero result RunStatus.advanced = returns (result_of RunStatus.paused result.decision)
  continue_run (suc n) result RunStatus.advanced = do next ← step; continue_run n next next.status
  continue_run n result RunStatus.finished = returns result
  continue_run n result RunStatus.awaiting_settlement = returns result
  continue_run n result RunStatus.contended = returns result
  continue_run n result RunStatus.paused = returns result

  unfoldable pub run : ℕ → Program OrchestrationResult
  unfolding step continue_run
  run max_steps =
      if leb 1 max_steps && leb max_steps 64
      then (do first ← step; continue_run (max_steps - 1) first first.status)
      else raised
