-- ===== src/Review/Persistence.antt =====
-- The check of one durable extension of a session, policy/review_persistence.py.
use nokinc_factory.Prelude.{
  ◌+◌, Bool, false, not, ◌&&◌, Option, none, some, nonempty, init, last?, length, if◌then◌else◌,
  ◌==◌, nat_eq, list_eq, Eq, eq_of_discrete, ok, err, ◌>>=◌, ◌>>◌, require,
}
use nokinc_factory.Review.Session.{
  ReviewSession, ReviewAttempt, Completion, seed_eq, session_eq, attempt_eq, invocation_eq,
}
use nokinc_factory.Review.Digests.{Digests}
use nokinc_factory.Review.Rules.{Checked, invalid, is_some}
use nokinc_factory.Review.Policy.{validate_session, reserve_invocation, complete_invocation}

pub data TransitionKind : Type 0 where
  create reserve complete unchanged : TransitionKind

unfoldable pub TransitionKind-discrete : Discrete TransitionKind
TransitionKind-discrete = hlevel

instance abbrev pub transition_eq : Eq TransitionKind
transition_eq = eq_of_discrete TransitionKind-discrete

-- What the last attempt of a session must be for the proposal to extend it by a settlement.
abbrev pub same_call : Option ReviewAttempt → Option ReviewAttempt → Bool
same_call (some a) (some b) = a.invocation == b.invocation
same_call none b = false
same_call (some a) none = false

abbrev pub last_completion : Option ReviewAttempt → Option Completion
last_completion none = none
last_completion (some a) = a.completion

module _ (d : Digests) where
  -- The proposal adds one attempt: it must be the reservation that the policy would make.
  unfoldable pub extend_reserve :
      ReviewSession → ReviewSession → Option ReviewAttempt → Checked TransitionKind
  extend_reserve current proposed none = err invalid
  extend_reserve current proposed (some attempt) = do
    require (not (is_some attempt.completion)) invalid
    expected ←
        reserve_invocation d current attempt.invocation.invocation_id attempt.invocation.kind
          attempt.invocation.actor attempt.invocation.reservation attempt.invocation.started_at
    require (expected == proposed) invalid
    ok TransitionKind.reserve

  -- The proposal settles the pending attempt.
  unfoldable pub extend_complete :
      ReviewSession → ReviewSession → Option Completion → Checked TransitionKind
  extend_complete current proposed none = err invalid
  extend_complete current proposed (some c) = do
    expected ←
        complete_invocation d current c.invocation_id c.receipt c.output_json c.finished_at
          c.failure_reason
    require (expected == proposed) invalid
    ok TransitionKind.complete

  abbrev pub adds_attempt : ReviewSession → ReviewSession → Bool
  adds_attempt current proposed =
      not (is_some current.state.pending)
      && length proposed.attempts == length current.attempts + 1
      && init proposed.attempts == current.attempts

  abbrev pub settles_attempt : ReviewSession → ReviewSession → Bool
  settles_attempt current proposed =
      is_some current.state.pending
      && length proposed.attempts == length current.attempts
      && init proposed.attempts == init current.attempts
      && same_call (last? proposed.attempts) (last? current.attempts)

  -- The branches of `validate_extension` for a stored session.
  unfoldable pub extend : ReviewSession → ReviewSession → Checked TransitionKind
  unfolding extend_reserve extend_complete
  extend current proposed =
      if current == proposed
      then ok TransitionKind.unchanged
      else if adds_attempt current proposed
      then extend_reserve current proposed (last? proposed.attempts)
      else if settles_attempt current proposed
      then extend_complete current proposed (last_completion (last? proposed.attempts))
      else err invalid

  unfoldable pub validate_extension : Option ReviewSession → ReviewSession → Checked TransitionKind
  unfolding extend
  validate_extension none given = do
    proposed ← validate_session d given
    require (not (nonempty proposed.attempts)) invalid
    ok TransitionKind.create
  validate_extension (some stored) given = do
    proposed ← validate_session d given
    current ← validate_session d stored
    require (current.seed == proposed.seed) invalid
    extend current proposed
