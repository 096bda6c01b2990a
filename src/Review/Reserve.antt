-- ===== src/Review/Reserve.antt =====
-- What `reserve` of policy/review_reducer.py admits: every ceiling it checks before a call.
use nokinc_factory.Prelude.{
  ◌≡◌, ◌≤◌, ◌<◌, ◌+◌, ◌-◌, ◌*◌, true, false, none, nonempty, contains, ok, arith, nat_eq,
}
use nokinc_factory.Review.Artifact.{binding_eq}
use nokinc_factory.Review.Session.{ReviewSeed, ReviewState, Invocation}
use nokinc_factory.Review.Digests.{Digests}
use nokinc_factory.Review.Rules.{within_window, binding_of, eligibility_reasons}
use nokinc_factory.Review.Reducer.{reserve, reserve_kind, reserved}

module _ (d : Digests) where
  pub record Admits (seed : ReviewSeed) (state : ReviewState) (call : Invocation) : Type 0 where
    pub active : nonempty state.terminal_reasons ≡ false
    pub unfinished : nonempty (eligibility_reasons d seed state) ≡ true
    pub idle : state.pending ≡ none
    pub fresh : contains state.invocation_ids call.invocation_id ≡ false
    pub bound : call.binding ≡ binding_of d state.artifact
    pub timely : within_window seed state call.started_at ≡ true
    pub time_left :
        call.reservation.seconds * 1000000 + (call.started_at - seed.started_at)
        ≤ seed.policy.max_elapsed_seconds * 1000000
    pub calls_left : state.budget.invocations < seed.policy.max_invocations
    pub tokens_left : state.budget.tokens_spent + call.reservation.tokens ≤ seed.policy.max_tokens
    pub cost_left :
        state.budget.cost_microusd_spent + call.reservation.cost_microusd
        ≤ seed.policy.max_cost_microusd
    pub kind_allowed : reserve_kind d seed state call ≡ ok tt

  -- When `reserve` returns a state, that state only takes the call into the ledger and holds its
  -- budget, and every ceiling was respected: the unit was active, unfinished and idle, the call
  -- new, bound to the artifact, in time, within the call, token and cost limits, and allowed for
  -- its kind.
  pub reserve-Admits :
      (seed : ReviewSeed) (state : ReviewState) (call : Invocation) (next : ReviewState)
      → reserve d seed state call ≡ ok next
      → (next ≡ reserved d state call) × Admits seed state call
  unfolding reserve
  reserve-Admits seed state call next h = ground arith

  pub Admits-reserve :
      (seed : ReviewSeed) (state : ReviewState) (call : Invocation)
      → Admits seed state call
      → reserve d seed state call ≡ ok (reserved d state call)
  unfolding reserve
  Admits-reserve seed state call h = ground arith
