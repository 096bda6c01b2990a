-- ===== src/Review/Accounts.antt =====
-- How a unit counts its calls: the counters of policy/review_reducer.py against the attempts of
-- policy/review.py, described without running either.
use nokinc_factory.Prelude.{
  ◌≡◌, sym, ◌+◌, ℕ, List, [], ◌∷◌, ◌++◌, Option, none, some, length, map, nat_eq, ok, arith,
  Option-cases, inl, inr, >>=-eq-ok, >>-eq-ok, subst, ok_injective,
}
use mathlib.Core.List.{append_assoc, append-nil}
use nokinc_factory.Review.Artifact.{Identifier, Reservation, model_eq, binding_eq}
use nokinc_factory.Review.Session.{
  ReviewSeed, ReviewState, ReviewSession, ReviewAttempt, Invocation, Completion,
}
use nokinc_factory.Review.Digests.{Digests}
use nokinc_factory.Review.Rules.{validate_seed}
use nokinc_factory.Review.Reducer.{
  bit, is_repair, no_budget, reserve, reserved, account, initial_state,
}
use nokinc_factory.Review.Reserve.{reserve-Admits}
use nokinc_factory.Review.Settlement.{complete_pending-Settles}
use nokinc_factory.Review.Budget.{
  IsBounded, Phase, complete-eq-ok, replay_attempt-IsBounded, initial_state-IsBounded,
}
use nokinc_factory.Review.Policy.{apply_completion, replay_attempt, replay, validate_session}
use nokinc_factory.Review.Ledger.{validate_session-IsReplayed}

abbrev id_of : ReviewAttempt → Identifier
id_of a = a.invocation.invocation_id

abbrev pub repairs_in : List ReviewAttempt → ℕ
repairs_in [] = 0
repairs_in (a ∷ rest) = bit (is_repair a.invocation.kind) + repairs_in rest

-- What the attempts without a completion hold.
abbrev held_by : (Reservation → ℕ) → ReviewAttempt → ℕ
held_by hold a = elim a.completion [ none ↦ hold a.invocation.reservation | some c ↦ 0 ]

abbrev pub held_in : (Reservation → ℕ) → List ReviewAttempt → ℕ
held_in hold [] = 0
held_in hold (a ∷ rest) = held_by hold a + held_in hold rest

-- The calls made, the repairs among them, and the call ids in order.
pub record IsCounted (attempts : List ReviewAttempt) (state : ReviewState) : Type 0 where
  pub calls : state.budget.invocations ≡ length attempts
  pub repairs : state.budget.repairs ≡ repairs_in attempts
  pub ids : state.invocation_ids ≡ map id_of attempts
  pub tokens_held : state.budget.tokens_reserved ≡ held_in (λ r. r.tokens) attempts
  pub cost_held : state.budget.cost_microusd_reserved ≡ held_in (λ r. r.cost_microusd) attempts

module _ (d : Digests) where
  -- The ledger fields after an attempt.
  abbrev pub settled : ReviewState → Invocation → Option Completion → ReviewState
  settled state call none = reserved d state call
  settled state call (some c) = (account d (reserved d state call) call c).0

  module _ (seed : ReviewSeed) where
    -- A replayed attempt found no call pending, and leaves the ledger fields as they were settled.
    pub replay_attempt-settled :
        (state : ReviewState) (a : ReviewAttempt) (next : ReviewState)
        → replay_attempt d seed state a ≡ ok next
        → let s = settled state a.invocation a.completion in
          (state.pending ≡ none)
          × (next.budget ≡ s.budget)
          × (next.invocation_ids ≡ s.invocation_ids)
          × (next.execution_ids ≡ s.execution_ids)
    unfolding replay_attempt apply_completion
    replay_attempt-settled state a next h =
        let (taken, r, h1) = >>=-eq-ok (reserve d seed state a.invocation) _ h in
        let (is, admits) = reserve-Admits d seed state a.invocation taken r in
        elim (Option-cases a.completion) [
          | inl e ↦ ground arith
          | inr (c, e) ↦
              let (call, pending, _, next_is) = complete-eq-ok d seed taken c next (ground arith) in
              let (kept, _) = complete_pending-Settles d seed taken call c in ground arith
        ]

    -- An attempt takes one call into the counters, and no call was held before it.
    attempt_counts :
        (state : ReviewState) (a : ReviewAttempt) (next : ReviewState)
        → replay_attempt d seed state a ≡ ok next
        → IsBounded seed state
        → (next.budget.invocations ≡ state.budget.invocations + 1)
          × (next.budget.repairs ≡ state.budget.repairs + bit (is_repair a.invocation.kind))
          × (next.invocation_ids ≡ state.invocation_ids ++ id_of a ∷ [])
          × (state.budget.tokens_reserved ≡ 0)
          × (state.budget.cost_microusd_reserved ≡ 0)
          × (next.budget.tokens_reserved ≡ held_by (λ r. r.tokens) a)
          × (next.budget.cost_microusd_reserved ≡ held_by (λ r. r.cost_microusd) a)
    unfolding account
    attempt_counts state a next h b =
        let (idle, budget, ids, _) = replay_attempt-settled state a next h in
        let rests = subst (Phase seed state) idle b.phase in
        elim (Option-cases a.completion) [ inl e ↦ ground arith | inr (c, e) ↦ ground arith ]

    replay-counts :
        (state : ReviewState) (attempts : List ReviewAttempt) (next : ReviewState)
        → replay d seed state attempts ≡ ok next
        → IsBounded seed state
        → (next.budget.invocations ≡ state.budget.invocations + length attempts)
          × (next.budget.repairs ≡ state.budget.repairs + repairs_in attempts)
          × (next.invocation_ids ≡ state.invocation_ids ++ map id_of attempts)
          × (next.budget.tokens_reserved
              ≡ state.budget.tokens_reserved + held_in (λ r. r.tokens) attempts)
          × (next.budget.cost_microusd_reserved
              ≡ state.budget.cost_microusd_reserved + held_in (λ r. r.cost_microusd) attempts)
    unfolding replay
    replay-counts state [] next h b =
        let same = ok_injective h in
        let end = append-nil {0} state.invocation_ids in
        (ground arith, ground arith, cc, ground arith, ground arith)
    replay-counts state (a ∷ rest) next h b =
        let (mid, first, h1) = >>=-eq-ok (replay_attempt d seed state a) _ h in
        let (c1, c2, c3, c4, c5, c6, c7) = attempt_counts state a mid first b in
        let (r1, r2, r3, r4, r5) =
          replay-counts mid rest next h1 (replay_attempt-IsBounded d seed state a mid first b) in
        let split = append_assoc {0} state.invocation_ids (id_of a ∷ []) (map id_of rest) in
        (omega arith, omega arith, cc, omega arith, omega arith)

    pub starts_empty :
        (first : ReviewState)
        → initial_state d seed ≡ ok first
        → (first.budget ≡ no_budget) × (first.invocation_ids ≡ []) × (first.execution_ids ≡ [])
    unfolding initial_state
    starts_empty first h =
        let (_, h1) = >>-eq-ok (validate_seed d seed) _ h in
        let is = ok_injective h1 in (ground arith, ground arith, ground arith)

  -- When `validate_session` returns a session, its budget counts its ledger: as many calls as
  -- attempts, as many repairs as attempts of that kind, the call ids of the attempts in order, and
  -- held are the tokens and the cost that the attempts without a completion reserved.
  pub validate_session-IsCounted :
      (given session : ReviewSession)
      → validate_session d given ≡ ok session
      → IsCounted session.attempts session.state
  validate_session-IsCounted given session h =
      let (same, r) = validate_session-IsReplayed d given h in
      let (budget, ids, _) = starts_empty given.seed r.first r.first_is in
      let (calls, repairs, listed, tokens, cost) =
        replay-counts given.seed r.first given.attempts given.state r.replayed
          (initial_state-IsBounded d given.seed r.first r.first_is) in
      subst (λ (s : ReviewSession). IsCounted s.attempts s.state) (sym same)
        (record {
          calls = ground arith;
          repairs = ground arith;
          ids = ground arith;
          tokens_held = ground arith;
          cost_held = ground arith;
        })
