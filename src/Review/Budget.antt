-- ===== src/Review/Budget.antt =====
-- The ceilings of a unit hold of every state that a ledger replays to: policy/review_reducer.py over
-- the attempts of policy/review.py.
use nokinc_factory.Prelude.{
  ◌≡◌, refl, sym, ap, ◌∙◌, ◌≤◌, ◌<◌, ◌+◌, ◌⊎◌, inl, inr, dec_le, ℕ, true, false, List, [], ◌∷◌,
  ◌++◌, Option, none, some, nonempty, contains, is_distinct, length, ok, arith, nat_eq,
  length-append, contains-append, Bool-cases, Option-cases, >>=-eq-ok, >>-eq-ok, subst,
  ok_injective,
}
use nokinc_factory.Review.Report.{ReviewReport}
use nokinc_factory.Review.Session.{
  ReviewSeed, ReviewState, ReviewAttempt, Invocation, Completion, BudgetState,
}
use nokinc_factory.Review.Digests.{Digests}
use nokinc_factory.Review.Rules.{validate_seed}
use nokinc_factory.Review.Reducer.{
  reserve, reserve_kind, reserved, is_repair, account, complete_pending, complete, initial_state,
}
use nokinc_factory.Review.Reserve.{Admits, reserve-Admits}
use nokinc_factory.Review.Settlement.{complete_pending-Settles, overrun_stops, repair-reports}
use nokinc_factory.Review.Policy.{apply_completion, replay_attempt, replay}

-- What is held for the call in flight, if there is one.
pub record Holds (seed : ReviewSeed) (state : ReviewState) (call : Invocation) : Type 0 where
  pub active : nonempty state.terminal_reasons ≡ false
  pub tokens_held : state.budget.tokens_reserved ≡ call.reservation.tokens
  pub cost_held : state.budget.cost_microusd_reserved ≡ call.reservation.cost_microusd
  pub tokens_fit : state.budget.tokens_spent + call.reservation.tokens ≤ seed.policy.max_tokens
  pub cost_fits :
      state.budget.cost_microusd_spent + call.reservation.cost_microusd
      ≤ seed.policy.max_cost_microusd
  pub room :
      is_repair call.kind ≡ false
      → length state.valid_completed_reports < seed.policy.max_review_passes
  pub call_listed : contains state.invocation_ids call.invocation_id ≡ true

-- Between calls nothing is held, and what was spent fits unless the unit was stopped.
pub record Rests (seed : ReviewSeed) (state : ReviewState) : Type 0 where
  pub no_tokens_held : state.budget.tokens_reserved ≡ 0
  pub no_cost_held : state.budget.cost_microusd_reserved ≡ 0
  pub tokens_spent_fit :
      (state.budget.tokens_spent ≤ seed.policy.max_tokens)
      ⊎ (nonempty state.terminal_reasons ≡ true)
  pub cost_spent_fits :
      (state.budget.cost_microusd_spent ≤ seed.policy.max_cost_microusd)
      ⊎ (nonempty state.terminal_reasons ≡ true)

abbrev pub Phase : ReviewSeed → ReviewState → Option Invocation → Type 0
Phase seed state none = Rests seed state
Phase seed state (some call) = Holds seed state call

pub record IsBounded (seed : ReviewSeed) (state : ReviewState) : Type 0 where
  pub calls_capped : state.budget.invocations ≤ seed.policy.max_invocations
  pub repairs_capped : state.budget.repairs ≤ seed.policy.max_implementation_repairs
  pub repairs_are_calls : state.budget.repairs ≤ state.budget.invocations
  pub calls_listed : length state.invocation_ids ≡ state.budget.invocations
  pub calls_distinct : is_distinct state.invocation_ids ≡ true
  pub executions_distinct : is_distinct state.execution_ids ≡ true
  pub reviews_capped : length state.valid_completed_reports ≤ seed.policy.max_review_passes
  pub phase : Phase seed state state.pending

distinct-snoc :
    (xs : List ℕ) (x : ℕ)
    → is_distinct xs ≡ true
    → contains xs x ≡ false
    → is_distinct (xs ++ x ∷ []) ≡ true
distinct-snoc [] x h e = refl
distinct-snoc (y ∷ ys) x h e = ground (arith, distinct-snoc ys x, contains-append ys (x ∷ []) y)

contains-snoc : (xs : List ℕ) (x : ℕ) → contains (xs ++ x ∷ []) x ≡ true
contains-snoc xs x = ground (arith, contains-append xs (x ∷ []) x)

module _ (d : Digests) (seed : ReviewSeed) where
  kind_room :
      (state : ReviewState) (call : Invocation)
      → reserve_kind d seed state call ≡ ok tt
      → ((is_repair call.kind ≡ true)
          × (state.budget.repairs < seed.policy.max_implementation_repairs))
        ⊎ ((is_repair call.kind ≡ false)
            × (length state.valid_completed_reports < seed.policy.max_review_passes))
  unfolding reserve_kind
  kind_room state call h = elim (Bool-cases (is_repair call.kind)) [
    | inl k ↦ inl (k, ground arith)
    | inr k ↦ inr (k, ground arith)
  ]

  reserved-IsBounded :
      (state : ReviewState) (call : Invocation)
      → Admits d seed state call
      → IsBounded seed state
      → IsBounded seed (reserved d state call)
  reserved-IsBounded state call a b =
      let kind = kind_room state call a.kind_allowed in
      record {
        calls_capped = omega (arith, a.calls_left);
        repairs_capped = ground (arith, b.repairs_capped);
        repairs_are_calls = ground (arith, b.repairs_are_calls);
        calls_listed = omega (
          arith,
          length-append {0} state.invocation_ids (call.invocation_id ∷ []),
          b.calls_listed,
        );
        calls_distinct =
            distinct-snoc state.invocation_ids call.invocation_id b.calls_distinct a.fresh;
        executions_distinct = b.executions_distinct;
        reviews_capped = b.reviews_capped;
        phase = record {
          active = a.active;
          tokens_held = refl;
          cost_held = refl;
          tokens_fit = a.tokens_left;
          cost_fits = a.cost_left;
          room = λ e. ground arith;
          call_listed = contains-snoc state.invocation_ids call.invocation_id;
        };
      }

  account-executions :
      (state : ReviewState) (call : Invocation) (c : Completion)
      → is_distinct state.execution_ids ≡ true
      → is_distinct (account d state call c).0.execution_ids ≡ true
  unfolding account
  account-executions state call c h = elim (Option-cases c.receipt) [
    | inl e ↦ ground arith
    | inr (proof, e) ↦
        let key = d.execution proof.actual_model.provider proof.execution_id in
        ground (arith, distinct-snoc state.execution_ids key h)
  ]

  -- The rest of the accounted state, and the charge against the hold.
  pub account_facts :
      (state : ReviewState) (call : Invocation) (c : Completion)
      → let s = (account d state call c).0 in
        (s.pending ≡ none)
        × (s.invocation_ids ≡ state.invocation_ids)
        × (s.budget.invocations ≡ state.budget.invocations)
        × (s.budget.repairs ≡ state.budget.repairs)
        × (s.budget.tokens_reserved ≡ 0)
        × (s.budget.cost_microusd_reserved ≡ 0)
        × (s.valid_completed_reports ≡ state.valid_completed_reports)
  unfolding account
  account_facts state call c = (refl, refl, refl, refl, refl, refl, refl)

  complete_pending-Rests :
      (state : ReviewState) (call : Invocation) (c : Completion)
      → Holds seed state call
      → Rests seed (complete_pending d seed state call c)
  complete_pending-Rests state call c holds =
      let (kept, grown) = complete_pending-Settles d seed state call c in
      let facts = account_facts state call c in
      let over = overrun_stops d seed state call c in
      let tokens = ap (λ (b : BudgetState). b.tokens_spent) kept.budget in
      let cost = ap (λ (b : BudgetState). b.cost_microusd_spent) kept.budget in
      record {
        no_tokens_held = ap (λ (b : BudgetState). b.tokens_reserved) kept.budget ∙ facts.4;
        no_cost_held = ap (λ (b : BudgetState). b.cost_microusd_reserved) kept.budget ∙ facts.5;
        tokens_spent_fit =
            elim (dec_le (complete_pending d seed state call c).budget.tokens_spent
              seed.policy.max_tokens) [
                | yes fits ↦ inl fits
                | no exceeds ↦ inr (over (inl (omega (arith, tokens, holds.tokens_fit))))
              ];
        cost_spent_fits =
            elim (dec_le (complete_pending d seed state call c).budget.cost_microusd_spent
              seed.policy.max_cost_microusd) [
                | yes fits ↦ inl fits
                | no exceeds ↦ inr (over (inr (omega (arith, cost, holds.cost_fits))))
              ];
      }

  complete_pending-IsBounded :
      (state : ReviewState) (call : Invocation) (c : Completion)
      → Holds seed state call
      → IsBounded seed state
      → IsBounded seed (complete_pending d seed state call c)
  complete_pending-IsBounded state call c holds b =
      let next = complete_pending d seed state call c in
      let (kept, grown) = complete_pending-Settles d seed state call c in
      let facts = account_facts state call c in
      let calls = ap (λ (b' : BudgetState). b'.invocations) kept.budget ∙ facts.2 in
      let repairs = ap (λ (b' : BudgetState). b'.repairs) kept.budget ∙ facts.3 in
      let ids = kept.invocation_ids ∙ facts.1 in
      let reports = ap (length {A = ReviewReport}) facts.6 in
      record {
        calls_capped = omega (arith, calls, b.calls_capped);
        repairs_capped = omega (arith, repairs, b.repairs_capped);
        repairs_are_calls = omega (arith, calls, repairs, b.repairs_are_calls);
        calls_listed = ap (length {A = ℕ}) ids ∙ b.calls_listed ∙ sym calls;
        calls_distinct = rw ids b.calls_distinct;
        executions_distinct =
            rw kept.execution_ids (account-executions state call c b.executions_distinct);
        reviews_capped = elim (Bool-cases (is_repair call.kind)) [
          | inl k ↦ rw (repair-reports d seed state call c k) b.reviews_capped
          | inr k ↦ omega (arith, holds.room k, grown, reports)
        ];
        phase =
            subst (Phase seed next) (sym (kept.pending ∙ facts.0))
              (complete_pending-Rests state call c holds);
      }

  -- A completion settles the pending call and no other.
  pub complete-eq-ok :
      (state : ReviewState) (c : Completion) (next : ReviewState)
      → complete d seed state c ≡ ok next
      → (call : Invocation) × (state.pending ≡ some call)
        × (c.invocation_id ≡ call.invocation_id)
        × (next ≡ complete_pending d seed state call c)
  unfolding complete
  complete-eq-ok state c next h = elim (Option-cases state.pending) [
    | inl e ↦ absurd (ground arith)
    | inr (call, e) ↦ (call, e, ground arith, ground arith)
  ]

  reserve-IsBounded :
      (state : ReviewState) (call : Invocation) (next : ReviewState)
      → reserve d seed state call ≡ ok next
      → IsBounded seed state
      → IsBounded seed next
  reserve-IsBounded state call next h b =
      let (e, a) = reserve-Admits d seed state call next h in
      rw e (reserved-IsBounded state call a b)

  complete-IsBounded :
      (state : ReviewState) (c : Completion) (next : ReviewState)
      → complete d seed state c ≡ ok next
      → IsBounded seed state
      → IsBounded seed next
  complete-IsBounded state c next h b =
      let (call, pending, _, e) = complete-eq-ok state c next h in
      rw e (complete_pending-IsBounded state call c (subst (Phase seed state) pending b.phase) b)

  apply_completion-IsBounded :
      (state : ReviewState) (c : Option Completion) (next : ReviewState)
      → apply_completion d seed state c ≡ ok next
      → IsBounded seed state
      → IsBounded seed next
  unfolding apply_completion
  apply_completion-IsBounded state none next h b = subst (IsBounded seed) (ok_injective h) b
  apply_completion-IsBounded state (some c) next h b = complete-IsBounded state c next h b

  pub replay_attempt-IsBounded :
      (state : ReviewState) (attempt : ReviewAttempt) (next : ReviewState)
      → replay_attempt d seed state attempt ≡ ok next
      → IsBounded seed state
      → IsBounded seed next
  unfolding replay_attempt
  replay_attempt-IsBounded state attempt next h b =
      let (taken, r, h1) = >>=-eq-ok (reserve d seed state attempt.invocation) _ h in
      let b1 = reserve-IsBounded state attempt.invocation taken r b in
      apply_completion-IsBounded taken attempt.completion next h1 b1

  -- The ceilings hold of whatever a ledger replays to.
  pub replay-IsBounded :
      (state : ReviewState) (attempts : List ReviewAttempt) (next : ReviewState)
      → replay d seed state attempts ≡ ok next
      → IsBounded seed state
      → IsBounded seed next
  unfolding replay
  replay-IsBounded state [] next h b = subst (IsBounded seed) (ok_injective h) b
  replay-IsBounded state (a ∷ rest) next h b =
      let (mid, first, h1) = >>=-eq-ok (replay_attempt d seed state a) _ h in
      replay-IsBounded mid rest next h1 (replay_attempt-IsBounded state a mid first b)

  pub initial_state-IsBounded :
      (first : ReviewState) → initial_state d seed ≡ ok first → IsBounded seed first
  unfolding initial_state
  initial_state-IsBounded first h =
      let (_, h1) = >>-eq-ok (validate_seed d seed) _ h in
      subst (IsBounded seed) (ok_injective h1) (record {
        calls_capped = omega arith;
        repairs_capped = omega arith;
        repairs_are_calls = omega arith;
        calls_listed = refl;
        calls_distinct = refl;
        executions_distinct = refl;
        reviews_capped = omega arith;
        phase = record {
          no_tokens_held = refl;
          no_cost_held = refl;
          tokens_spent_fit = inl (omega arith);
          cost_spent_fits = inl (omega arith);
        };
      })

  -- Every state to which a ledger replays from the initial state keeps the ceilings of its policy
  -- on calls, repairs and reviews, has distinct call and execution ids, holds exactly the pending
  -- call's reservation, which fits with what was spent, and without a pending call holds nothing
  -- and has spent within the limits unless it is stopped.
  pub replayed-IsBounded :
      (first : ReviewState) (attempts : List ReviewAttempt) (state : ReviewState)
      → initial_state d seed ≡ ok first
      → replay d seed first attempts ≡ ok state
      → IsBounded seed state
  replayed-IsBounded first attempts state h r =
      replay-IsBounded first attempts state r (initial_state-IsBounded first h)
