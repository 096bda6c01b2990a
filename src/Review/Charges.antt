-- ===== src/Review/Charges.antt =====
-- What a unit is charged: the spending of policy/review_reducer.py against the receipts in the
-- attempts of policy/review.py, described without running either.
use nokinc_factory.Prelude.{
  ◌≡◌, sym, ◌+◌, ℕ, Bool, false, not, ◌&&◌, ◌||◌, List, [], ◌∷◌, ◌++◌, Option, none, some, any,
  contains, max, if◌then◌else◌, ◌==◌, nat_eq, ok, arith, contains-append, Option-cases, inl, inr,
  >>=-eq-ok, subst, ok_injective,
}
use nokinc_factory.Review.Artifact.{Digest, Usage, Reservation, model_eq, binding_eq}
use nokinc_factory.Review.Session.{
  ReviewSeed, ReviewState, ReviewSession, ReviewAttempt, Invocation, InvocationReceipt,
}
use nokinc_factory.Review.Digests.{Digests}
use nokinc_factory.Review.Reducer.{receipt_reason, account, execution_key}
use nokinc_factory.Review.Policy.{replay_attempt, replay, validate_session}
use nokinc_factory.Review.Accounts.{replay_attempt-settled, starts_empty}
use nokinc_factory.Review.Ledger.{validate_session-IsReplayed}

module _ (d : Digests) where
  abbrev delivers_receipt : Digest → Option InvocationReceipt → Bool
  delivers_receipt key none = false
  delivers_receipt key (some proof) = execution_key d proof == key

  -- The attempt was completed with a receipt for this execution.
  abbrev delivers : Digest → ReviewAttempt → Bool
  delivers key a = elim a.completion [ none ↦ false | some c ↦ delivers_receipt key c.receipt ]

  -- A receipt for this very call by its actor, of an execution that was not cached and that no
  -- earlier attempt delivered.
  abbrev trusted : List ReviewAttempt → Invocation → InvocationReceipt → Bool
  trusted earlier call proof =
      proof.invocation_id == call.invocation_id
      && proof.binding == call.binding
      && proof.actual_model == call.actor
      && not proof.cached
      && not (any (delivers (execution_key d proof)) earlier)

  module _ (hold : Reservation → ℕ) (used : Usage → ℕ) where
    abbrev charged : List ReviewAttempt → Invocation → Option InvocationReceipt → ℕ
    charged earlier call none = hold call.reservation
    charged earlier call (some proof) =
        if trusted earlier call proof
        then used proof.usage
        else max (used proof.usage) (hold call.reservation)

    abbrev charged_to : List ReviewAttempt → ReviewAttempt → ℕ
    charged_to earlier a = elim a.completion [
      | none ↦ 0
      | some c ↦ charged earlier a.invocation c.receipt
    ]

    -- What the completed attempts cost, each after the attempts before it.
    abbrev pub charged_for : List ReviewAttempt → List ReviewAttempt → ℕ
    charged_for earlier [] = 0
    charged_for earlier (a ∷ rest) = charged_to earlier a + charged_for (earlier ++ a ∷ []) rest

  pub record IsCharged (attempts : List ReviewAttempt) (state : ReviewState) : Type 0 where
    pub tokens : state.budget.tokens_spent ≡ charged_for (λ r. r.tokens) (λ u. u.tokens) [] attempts
    pub cost :
        state.budget.cost_microusd_spent
        ≡ charged_for (λ r. r.cost_microusd) (λ u. u.cost_microusd) [] attempts

  Knows : List ReviewAttempt → List Digest → Type 0
  Knows earlier ids = (key : Digest) → contains ids key ≡ any (delivers key) earlier

  any-snoc :
      (key : Digest) (earlier : List ReviewAttempt) (a : ReviewAttempt)
      → any (delivers key) (earlier ++ a ∷ []) ≡ (any (delivers key) earlier || delivers key a)
  any-snoc key [] a = ground arith
  any-snoc key (b ∷ rest) a = ground (arith, any-snoc key rest a)

  module _ (seed : ReviewSeed) where
    -- An attempt is charged to the unit, and its execution becomes known.
    attempt_charges :
        (earlier : List ReviewAttempt) (state : ReviewState) (a : ReviewAttempt)
        (next : ReviewState)
        → replay_attempt d seed state a ≡ ok next
        → Knows earlier state.execution_ids
        → (next.budget.tokens_spent
            ≡ state.budget.tokens_spent + charged_to (λ r. r.tokens) (λ u. u.tokens) earlier a)
          × (next.budget.cost_microusd_spent
              ≡ state.budget.cost_microusd_spent
                + charged_to (λ r. r.cost_microusd) (λ u. u.cost_microusd) earlier a)
    unfolding account receipt_reason Knows
    attempt_charges earlier state a next h k =
        let (_, budget, _, _) = replay_attempt-settled d seed state a next h in
        elim (Option-cases a.completion) [
          | inl e ↦ (ground arith, ground arith)
          | inr (c, e) ↦ elim (Option-cases c.receipt) [
            | inl e' ↦ (ground arith, ground arith)
            | inr (proof, e') ↦
                let known = k (execution_key d proof) in (ground arith, ground arith)
          ]
        ]

    attempt-Knows :
        (earlier : List ReviewAttempt) (state : ReviewState) (a : ReviewAttempt)
        (next : ReviewState)
        → replay_attempt d seed state a ≡ ok next
        → Knows earlier state.execution_ids
        → Knows (earlier ++ a ∷ []) next.execution_ids
    unfolding account Knows
    attempt-Knows earlier state a next h k key =
        let (_, _, _, executions) = replay_attempt-settled d seed state a next h in
        let known = k key in
        let more = any-snoc key earlier a in
        elim (Option-cases a.completion) [
          | inl e ↦ ground arith
          | inr (c, e) ↦ elim (Option-cases c.receipt) [
            | inl e' ↦ ground arith
            | inr (proof, e') ↦
                let of_proof = k (execution_key d proof) in
                ground (arith, contains-append state.execution_ids (execution_key d proof ∷ []) key)
          ]
        ]

    replay-charges :
        (earlier : List ReviewAttempt) (state : ReviewState) (attempts : List ReviewAttempt)
        (next : ReviewState)
        → replay d seed state attempts ≡ ok next
        → Knows earlier state.execution_ids
        → (next.budget.tokens_spent
            ≡ state.budget.tokens_spent
              + charged_for (λ r. r.tokens) (λ u. u.tokens) earlier attempts)
          × (next.budget.cost_microusd_spent
              ≡ state.budget.cost_microusd_spent
                + charged_for (λ r. r.cost_microusd) (λ u. u.cost_microusd) earlier attempts)
    unfolding replay
    replay-charges earlier state [] next h k =
        let same = ok_injective h in (ground arith, ground arith)
    replay-charges earlier state (a ∷ rest) next h k =
        let (mid, first, h1) = >>=-eq-ok (replay_attempt d seed state a) _ h in
        let (tokens, cost) = attempt_charges earlier state a mid first k in
        let (more_tokens, more_cost) =
          replay-charges (earlier ++ a ∷ []) mid rest next h1
            (attempt-Knows earlier state a mid first k) in
        (omega arith, omega arith)

  -- When `validate_session` returns a session, the tokens and the cost that it has spent are sums
  -- over its completed attempts: of what the receipt reports, when it is for this very call by its
  -- actor, not cached and of an execution that no earlier attempt delivered, else of the larger of
  -- what it reports and what was reserved, and without a receipt of what was reserved.
  pub validate_session-IsCharged :
      (given session : ReviewSession)
      → validate_session d given ≡ ok session
      → IsCharged session.attempts session.state
  unfolding Knows
  validate_session-IsCharged given session h =
      let (same, r) = validate_session-IsReplayed d given h in
      let (budget, _, executions) = starts_empty d given.seed r.first r.first_is in
      let (tokens, cost) =
        replay-charges given.seed [] r.first given.attempts given.state r.replayed
          (λ key. ground arith) in
      subst (λ (s : ReviewSession). IsCharged s.attempts s.state) (sym same)
        (record { tokens = ground arith; cost = ground arith })
