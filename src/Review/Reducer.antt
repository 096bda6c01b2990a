-- ===== src/Review/Reducer.antt =====
-- The attempt reducers, policy/review_reducer.py: a reservation before the call, and a completion
-- that charges it and gives, or refuses, credit for what came back.
use nokinc_factory.Prelude.{
  ℕ, ◌+◌, ◌-◌, ◌*◌, Bool, true, false, not, ◌&&◌, ◌||◌, List, [], ◌∷◌, ◌++◌, Option, none, some,
  nonempty, contains, dedup, leb, ltb, max, length, if◌then◌else◌, ◌==◌, nat_eq, Dict, lookup,
  insert, values, sort_keys, ok, err, ◌>>=◌, ◌>>◌, require,
}
use nokinc_factory.Review.Artifact.{Digest, model_eq, binding_eq}
use nokinc_factory.Review.Reason.{ReviewReason, code, reason_eq}
use nokinc_factory.Review.Report.{ReviewReport, RepairReport}
use nokinc_factory.Review.Session.{
  ReviewSeed, ReviewState, Invocation, InvocationKind, InvocationReceipt, ExecutionStop, Completion,
  FailureCount, BudgetState,
}
use nokinc_factory.Review.Digests.{Digests}
use nokinc_factory.Review.Validators.{report_valid, repair_valid}
use nokinc_factory.Review.Rules.{
  Checked, violation, invalid, check, independent, within_window, binding_of, validate_seed,
  needs_repair, validate_report_binding, validate_report, eligibility_reasons,
}
use nokinc_factory.Review.Findings.{retain_stops, reconcile_findings, reconcile_repair}

abbrev is_none {ℓ} : {A : Type ℓ} → Option A → Bool
is_none none = true
is_none (some x) = false

abbrev pub is_repair : InvocationKind → Bool
is_repair InvocationKind.review = false
is_repair InvocationKind.repair = true

abbrev pub bit : Bool → ℕ
bit true = 1
bit false = 0

abbrev pub no_budget : BudgetState
no_budget = record {
  invocations = 0;
  repairs = 0;
  tokens_spent = 0;
  cost_microusd_spent = 0;
  tokens_reserved = 0;
  cost_microusd_reserved = 0;
}

-- The charge of an attempt: what the receipt says, or at least the hold where it is not trusted.
abbrev charge : Option ReviewReason → ℕ → ℕ → ℕ
charge none reported held = reported
charge (some r) reported held = max reported held

-- The reasons in the set of `_failure` that end a unit at once.
unfoldable pub ends_unit : ReviewReason → Bool
ends_unit ReviewReason.time_window = true
ends_unit ReviewReason.receipt_mismatch = true
ends_unit ReviewReason.replay = true
ends_unit ReviewReason.budget_overrun = true
ends_unit ReviewReason.no_progress = true
ends_unit ReviewReason.contract_gap = true
ends_unit ReviewReason.artifact_drift = true
ends_unit ReviewReason.authorization_revoked = true
ends_unit ReviewReason.execution_invalid = true
ends_unit ReviewReason.output_limit = true
ends_unit _ = false

abbrev pub stop_reason : ExecutionStop → ReviewReason
stop_reason ExecutionStop.artifact_drift = ReviewReason.artifact_drift
stop_reason ExecutionStop.time_window = ReviewReason.time_window
stop_reason ExecutionStop.authorization_revoked = ReviewReason.authorization_revoked
stop_reason ExecutionStop.execution_invalid = ReviewReason.execution_invalid
stop_reason ExecutionStop.output_limit = ReviewReason.output_limit

-- `{item.reason: item.occurrences for item in failures}`, keyed by the place of the name.
abbrev failure_counts : Dict FailureCount → List FailureCount → Dict FailureCount
failure_counts counts [] = counts
failure_counts counts (f ∷ fs) = failure_counts (insert (code f.reason) f counts) fs

abbrev prior_failures : Option FailureCount → ℕ
prior_failures none = 0
prior_failures (some f) = f.occurrences

unfoldable pub failure : ReviewSeed → ReviewState → ReviewReason → ReviewState
unfolding ends_unit dedup
failure seed state reason =
    let counts = failure_counts [] state.failures in
    let count = prior_failures (lookup (code reason) counts) + 1 in
    record state {
      failures = values (
          sort_keys
            (insert (code reason) (record { reason = reason; occurrences = count }) counts));
      terminal_reasons = dedup (
          state.terminal_reasons
          ++ ((if ends_unit reason then reason ∷ [] else [])
              ++ (if leb seed.policy.same_unresolved_failure_limit count
                  then ReviewReason.repeated_failure ∷ []
                  else [])));
    }

-- `except ReviewViolation` and `except (ValidationError, ValueError)` of `complete`: the failure is
-- recorded on the state that was kept for it.
unfoldable pub settle : ReviewSeed → ReviewState → Checked ReviewState → ReviewState
unfolding failure
settle seed rejected (ok state) = state
settle seed rejected (err (violation reason)) = failure seed rejected reason
settle seed rejected (err invalid) = failure seed rejected ReviewReason.malformed_report

-- Delivered outside the unit's window or the call's own reservation of time.
unfoldable pub out_of_time : ReviewSeed → ReviewState → Invocation → Completion → Bool
unfolding within_window
out_of_time seed state invocation completion =
    not (within_window seed state completion.finished_at)
    || not (
        leb invocation.started_at completion.finished_at
        && ltb (completion.finished_at - invocation.started_at)
            (invocation.reservation.seconds * 1000000))

module _ (d : Digests) where
  unfoldable pub initial_state : ReviewSeed → Checked ReviewState
  unfolding validate_seed
  initial_state seed =
      validate_seed d seed
      >> ok (record {
        artifact = seed.initial_artifact;
        last_at = seed.started_at;
        budget = no_budget;
        pending = none;
        invocation_ids = [];
        execution_ids = [];
        valid_completed_reports = [];
        findings = [];
        resolutions = [];
        failures = [];
        terminal_reasons = [];
      })

  -- The checks of `reserve` that depend on the kind of the call. The elapsed time is exact, where
  -- the source computes it as a float.
  unfoldable pub reserve_kind : ReviewSeed → ReviewState → Invocation → Checked (Unit {0})
  reserve_kind seed state invocation =
      if is_repair invocation.kind
      then (do
        check (invocation.actor == seed.original_doer) ReviewReason.identity_unavailable
        check (needs_repair d state) ReviewReason.invalid_repair
        check (ltb state.budget.repairs seed.policy.max_implementation_repairs)
            ReviewReason.repair_limit)
      else do
        check (ltb (length state.valid_completed_reports) seed.policy.max_review_passes)
            ReviewReason.review_limit
        check (contains seed.reviewers invocation.actor) ReviewReason.identity_unavailable
        independent seed state.artifact invocation.actor

  abbrev pub reserved : ReviewState → Invocation → ReviewState
  reserved state invocation = record state {
    budget = record state.budget {
      invocations = state.budget.invocations + 1;
      repairs = state.budget.repairs + bit (is_repair invocation.kind);
      tokens_reserved = invocation.reservation.tokens;
      cost_microusd_reserved = invocation.reservation.cost_microusd;
    };
    pending = some invocation;
    last_at = invocation.started_at;
    invocation_ids = state.invocation_ids ++ invocation.invocation_id ∷ [];
  }

  unfoldable pub reserve : ReviewSeed → ReviewState → Invocation → Checked ReviewState
  unfolding reserve_kind
  reserve seed state invocation =
      let limits = seed.policy in
      let budget = state.budget in
      let held = invocation.reservation in
      do
        check (not (nonempty state.terminal_reasons) && nonempty (eligibility_reasons d seed state))
            ReviewReason.review_limit
        check (is_none state.pending) ReviewReason.pending
        check (not (contains state.invocation_ids invocation.invocation_id)) ReviewReason.replay
        check (invocation.binding == binding_of d state.artifact) ReviewReason.binding_mismatch
        check (within_window seed state invocation.started_at) ReviewReason.time_window
        check
            (leb (held.seconds * 1000000 + (invocation.started_at - seed.started_at))
              (limits.max_elapsed_seconds * 1000000))
            ReviewReason.time_window
        check (ltb budget.invocations limits.max_invocations) ReviewReason.invocation_limit
        check (leb (budget.tokens_spent + held.tokens) limits.max_tokens) ReviewReason.token_limit
        check (leb (budget.cost_microusd_spent + held.cost_microusd) limits.max_cost_microusd)
            ReviewReason.cost_limit
        reserve_kind seed state invocation
        ok (reserved state invocation)

  abbrev pub execution_key : InvocationReceipt → Digest
  execution_key proof = d.execution proof.actual_model.provider proof.execution_id

  -- The reason that `_account` finds in the receipt itself.
  unfoldable pub receipt_reason :
      ReviewState → Invocation → Option InvocationReceipt → Option ReviewReason
  receipt_reason state invocation none = some ReviewReason.receipt_unavailable
  receipt_reason state invocation (some proof) =
      if not (proof.invocation_id == invocation.invocation_id)
        || not (proof.binding == invocation.binding)
        || not (proof.actual_model == invocation.actor)
      then some ReviewReason.receipt_mismatch
      else if proof.cached || contains state.execution_ids (execution_key proof)
      then some ReviewReason.replay
      else none

  abbrev reported_tokens : Invocation → Option InvocationReceipt → ℕ
  reported_tokens invocation none = invocation.reservation.tokens
  reported_tokens invocation (some proof) = proof.usage.tokens

  abbrev reported_cost : Invocation → Option InvocationReceipt → ℕ
  reported_cost invocation none = invocation.reservation.cost_microusd
  reported_cost invocation (some proof) = proof.usage.cost_microusd

  abbrev known_executions : List Digest → Option InvocationReceipt → List Digest
  known_executions ids none = ids
  known_executions ids (some proof) =
      if contains ids (execution_key proof) then ids else ids ++ execution_key proof ∷ []

  unfoldable pub account : ReviewState → Invocation → Completion → ReviewState × Option ReviewReason
  unfolding receipt_reason
  account state invocation completion =
      let reason = receipt_reason state invocation completion.receipt in
      let held = invocation.reservation in
      let tokens = charge reason (reported_tokens invocation completion.receipt) held.tokens in
      let cost = charge reason (reported_cost invocation completion.receipt) held.cost_microusd in
      (
        record state {
          budget = record state.budget {
            tokens_spent = state.budget.tokens_spent + tokens;
            cost_microusd_spent = state.budget.cost_microusd_spent + cost;
            tokens_reserved = 0;
            cost_microusd_reserved = 0;
          };
          pending = none;
          execution_ids = known_executions state.execution_ids completion.receipt;
          last_at = max state.last_at completion.finished_at;
        },
        if ltb held.tokens tokens || ltb held.cost_microusd cost
            then some ReviewReason.budget_overrun
            else reason,
      )

  abbrev when : Bool → ReviewReason → List ReviewReason
  when c r = if c then r ∷ [] else []

  unfoldable pub exhausted : ReviewSeed → ReviewState → List ReviewReason
  exhausted seed state =
      when (needs_repair d state && leb seed.policy.max_implementation_repairs state.budget.repairs)
        ReviewReason.repair_limit
      ++ (when (leb seed.policy.max_review_passes (length state.valid_completed_reports))
            ReviewReason.review_limit
          ++ (when (leb seed.policy.max_invocations state.budget.invocations)
                ReviewReason.invocation_limit
              ++ (when (leb seed.policy.max_tokens state.budget.tokens_spent)
                    ReviewReason.token_limit
                  ++ when (leb seed.policy.max_cost_microusd state.budget.cost_microusd_spent)
                      ReviewReason.cost_limit)))

  unfoldable pub capacity : ReviewSeed → ReviewState → ReviewState
  unfolding exhausted dedup
  capacity seed state =
      if nonempty (eligibility_reasons d seed state)
      then record state {
        terminal_reasons = dedup (state.terminal_reasons ++ exhausted seed state);
      }
      else state

  -- `ReviewReport.model_validate_json(output_json)`.
  unfoldable pub parse_review : Option ℕ → Checked ReviewReport
  unfolding report_valid
  parse_review none = err (violation ReviewReason.malformed_report)
  parse_review (some text) = elim (d.decode_review text) [
    | none ↦ err invalid
    | some report ↦ require (report_valid report) invalid >> ok report
  ]

  unfoldable pub parse_repair : Option ℕ → Checked RepairReport
  unfolding repair_valid
  parse_repair none = err (violation ReviewReason.malformed_report)
  parse_repair (some text) = elim (d.decode_repair text) [
    | none ↦ err invalid
    | some report ↦ require (repair_valid report) invalid >> ok report
  ]

  -- Credit for a report that is bound to its call.
  unfoldable pub credit_review : ReviewSeed → ReviewState → ReviewReport → Checked ReviewState
  credit_review seed accounted report = do
    validate_report seed accounted report
    (findings, terminal) ← reconcile_findings d seed accounted report
    ok (record accounted {
      findings = findings;
      terminal_reasons = terminal;
      failures = [];
      valid_completed_reports = accounted.valid_completed_reports ++ report ∷ [];
    })

  -- The `try` block of a review: once the report is bound, a refusal is recorded on the state that
  -- retains its stops (`rejected` in the source), so that failure is settled here.
  unfoldable pub attempt_review :
      ReviewSeed → ReviewState → Invocation → Option ℕ → Checked ReviewState
  unfolding parse_review credit_review settle
  attempt_review seed accounted invocation output = do
    report ← parse_review output
    validate_report_binding d seed accounted invocation report
    ok (settle seed (retain_stops d seed accounted report) (credit_review seed accounted report))

  unfoldable pub finish_review : ReviewSeed → ReviewState → Invocation → Option ℕ → ReviewState
  unfolding settle attempt_review
  finish_review seed accounted invocation output =
      settle seed accounted (attempt_review seed accounted invocation output)

  -- The `try` block of a repair.
  unfoldable pub attempt_repair :
      ReviewSeed → ReviewState → Invocation → Option ℕ → Checked ReviewState
  unfolding parse_repair
  attempt_repair seed accounted invocation output = do
    repair ← parse_repair output
    resolutions ← reconcile_repair d seed accounted invocation repair
    ok (record accounted {
      artifact = repair.artifact;
      failures = [];
      resolutions = accounted.resolutions ++ resolutions;
    })

  unfoldable pub finish_repair : ReviewSeed → ReviewState → Invocation → Option ℕ → ReviewState
  unfolding settle attempt_repair
  finish_repair seed accounted invocation output =
      settle seed accounted (attempt_repair seed accounted invocation output)

  -- The reason for which a completion earns nothing, if there is one.
  unfoldable pub completion_reason :
      ReviewSeed → ReviewState → Invocation → Completion → Option ReviewReason
  completion_reason seed state invocation completion = elim completion.failure_reason [
    | some stop ↦ some (stop_reason stop)
    | none ↦
        if out_of_time seed state invocation completion
        then some ReviewReason.time_window
        else (account state invocation completion).1
  ]

  -- `complete` once the call is accounted for: a reason earns a failure, else the output is read.
  unfoldable pub conclude :
      ReviewSeed → ReviewState → Invocation → Option ℕ → Option ReviewReason → ReviewState
  conclude seed accounted invocation output (some reason) =
      capacity seed (failure seed accounted reason)
  conclude seed accounted invocation output none = capacity seed (
      if is_repair invocation.kind
      then finish_repair seed accounted invocation output
      else finish_review seed accounted invocation output)

  unfoldable pub complete_pending : ReviewSeed → ReviewState → Invocation → Completion → ReviewState
  complete_pending seed state invocation completion =
      conclude seed (account state invocation completion).0 invocation completion.output_json
        (completion_reason seed state invocation completion)

  unfoldable pub complete : ReviewSeed → ReviewState → Completion → Checked ReviewState
  complete seed state completion = elim state.pending [
    | none ↦ err (violation ReviewReason.pending)
    | some invocation ↦
        check (completion.invocation_id == invocation.invocation_id) ReviewReason.binding_mismatch
        >> ok (complete_pending seed state invocation completion)
  ]
