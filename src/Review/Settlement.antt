-- ===== src/Review/Settlement.antt =====
-- What settling a call leaves alone, and what it always does: policy/review_reducer.py.
use nokinc_factory.Prelude.{
  ◌≡◌, refl, sym, ◌∙◌, ◌≤◌, ◌<◌, ◌+◌, ◌⊎◌, inl, inr, ℕ, true, List, [], ◌∷◌, ◌++◌, Option, none,
  some, nonempty, length, ok, err, arith, nonempty-append, nonempty-dedup, length-append,
  Bool-cases, Option-cases, >>=-eq-ok, >>-eq-ok, ok_injective,
}
use nokinc_factory.Review.Reason.{ReviewReason, reason_eq}
use nokinc_factory.Review.Report.{ReviewReport, RepairReport}
use nokinc_factory.Review.Session.{
  ReviewSeed, ReviewState, Invocation, Completion, ExecutionStop, ResolutionRecord,
}
use nokinc_factory.Review.Digests.{Digests}
use nokinc_factory.Review.Rules.{Checked, violation, invalid, validate_report_binding}
use nokinc_factory.Review.Findings.{retain_stops, reconcile_repair}
use nokinc_factory.Review.Reducer.{
  stop_reason, out_of_time, ends_unit, parse_review, parse_repair, attempt_review, attempt_repair,
  failure, settle, is_repair, account, capacity, credit_review, finish_review, finish_repair,
  completion_reason, conclude, complete_pending, exhausted,
}

-- The fields of the ledger that no credit touches, and room for one more report.
pub record Keeps (s t : ReviewState) : Type 0 where
  pub budget : t.budget ≡ s.budget
  pub pending : t.pending ≡ s.pending
  pub invocation_ids : t.invocation_ids ≡ s.invocation_ids
  pub execution_ids : t.execution_ids ≡ s.execution_ids
  pub last_at : t.last_at ≡ s.last_at

-- At most one report is credited.
abbrev pub Grows : ReviewState → ReviewState → Type 0
Grows s t = length t.valid_completed_reports ≤ length s.valid_completed_reports + 1

pub failure-Keeps :
    (seed : ReviewSeed) (s : ReviewState) (r : ReviewReason) → Keeps s (failure seed s r)
unfolding failure
failure-Keeps seed s r = record {
  budget = refl;
  pending = refl;
  invocation_ids = refl;
  execution_ids = refl;
  last_at = refl;
}

failure-reports :
    (seed : ReviewSeed) (s : ReviewState) (r : ReviewReason)
    → (failure seed s r).valid_completed_reports ≡ s.valid_completed_reports
unfolding failure
failure-reports seed s r = refl

-- A failure of one of the listed kinds leaves a terminal reason.
pub failure_ends :
    (seed : ReviewSeed) (s : ReviewState) (r : ReviewReason)
    → ends_unit r ≡ true
    → nonempty (failure seed s r).terminal_reasons ≡ true
unfolding failure
failure_ends seed s r h = simp (nonempty-dedup, nonempty-append) (ground arith)

Keeps-trans : {s t u : ReviewState} → Keeps s t → Keeps t u → Keeps s u
Keeps-trans h k = ground arith

Keeps-refl : (s : ReviewState) → Keeps s s
Keeps-refl s = ground arith

-- What holds of every outcome of a settlement: of the credited state and of each failure.
pub settle-of :
    (P : ReviewState → Type 0) (seed : ReviewSeed) (rejected : ReviewState)
    (m : Checked ReviewState)
    → ((r : ReviewReason) → P (failure seed rejected r))
    → ((t : ReviewState) → m ≡ ok t → P t)
    → P (settle seed rejected m)
unfolding settle
settle-of P seed rejected (ok t) h k = k t refl
settle-of P seed rejected (err (violation r)) h k = h r
settle-of P seed rejected (err invalid) h k = h ReviewReason.malformed_report

-- The state that a settlement starts from, up to the findings and the terminal reasons.
abbrev pub Settles : ReviewState → ReviewState → Type 0
Settles s t = Keeps s t × Grows s t

stop_ends : (stop : ExecutionStop) → ends_unit (stop_reason stop) ≡ true
unfolding ends_unit
stop_ends ExecutionStop.artifact_drift = refl
stop_ends ExecutionStop.time_window = refl
stop_ends ExecutionStop.authorization_revoked = refl
stop_ends ExecutionStop.execution_invalid = refl
stop_ends ExecutionStop.output_limit = refl

failure-Settles :
    (seed : ReviewSeed) (s rejected : ReviewState)
    → Keeps s rejected
    → rejected.valid_completed_reports ≡ s.valid_completed_reports
    → (r : ReviewReason) → Settles s (failure seed rejected r)
failure-Settles seed s rejected h e r = (
  Keeps-trans h (failure-Keeps seed rejected r),
  rw (failure-reports seed rejected r, e) (omega arith),
)

module _ (d : Digests) (seed : ReviewSeed) where
  retain_stops-Keeps :
      (s : ReviewState) (report : ReviewReport) → Keeps s (retain_stops d seed s report)
  unfolding retain_stops
  retain_stops-Keeps s report = ground arith

  retain_stops-reports :
      (s : ReviewState) (report : ReviewReport)
      → (retain_stops d seed s report).valid_completed_reports ≡ s.valid_completed_reports
  unfolding retain_stops
  retain_stops-reports s report = ground arith

  credit_review-Settles :
      (s : ReviewState) (report : ReviewReport) (t : ReviewState)
      → credit_review d seed s report ≡ ok t
      → Settles s t
  unfolding credit_review
  credit_review-Settles s report t h =
      let more = length-append {0} s.valid_completed_reports (report ∷ []) in ground (arith, more)

  -- What a review's `try` block returns, when it returns.
  pub attempt_review-eq-ok :
      (s : ReviewState) (call : Invocation) (output : Option ℕ) (t : ReviewState)
      → attempt_review d seed s call output ≡ ok t
      → (report : ReviewReport) × (parse_review d output ≡ ok report)
        × (validate_report_binding d seed s call report ≡ ok tt)
        × (t ≡ settle seed (retain_stops d seed s report) (credit_review d seed s report))
  unfolding attempt_review
  attempt_review-eq-ok s call output t h =
      let (report, parsed, h1) = >>=-eq-ok (parse_review d output) _ h in
      let (bound, h2) = >>-eq-ok (validate_report_binding d seed s call report) _ h1 in
      (report, parsed, bound, sym (ok_injective h2))

  -- What a repair's `try` block returns, when it returns.
  pub attempt_repair-eq-ok :
      (s : ReviewState) (call : Invocation) (output : Option ℕ) (t : ReviewState)
      → attempt_repair d seed s call output ≡ ok t
      → (repair : RepairReport) × (resolutions : List ResolutionRecord) × (parse_repair d output
          ≡ ok repair)
        × (reconcile_repair d seed s call repair ≡ ok resolutions)
        × (t ≡ record s {
          artifact = repair.artifact;
          failures = [];
          resolutions = s.resolutions ++ resolutions;
        })
  unfolding attempt_repair
  attempt_repair-eq-ok s call output t h =
      let (repair, parsed, h1) = >>=-eq-ok (parse_repair d output) _ h in
      let (resolutions, reconciled, h2) = >>=-eq-ok (reconcile_repair d seed s call repair) _ h1 in
      (repair, resolutions, parsed, reconciled, sym (ok_injective h2))

  finish_review-Settles :
      (s : ReviewState) (call : Invocation) (output : Option ℕ)
      → Settles s (finish_review d seed s call output)
  unfolding finish_review
  finish_review-Settles s call output =
      settle-of (Settles s) seed s (attempt_review d seed s call output)
        (failure-Settles seed s s (Keeps-refl s) refl)
        λ t h.
          let (report, _, _, e) = attempt_review-eq-ok s call output t h in
          let kept = retain_stops d seed s report in
          rw e (
            settle-of (Settles s) seed kept (credit_review d seed s report)
              (failure-Settles seed s kept (retain_stops-Keeps s report)
                (retain_stops-reports s report))
              (credit_review-Settles s report))

  finish_repair-Settles :
      (s : ReviewState) (call : Invocation) (output : Option ℕ)
      → Settles s (finish_repair d seed s call output)
  unfolding finish_repair
  finish_repair-Settles s call output =
      settle-of (Settles s) seed s (attempt_repair d seed s call output)
        (failure-Settles seed s s (Keeps-refl s) refl)
        λ t h. let e = (attempt_repair-eq-ok s call output t h).4 in rw e (ground arith)

  capacity-Keeps : (s : ReviewState) → Keeps s (capacity d seed s)
  unfolding capacity
  capacity-Keeps s = ground arith

  capacity-reports :
      (s : ReviewState) → (capacity d seed s).valid_completed_reports ≡ s.valid_completed_reports
  unfolding capacity
  capacity-reports s = ground arith

  -- Terminal reasons are only added to.
  capacity-terminal :
      (s : ReviewState)
      → nonempty s.terminal_reasons ≡ true
      → nonempty (capacity d seed s).terminal_reasons ≡ true
  unfolding capacity
  capacity-terminal s h =
      let more = exhausted d seed s in
      ground (
        arith,
        nonempty-dedup (s.terminal_reasons ++ more),
        nonempty-append s.terminal_reasons more,
      )

  capacity-Settles : (s t : ReviewState) → Settles s t → Settles s (capacity d seed t)
  capacity-Settles s t h = (Keeps-trans h.0 (capacity-Keeps t), rw (capacity-reports t) (h.1))

  conclude-Settles :
      (s : ReviewState) (call : Invocation) (output : Option ℕ) (reason : Option ReviewReason)
      → Settles s (conclude d seed s call output reason)
  unfolding conclude
  conclude-Settles s call output (some reason) =
      capacity-Settles s (failure seed s reason)
        (failure-Settles seed s s (Keeps-refl s) refl reason)
  conclude-Settles s call output none = elim (Bool-cases (is_repair call.kind)) [
    | inl k ↦ rw k (
        capacity-Settles s (finish_repair d seed s call output)
          (finish_repair-Settles s call output))
    | inr k ↦ rw k (
        capacity-Settles s (finish_review d seed s call output)
          (finish_review-Settles s call output))
  ]

  -- The state that a completion leaves keeps the budget, the pending call, the ids and the time of
  -- the accounted state, and has at most one credited report more.
  pub complete_pending-Settles :
      (s : ReviewState) (call : Invocation) (c : Completion)
      → Settles (account d s call c).0 (complete_pending d seed s call c)
  unfolding complete_pending
  complete_pending-Settles s call c =
      conclude-Settles (account d s call c).0 call c.output_json (completion_reason d seed s call c)

  -- A reason that ends the unit leaves it stopped.
  conclude_ends :
      (s : ReviewState) (call : Invocation) (output : Option ℕ) (reason : ReviewReason)
      → ends_unit reason ≡ true
      → nonempty (conclude d seed s call output (some reason)).terminal_reasons ≡ true
  unfolding conclude
  conclude_ends s call output reason h =
      capacity-terminal (failure seed s reason) (failure_ends seed s reason h)

  -- A receipt that charges more than the call held, in tokens or in cost.
  abbrev pub Overruns : ReviewState → Invocation → Completion → Type 0
  Overruns s call c =
      (s.budget.tokens_spent + call.reservation.tokens < (account d s call c).0.budget.tokens_spent)
      ⊎ (s.budget.cost_microusd_spent + call.reservation.cost_microusd
          < (account d s call c).0.budget.cost_microusd_spent)

  account_overrun :
      (s : ReviewState) (call : Invocation) (c : Completion)
      → Overruns s call c
      → (account d s call c).1 ≡ some ReviewReason.budget_overrun
  unfolding account
  account_overrun s call c h = ground arith

  overrun_reason :
      (s : ReviewState) (call : Invocation) (c : Completion)
      → Overruns s call c
      → (reason : ReviewReason) × (completion_reason d seed s call c ≡ some reason)
        × (ends_unit reason ≡ true)
  unfolding completion_reason ends_unit
  overrun_reason s call c h =
      let over = account_overrun s call c h in
      elim (Option-cases c.failure_reason) [
        | inr (stop, e) ↦ (stop_reason stop, ground arith, stop_ends stop)
        | inl e ↦ elim (Bool-cases (out_of_time seed s call c)) [
          | inl late ↦ (ReviewReason.time_window, ground arith, refl)
          | inr timely ↦ (ReviewReason.budget_overrun, ground arith, refl)
        ]
      ]

  -- A completion that brings the tokens or the cost spent above what was spent before plus the
  -- call's reservation leaves the unit with a reason to stop.
  pub overrun_stops :
      (s : ReviewState) (call : Invocation) (c : Completion)
      → Overruns s call c
      → nonempty (complete_pending d seed s call c).terminal_reasons ≡ true
  unfolding complete_pending
  overrun_stops s call c h =
      let (reason, e, ends) = overrun_reason s call c h in
      rw e (conclude_ends (account d s call c).0 call c.output_json reason ends)

  finish_repair-reports :
      (s : ReviewState) (call : Invocation) (output : Option ℕ)
      → (finish_repair d seed s call output).valid_completed_reports ≡ s.valid_completed_reports
  unfolding finish_repair
  finish_repair-reports s call output =
      settle-of (λ t. t.valid_completed_reports ≡ s.valid_completed_reports) seed s
        (attempt_repair d seed s call output) (failure-reports seed s)
        λ t h. let e = (attempt_repair-eq-ok s call output t h).4 in cc

  conclude-reports :
      (s : ReviewState) (call : Invocation) (output : Option ℕ) (reason : Option ReviewReason)
      → is_repair call.kind ≡ true
      → (conclude d seed s call output reason).valid_completed_reports ≡ s.valid_completed_reports
  unfolding conclude
  conclude-reports s call output (some reason) k =
      capacity-reports (failure seed s reason) ∙ failure-reports seed s reason
  conclude-reports s call output none k =
      rw k (
        capacity-reports (finish_repair d seed s call output) ∙ finish_repair-reports s call output)

  -- A completed repair credits no review: the credited reports are those from before.
  pub repair-reports :
      (s : ReviewState) (call : Invocation) (c : Completion)
      → is_repair call.kind ≡ true
      → (complete_pending d seed s call c).valid_completed_reports ≡ s.valid_completed_reports
  unfolding complete_pending account
  repair-reports s call c k =
      conclude-reports (account d s call c).0 call c.output_json (completion_reason d seed s call c)
        k
