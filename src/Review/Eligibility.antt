-- ===== src/Review/Eligibility.antt =====
-- When a unit is eligible: `eligibility_reasons` of policy/review_rules.py and `evaluate` of
-- policy/review.py against an independent description.
use nokinc_factory.Prelude.{
  ◌≡◌, refl, sym, ◌∙◌, ◌≤◌, ◌<◌, ◌-◌, ◌*◌, ◌↔◌, ◌⊎◌, inl, inr, Bool, false, not, ◌&&◌, ◌||◌, List,
  [], ◌∷◌, ◌++◌, none, some, All, any, nonempty, last?, length, ltb, if◌then◌else◌, ◌==◌, arith,
  nonempty-append, nonempty-dedup, nonempty-eq-false, any-eq-false, any-of-All, All-map, ok,
  Option-cases, >>=-eq-ok, >>-eq-ok, require,
}
use nokinc_factory.Review.Artifact.{ArtifactRef, Moment, artifact_eq, binding_eq}
use nokinc_factory.Review.Reason.{ReviewReason, reason_eq}
use nokinc_factory.Review.Report.{
  CriterionDisposition, Disposition, Verdict, ReviewReport, disposition_eq, verdict_eq,
}
use nokinc_factory.Review.Session.{
  ReviewSeed, ReviewState, ReviewSession, ReviewDecision, DecisionStatus, FindingRecord, state_eq,
  open_findings,
}
use nokinc_factory.Review.Digests.{Digests}
use nokinc_factory.Review.Validators.{artifact_valid}
use nokinc_factory.Review.Ledger.{validate_session-IsReplayed}
use nokinc_factory.Review.Rules.{
  invalid, is_some, within_window, binding_of, latest_reasons, eligibility_reasons,
}
use nokinc_factory.Review.Findings.{is_mandatory}
use nokinc_factory.Review.Policy.{
  validate_session, decision_reasons, decision_status, decision_of, evaluate,
}

-- A disposition of a criterion that is not mandatory, or that passed.
abbrev pub Satisfies : ReviewSeed → CriterionDisposition → Type 0
Satisfies seed item =
    (is_mandatory seed item.criterion_id ≡ false) ⊎ (item.status ≡ Disposition.pass)

module _ (d : Digests) where
  -- The exit condition of a unit, in terms of the ledger alone.
  pub record IsEligible (seed : ReviewSeed) (state : ReviewState) : Type 0 where
    pub not_stopped : state.terminal_reasons ≡ []
    pub settled : state.pending ≡ none
    pub reviewed : seed.policy.min_review_passes ≤ length state.valid_completed_reports
    pub unblocked : All (λ (r : FindingRecord). r.blocking ≡ false) (open_findings state)
    pub latest : ReviewReport
    pub latest_is : last? state.valid_completed_reports ≡ some latest
    pub current : latest.binding ≡ binding_of d state.artifact
    pub accepted : latest.verdict ≡ Verdict.accept
    pub satisfied : All (Satisfies seed) latest.criteria

  abbrev misses : ReviewSeed → CriterionDisposition → Bool
  misses seed item = is_mandatory seed item.criterion_id && not (item.status == Disposition.pass)

  misses-Satisfies :
      (seed : ReviewSeed) (item : CriterionDisposition)
      → misses seed item ≡ false
      → Satisfies seed item
  misses-Satisfies seed item h = ground arith

  Satisfies-misses :
      (seed : ReviewSeed) (item : CriterionDisposition)
      → Satisfies seed item
      → misses seed item ≡ false
  Satisfies-misses seed item h = ground arith

  -- The latest report gives no reason exactly when it accepts the artifact as it is now and passes
  -- every mandatory criterion.
  latest_reasons-none :
      (seed : ReviewSeed) (state : ReviewState)
      → nonempty (latest_reasons d seed state) ≡ false
      → (latest : ReviewReport) × (last? state.valid_completed_reports ≡ some latest)
        × (latest.binding ≡ binding_of d state.artifact)
        × (latest.verdict ≡ Verdict.accept)
        × All (Satisfies seed) latest.criteria
  unfolding latest_reasons
  latest_reasons-none seed state h = elim (Option-cases (last? state.valid_completed_reports)) [
    | inl e ↦ absurd (ground arith)
    | inr (latest, e) ↦ (
      latest,
      e,
      ground arith,
      ground arith,
      All-map (misses-Satisfies seed) latest.criteria
          (any-eq-false (misses seed) latest.criteria (ground arith)),
    )
  ]

  none-latest_reasons :
      (seed : ReviewSeed) (state : ReviewState)
      → IsEligible seed state
      → nonempty (latest_reasons d seed state) ≡ false
  unfolding latest_reasons
  none-latest_reasons seed state h =
      let quiet =
        any-of-All (misses seed) h.latest.criteria
          (All-map (Satisfies-misses seed) h.latest.criteria h.satisfied) in
      ground arith

  some_reason :
      (seed : ReviewSeed) (state : ReviewState)
      → nonempty (eligibility_reasons d seed state) ≡ (
          nonempty state.terminal_reasons
          || is_some state.pending
          || ltb (length state.valid_completed_reports) seed.policy.min_review_passes
          || any (λ (r : FindingRecord). r.blocking) (open_findings state)
          || nonempty (latest_reasons d seed state))
  unfolding eligibility_reasons
  some_reason seed state = simp (nonempty-dedup, nonempty-append) (ground arith)

  -- There is no reason against a unit exactly when it is not stopped, has no pending call, has the
  -- minimum of credited reviews, no open finding that blocks, and its latest report is bound to
  -- the current artifact, accepts it and passes every mandatory criterion that it lists.
  pub eligibility_reasons-IsEligible :
      (seed : ReviewSeed) (state : ReviewState)
      → (nonempty (eligibility_reasons d seed state) ≡ false) ↔ IsEligible seed state
  eligibility_reasons-IsEligible seed state = (
    λ q.
        let e = sym (some_reason seed state) ∙ q in
        let found = latest_reasons-none seed state (ground arith) in
        record {
          not_stopped = nonempty-eq-false state.terminal_reasons (ground arith);
          settled = ground arith;
          reviewed = ground arith;
          unblocked =
              any-eq-false (λ (r : FindingRecord). r.blocking) (open_findings state) (ground arith);
          latest = found.0;
          latest_is = found.1;
          current = found.2;
          accepted = found.3;
          satisfied = found.4;
        },
    λ h.
        let quiet =
          any-of-All (λ (r : FindingRecord). r.blocking) (open_findings state) h.unblocked in
        let seen = none-latest_reasons seed state h in some_reason seed state ∙ ground arith,
  )

  eligible_status :
      (session : ReviewSession) (reasons : List ReviewReason)
      → (decision_status d session reasons ≡ DecisionStatus.eligible) ↔ (nonempty reasons ≡ false)
  unfolding decision_status
  eligible_status session [] = ((λ h. refl), (λ h. refl))
  eligible_status session (r ∷ rs) = ((λ h. ground arith), (λ h. cc))

  -- The conditions under which `evaluate` answers ELIGIBLE for a valid session: the unit is
  -- eligible, the artifact observed now is the reviewed one, and the time is within the window.
  pub record IsFresh (session : ReviewSession) (current : ArtifactRef) (now : Moment) : Type 0 where
    pub eligible : IsEligible session.seed session.state
    pub undrifted : current ≡ session.state.artifact
    pub ordered : session.state.last_at ≤ now
    pub started : session.seed.started_at ≤ now
    pub timely : now - session.seed.started_at < session.seed.policy.max_elapsed_seconds * 1000000

  decision_reasons-IsFresh :
      (session : ReviewSession) (current : ArtifactRef) (now : Moment)
      → (nonempty (decision_reasons d session current now) ≡ false) ↔ IsFresh session current now
  unfolding decision_reasons within_window
  decision_reasons-IsFresh session current now = (
    λ h.
        let e = nonempty-append (eligibility_reasons d session.seed session.state) (
          (if current == session.state.artifact then [] else ReviewReason.artifact_drift ∷ [])
          ++ (if within_window session.seed session.state now
              then []
              else ReviewReason.time_window ∷ [])) in
        record {
          eligible = (eligibility_reasons-IsEligible session.seed session.state).0 (ground arith);
          undrifted = ground arith;
          ordered = ground arith;
          started = ground arith;
          timely = ground arith;
        },
    λ h.
        let e = nonempty-append (eligibility_reasons d session.seed session.state) (
          (if current == session.state.artifact then [] else ReviewReason.artifact_drift ∷ [])
          ++ (if within_window session.seed session.state now
              then []
              else ReviewReason.time_window ∷ [])) in
        let quiet = (eligibility_reasons-IsEligible session.seed session.state).1 h.eligible in
        ground (arith, h.undrifted, h.ordered, h.started, h.timely),
  )

  decision_of-IsFresh :
      (session : ReviewSession) (current : ArtifactRef) (now : Moment)
      → ((decision_of d session current now).status ≡ DecisionStatus.eligible)
        ↔ IsFresh session current now
  unfolding decision_of
  decision_of-IsFresh session current now =
      let fresh = decision_reasons-IsFresh session current now in
      let status = eligible_status session (decision_reasons d session current now) in
      ((λ e. fresh.0 (status.0 e)), (λ f. status.1 (fresh.1 f)))

  -- When `evaluate` returns a decision, its status is ELIGIBLE exactly when the session's unit is
  -- eligible, the artifact observed now is the unit's artifact, the time is not before the unit's
  -- start or last step, and less than the elapsed limit has passed since the start.
  pub evaluate-IsFresh :
      (session : ReviewSession) (current : ArtifactRef) (now : Moment) (decision : ReviewDecision)
      → evaluate d session current now ≡ ok decision
      → (decision.status ≡ DecisionStatus.eligible) ↔ IsFresh session current now
  unfolding evaluate
  evaluate-IsFresh given current now decision h =
      let (session, v, h1) = >>=-eq-ok (validate_session d given) _ h in
      let (_, h2) = >>-eq-ok (require (artifact_valid current) invalid) _ h1 in
      let same = (validate_session-IsReplayed d given v).0 in
      let made : decision ≡ decision_of d given current now = cc in
      rw made (decision_of-IsFresh given current now)
