-- ===== src/Review/Findings.antt =====
-- Finding continuity and original-doer reconciliation, policy/review_findings.py. The dicts that
-- the source keys by fingerprint are dicts here, in the order in which Python iterates them.
use nokinc_factory.Prelude.{
  ℕ, ◌+◌, Bool, true, false, not, ◌&&◌, ◌||◌, List, [], ◌∷◌, ◌++◌, map, Option, none, some,
  nonempty, any, keep, contains, is_subset, last?, last_match?, dedup, leb, if◌then◌else◌, ◌==◌,
  nat_eq, option_eq, list_eq, Dict, lookup, insert, values, keys, sort_keys, ok, err, ◌>>=◌, ◌>>◌,
}
use nokinc_factory.Review.Artifact.{Digest, QualityCriterion, model_eq, binding_eq, pinned_eq}
use nokinc_factory.Review.Reason.{ReviewReason, reason_eq}
use nokinc_factory.Review.Report.{
  Evidence, CriterionDisposition, Finding, FindingResolution, FindingRecheck, FindingKind, Severity,
  Disposition, Verdict, Remedy, RecheckStatus, ReviewReport, RepairReport, severity_eq, kind_eq,
  disposition_eq, verdict_eq, remedy_eq, recheck_status_eq,
}
use nokinc_factory.Review.Session.{
  ReviewSeed, ReviewState, Invocation, FindingRecord, ResolutionRecord, open_findings, is_open,
}
use nokinc_factory.Review.Digests.{Digests}
use nokinc_factory.Review.Rules.{
  Checked, check, distinct, blocking, evidence_binding, criterion_ids, fingerprint,
  artifact_binding, violation, invalid,
}

-- Whether the contract makes a criterion mandatory.
abbrev pub is_mandatory : ReviewSeed → ℕ → Bool
is_mandatory seed id =
    any (λ (c : QualityCriterion). c.mandatory && c.criterion_id == id) seed.contract.criteria

abbrev pub when : Bool → ReviewReason → List ReviewReason
when c r = if c then r ∷ [] else []

unfoldable pub stop_reasons : ReviewSeed → ReviewReport → List ReviewReason
stop_reasons seed report =
    when (any (λ (f : Finding). f.severity == Severity.critical) report.findings)
      ReviewReason.critical
    ++ (when
          (report.verdict == Verdict.contract_gap
            || any
                (λ (f : Finding).
                  f.kind == FindingKind.contract_gap
                  || not (contains (criterion_ids seed) f.criterion_id))
                report.findings)
          ReviewReason.contract_gap
        ++ (when
              (report.verdict == Verdict.context_gap
                || any
                    (λ (c : CriterionDisposition).
                      c.status == Disposition.unknown && is_mandatory seed c.criterion_id)
                    report.criteria)
              ReviewReason.context_gap
            ++ when (report.verdict == Verdict.escalate) ReviewReason.review_escalated))

abbrev digests_of : List Evidence → List Digest
digests_of = map (λ (e : Evidence). e.digest)

-- `set(xs) - set(ys)` is not empty.
abbrev exceeds : List Digest → List Digest → Bool
exceeds xs ys = any (λ x. not (contains ys x)) xs

abbrev pub is_blocker : FindingRecord → Bool
is_blocker r = is_open r && r.blocking

-- The last loop: each open blocker counts one more occurrence.
unfoldable pub count_blockers : Dict FindingRecord → Dict FindingRecord
count_blockers [] = []
count_blockers ((k, r) ∷ records) =
    let counted = record r { occurrences = r.occurrences + 1 } in
    (k, (if is_blocker r then counted else r)) ∷ count_blockers records

unfoldable pub repeated_reasons : ReviewSeed → Dict FindingRecord → List ReviewReason
repeated_reasons seed [] = []
repeated_reasons seed ((k, r) ∷ records) =
    when (is_blocker r && leb seed.policy.same_unresolved_failure_limit (r.occurrences + 1))
      ReviewReason.repeated_failure
    ++ repeated_reasons seed records

unfoldable pub artifact_changed : ReviewState → RepairReport → Bool
artifact_changed state report =
    not (report.artifact.payload_digest == state.artifact.payload_digest)
    || not (report.artifact.inputs == state.artifact.inputs)
    || not (report.artifact.build_refs == state.artifact.build_refs)

abbrev prior_occurrences : Option FindingRecord → ℕ
prior_occurrences none = 0
prior_occurrences (some previous) = previous.occurrences

module _ (d : Digests) where
  -- `{item.finding.fingerprint: item for item in findings}`.
  unfoldable pub by_fingerprint : Dict FindingRecord → List FindingRecord → Dict FindingRecord
  by_fingerprint records [] = records
  by_fingerprint records (item ∷ items) =
      by_fingerprint (insert (fingerprint d item.finding) item records) items

  -- One round of the loop of `retain_stops`.
  unfoldable pub retain_finding :
      ReviewSeed → ReviewReport → Finding → Dict FindingRecord → Dict FindingRecord
  retain_finding seed report finding records =
      if not (finding.severity == Severity.critical)
        && not (finding.kind == FindingKind.contract_gap)
        && contains (criterion_ids seed) finding.criterion_id
      then records
      else insert (fingerprint d finding)
          (record {
            finding = finding;
            report_digest = d.report report;
            blocking = true;
            occurrences = prior_occurrences (lookup (fingerprint d finding) records);
            closed_by = none;
            closed_artifact_digest = none;
          })
          records

  unfoldable pub retain_findings :
      ReviewSeed → ReviewReport → List Finding → Dict FindingRecord → Dict FindingRecord
  unfolding retain_finding
  retain_findings seed report [] records = records
  retain_findings seed report (f ∷ fs) records =
      retain_findings seed report fs (retain_finding seed report f records)

  unfoldable pub retain_stops : ReviewSeed → ReviewState → ReviewReport → ReviewState
  unfolding stop_reasons by_fingerprint retain_findings dedup
  retain_stops seed state report =
      let reasons = stop_reasons seed report in
      if nonempty reasons
      then record state {
        findings = values (
            sort_keys
              (retain_findings seed report report.findings (by_fingerprint [] state.findings)));
        terminal_reasons = dedup (state.terminal_reasons ++ reasons);
      }
      else state

  -- Whether a digest stands among the evidence of a report's own items for one case.
  abbrev report_knows : Digest → Digest → ReviewReport → Bool
  report_knows case x report =
      any (λ (f : Finding). fingerprint d f == case && contains (digests_of f.evidence) x)
        report.findings
      || any (λ (r : FindingRecheck). r.fingerprint == case && contains (digests_of r.evidence) x)
          report.rechecks

  -- Membership in `_known_evidence(state, finding)`.
  unfoldable pub known_evidence : ReviewState → Finding → Digest → Bool
  known_evidence state finding x =
      let case = fingerprint d finding in
      any
        (λ (r : FindingRecord).
          fingerprint d r.finding == case && contains (digests_of r.finding.evidence) x)
        state.findings
      || any (report_knows case x) state.valid_completed_reports
      || any
          (λ (r : ResolutionRecord).
            r.resolution.fingerprint == case && contains (digests_of r.resolution.evidence) x)
          state.resolutions

  -- `dispositions.get(criterion_id) == "PASS"`.
  abbrev passes : ReviewReport → ℕ → Bool
  passes report id =
      elim (last_match? (λ (c : CriterionDisposition). c.criterion_id == id) report.criteria) [
        | none ↦ false
        | some c ↦ c.status == Disposition.pass
      ]

  -- The body of `if recheck.status == "PASS"`.
  unfoldable pub close_case :
      ReviewReport
      → FindingRecheck
      → FindingRecord
      → Dict FindingRecord
      → Checked (Dict FindingRecord)
  close_case report recheck existing records = do
    check
        (not (contains (map (fingerprint d) report.findings) recheck.fingerprint)
          && (not existing.blocking || passes report existing.finding.criterion_id))
        ReviewReason.invalid_closure
    ok (
        insert recheck.fingerprint
          (record existing {
            closed_by = some (d.report report);
            closed_artifact_digest = some report.binding.artifact_digest;
          })
          records)

  -- A recheck of an open record that the latest resolution of its case answers.
  unfoldable pub recheck_answered :
      ReviewReport
      → FindingRecheck
      → FindingRecord
      → ResolutionRecord
      → Dict FindingRecord
      → Checked (Dict FindingRecord)
  unfolding close_case
  recheck_answered report recheck existing resolution records = do
    check
        (d.resolution resolution.resolution == recheck.resolution_digest
          && resolution.resolution.report_digest == existing.report_digest
          && resolution.artifact_digest == report.binding.artifact_digest
          && recheck.check == existing.finding.required_recheck)
        ReviewReason.invalid_closure
    if recheck.status == RecheckStatus.pass
        then close_case report recheck existing records
        else ok records

  abbrev case_resolutions : ReviewState → Digest → List ResolutionRecord
  case_resolutions state case =
      keep (λ (r : ResolutionRecord). r.resolution.fingerprint == case) state.resolutions

  -- The three conditions on what a recheck names: a record, open, and a resolution of its case.
  unfoldable pub recheck_named :
      ReviewReport
      → FindingRecheck
      → Dict FindingRecord
      → Option FindingRecord
      → Option ResolutionRecord
      → Checked (Dict FindingRecord)
  unfolding recheck_answered
  recheck_named report recheck records (some existing) (some resolution) =
      check (is_open existing) ReviewReason.invalid_closure
      >> recheck_answered report recheck existing resolution records
  recheck_named report recheck records _ _ = err (violation ReviewReason.invalid_closure)

  -- One round of the loop over the rechecks.
  unfoldable pub recheck_step :
      ReviewState
      → ReviewReport
      → FindingRecheck
      → Dict FindingRecord
      → Checked (Dict FindingRecord)
  unfolding recheck_named
  recheck_step state report recheck records =
      recheck_named report recheck records (lookup recheck.fingerprint records)
        (last? (case_resolutions state recheck.fingerprint))

  unfoldable pub recheck_all :
      ReviewState
      → ReviewReport
      → List FindingRecheck
      → Dict FindingRecord
      → Checked (Dict FindingRecord)
  recheck_all state report [] records = ok records
  recheck_all state report (r ∷ rs) records =
      recheck_step state report r records >>= recheck_all state report rs

  -- The record that a reported finding leaves.
  abbrev pub reported_record : ReviewSeed → ReviewReport → Finding → Bool → ℕ → FindingRecord
  reported_record seed report finding was_blocking occurrences = record {
    finding = finding;
    report_digest = d.report report;
    blocking = blocking seed finding || was_blocking;
    occurrences = occurrences;
    closed_by = none;
    closed_artifact_digest = none;
  }

  -- Whether a closed case is reported anew: the artifact changed since the closure, or the finding
  -- brings evidence that is not known.
  abbrev pub is_news : ReviewState → ReviewReport → Finding → FindingRecord → Bool
  is_news state report finding previous =
      not (previous.closed_artifact_digest == some report.binding.artifact_digest)
      || any (λ x. not (known_evidence state finding x)) (digests_of finding.evidence)

  -- One round of the loop over the reported findings, by the record that its case has.
  unfoldable pub report_case :
      ReviewSeed
      → ReviewState
      → ReviewReport
      → Finding
      → Dict FindingRecord
      → Option FindingRecord
      → Dict FindingRecord
  report_case seed state report finding records none =
      insert (fingerprint d finding) (reported_record seed report finding false 0) records
  report_case seed state report finding records (some previous) =
      if is_open previous
      then insert (fingerprint d finding)
          (reported_record seed report finding previous.blocking previous.occurrences) records
      else if is_news state report finding previous
      then insert (fingerprint d finding) (reported_record seed report finding previous.blocking 0)
          records
      else records

  unfoldable pub report_finding :
      ReviewSeed → ReviewState → ReviewReport → Finding → Dict FindingRecord → Dict FindingRecord
  unfolding known_evidence report_case
  report_finding seed state report finding records =
      report_case seed state report finding records (lookup (fingerprint d finding) records)

  unfoldable pub report_findings :
      ReviewSeed
      → ReviewState
      → ReviewReport
      → List Finding
      → Dict FindingRecord
      → Dict FindingRecord
  unfolding report_finding
  report_findings seed state report [] records = records
  report_findings seed state report (f ∷ fs) records =
      report_findings seed state report fs (report_finding seed state report f records)

  unfoldable pub reconcile_findings :
      ReviewSeed → ReviewState → ReviewReport → Checked (List FindingRecord × List ReviewReason)
  unfolding by_fingerprint recheck_all report_findings count_blockers repeated_reasons stop_reasons
      dedup
  reconcile_findings seed state report = do
    rechecked ← recheck_all state report report.rechecks (by_fingerprint [] state.findings)
    let records = report_findings seed state report report.findings rechecked
    ok (
      values (sort_keys (count_blockers records)),
      dedup (repeated_reasons seed records ++ stop_reasons seed report),
    )

  -- `open_items`: the open records by fingerprint.
  unfoldable pub open_items : ReviewState → Dict FindingRecord
  unfolding by_fingerprint
  open_items state = by_fingerprint [] (open_findings state)

  unfoldable pub resolve_finding :
      ReviewState
      → Invocation
      → RepairReport
      → FindingResolution
      → FindingRecord
      → Checked ResolutionRecord
  unfolding evidence_binding artifact_changed
  resolve_finding state invocation report resolution finding = do
    check (resolution.report_digest == finding.report_digest) ReviewReason.invalid_repair
    evidence_binding resolution.evidence (d.artifact report.artifact)
    check (not finding.blocking || not (resolution.disposition == Remedy.deferred_advisory))
        ReviewReason.invalid_repair
    check (not (resolution.disposition == Remedy.fixed) || artifact_changed state report)
        ReviewReason.no_progress
    check
        (not (resolution.disposition == Remedy.rejected_with_evidence)
          || exceeds (digests_of resolution.evidence) (digests_of finding.finding.evidence))
        ReviewReason.no_progress
    ok (record {
      resolution = resolution;
      repair_invocation_id = invocation.invocation_id;
      artifact_digest = d.artifact report.artifact;
      producer = report.producer;
    })

  -- The proposed cases are open cases before one is looked up, so it is there.
  unfoldable pub resolve_all :
      ReviewState
      → Invocation
      → RepairReport
      → List FindingResolution
      → Checked (List ResolutionRecord)
  unfolding resolve_finding open_items
  resolve_all state invocation report [] = ok []
  resolve_all state invocation report (r ∷ rs) =
      let rest = resolve_all state invocation report rs in
      elim (lookup r.fingerprint (open_items state)) [
        | none ↦ err invalid
        | some finding ↦ do
          first ← resolve_finding state invocation report r finding
          others ← rest
          ok (first ∷ others)
      ]

  unfoldable pub reconcile_repair :
      ReviewSeed → ReviewState → Invocation → RepairReport → Checked (List ResolutionRecord)
  unfolding artifact_binding resolve_all open_items
  reconcile_repair seed state invocation report =
      let proposed = map (λ (r : FindingResolution). r.fingerprint) report.resolutions in
      let blockers = keys (keep (λ (e : ℕ × FindingRecord). e.1.blocking) (open_items state)) in
      do
        check
            (report.invocation_id == invocation.invocation_id
              && report.binding == invocation.binding
              && report.producer == seed.original_doer
              && seed.original_doer == invocation.actor)
            ReviewReason.invalid_repair
        artifact_binding d seed report.artifact
        check
            (report.artifact.artifact_key == state.artifact.artifact_key
              && report.artifact.producers == state.artifact.producers)
            ReviewReason.invalid_repair
        distinct proposed
        check (is_subset blockers proposed && is_subset proposed (keys (open_items state)))
            ReviewReason.invalid_repair
        resolve_all state invocation report report.resolutions
