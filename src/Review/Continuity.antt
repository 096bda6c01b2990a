-- ===== src/Review/Continuity.antt =====
-- Finding continuity in policy/review_findings.py: an open blocker that a report does not recheck
-- stays an open blocker.
use nokinc_factory.Prelude.{
  ◌≡◌, ◌≢◌, ◌+◌, refl, sym, ap, ◌∙◌, ◌⊎◌, inl, inr, ℕ, Bool, true, false, List, [], ◌∷◌, Option,
  none, some, any, All, ok, ◌==◌, nat_eq, arith, Bool-cases, >>=-eq-ok, >>-eq-ok, ok_injective,
  subst, if-cases, if◌then◌else◌, Dict, lookup, insert, values, IsKeyed, lookup-insert,
  insert-IsKeyed, lookup-sort_keys,
}
use nokinc_factory.Review.Report.{
  Finding, FindingRecheck, RecheckStatus, ReviewReport, recheck_status_eq,
}
use nokinc_factory.Review.Reason.{ReviewReason}
use nokinc_factory.Review.Session.{
  ReviewSeed, ReviewState, FindingRecord, ResolutionRecord, is_open,
}
use nokinc_factory.Review.Digests.{Digests}
use nokinc_factory.Review.Rules.{check, fingerprint}
use nokinc_factory.Review.Findings.{
  is_blocker, close_case, recheck_named, report_case, by_fingerprint, recheck_answered,
  recheck_step, recheck_all, report_finding, reported_record, is_news, report_findings,
  count_blockers, reconcile_findings,
}

-- A recheck that does not pass a given case.
abbrev pub Spares : ℕ → FindingRecheck → Type 0
Spares case r = (r.fingerprint ≢ case) ⊎ (r.status ≢ RecheckStatus.pass)

-- An open blocker stands under the key.
abbrev pub Blocks : ℕ → Dict FindingRecord → Type 0
Blocks k records = (r : FindingRecord) × (lookup k records ≡ some r) × (is_blocker r ≡ true)

any_of_lookup :
    (p : FindingRecord → Bool) (k : ℕ) (records : Dict FindingRecord) (r : FindingRecord)
    → lookup k records ≡ some r
    → p r ≡ true
    → any p (values records) ≡ true
any_of_lookup p k [] r h e = cc
any_of_lookup p k ((j, v) ∷ records) r h e = ground (arith, any_of_lookup p k records r)

lookup-count_blockers :
    (case : ℕ) (records : Dict FindingRecord)
    → Blocks case records
    → Blocks case (count_blockers records)
unfolding count_blockers
lookup-count_blockers case [] (r, e, b) = cc
lookup-count_blockers case ((j, v) ∷ records) (r, e, b) = elim (Bool-cases (case == j)) [
  | inl t ↦ (record r { occurrences = r.occurrences + 1 }, ground arith, b)
  | inr f ↦
      let (found, at, blocks) = lookup-count_blockers case records (r, ground arith, b) in
      (found, ground arith, blocks)
]

lookup-count_blockers-none :
    (case : ℕ) (records : Dict FindingRecord)
    → lookup case records ≡ none
    → lookup case (count_blockers records) ≡ none
unfolding count_blockers
lookup-count_blockers-none case [] h = refl
lookup-count_blockers-none case ((j, v) ∷ records) h =
    ground (arith, lookup-count_blockers-none case records)

count_blockers-IsKeyed :
    (records : Dict FindingRecord) → IsKeyed records → IsKeyed (count_blockers records)
unfolding count_blockers
count_blockers-IsKeyed [] h = tt
count_blockers-IsKeyed ((j, v) ∷ records) h =
    (lookup-count_blockers-none j records h.0, count_blockers-IsKeyed records h.1)

kept_insert :
    (case k : ℕ) (v : FindingRecord) (records : Dict FindingRecord)
    → k ≢ case
    → lookup case (insert k v records) ≡ lookup case records
kept_insert case k v records other = ground (arith, lookup-insert case k v records)

-- Writing a blocker, or writing elsewhere, leaves a blocker where one stood.
insert-Blocks :
    (case k : ℕ) (v : FindingRecord) (records : Dict FindingRecord)
    → (case ≡ k → is_blocker v ≡ true)
    → Blocks case records
    → Blocks case (insert k v records)
insert-Blocks case k v records blocks (r, e, b) = elim (Bool-cases (case == k)) [
  | inl t ↦ (v, ground (arith, lookup-insert case k v records), blocks (ground arith))
  | inr f ↦ (r, ground (arith, lookup-insert case k v records), b)
]

-- What holds of both branches holds of the conditional.
if_either :
    (P : Dict FindingRecord → Type 0) (c : Bool) (x y : Dict FindingRecord)
    → (c ≡ true → P x)
    → (c ≡ false → P y)
    → P (if c then x else y)
if_either P true x y f g = f refl
if_either P false x y f g = g refl

module _ (d : Digests) where
  by_fingerprint-IsKeyed :
      (records : Dict FindingRecord) (items : List FindingRecord)
      → IsKeyed records
      → IsKeyed (by_fingerprint d records items)
  unfolding by_fingerprint
  by_fingerprint-IsKeyed records [] h = h
  by_fingerprint-IsKeyed records (i ∷ items) h =
      by_fingerprint-IsKeyed (insert (fingerprint d i.finding) i records) items
        (insert-IsKeyed (fingerprint d i.finding) i records h)

  -- A recheck changes at most its own case, and that only if it passes.
  abbrev Kept : ℕ → Dict FindingRecord → Dict FindingRecord → Type 0
  Kept case records next = IsKeyed next × (lookup case next ≡ lookup case records)

  close_case-Kept :
      (case : ℕ) (report : ReviewReport) (recheck : FindingRecheck) (existing : FindingRecord)
      (records next : Dict FindingRecord)
      → recheck.fingerprint ≢ case
      → IsKeyed records
      → close_case d report recheck existing records ≡ ok next
      → Kept case records next
  unfolding close_case
  close_case-Kept case report recheck existing records next other keyed h =
      let closed = record existing {
        closed_by = some (d.report report);
        closed_artifact_digest = some report.binding.artifact_digest;
      } in
      let done = insert recheck.fingerprint closed records in
      let is = ok_injective ((>>-eq-ok _ (ok done) h).1) in
      (
        subst IsKeyed is (insert-IsKeyed recheck.fingerprint closed records keyed),
        (ap (lookup case) (sym is)) ∙ kept_insert case recheck.fingerprint closed records other,
      )

  recheck_answered-Kept :
      (case : ℕ) (report : ReviewReport) (recheck : FindingRecheck) (existing : FindingRecord)
      (resolution : ResolutionRecord) (records next : Dict FindingRecord)
      → Spares case recheck
      → IsKeyed records
      → recheck_answered d report recheck existing resolution records ≡ ok next
      → Kept case records next
  unfolding recheck_answered
  recheck_answered-Kept case report recheck existing resolution records next spared keyed h =
      let continue =
        if recheck.status == RecheckStatus.pass
        then close_case d report recheck existing records
        else ok records in
      let (_, h1) = >>-eq-ok _ continue h in
      elim (if-cases (recheck.status == RecheckStatus.pass)
        (close_case d report recheck existing records) (ok records) h1) [
          | inl (passes, e) ↦
              close_case-Kept case report recheck existing records next (ground arith) keyed e
          | inr (_, e) ↦
              (subst IsKeyed (ok_injective e) keyed, ap (lookup case) (sym (ok_injective e)))
        ]

  recheck_named-Kept :
      (case : ℕ) (report : ReviewReport) (recheck : FindingRecheck)
      (records next : Dict FindingRecord) (existing : Option FindingRecord)
      (resolution : Option ResolutionRecord)
      → Spares case recheck
      → IsKeyed records
      → recheck_named d report recheck records existing resolution ≡ ok next
      → Kept case records next
  unfolding recheck_named
  recheck_named-Kept case report recheck records next (some x) (some r) spared keyed h =
      let (_, h1) = >>-eq-ok (check (is_open x) ReviewReason.invalid_closure) _ h in
      recheck_answered-Kept case report recheck x r records next spared keyed h1
  recheck_named-Kept case report recheck records next _ _ spared keyed h = cc

  recheck_step-Kept :
      (case : ℕ) (state : ReviewState) (report : ReviewReport) (recheck : FindingRecheck)
      (records next : Dict FindingRecord)
      → Spares case recheck
      → IsKeyed records
      → recheck_step d state report recheck records ≡ ok next
      → Kept case records next
  unfolding recheck_step
  recheck_step-Kept case state report recheck records next spared keyed h =
      recheck_named-Kept case report recheck records next (lookup recheck.fingerprint records) _
        spared keyed h

  recheck_all-Kept :
      (case : ℕ) (state : ReviewState) (report : ReviewReport) (rechecks : List FindingRecheck)
      (records next : Dict FindingRecord)
      → All (Spares case) rechecks
      → IsKeyed records
      → recheck_all d state report rechecks records ≡ ok next
      → Kept case records next
  unfolding recheck_all
  recheck_all-Kept case state report [] records next spared keyed h =
      let is = ok_injective h in (subst IsKeyed is keyed, rw is)
  recheck_all-Kept case state report (r ∷ rest) records next spared keyed h =
      let (mid, step, h1) = >>=-eq-ok (recheck_step d state report r records) _ h in
      let first = recheck_step-Kept case state report r records mid spared.0 keyed step in
      let others = recheck_all-Kept case state report rest mid next spared.1 first.0 h1 in
      (others.0, others.1 ∙ first.1)

  report_case-Blocks :
      (case : ℕ) (seed : ReviewSeed) (state : ReviewState) (report : ReviewReport)
      (finding : Finding) (records : Dict FindingRecord) (previous : Option FindingRecord)
      → lookup (fingerprint d finding) records ≡ previous
      → IsKeyed records
      → Blocks case records
      → IsKeyed (report_case d seed state report finding records previous)
        × Blocks case (report_case d seed state report finding records previous)
  unfolding report_case
  report_case-Blocks case seed state report finding records none e keyed (r, at, b) =
      let made = reported_record d seed report finding false 0 in
      (
        insert-IsKeyed (fingerprint d finding) made records keyed,
        insert-Blocks case (fingerprint d finding) made records (λ q. ground arith) (r, at, b),
      )
  report_case-Blocks case seed state report finding records (some previous) e keyed (r, at, b) =
      let k = fingerprint d finding in
      let again = reported_record d seed report finding previous.blocking previous.occurrences in
      let anew = reported_record d seed report finding previous.blocking 0 in
      if_either (λ q. IsKeyed q × Blocks case q) (is_open previous) _ _
        (λ still_open. (
          insert-IsKeyed k again records keyed,
          insert-Blocks case k again records (λ q. ground arith) (r, at, b),
        ))
        (λ closed.
          if_either (λ q. IsKeyed q × Blocks case q) (is_news d state report finding previous) _ _
            (λ news. (
              insert-IsKeyed k anew records keyed,
              insert-Blocks case k anew records (λ q. ground arith) (r, at, b),
            ))
            (λ known. (keyed, (r, at, b))))

  report_finding-Blocks :
      (case : ℕ) (seed : ReviewSeed) (state : ReviewState) (report : ReviewReport)
      (finding : Finding) (records : Dict FindingRecord)
      → IsKeyed records
      → Blocks case records
      → IsKeyed (report_finding d seed state report finding records)
        × Blocks case (report_finding d seed state report finding records)
  unfolding report_finding
  report_finding-Blocks case seed state report finding records keyed h =
      report_case-Blocks case seed state report finding records _ refl keyed h

  report_findings-Blocks :
      (case : ℕ) (seed : ReviewSeed) (state : ReviewState) (report : ReviewReport)
      (findings : List Finding) (records : Dict FindingRecord)
      → IsKeyed records
      → Blocks case records
      → IsKeyed (report_findings d seed state report findings records)
        × Blocks case (report_findings d seed state report findings records)
  unfolding report_findings
  report_findings-Blocks case seed state report [] records keyed h = (keyed, h)
  report_findings-Blocks case seed state report (f ∷ fs) records keyed h =
      let (k, b) = report_finding-Blocks case seed state report f records keyed h in
      report_findings-Blocks case seed state report fs _ k b

  -- If an open blocking case is on record, no recheck of a report passes that case, and the report
  -- is reconciled, then an open blocker is left, whatever the report found or left out.
  pub reconcile_findings_blocked :
      (case : ℕ) (seed : ReviewSeed) (state : ReviewState) (report : ReviewReport)
      (findings : List FindingRecord) (terminal : List ReviewReason)
      → Blocks case (by_fingerprint d [] state.findings)
      → All (Spares case) report.rechecks
      → reconcile_findings d seed state report ≡ ok (findings, terminal)
      → any is_blocker findings ≡ true
  unfolding reconcile_findings
  reconcile_findings_blocked case seed state report findings terminal blocked spared h =
      let start = by_fingerprint d [] state.findings in
      let keyed = by_fingerprint-IsKeyed [] state.findings tt in
      let (rechecked, step, h1) =
        >>=-eq-ok (recheck_all d state report report.rechecks start) _ h in
      let kept =
        recheck_all-Kept case state report report.rechecks start rechecked spared keyed step in
      let (k, b) =
        report_findings-Blocks case seed state report report.findings rechecked kept.0
          (blocked.0, kept.1 ∙ blocked.1, blocked.2) in
      let counted = lookup-count_blockers case _ b in
      let sorted = lookup-sort_keys case _ (count_blockers-IsKeyed _ k) ∙ counted.1 in
      let made = ok_injective h1 in
      rw (← (ap (λ (p : List FindingRecord × List ReviewReason). p.0) made))
        (any_of_lookup is_blocker case _ counted.0 sorted counted.2)
