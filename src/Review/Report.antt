-- ===== src/Review/Report.antt =====
-- The structured reports of domain/review_report.py.
use nokinc_factory.Prelude.{Bool, List, ℕ_discrete, Eq, eq_of_discrete}
use nokinc_factory.Review.Artifact.{
  Identifier, Digest, Prose, ReviewBinding, ModelIdentity, ArtifactRef, ReviewBinding-discrete,
  ModelIdentity-discrete,
}

pub data Disposition : Type 0 where
  pass fail unknown not_applicable : Disposition

pub data Verdict : Type 0 where
  accept changes_required escalate context_gap contract_gap : Verdict

pub record Evidence : Type 0 where
  pub evidence_id : Identifier
  pub digest : Digest
  pub artifact_digest : Digest
  pub observation : Prose

pub record CriterionDisposition : Type 0 where
  pub criterion_id : Identifier
  pub status : Disposition
  pub evidence : List Evidence

pub data Severity : Type 0 where
  low medium high critical : Severity

pub data FindingKind : Type 0 where
  defect evidence_gap advisory contract_gap : FindingKind

-- The fingerprint is not stored: it is derived from the first three fields (Review/Digests).
pub record Finding : Type 0 where
  pub criterion_id : Identifier
  pub behavior_id : Identifier
  pub cause_id : Identifier
  pub severity : Severity
  pub kind : FindingKind
  pub artifact_digest : Digest
  pub location : Prose
  pub scenario : Prose
  pub evidence : List Evidence
  pub consequence : Prose
  pub correction : Prose
  pub required_recheck : Prose

pub data Remedy : Type 0 where
  fixed rejected_with_evidence deferred_advisory : Remedy

pub record FindingResolution : Type 0 where
  pub fingerprint : Digest
  pub report_digest : Digest
  pub disposition : Remedy
  pub evidence : List Evidence
  pub explanation : Prose

pub data RecheckStatus : Type 0 where
  pass fail unknown : RecheckStatus

pub record FindingRecheck : Type 0 where
  pub fingerprint : Digest
  pub resolution_digest : Digest
  pub status : RecheckStatus
  pub evidence : List Evidence
  pub check : Prose

pub record ReviewReport : Type 0 where
  pub invocation_id : Identifier
  pub binding : ReviewBinding
  pub reviewer : ModelIdentity
  pub complete : Bool
  pub criteria : List CriterionDisposition
  pub findings : List Finding
  pub rechecks : List FindingRecheck
  pub verdict : Verdict
  pub raw_text : Prose

pub record RepairReport : Type 0 where
  pub invocation_id : Identifier
  pub binding : ReviewBinding
  pub producer : ModelIdentity
  pub artifact : ArtifactRef
  pub resolutions : List FindingResolution

unfoldable pub Disposition-discrete : Discrete Disposition
Disposition-discrete = hlevel

unfoldable pub Verdict-discrete : Discrete Verdict
Verdict-discrete = hlevel

unfoldable pub Severity-discrete : Discrete Severity
Severity-discrete = hlevel

unfoldable pub FindingKind-discrete : Discrete FindingKind
FindingKind-discrete = hlevel

unfoldable pub Remedy-discrete : Discrete Remedy
Remedy-discrete = hlevel

unfoldable pub RecheckStatus-discrete : Discrete RecheckStatus
RecheckStatus-discrete = hlevel

unfoldable pub Evidence-discrete : Discrete Evidence
Evidence-discrete = hlevel ℕ_discrete

unfoldable pub CriterionDisposition-discrete : Discrete CriterionDisposition
CriterionDisposition-discrete = hlevel (ℕ_discrete, Disposition-discrete, Evidence-discrete)

unfoldable pub Finding-discrete : Discrete Finding
Finding-discrete = hlevel (ℕ_discrete, Severity-discrete, FindingKind-discrete, Evidence-discrete)

unfoldable pub FindingResolution-discrete : Discrete FindingResolution
FindingResolution-discrete = hlevel (ℕ_discrete, Remedy-discrete, Evidence-discrete)

unfoldable pub FindingRecheck-discrete : Discrete FindingRecheck
FindingRecheck-discrete = hlevel (ℕ_discrete, RecheckStatus-discrete, Evidence-discrete)

unfoldable pub ReviewReport-discrete : Discrete ReviewReport
ReviewReport-discrete = hlevel (
  ℕ_discrete, ReviewBinding-discrete, ModelIdentity-discrete, CriterionDisposition-discrete,
  Finding-discrete, FindingRecheck-discrete, Verdict-discrete,
)

instance abbrev pub disposition_eq : Eq Disposition
disposition_eq = eq_of_discrete Disposition-discrete

instance abbrev pub verdict_eq : Eq Verdict
verdict_eq = eq_of_discrete Verdict-discrete

instance abbrev pub severity_eq : Eq Severity
severity_eq = eq_of_discrete Severity-discrete

instance abbrev pub kind_eq : Eq FindingKind
kind_eq = eq_of_discrete FindingKind-discrete

instance abbrev pub remedy_eq : Eq Remedy
remedy_eq = eq_of_discrete Remedy-discrete

instance abbrev pub recheck_status_eq : Eq RecheckStatus
recheck_status_eq = eq_of_discrete RecheckStatus-discrete
