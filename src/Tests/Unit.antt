-- ===== src/Tests/Unit.antt =====
-- A small review unit: a contract of one criterion, a producer, a reviewer, and the reports of two
-- review calls.
use nokinc_factory.Prelude.{
  ℕ, ◌+◌, ◌*◌, true, false, List, [], ◌∷◌, Option, none, some, ◌==◌, nat_eq, if◌then◌else◌,
}
use nokinc_factory.Review.Artifact.{
  ReviewScope, RiskTier, QualityContract, ReviewPolicy, Role, ModelIdentity, ArtifactRef,
  ReviewBinding, Reservation,
}
use nokinc_factory.Review.Report.{
  Evidence, Disposition, Verdict, Finding, Severity, FindingKind, FindingResolution, ReviewReport,
}
use nokinc_factory.Review.Session.{ReviewSeed, ReviewSession, InvocationReceipt}
use nokinc_factory.Review.Digests.{Digests}

abbrev pub scope : ReviewScope
scope = record { tenant_id = 1; work_item_id = 2; session_id = 3 }

abbrev pub contract : QualityContract
contract = record {
  tenant_id = 1;
  work_item_id = 2;
  contract_version = 3;
  criteria =
      record { criterion_id = 10; predicate = 1; mandatory = true; required_evidence = 20 ∷ [] }
      ∷ [];
  artifact_scope = 30 ∷ [];
  scope_in = 1 ∷ [];
  scope_out = 1 ∷ [];
  design_refs = [];
  design_not_applicable_reason = some 1;
  risk_tier = RiskTier.t0;
}

abbrev pub policy : ReviewPolicy
policy = record {
  policy_version = 1;
  min_review_passes = 2;
  max_review_passes = 3;
  max_implementation_repairs = 2;
  same_unresolved_failure_limit = 2;
  max_invocations = 8;
  max_tokens = 1000;
  max_cost_microusd = 1000;
  max_elapsed_seconds = 3600;
  require_different_family = false;
}

abbrev pub doer : ModelIdentity
doer = record {
  provider = 1;
  model = 41;
  canonical_model_id = 51;
  family = some 61;
  qualification_ref = some 1;
  capability_refs = 1 ∷ [];
  role = Role.producer;
}

abbrev pub reviewer : ModelIdentity
reviewer = record {
  provider = 1;
  model = 42;
  canonical_model_id = 52;
  family = some 62;
  qualification_ref = some 1;
  capability_refs = 1 ∷ [];
  role = Role.reviewer;
}

abbrev pub artifact : ArtifactRef
artifact = record {
  scope = scope;
  artifact_key = 30;
  payload_digest = 70;
  producers = doer ∷ [];
  contract_digest = 3;
  context_digest = 5;
  inputs = [];
  build_refs = [];
}

abbrev pub binding : ReviewBinding
binding = record { scope = scope; artifact_digest = 70; contract_digest = 3; context_digest = 5 }

abbrev pub held : Reservation
held = record { tokens = 100; cost_microusd = 10; seconds = 60 }

abbrev evidence : Evidence
evidence = record { evidence_id = 20; digest = 21; artifact_digest = 70; observation = 1 }

abbrev pub finding : Finding
finding = record {
  criterion_id = 10;
  behavior_id = 11;
  cause_id = 12;
  severity = Severity.high;
  kind = FindingKind.defect;
  artifact_digest = 70;
  location = 1;
  scenario = 1;
  evidence = evidence ∷ [];
  consequence = 1;
  correction = 1;
  required_recheck = 1;
}

abbrev report_of : ℕ → Disposition → List Finding → Verdict → ReviewReport
report_of call status findings verdict = record {
  binding = binding;
  invocation_id = call;
  reviewer = reviewer;
  complete = true;
  criteria = record { criterion_id = 10; status = status; evidence = evidence ∷ [] } ∷ [];
  findings = findings;
  rechecks = [];
  verdict = verdict;
  raw_text = 1;
}

abbrev pub accepting : ℕ → ReviewReport
accepting call = report_of call Disposition.pass [] Verdict.accept

-- The texts 1 and 2 accept, the text 3 asks for a change.
abbrev decode_review : ℕ → Option ReviewReport
decode_review text =
    if text == 1
    then some (accepting 100)
    else if text == 2
    then some (accepting 101)
    else if text == 3
    then some (report_of 100 Disposition.fail (finding ∷ []) Verdict.changes_required)
    else none

abbrev pub digests : Digests
digests = record {
  contract = λ (c : QualityContract). c.contract_version;
  model = λ (m : ModelIdentity). m.model;
  artifact = λ (a : ArtifactRef). a.payload_digest;
  resolution = λ (r : FindingResolution). r.fingerprint;
  report = λ (r : ReviewReport). r.invocation_id;
  session = λ (s : ReviewSession). 0;
  finding_keys = λ c b k. c * 10000 + b * 100 + k;
  execution = λ p e. p * 1000 + e;
  decode_review = decode_review;
  decode_repair = λ t. none;
}

abbrev pub receipt_of : ℕ → ℕ → InvocationReceipt
receipt_of call tokens = record {
  binding = binding;
  invocation_id = call;
  execution_id = call + 5;
  actual_model = reviewer;
  usage = record { tokens = tokens; cost_microusd = 5 };
  cached = false;
}

abbrev pub seed : ReviewSeed
seed = record {
  scope = scope;
  contract = contract;
  policy = policy;
  original_doer = doer;
  reviewers = reviewer ∷ [];
  initial_artifact = artifact;
  started_at = 1000;
}
