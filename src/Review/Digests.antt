-- ===== src/Review/Digests.antt =====
-- What the review rules take from outside the repository: JSON, SHA-256 and pydantic's decoding.
-- `content_digest` of domain/review_base.py hashes a value's canonical JSON, so each kind of value
-- has a digest function here. `decode_review` and `decode_repair` read a text as JSON of the
-- report's fields; the validators of the report classes are Review/Validators.
use nokinc_factory.Prelude.{ℕ, Option}
use nokinc_factory.Review.Artifact.{Identifier, Digest, QualityContract, ModelIdentity, ArtifactRef}
use nokinc_factory.Review.Report.{FindingResolution, ReviewReport, RepairReport}
use nokinc_factory.Review.Session.{ReviewSession}

pub record Digests : Type 0 where
  pub contract : QualityContract → Digest
  pub model : ModelIdentity → Digest
  pub artifact : ArtifactRef → Digest
  pub resolution : FindingResolution → Digest
  pub report : ReviewReport → Digest
  pub session : ReviewSession → Digest
  pub finding_keys : Identifier → Identifier → Identifier → Digest
  pub execution : Identifier → Identifier → Digest
  pub decode_review : ℕ → Option ReviewReport
  pub decode_repair : ℕ → Option RepairReport
