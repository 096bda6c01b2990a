-- ===== src/Release/Identity.antt =====
-- The release and deployment evidence of domain/identity.py and the input of
-- policy/release_bundle.py. Texts are numbers; a text of which the program reads the characters is
-- the list of its codes.
use nokinc_factory.Prelude.{ℕ, List, Option, Text, nat_eq}

-- An association list of logical names and digests.
abbrev pub Digests : Type 0
Digests = List (ℕ × ℕ)

pub record ReleaseBundle : Type 0 where
  pub release_id : ℕ
  pub changeset_id : ℕ
  pub changeset_version : ℕ
  pub work_item_id : ℕ
  pub artifacts : Digests
  pub infrastructure : Digests
  pub migration_bundle : Option ℕ
  pub code_model_snapshot : ℕ
  pub approved_intent_digest : ℕ
  pub containment_contract_digest : ℕ
  pub sbom_digest : ℕ
  pub provenance_digest : ℕ
  pub signature : List ℕ

pub record DeploymentBinding : Type 0 where
  pub release_id : ℕ
  pub environment : ℕ
  pub config_digest : ℕ
  pub secret_version_refs : List Text
  pub infrastructure_parameters_digest : Option ℕ
  pub feature_flag_state_digest : Option ℕ
  pub deployment_policy_version : ℕ
  pub approved_by : ℕ
  pub signature : List ℕ

-- What a build gives for its bundle.
pub record ReleaseBundleInput : Type 0 where
  pub release_id : ℕ
  pub changeset_id : ℕ
  pub changeset_version : ℕ
  pub work_item_id : ℕ
  pub artifacts : Digests
  pub infrastructure : Digests
  pub code_model_snapshot : ℕ
  pub approved_intent_digest : ℕ
  pub containment_contract_digest : ℕ
  pub sbom_digest : ℕ
  pub provenance_digest : ℕ
