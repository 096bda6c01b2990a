-- ===== src/Release/Promotion.antt =====
-- The build of signed evidence and the promotion check of policy/release_bundle.py.
use nokinc_factory.Prelude.{
  ℕ, ◌&&◌, [], none, nonempty, all, leb, ◌==◌, nat_eq, Text, codes, starts_with, Result, ok, err,
  require, ◌>>◌,
}
use nokinc_factory.Release.Base64.{ReleaseVerificationError}
use nokinc_factory.Release.Identity.{ReleaseBundle, DeploymentBinding, ReleaseBundleInput}
use nokinc_factory.Release.Signing.{Evidence, Cryptography, sign, verify}

-- A `ValueError` of a build, and the three reasons against a promotion.
pub data ReleasePromotionError : Type 0 where
  value_error invalid_signature different_release environment_mismatch : ReleasePromotionError

abbrev pub bundle_of : ReleaseBundleInput → ReleaseBundle
bundle_of source = record {
  release_id = source.release_id;
  changeset_id = source.changeset_id;
  changeset_version = source.changeset_version;
  work_item_id = source.work_item_id;
  artifacts = source.artifacts;
  infrastructure = source.infrastructure;
  migration_bundle = none;
  code_model_snapshot = source.code_model_snapshot;
  approved_intent_digest = source.approved_intent_digest;
  containment_contract_digest = source.containment_contract_digest;
  sbom_digest = source.sbom_digest;
  provenance_digest = source.provenance_digest;
  signature = [];
}

abbrev pub secret_scheme : Text
secret_scheme = codes "secret://"

-- An error of a signature is answered as an invalid one.
abbrev pub as_invalid :
    Result ReleaseVerificationError (Unit {0}) → Result ReleasePromotionError (Unit {0})
as_invalid (ok u) = ok u
as_invalid (err e) = err ReleasePromotionError.invalid_signature

module _ (c : Cryptography) where
  abbrev pub signed_bundle : ReleaseBundle → Evidence
  signed_bundle bundle = sign c (Evidence.release bundle)

  unfoldable pub build_release_bundle : ReleaseBundleInput → Result ReleasePromotionError Evidence
  unfolding sign
  build_release_bundle source = do
    require (leb 1 source.changeset_version && nonempty source.artifacts)
        ReleasePromotionError.value_error
    ok (sign c (Evidence.release (bundle_of source)))

  -- The binding to sign has its signature blank.
  unfoldable pub build_deployment_binding :
      DeploymentBinding → Result ReleasePromotionError Evidence
  unfolding sign starts_with
  build_deployment_binding binding = do
    require (all (λ reference. starts_with reference secret_scheme) binding.secret_version_refs)
        ReleasePromotionError.value_error
    ok (sign c (Evidence.deployment (record binding { signature = [] })))

  unfoldable pub verify_promotion :
      ReleaseBundle → DeploymentBinding → ℕ → Result ReleasePromotionError (Unit {0})
  unfolding verify
  verify_promotion bundle binding expected_environment = do
    as_invalid (verify c (Evidence.release bundle))
    as_invalid (verify c (Evidence.deployment binding))
    require (bundle.release_id == binding.release_id) ReleasePromotionError.different_release
    require (binding.environment == expected_environment) ReleasePromotionError.environment_mismatch
