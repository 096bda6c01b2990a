-- ===== src/Tests/Release.antt =====
-- A release that is built, bound to an environment and promoted, under a toy key pair.
use nokinc_factory.Prelude.{
  ◌≡◌, ◌↔◌, refl, ℕ, ◌<◌, List, [], ◌∷◌, none, ok, ◌==◌, nat_eq, list_eq, codes, starts_with, arith,
  ℕ_discrete,
}
use nokinc_factory.Release.Base64.{char_of, urlsafe_b64encode, rstrip, encode, decode}
use nokinc_factory.Release.Roundtrip.{decode-encode}
use nokinc_factory.Release.Identity.{ReleaseBundle, DeploymentBinding, ReleaseBundleInput}
use nokinc_factory.Release.Signing.{Evidence, Cryptography, sign}
use nokinc_factory.Release.Promotion.{
  bundle_of, build_release_bundle, build_deployment_binding, verify_promotion,
}
use nokinc_factory.Release.Signed.{
  IsKeyPair, IsSigned, verify_promotion-IsSigned, built-verify_promotion,
}

decode-encode_example : decode (encode (77 ∷ 97 ∷ 255 ∷ 254 ∷ [])) ≡ ok (77 ∷ 97 ∷ 255 ∷ 254 ∷ [])
decode-encode_example =
    decode-encode (77 ∷ 97 ∷ 255 ∷ 254 ∷ [])
      (omega arith, (omega arith, (omega arith, (omega arith, tt)))) refl

-- A signature is one byte, 7 for every content that is not empty.
abbrev check_byte : List ℕ → ℕ
check_byte [] = 3
check_byte (c ∷ cs) = 7

abbrev toy : Cryptography
toy = record {
  sign = λ content. check_byte content ∷ [];
  verify = λ signature content. signature == check_byte content ∷ [];
  json = λ e. 1 ∷ [];
}

check_byte-small : (content : List ℕ) → check_byte content < 256
check_byte-small [] = omega arith
check_byte-small (c ∷ cs) = omega arith

toy-IsKeyPair : IsKeyPair toy
toy-IsKeyPair = record {
  bytes = λ content. (check_byte-small content, tt);
  given = λ content. refl;
  accepts = λ content. (list_eq.beq_iff (check_byte content ∷ []) (check_byte content ∷ [])).1 refl;
}

abbrev source : ReleaseBundleInput
source = record {
  release_id = 5;
  changeset_id = 6;
  changeset_version = 1;
  work_item_id = 7;
  artifacts = (1, 2) ∷ [];
  infrastructure = [];
  code_model_snapshot = 3;
  approved_intent_digest = 4;
  containment_contract_digest = 5;
  sbom_digest = 6;
  provenance_digest = 7;
}

abbrev bundle : ReleaseBundle
bundle = record (bundle_of source) { signature = 66 ∷ 119 ∷ [] }

abbrev unsigned : DeploymentBinding
unsigned = record {
  release_id = 5;
  environment = 9;
  config_digest = 1;
  secret_version_refs = codes "secret://a" ∷ [];
  infrastructure_parameters_digest = none;
  feature_flag_state_digest = none;
  deployment_policy_version = 1;
  approved_by = 8;
  signature = [];
}

abbrev binding : DeploymentBinding
binding = record unsigned { signature = 66 ∷ 119 ∷ [] }

building : build_release_bundle toy source ≡ ok (Evidence.release bundle)
unfolding build_release_bundle sign encode urlsafe_b64encode rstrip char_of ℕ_discrete
building = refl

binding_up : build_deployment_binding toy unsigned ≡ ok (Evidence.deployment binding)
unfolding build_deployment_binding sign encode urlsafe_b64encode rstrip char_of starts_with
    ℕ_discrete
binding_up = refl

built-verify_promotion_example : verify_promotion toy bundle binding 9 ≡ ok tt
built-verify_promotion_example =
    built-verify_promotion toy source unsigned bundle binding toy-IsKeyPair building binding_up refl

verify_promotion-IsSigned_example : (verify_promotion toy bundle binding 9 ≡ ok tt) ↔ (
    IsSigned toy (Evidence.release bundle)
    × IsSigned toy (Evidence.deployment binding)
    × (bundle.release_id ≡ binding.release_id)
    × (binding.environment ≡ 9))
verify_promotion-IsSigned_example = verify_promotion-IsSigned toy bundle binding 9
