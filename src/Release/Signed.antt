-- ===== src/Release/Signed.antt =====
-- Evidence that was built is promoted, and evidence that is promoted was signed.
use nokinc_factory.Prelude.{
  ◌≡◌, ◌↔◌, refl, sym, ap, subst, ◌∙◌, ℕ, ◌<◌, true, ◌&&◌, List, [], nonempty, all, leb, ◌==◌,
  nat_eq, starts_with, All, Result, ok, err, require, >>=-eq-ok, >>-eq-ok, require-eq-ok,
  ok_injective,
}
use nokinc_factory.Release.Base64.{ReleaseVerificationError, encode, decode}
use nokinc_factory.Release.Roundtrip.{decode-encode, nonempty-encode}
use nokinc_factory.Release.Identity.{ReleaseBundle, DeploymentBinding, ReleaseBundleInput}
use nokinc_factory.Release.Signing.{
  Evidence, signature_of, with_signature, Cryptography, payload, as_mismatch, sign, verify,
}
use nokinc_factory.Release.Promotion.{
  ReleasePromotionError, as_invalid, secret_scheme, bundle_of, build_release_bundle,
  build_deployment_binding, verify_promotion,
}

-- What is relied on of a key pair: a signature is some bytes, and the public key accepts it for what
-- was signed.
pub record IsKeyPair (c : Cryptography) : Type 0 where
  pub bytes : (content : List ℕ) → All (λ byte. byte < 256) (c.sign content)
  pub given : (content : List ℕ) → nonempty (c.sign content) ≡ true
  pub accepts : (content : List ℕ) → c.verify (c.sign content) content ≡ true

signature_of-with_signature : (e : Evidence) (s : List ℕ) → signature_of (with_signature e s) ≡ s
signature_of-with_signature (Evidence.release b) s = refl
signature_of-with_signature (Evidence.deployment b) s = refl

payload-with_signature :
    (c : Cryptography) (e : Evidence) (s : List ℕ) → payload c (with_signature e s) ≡ payload c e
payload-with_signature c (Evidence.release b) s = refl
payload-with_signature c (Evidence.deployment b) s = refl

-- Whether the signature of evidence is a text of bytes that the key accepts for its payload.
abbrev pub IsSigned : Cryptography → Evidence → Type 0
IsSigned c e =
    (nonempty (signature_of e) ≡ true)
    × (signature : List ℕ) × (decode (signature_of e) ≡ ok signature)
    × (c.verify signature (payload c e) ≡ true)

pub sign-IsSigned : (c : Cryptography) → IsKeyPair c → (e : Evidence) → IsSigned c (sign c e)
unfolding sign
sign-IsSigned c k e =
    let s = c.sign (payload c e) in
    rw (signature_of-with_signature e (encode s), payload-with_signature c e (encode s))
      (
        nonempty-encode s (k.bytes _) (k.given _),
        s,
        decode-encode s (k.bytes _) (k.given _),
        k.accepts _,
      )

as_mismatch-eq-ok :
    (r : Result ReleaseVerificationError (List ℕ)) (s : List ℕ) → as_mismatch r ≡ ok s → r ≡ ok s
as_mismatch-eq-ok (ok t) s h = ap ok (ok_injective h)
as_mismatch-eq-ok (err e) s h = cc

as_invalid-eq-ok :
    (r : Result ReleaseVerificationError (Unit {0})) → as_invalid r ≡ ok tt → r ≡ ok tt
as_invalid-eq-ok (ok tt) h = refl
as_invalid-eq-ok (err e) h = cc

verify-IsSigned : (c : Cryptography) (e : Evidence) → (verify c e ≡ ok tt) ↔ IsSigned c e
unfolding verify
verify-IsSigned c e = (
  (λ h.
      let (n, h1) =
        >>-eq-ok
          (require (nonempty (signature_of e)) ReleaseVerificationError.signed_evidence_required) _
          h in
      let (s, m, h2) = >>=-eq-ok (as_mismatch (decode (signature_of e))) _ h1 in
      (require-eq-ok _ _ n, s, as_mismatch-eq-ok _ s m, require-eq-ok _ _ h2)),
  (λ (n, s, m, v). rw (m, n, v) refl),
)

-- A promotion is let through exactly when the signatures of bundle and binding are texts of bytes
-- that the key accepts for their payloads, the binding names the release of the bundle, and its
-- environment is the expected one.
pub verify_promotion-IsSigned :
    (c : Cryptography) (bundle : ReleaseBundle) (binding : DeploymentBinding) (expected : ℕ)
    → (verify_promotion c bundle binding expected ≡ ok tt) ↔ (
        IsSigned c (Evidence.release bundle)
        × IsSigned c (Evidence.deployment binding)
        × (bundle.release_id ≡ binding.release_id)
        × (binding.environment ≡ expected))
unfolding verify_promotion
verify_promotion-IsSigned c bundle binding expected = (
  (λ h.
      let (r, h1) = >>-eq-ok (as_invalid (verify c (Evidence.release bundle))) _ h in
      let (b, h2) = >>-eq-ok (as_invalid (verify c (Evidence.deployment binding))) _ h1 in
      let (i, h3) =
        >>-eq-ok
          (require (bundle.release_id == binding.release_id)
            ReleasePromotionError.different_release)
          _ h2 in
      (
        (verify-IsSigned c (Evidence.release bundle)).0 (as_invalid-eq-ok _ r),
        (verify-IsSigned c (Evidence.deployment binding)).0 (as_invalid-eq-ok _ b),
        (nat_eq.beq_iff bundle.release_id binding.release_id).0 (require-eq-ok _ _ i),
        (nat_eq.beq_iff binding.environment expected).0 (require-eq-ok _ _ h3),
      )),
  (λ (r, b, i, e).
      rw
        (
          (verify-IsSigned c (Evidence.release bundle)).1 r,
          (verify-IsSigned c (Evidence.deployment binding)).1 b,
          (nat_eq.beq_iff bundle.release_id binding.release_id).1 i,
          (nat_eq.beq_iff binding.environment expected).1 e,
        )
        refl),
)

abbrev release_of : Evidence → ℕ
release_of (Evidence.release b) = b.release_id
release_of (Evidence.deployment b) = b.release_id

abbrev environment_of : Evidence → ℕ
environment_of (Evidence.release b) = 0
environment_of (Evidence.deployment b) = b.environment

-- Under a key pair whose signatures are bytes, are not empty and are accepted for what was signed,
-- a bundle and a binding that the builds return for one release can be promoted to the binding's
-- environment.
pub built-verify_promotion :
    (c : Cryptography) (source : ReleaseBundleInput) (binding : DeploymentBinding)
    (bundle : ReleaseBundle) (signed : DeploymentBinding)
    → IsKeyPair c
    → build_release_bundle c source ≡ ok (Evidence.release bundle)
    → build_deployment_binding c binding ≡ ok (Evidence.deployment signed)
    → source.release_id ≡ binding.release_id
    → verify_promotion c bundle signed binding.environment ≡ ok tt
unfolding build_release_bundle build_deployment_binding sign
built-verify_promotion c source binding bundle signed k b s same =
    let (_, b1) =
      >>-eq-ok
        (require (leb 1 source.changeset_version && nonempty source.artifacts)
          ReleasePromotionError.value_error)
        _ b in
    let (_, s1) =
      >>-eq-ok
        (require
          (all (λ reference. starts_with reference secret_scheme) binding.secret_version_refs)
          ReleasePromotionError.value_error)
        _ s in
    let release = ok_injective b1 in
    let deployment = ok_injective s1 in
    (verify_promotion-IsSigned c bundle signed binding.environment).1 (
      subst (IsSigned c) release (sign-IsSigned c k (Evidence.release (bundle_of source))),
      subst (IsSigned c) deployment
          (sign-IsSigned c k (Evidence.deployment (record binding { signature = [] }))),
      sym (ap release_of release) ∙ same ∙ ap release_of deployment,
      sym (ap environment_of deployment),
    )
