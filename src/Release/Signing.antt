-- ===== src/Release/Signing.antt =====
-- The signatures of policy/release_signing.py. Ed25519 and the JSON of a model are parameters.
use nokinc_factory.Prelude.{ℕ, Bool, List, [], nonempty, Result, ok, err, require, ◌>>=◌, ◌>>◌}
use nokinc_factory.Release.Base64.{ReleaseVerificationError, encode, decode}
use nokinc_factory.Release.Identity.{ReleaseBundle, DeploymentBinding}

pub data Evidence : Type 0 where
  release : ReleaseBundle → Evidence
  deployment : DeploymentBinding → Evidence

abbrev pub signature_of : Evidence → List ℕ
signature_of (Evidence.release b) = b.signature
signature_of (Evidence.deployment b) = b.signature

-- `model_copy(update={"signature": signature})`.
abbrev pub with_signature : Evidence → List ℕ → Evidence
with_signature (Evidence.release b) s = Evidence.release (record b { signature = s })
with_signature (Evidence.deployment b) s = Evidence.deployment (record b { signature = s })

-- What the signatures take from outside: a key pair's operations, and the JSON of a model, which
-- leaves the signature out when that is blank.
pub record Cryptography : Type 0 where
  pub sign : List ℕ → List ℕ
  pub verify : List ℕ → List ℕ → Bool
  pub json : Evidence → List ℕ

-- The error of `_decode` is answered as a mismatch.
abbrev pub as_mismatch :
    Result ReleaseVerificationError (List ℕ) → Result ReleaseVerificationError (List ℕ)
as_mismatch (ok bytes) = ok bytes
as_mismatch (err e) = err ReleaseVerificationError.evidence_mismatch

module _ (c : Cryptography) where
  -- `_payload`, without the signature.
  abbrev pub payload : Evidence → List ℕ
  payload model = c.json (with_signature model [])

  -- `_sign` and the copy with the signature.
  unfoldable pub sign : Evidence → Evidence
  unfolding encode
  sign model = with_signature model (encode (c.sign (payload model)))

  unfoldable pub verify : Evidence → Result ReleaseVerificationError (Unit {0})
  unfolding decode
  verify model = do
    require (nonempty (signature_of model)) ReleaseVerificationError.signed_evidence_required
    signature ← as_mismatch (decode (signature_of model))
    require (c.verify signature (payload model)) ReleaseVerificationError.evidence_mismatch
