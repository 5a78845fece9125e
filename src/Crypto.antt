-- ===== src/Crypto.antt =====
-- libraries/nullspace-crypt/src: hash.rs, and the trait `Signable` of signing.rs.
use xirtam_core.Prelude.{Bool, true, ◌≡◌}
use xirtam_core.Structs.{Bytes, Hash, SigningPublic, SigningSecret, Signature}
use xirtam_core.Env.{Env, SignsCorrectly}

pub record Signable (A : Type 0) : Type 0 where
  pub signed_value : A → Bytes
  pub signature : A → Signature
  -- `signature_mut`, with the value that is written through it
  pub set_signature : A → Signature → A

module _ (env : Env) where
  unfoldable pub digest : Bytes → Hash
  digest msg = env.blake3 msg

  unfoldable pub keyed_digest : Bytes → Bytes → Hash
  keyed_digest key msg = env.blake3_keyed (env.blake3 key) msg

  -- `public_key`
  unfoldable pub public_key : SigningSecret → SigningPublic
  public_key secret = env.ed25519_public secret

module _ {A : Type 0} (env : Env) (signable : Signable A) where
  unfoldable pub sign : A → SigningSecret → A
  sign value signer =
      signable.set_signature value (env.ed25519_sign signer (signable.signed_value value))

  -- `verify(..).is_ok()`; its only error is `InvalidSignature`
  unfoldable pub verify : A → SigningPublic → Bool
  verify value signer =
      env.ed25519_verify signer (signable.signature value) (signable.signed_value value)

  -- Writing the signature leaves the signed bytes as they were, and can be read back.
  pub record IsLawful : Type 0 where
    pub signed_value_set :
        (a : A) (s : Signature)
        → signable.signed_value (signable.set_signature a s) ≡ signable.signed_value a
    pub signature_set :
        (a : A) (s : Signature) → signable.signature (signable.set_signature a s) ≡ s

  pub verify-sign :
      IsLawful
      → SignsCorrectly env
      → (a : A) (secret : SigningSecret) → verify (sign a secret) (public_key env secret) ≡ true
  unfolding sign verify public_key
  verify-sign lawful correct a secret =
      let message = signable.signed_value a in
      let signature = env.ed25519_sign secret message in
      cc (
        correct secret message,
        lawful.signed_value_set a signature,
        lawful.signature_set a signature,
      )
