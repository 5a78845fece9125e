-- ===== src/Client/Bundle/Accepted.antt =====
-- Where the chain in the bundle of a new device is accepted.
use xirtam_core.Prelude.{◌≡◌, Bool, true, false, ◌<◌, arith, ◌==◌, nat_eq, ok, refl, subst}
use xirtam_core.Structs.{Hash, Timestamp, DeviceSecret}
use xirtam_core.Env.{Env, SignsCorrectly}
use xirtam_core.Crypto.{public_key}
use xirtam_core.Certificate.{pk_hash, last_device, issue_certificate, verify_chain}
use xirtam_core.Certificate.Issue.{issue-extend}
use xirtam_core.Client.Bundle.{Identity, BundleInner, bundle_for, new_device_bundle}

module _ (env : Env) (correct : SignsCorrectly env) (identity : Identity)
    (new_secret : DeviceSecret) (can_issue : Bool) (expiry : Timestamp) where
  granted_parts :
      (bundle : BundleInner)
      → new_device_bundle env identity new_secret can_issue expiry ≡ ok bundle
      → (identity.cert_chain.this.pk ≡ public_key env identity.device_secret)
        × (identity.cert_chain.this.can_issue ≡ true)
        × (bundle_for env identity new_secret can_issue expiry ≡ bundle)
  unfolding new_device_bundle
  granted_parts bundle granted = ground arith

  -- If the identity's own chain verifies against the trusted hash, the bundle is granted, the new
  -- certificate has not expired and the new key does not hash to the trusted hash, then the chain
  -- in the bundle verifies too, its leaf is the new device's key, and its secret is handed over.
  pub new_device_bundle-verifies :
      (trusted : Hash) (now : Timestamp) (bundle : BundleInner)
      → verify_chain env now identity.cert_chain trusted ≡ ok tt
      → new_device_bundle env identity new_secret can_issue expiry ≡ ok bundle
      → now < expiry
      → (pk_hash env (public_key env new_secret) == trusted) ≡ false
      → (verify_chain env now bundle.cert_chain trusted ≡ ok tt)
        × ((last_device bundle.cert_chain).pk ≡ public_key env bundle.device_secret)
        × (bundle.username ≡ identity.username)
  unfolding bundle_for last_device issue_certificate
  new_device_bundle-verifies trusted now bundle accepted granted live other =
      let (key, issues, made) = granted_parts bundle granted in
      subst
        (λ b.
          (verify_chain env now b.cert_chain trusted ≡ ok tt)
          × ((last_device b.cert_chain).pk ≡ public_key env b.device_secret)
          × (b.username ≡ identity.username))
        made
        (
          issue-extend env correct trusted now expiry can_issue identity.device_secret
              identity.cert_chain (public_key env new_secret) accepted key issues live other,
          refl,
          refl,
        )
