-- ===== src/Client/Bundle.antt =====
-- `new_device_bundle` of internal.rs: a device of a user adds another device. The child `Accepted`
-- is about the chain in the bundle.
pub mod Accepted
use xirtam_core.Prelude.{Bool, ◌&&◌, [], ◌∷◌, ◌++◌, ◌==◌, nat_eq, Result, ok, err, if◌then◌else◌}
use xirtam_core.Structs.{UserName, Timestamp, DeviceSecret, CertificateChain}
use xirtam_core.Env.{Env}
use xirtam_core.Crypto.{public_key}
use xirtam_core.Certificate.{last_device, issue_certificate}

-- identity.rs, without the medium-term keys, which the bundle does not touch
pub record Identity : Type 0 where
  pub username : UserName
  pub device_secret : DeviceSecret
  pub cert_chain : CertificateChain

pub record BundleInner : Type 0 where
  pub username : UserName
  pub device_secret : DeviceSecret
  pub cert_chain : CertificateChain

pub data InternalRpcError : Type 0 where
  access_denied : InternalRpcError

-- the certificate, the chain and the bundle that are made for a new device
unfoldable pub bundle_for : Env → Identity → DeviceSecret → Bool → Timestamp → BundleInner
bundle_for env identity new_secret can_issue expiry = record {
  username = identity.username;
  device_secret = new_secret;
  cert_chain = record {
    ancestors = identity.cert_chain.ancestors ++ identity.cert_chain.this ∷ [];
    this =
        issue_certificate env identity.device_secret (public_key env new_secret) expiry can_issue;
  };
}

-- `new_secret` is the draw of `DeviceSecret::random`. The bundle is returned before it is encoded.
unfoldable pub new_device_bundle :
    Env → Identity → DeviceSecret → Bool → Timestamp → Result InternalRpcError BundleInner
unfolding last_device
new_device_bundle env identity new_secret can_issue expiry =
    let issuer_cert = last_device identity.cert_chain in
    if issuer_cert.pk == public_key env identity.device_secret && issuer_cert.can_issue
    then ok (bundle_for env identity new_secret can_issue expiry)
    else err access_denied
