-- ===== src/Structs/Certificate.antt =====
-- certificate.rs: the structs. `DevicePublic` and `DeviceSecret` are transparent newtypes.
use xirtam_core.Prelude.{
  ◌≡◌, ◌↔◌, Bool, true, false, ◌&&◌, not, List, arith, Comparable, ◌==◌, nat_eq,
}
use xirtam_core.Structs.Ids.{SigningPublic, SigningSecret, Timestamp, Signature}

abbrev pub DevicePublic : Type 0
DevicePublic = SigningPublic

abbrev pub DeviceSecret : Type 0
DeviceSecret = SigningSecret

pub record DeviceCertificate : Type 0 where
  pub pk : DevicePublic
  pub expiry : Timestamp
  pub can_issue : Bool
  pub signature : Signature

pub record CertificateChain : Type 0 where
  pub ancestors : List DeviceCertificate
  pub this : DeviceCertificate

abbrev pub bool_beq : Bool → Bool → Bool
bool_beq true b = b
bool_beq false b = not b

-- the derived `PartialEq`
abbrev pub certificate_beq : DeviceCertificate → DeviceCertificate → Bool
certificate_beq c d =
    c.pk == d.pk
    && c.expiry == d.expiry
    && bool_beq c.can_issue d.can_issue
    && c.signature == d.signature

pub certificate_beq_iff : (c d : DeviceCertificate) → (certificate_beq c d ≡ true) ↔ (c ≡ d)
certificate_beq_iff c d = (ground arith, ground arith)

instance abbrev pub certificate_eq : Comparable DeviceCertificate
certificate_eq = record { same = certificate_beq; same_iff = certificate_beq_iff }
