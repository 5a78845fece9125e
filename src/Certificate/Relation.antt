-- ===== src/Certificate/Relation.antt =====
-- What it means for the entries of a chain to be authentic, without an algorithm.
use xirtam_core.Prelude.{◌≡◌, true, List, ◌<◌, In, ◌==◌, nat_eq}
use xirtam_core.Structs.{Hash, Timestamp, SigningPublic, DeviceCertificate, CertificateChain}
use xirtam_core.Env.{Env}
use xirtam_core.Certificate.{verified_by, pk_hash, entries}

module _ (env : Env) (trusted : Hash) (now : Timestamp) (all : List DeviceCertificate) where
  abbrev pub IsRoot : DeviceCertificate → Type 0
  IsRoot c = (pk_hash env c.pk == trusted) ≡ true

  -- Signed by the trusted root key itself, or by an entry that is vouched for, has not expired and
  -- may issue.
  pub data Vouched : DeviceCertificate → Type 0 where
    rooted : (c : DeviceCertificate) → IsRoot c → verified_by env c c.pk ≡ true → Vouched c
    issued :
        (c d : DeviceCertificate)
        → In d all
        → Vouched d
        → now < d.expiry
        → d.can_issue ≡ true
        → verified_by env c d.pk ≡ true
        → Vouched c

  -- A key that may sign entries.
  pub record Issuer (pk : SigningPublic) : Type 0 where
    pub holder : DeviceCertificate
    pub listed : In holder all
    pub vouched : Vouched holder
    pub live : now < holder.expiry
    pub issues : holder.can_issue ≡ true
    pub key : holder.pk ≡ pk

  pub record LiveRoot : Type 0 where
    pub root : DeviceCertificate
    pub listed : In root all
    pub is_root : IsRoot root
    pub live : now < root.expiry

-- The chain is authentic for the trusted hash at a time: every entry with the root key is signed by
-- itself, one of these has not expired, every entry is vouched for, and the leaf has not expired.
pub record Authentic (env : Env) (trusted : Hash) (now : Timestamp) (chain : CertificateChain)
    : Type 0 where
  pub roots_signed :
      (c : DeviceCertificate)
      → In c (entries chain)
      → IsRoot env trusted now (entries chain) c
      → verified_by env c c.pk ≡ true
  pub live_root : LiveRoot env trusted now (entries chain)
  pub all_vouched :
      (c : DeviceCertificate) → In c (entries chain) → Vouched env trusted now (entries chain) c
  pub leaf_live : now < chain.this.expiry
