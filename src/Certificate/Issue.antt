-- ===== src/Certificate/Issue.antt =====
-- Chains grow by issuing: what a device with the right to issue signs is accepted.
use xirtam_core.Prelude.{
  ◌≡◌, refl, inl, inr, Bool, true, false, List, [], ◌∷◌, ◌<◌, In, In-append_left, In-append_right,
  In-append_split, ◌==◌, nat_eq, nat_beq_iff, ok, true-ne-false,
}
use xirtam_core.Structs.{
  Hash, Timestamp, blank_signature, DevicePublic, DeviceSecret, DeviceCertificate, CertificateChain,
}
use xirtam_core.Env.{Env, SignsCorrectly}
use xirtam_core.Crypto.{IsLawful, public_key, verify-sign}
use xirtam_core.Certificate.{
  entries, certificate_signable, verified_by, pk_hash, self_signed, issue_certificate, verify_chain,
}
use xirtam_core.Certificate.Relation.{Vouched, rooted, issued, Authentic}
use xirtam_core.Certificate.Verify.{verify_chain_sound, verify_chain_complete}

-- The chain of a newly issued certificate: all entries of the issuer's chain stand before it.
abbrev pub extend : CertificateChain → DeviceCertificate → CertificateChain
extend chain cert = record { ancestors = entries chain; this = cert }

Vouched-mono :
    (env : Env) (trusted : Hash) (now : Timestamp) (xs ys : List DeviceCertificate)
    → ((c : DeviceCertificate) → In c xs → In c ys)
    → {c : DeviceCertificate} → Vouched env trusted now xs c
    → Vouched env trusted now ys c
Vouched-mono env trusted now xs ys f (rooted c r s) = rooted c r s
Vouched-mono env trusted now xs ys f (issued c d m v live issues s) =
    issued c d (f d m) (Vouched-mono env trusted now xs ys f v) live issues s

module _ (env : Env) (correct : SignsCorrectly env) where
  certificate-IsLawful : IsLawful env (certificate_signable env)
  certificate-IsLawful = record { signed_value_set = λ a s. refl; signature_set = λ a s. refl }

  pub issued-verified :
      (secret : DeviceSecret) (subject : DevicePublic) (expiry : Timestamp) (can_issue : Bool)
      → verified_by env
          (issue_certificate env secret subject expiry can_issue)
          (public_key env secret)
        ≡ true
  unfolding verified_by issue_certificate
  issued-verified secret subject expiry can_issue =
      verify-sign env (certificate_signable env) certificate-IsLawful correct
        (record {
          pk = subject;
          expiry = expiry;
          can_issue = can_issue;
          signature = blank_signature;
        })
        secret

  pub self_signed-verified :
      (secret : DeviceSecret) (expiry : Timestamp) (can_issue : Bool)
      → verified_by env (self_signed env secret expiry can_issue) (public_key env secret) ≡ true
  unfolding verified_by self_signed
  self_signed-verified secret expiry can_issue =
      verify-sign env (certificate_signable env) certificate-IsLawful correct
        (record {
          pk = public_key env secret;
          expiry = expiry;
          can_issue = can_issue;
          signature = blank_signature;
        })
        secret

  module _ (trusted : Hash) (now expiry : Timestamp) (can_issue : Bool)
      (secret : DeviceSecret) where
    -- A certificate that a device signs for itself makes a chain that verifies against the hash of
    -- its own key until it expires, with or without the right to issue.
    pub self_signed-chain :
        now < expiry
        → verify_chain env now
            (record { ancestors = []; this = self_signed env secret expiry can_issue })
            (pk_hash env (public_key env secret))
          ≡ ok tt
    unfolding self_signed
    self_signed-chain live =
        let root : DeviceCertificate = self_signed env secret expiry can_issue in
        let own : verified_by env root root.pk ≡ true =
          self_signed-verified secret expiry can_issue in
        let same : (pk_hash env root.pk == pk_hash env (public_key env secret)) ≡ true =
          (nat_beq_iff _ _).1 refl in
        verify_chain_complete env (pk_hash env (public_key env secret)) now _ (record {
          roots_signed = λ c m r. elim m [ inl e ↦ rw e own | inr n ↦ elim n [ ] ];
          live_root = record { root = root; listed = inl refl; is_root = same; live = live };
          all_vouched = λ c m. elim m [ inl e ↦ rw e (rooted root same own) | inr n ↦ elim n [ ] ];
          leaf_live = live;
        })

    -- If a chain verifies and its leaf has the right to issue, then the chain extended by a
    -- certificate that the leaf's key signs for another key verifies until that certificate
    -- expires. The subject must not be the trusted root key.
    pub issue-extend :
        (chain : CertificateChain) (subject : DevicePublic)
        → verify_chain env now chain trusted ≡ ok tt
        → chain.this.pk ≡ public_key env secret
        → chain.this.can_issue ≡ true
        → now < expiry
        → (pk_hash env subject == trusted) ≡ false
        → verify_chain env now
            (extend chain (issue_certificate env secret subject expiry can_issue))
            trusted
          ≡ ok tt
    unfolding issue_certificate
    issue-extend chain subject accepted key issues live other =
        let old : Authentic env trusted now chain =
          verify_chain_sound env trusted now chain accepted in
        let cert : DeviceCertificate = issue_certificate env secret subject expiry can_issue in
        let all : List DeviceCertificate = entries (extend chain cert) in
        let leaf : In chain.this (entries chain) =
          In-append_right chain.this chain.ancestors (chain.this ∷ []) (inl refl) in
        let up : (c : DeviceCertificate) → In c (entries chain) → In c all =
          λ c m. In-append_left c (entries chain) (cert ∷ []) m in
        let signed : verified_by env cert chain.this.pk ≡ true =
          rw key (issued-verified secret subject expiry can_issue) in
        verify_chain_complete env trusted now (extend chain cert) (record {
          roots_signed = λ c m r. elim (In-append_split c (entries chain) (cert ∷ []) m) [
            | inl n ↦ old.roots_signed c n r
            | inr n ↦ elim n [
              | inl e ↦ absurd (true-ne-false (rw e at r) other)
              | inr k ↦ elim k [ ]
            ]
          ];
          live_root = record {
            root = old.live_root.root;
            listed = up old.live_root.root old.live_root.listed;
            is_root = old.live_root.is_root;
            live = old.live_root.live;
          };
          all_vouched = λ c m. elim (In-append_split c (entries chain) (cert ∷ []) m) [
            | inl n ↦ Vouched-mono env trusted now (entries chain) all up (old.all_vouched c n)
            | inr n ↦ elim n [
              | inl e ↦ rw e (
                  issued cert chain.this (up chain.this leaf)
                    (Vouched-mono env trusted now (entries chain) all up
                      (old.all_vouched chain.this leaf))
                    old.leaf_live issues signed)
              | inr k ↦ elim k [ ]
            ]
          ];
          leaf_live = live;
        })
