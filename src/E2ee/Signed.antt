-- ===== src/E2ee/Signed.antt =====
-- Device-signed payloads: what is signed verifies, and what verifies is signed.
use xirtam_core.Prelude.{◌≡◌, refl, ◌∙◌, ap, subst, true, ok, guard-eq-ok, guard-true, ok-inj}
use xirtam_core.Structs.{
  Bytes, Hash, Timestamp, UserName, Blob, CertificateChain, DeviceSecret, blank_signature,
}
use xirtam_core.Env.{Env, SignsCorrectly}
use xirtam_core.Crypto.{IsLawful, sign, verify, public_key, verify-sign}
use xirtam_core.Certificate.{last_device}
use xirtam_core.E2ee.{
  Ciphers, IsSound, DeviceSigned, signed_signable, sign_bytes, sign_blob, chain_ok, verify_bytes,
  verify_blob,
}

module _ (env : Env) (ciphers : Ciphers) where
  signed-IsLawful : IsLawful env (signed_signable env ciphers)
  signed-IsLawful = record { signed_value_set = λ a s. refl; signature_set = λ a s. refl }

  module _ (now : Timestamp) (root : Hash) where
    pub verify_bytes-sign_bytes :
        SignsCorrectly env
        → (body : Bytes) (sender : UserName) (chain : CertificateChain) (device : DeviceSecret)
        → chain_ok env ciphers now chain root ≡ true
        → (last_device chain).pk ≡ public_key env device
        → verify_bytes env ciphers now root (sign_bytes env ciphers body sender chain device)
          ≡ ok body
    unfolding verify_bytes sign_bytes sign verify
    verify_bytes-sign_bytes correct body sender chain device chained holds =
        let blank : DeviceSigned = record {
          sender = sender;
          cert_chain = chain;
          body = body;
          signature = blank_signature;
        } in
        let good : verify env (signed_signable env ciphers)
              (sign env (signed_signable env ciphers) blank device) (last_device chain).pk
            ≡ true =
          ap
            (verify env (signed_signable env ciphers)
              (sign env (signed_signable env ciphers) blank device))
            holds
          ∙ verify-sign env (signed_signable env ciphers) signed-IsLawful correct blank device in
        guard-true (chain_ok env ciphers now chain root) _ _ chained ∙ guard-true _ _ _ good

    pub verify_blob-sign_blob :
        SignsCorrectly env
        → IsSound ciphers
        → (message : Blob) (sender : UserName) (chain : CertificateChain) (device : DeviceSecret)
        → chain_ok env ciphers now chain root ≡ true
        → (last_device chain).pk ≡ public_key env device
        → verify_blob env ciphers now root (sign_blob env ciphers message sender chain device)
          ≡ ok message
    unfolding verify_blob sign_blob
    verify_blob-sign_blob correct sound message sender chain device chained holds =
        rw
          (
            verify_bytes-sign_bytes correct (ciphers.bcs_blob message) sender chain device chained
                holds,
            sound.blob_back message,
          )
          refl

    -- What verifies comes with a chain that verifies against the root, and with a signature of the
    -- chain's device over the sender, the chain and the body.
    pub verify_bytes_sound :
        (signed : DeviceSigned) (body : Bytes)
        → verify_bytes env ciphers now root signed ≡ ok body
        → (chain_ok env ciphers now signed.cert_chain root ≡ true)
          × (env.ed25519_verify
                (last_device signed.cert_chain).pk
                signed.signature
                (ciphers.bcs_signed_body signed.sender signed.cert_chain body)
              ≡ true)
    unfolding verify_bytes verify
    verify_bytes_sound signed body h =
        let (chained, h1) = guard-eq-ok (chain_ok env ciphers now signed.cert_chain root) _ _ h in
        let (good, h2) = guard-eq-ok _ _ _ h1 in
        (
          chained,
          subst
              (λ b.
                env.ed25519_verify (last_device signed.cert_chain).pk signed.signature
                  (ciphers.bcs_signed_body signed.sender signed.cert_chain b)
                ≡ true)
              (ok-inj h2) good,
        )
