-- ===== src/E2ee/Messages.antt =====
-- Messages from end to end: a direct message through headers, a group message under a group key.
use xirtam_core.Prelude.{
  ◌≡◌, refl, sym, ◌∙◌, ap, inl, inr, ◌⊎◌, true, some, List, [], In, ok, or_fail-eq-ok, ok-inj,
}
use xirtam_core.Structs.{
  Bytes, Hash, Timestamp, DhPublic, UserName, Blob, CertificateChain, DeviceSecret,
}
use xirtam_core.Env.{Env, SignsCorrectly}
use xirtam_core.Crypto.{public_key}
use xirtam_core.Certificate.{last_device}
use xirtam_core.E2ee.{
  Ciphers, IsSound, DhSecret, AeadKey, Nonce, DeviceSigned, HeaderEncrypted, GroupMessage, Event,
  sign_blob, chain_ok, verify_blob, encrypt_bytes, decrypt_bytes, message_blob, encrypt_message,
  decrypt_message,
}
use xirtam_core.E2ee.Signed.{verify_blob-sign_blob}
use xirtam_core.E2ee.Headers.{WrongKey, decrypt_bytes-encrypt_bytes}

module _ (env : Env) (ciphers : Ciphers) (sound : IsSound ciphers) (correct : SignsCorrectly env)
    (now : Timestamp) (root : Hash) (sender : UserName) (chain : CertificateChain)
    (device : DeviceSecret) (chained : chain_ok env ciphers now chain root ≡ true)
    (holds : (last_device chain).pk ≡ public_key env device) where
  -- Let the chain of the sending device verify against the root of the sender. What the device signs
  -- and seals for some recipients, each of them decrypts, decodes and verifies to the message that
  -- was sent, or a key that the sender did not use opens the body to something else.
  pub direct_message_read :
      (esk recipient : DhSecret) (key : AeadKey) (message : Blob) (recipients : List DhPublic)
      (sealed : HeaderEncrypted)
      → encrypt_bytes env ciphers esk key
          (ciphers.bcs_signed (sign_blob env ciphers message sender chain device))
          recipients
        ≡ ok sealed
      → In (ciphers.x25519_public recipient) recipients
      → ((bytes : Bytes) × (signed : DeviceSigned) × (decrypt_bytes env ciphers recipient sealed
            ≡ ok bytes)
          × (ciphers.bcs_read_signed bytes ≡ some signed)
          × (verify_blob env ciphers now root signed ≡ ok message))
        ⊎ WrongKey env ciphers sealed.body
            (ciphers.bcs_header_aad sealed.sender_epk sealed.headers)
            (ciphers.bcs_signed (sign_blob env ciphers message sender chain device))
  direct_message_read esk recipient key message recipients sealed h m =
      let signed = sign_blob env ciphers message sender chain device in
      elim (decrypt_bytes-encrypt_bytes env ciphers sound esk recipient key
        (ciphers.bcs_signed signed) recipients sealed h m) [
          | inr wrong ↦ inr wrong
          | inl opened ↦ inl (
            ciphers.bcs_signed signed,
            signed,
            opened,
            sound.signed_back signed,
            verify_blob-sign_blob env ciphers now root correct sound message sender chain device
                chained holds,
          )
        ]

  -- Let the chain of the sending device verify against the root of the sender. What the device
  -- encrypts under a key of a group, whoever has the key decrypts, and it verifies to the blob of the
  -- event that was sent.
  pub group_message_read :
      (nonce : Nonce) (event : Event) (key : AeadKey) (message : GroupMessage)
      → encrypt_message env ciphers nonce event sender chain device key ≡ ok message
      → (signed : DeviceSigned) × (decrypt_message env ciphers key message ≡ ok signed)
        × (verify_blob env ciphers now root signed ≡ ok (message_blob env ciphers event))
        × (ciphers.bcs_read_event (message_blob env ciphers event).inner ≡ some event)
  unfolding encrypt_message decrypt_message message_blob
  group_message_read nonce event key message h =
      let signed = sign_blob env ciphers (message_blob env ciphers event) sender chain device in
      let (ciphertext, sealed, h1) =
        or_fail-eq-ok (ciphers.aead_encrypt key nonce (ciphers.bcs_signed signed) []) _ _ h in
      let opened : ciphers.aead_decrypt key nonce ciphertext [] ≡ some (ciphers.bcs_signed signed) =
        sound.opens key nonce (ciphers.bcs_signed signed) [] ciphertext sealed in
      let read : decrypt_message env ciphers key (record { nonce = nonce; ciphertext = ciphertext })
          ≡ ok signed =
        rw (opened, sound.signed_back signed) refl in
      (
        signed,
        ap (decrypt_message env ciphers key) (sym (ok-inj h1)) ∙ read,
        verify_blob-sign_blob env ciphers now root correct sound (message_blob env ciphers event)
            sender chain device chained holds,
        sound.event_back event,
      )
