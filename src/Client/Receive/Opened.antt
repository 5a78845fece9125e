-- ===== src/Client/Receive/Opened.antt =====
-- What an opened entry of dm_recv.rs shows of its signature.
use xirtam_core.Prelude.{
  ◌≡◌, refl, ap, err-ne-ok, none-ne-some, ◌∙◌, inl, inr, true, Option, none, some, ◌==◌, Bool-cases,
  Result, ok, Result-cases, or_fail, or_fail-eq-ok, >>=-eq-ok, ok-inj, some-inj, subst, string_eq,
  nat_eq, pair_eq,
}
use xirtam_core.Structs.{Bytes, Hash, Timestamp, UserName, Blob, Attachment}
use xirtam_core.Env.{Env}
use xirtam_core.Certificate.{last_device}
use xirtam_core.E2ee.{
  Ciphers, DeviceSigned, DeviceSignedError, HeaderEncrypted, Event, verify_blob, verify_bytes,
  chain_ok, v1_message_content,
}
use xirtam_core.E2ee.Signed.{verify_bytes_sound}
use xirtam_core.Client.Receive.{
  Identity, malformed, unknown_sender, decrypt_either, verified, open_event, read_content,
  v1_direct_message,
}

or_fail-eq-some {ℓ κ} :
    {E : Type ℓ} {A : Type κ} (o : Option A) (e : E) {x : A} → or_fail o e ≡ ok x → o ≡ some x
or_fail-eq-some none e h = absurd (err-ne-ok h)
or_fail-eq-some (some y) e h = ap some (ok-inj h)

module _ (env : Env) (ciphers : Ciphers) (bcs_read_encrypted : Bytes → Option HeaderEncrypted)
    (json_read_attachment : Bytes → Option Attachment) (bcs_attachment : Attachment → Bytes)
    (root_hash : UserName → Option Hash) (now : Timestamp) where
  -- An event that a device of its sender signed, under the root that the directory names.
  pub record SignedEvent (sender : UserName) (content : Event) : Type 0 where
    pub signed : DeviceSigned
    pub body : Bytes
    pub message : Blob
    pub root : Hash
    pub named : signed.sender ≡ sender
    pub known : root_hash sender ≡ some root
    pub chained : chain_ok env ciphers now signed.cert_chain root ≡ true
    pub signs :
        env.ed25519_verify
          (last_device signed.cert_chain).pk
          signed.signature
          (ciphers.bcs_signed_body sender signed.cert_chain body)
        ≡ true
    pub reads : ciphers.bcs_read_blob body ≡ some message
    pub kind : message.kind ≡ v1_message_content
    pub event : ciphers.bcs_read_event message.inner ≡ some content

  verified-reads :
      (root : Hash) (signed : DeviceSigned) (message : Blob)
      → verified env ciphers bcs_read_encrypted json_read_attachment bcs_attachment root_hash now
          signed root
        ≡ ok message
      → (body : Bytes) × (verify_bytes env ciphers now root signed ≡ ok body)
        × (ciphers.bcs_read_blob body ≡ some message)
  unfolding verified verify_blob
  verified-reads root signed message h =
      elim (Result-cases (verify_blob env ciphers now root signed)) [
        | inl (x, e) ↦ absurd (err-ne-ok (rw (e, verified) at h))
        | inr (blob, e) ↦
            let (body, is_body, reads) = >>=-eq-ok (verify_bytes env ciphers now root signed) _ e in
            let same : ◌≡◌ {A = Result DeviceSignedError Blob} (ok blob) (ok message) =
              ap ok (ok-inj (rw (e, verified) at h)) in
            (body, is_body, or_fail-eq-some (ciphers.bcs_read_blob body) _ (reads ∙ same))
      ]

  read_content_sound :
      (sender : UserName) (message : Blob) (opened : UserName × Event)
      → read_content env ciphers bcs_read_encrypted json_read_attachment bcs_attachment root_hash
          now sender message
        ≡ ok (some opened)
      → (content : Event) × (message.kind ≡ v1_message_content)
        × (ciphers.bcs_read_event message.inner ≡ some content)
        × ((sender, content) ≡ opened)
  unfolding read_content
  read_content_sound sender message opened h =
      elim (Bool-cases (message.kind == v1_message_content)) [
        | inr e ↦ absurd (none-ne-some (ok-inj (rw (e, read_content) at h)))
        | inl e ↦
            let (content, reads, same) =
              or_fail-eq-ok (ciphers.bcs_read_event message.inner) malformed _
                (rw (e, read_content) at h) in
            (content, (string_eq.same_iff _ _).0 e, reads, some-inj (ok-inj same))
      ]

  signed_event_lem :
      (signed : DeviceSigned) (root : Hash) (message : Blob) (opened : UserName × Event)
      → root_hash signed.sender ≡ some root
      → verified env ciphers bcs_read_encrypted json_read_attachment bcs_attachment root_hash now
          signed root
        ≡ ok message
      → read_content env ciphers bcs_read_encrypted json_read_attachment bcs_attachment root_hash
          now signed.sender message
        ≡ ok (some opened)
      → SignedEvent opened.0 opened.1
  signed_event_lem signed root message opened known verifies h =
      let (content, kind, event, same) = read_content_sound signed.sender message opened h in
      let (body, is_body, reads) = verified-reads root signed message verifies in
      let (chained, signs) = verify_bytes_sound env ciphers now root signed body is_body in
      subst (λ o. SignedEvent o.0 o.1) same
        (record {
          signed = signed;
          body = body;
          message = message;
          root = root;
          named = refl;
          known = known;
          chained = chained;
          signs = signs;
          reads = reads;
          kind = kind;
          event = event;
        })

  pub open_event_sound :
      (identity : Identity) (outer : Blob) (opened : UserName × Event)
      → open_event env ciphers bcs_read_encrypted json_read_attachment bcs_attachment root_hash now
          identity outer
        ≡ ok (some opened)
      → SignedEvent opened.0 opened.1
  unfolding open_event
  open_event_sound identity outer opened h = elim (Bool-cases (outer.kind == v1_direct_message)) [
    | inr e ↦ absurd (none-ne-some (ok-inj (rw (e, open_event) at h)))
    | inl e ↦
        let (encrypted, _, h1) =
          or_fail-eq-ok (bcs_read_encrypted outer.inner) malformed _ (rw (e, open_event) at h) in
        let (decrypted, _, h2) =
          >>=-eq-ok
            (decrypt_either env ciphers bcs_read_encrypted json_read_attachment bcs_attachment
              root_hash now identity encrypted)
            _ h1 in
        let (signed, _, h3) = or_fail-eq-ok (ciphers.bcs_read_signed decrypted) malformed _ h2 in
        let (root, known, h4) = or_fail-eq-ok (root_hash signed.sender) unknown_sender _ h3 in
        let (message, verifies, h5) =
          >>=-eq-ok
            (verified env ciphers bcs_read_encrypted json_read_attachment bcs_attachment root_hash
              now signed root)
            _ h4 in
        signed_event_lem signed root message opened known verifies h5
  ]
