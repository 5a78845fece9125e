-- ===== src/E2ee/Headers.antt =====
-- Header encryption: every recipient can open what was sealed for it.
use xirtam_core.Prelude.{
  ℕ, ◌≡◌, ◌≢◌, refl, sym, ◌∙◌, ap, subst, inl, inr, ◌⊎◌, true, none, some, List, [], ◌∷◌, length,
  In, ◌==◌, nat_eq, nat_beq_iff, Bool-cases, Option-cases, none-ne-some, ok, >>=-eq-ok,
  or_fail-eq-ok, guard-eq-ok, ok-inj, true-ne-false, false-ne-true, if◌then◌else◌,
}
use xirtam_core.Structs.{Bytes, DhPublic}
use xirtam_core.Env.{Env}
use xirtam_core.E2ee.{
  Ciphers, IsSound, DhSecret, AeadKey, zero_nonce, EncryptionHeader, HeaderEncrypted, dh_error,
  no_recipients, bytes_beq, diffie_hellman, mpk_short, seal_headers, some_headers, encrypt_bytes,
  open_header, try_headers, decrypt_bytes,
}

bytes_beq_refl : (bs : Bytes) → bytes_beq bs bs ≡ true
bytes_beq_refl [] = refl
bytes_beq_refl (b ∷ bs) = rw ((nat_beq_iff b b).1 refl) (bytes_beq_refl bs)

bytes_beq-eq : (xs ys : Bytes) → bytes_beq xs ys ≡ true → xs ≡ ys
bytes_beq-eq [] [] h = refl
bytes_beq-eq [] (y ∷ ys) h = cc
bytes_beq-eq (x ∷ xs) [] h = cc
bytes_beq-eq (x ∷ xs) (y ∷ ys) h = elim (Bool-cases (x == y)) [
  | inr other ↦ absurd (false-ne-true (rw other at h))
  | inl same ↦
      let heads : x ≡ y = (nat_beq_iff x y).0 same in
      let tails = bytes_beq-eq xs ys (rw same at h) in cc
]

module _ (env : Env) (ciphers : Ciphers) where
  -- A key that the sender did not use opens the body to something else.
  pub record WrongKey (body aad plaintext : Bytes) : Type 0 where
    pub key : AeadKey
    pub other : Bytes
    pub opened : ciphers.aead_decrypt key zero_nonce body aad ≡ some other
    pub differs : other ≢ plaintext

  module _ (sound : IsSound ciphers) (esk : DhSecret) (recipient : DhSecret) where
    diffie_hellman-agree :
        diffie_hellman env ciphers recipient (ciphers.x25519_public esk)
        ≡ diffie_hellman env ciphers esk (ciphers.x25519_public recipient)
    unfolding diffie_hellman
    diffie_hellman-agree = ap (λ ss. if ss == 0 then none else some ss) (sound.agree recipient esk)

    -- the header that `seal_headers` makes for a recipient
    abbrev header_for : ℕ → Bytes → EncryptionHeader
    header_for ss key_bytes = record {
      receiver_mpk_short = mpk_short env ciphers (ciphers.x25519_public recipient);
      receiver_key = ciphers.keystream ss zero_nonce key_bytes;
    }

    seal_headers-In :
        (key_bytes : Bytes) (recipients : List DhPublic) (headers : List EncryptionHeader)
        → In (ciphers.x25519_public recipient) recipients
        → seal_headers env ciphers esk key_bytes recipients ≡ ok headers
        → (ss : ℕ) × (diffie_hellman env ciphers esk (ciphers.x25519_public recipient) ≡ some ss)
          × In (header_for ss key_bytes) headers
    unfolding seal_headers
    seal_headers-In key_bytes [] headers m h = elim m [ ]
    seal_headers-In key_bytes (mpk ∷ recipients) headers m h =
        let (ss, agreed, h1) = or_fail-eq-ok (diffie_hellman env ciphers esk mpk) dh_error _ h in
        let (rest, sealed, h2) =
          >>=-eq-ok (seal_headers env ciphers esk key_bytes recipients) _ h1 in
        elim m [
          | inl e ↦
              let first : In (header_for ss key_bytes) (_ ∷ rest) = inl (
                ap
                  (λ k. record {
                    receiver_mpk_short = mpk_short env ciphers k;
                    receiver_key = ciphers.keystream ss zero_nonce key_bytes;
                  })
                  e) in
              (ss, ap (diffie_hellman env ciphers esk) e ∙ agreed, subst (In _) (ok-inj h2) first)
          | inr m' ↦
              let (ss', agreed', there) = seal_headers-In key_bytes recipients rest m' sealed in
              (ss', agreed', subst (In _) (ok-inj h2) (inr there))
        ]

    open_header-own :
        (ss : ℕ) (key : AeadKey) (plaintext aad body : Bytes)
        → ciphers.aead_encrypt key zero_nonce plaintext aad ≡ some body
        → open_header env ciphers ss body aad (header_for ss (ciphers.aead_key_bytes key))
          ≡ some plaintext
    unfolding open_header
    open_header-own ss key plaintext aad body sealed =
        rw
          (
            sound.undone ss zero_nonce (ciphers.aead_key_bytes key),
            (nat_beq_iff (length (ciphers.aead_key_bytes key)) 32).1 (sound.key_size key),
            sound.key_back key,
          )
          (sound.opens key zero_nonce plaintext aad body sealed)

    -- what a body opened to is the plaintext, or a wrong key opened it
    abbrev Opened : Bytes → Bytes → Bytes → Bytes → Type 0
    Opened body aad plaintext p = (p ≡ plaintext) ⊎ WrongKey body aad plaintext

    open_header-Opened :
        (ss : ℕ) (body aad plaintext p : Bytes) (header : EncryptionHeader)
        → open_header env ciphers ss body aad header ≡ some p
        → Opened body aad plaintext p
    unfolding open_header
    open_header-Opened ss body aad plaintext p header h =
        let bytes = ciphers.keystream ss zero_nonce header.receiver_key in
        elim (Bool-cases (bytes_beq p plaintext)) [
          | inl same ↦ inl (bytes_beq-eq p plaintext same)
          | inr other ↦ elim (Bool-cases (length bytes == 32)) [
            | inr short ↦ absurd (none-ne-some (rw short at h))
            | inl sized ↦ inr (record {
              key = ciphers.aead_key_from_bytes bytes;
              other = p;
              opened = rw sized at h;
              differs = λ e. true-ne-false (ap (bytes_beq p) (sym e) ∙ bytes_beq_refl p) other;
            })
          ]
        ]

    try_headers-found :
        (ss : ℕ) (key_bytes body aad plaintext : Bytes) (headers : List EncryptionHeader)
        → In (header_for ss key_bytes) headers
        → open_header env ciphers ss body aad (header_for ss key_bytes) ≡ some plaintext
        → (p : Bytes) × (try_headers env ciphers
              (mpk_short env ciphers (ciphers.x25519_public recipient))
              ss
              body
              aad
              headers
            ≡ ok p)
          × Opened body aad plaintext p
    unfolding try_headers
    try_headers-found ss key_bytes body aad plaintext [] m own = elim m [ ]
    try_headers-found ss key_bytes body aad plaintext (header ∷ headers) m own =
        let short = mpk_short env ciphers (ciphers.x25519_public recipient) in
        elim (Option-cases (open_header env ciphers ss body aad header)) [
          | inr (p, opened) ↦ elim (Bool-cases (bytes_beq header.receiver_mpk_short short)) [
            | inl meant ↦ (
              p,
              rw (meant, try_headers) (rw opened refl),
              open_header-Opened ss body aad plaintext p header opened,
            )
            | inr foreign ↦ elim m [
              | inl e ↦ absurd (
                  true-ne-false
                    (ap (λ (x : EncryptionHeader). bytes_beq x.receiver_mpk_short short) (sym e)
                      ∙ bytes_beq_refl short)
                    foreign)
              | inr m' ↦
                  rw (foreign, try_headers)
                    (try_headers-found ss key_bytes body aad plaintext headers m' own)
            ]
          ]
          | inl stuck ↦ elim m [
            | inl e ↦
                absurd (
                  none-ne-some (sym stuck ∙ ap (open_header env ciphers ss body aad) (sym e) ∙ own))
            | inr m' ↦
                let rest = try_headers-found ss key_bytes body aad plaintext headers m' own in
                elim (Bool-cases (bytes_beq header.receiver_mpk_short short)) [
                  | inl meant ↦ rw (meant, try_headers) (rw stuck rest)
                  | inr foreign ↦ rw (foreign, try_headers) rest
                ]
          ]
        ]

    -- what `encrypt_bytes` made
    pub record Sealed (key : AeadKey) (plaintext : Bytes) (recipients : List DhPublic)
        (sealed : HeaderEncrypted) : Type 0 where
      pub epk : sealed.sender_epk ≡ ciphers.x25519_public esk
      pub headers :
          seal_headers env ciphers esk (ciphers.aead_key_bytes key) recipients ≡ ok sealed.headers
      pub body :
          ciphers.aead_encrypt key zero_nonce plaintext
            (ciphers.bcs_header_aad (ciphers.x25519_public esk) sealed.headers)
          ≡ some sealed.body

    encrypt_bytes-Sealed :
        (key : AeadKey) (plaintext : Bytes) (recipients : List DhPublic) (sealed : HeaderEncrypted)
        → encrypt_bytes env ciphers esk key plaintext recipients ≡ ok sealed
        → Sealed key plaintext recipients sealed
    unfolding encrypt_bytes
    encrypt_bytes-Sealed key plaintext recipients sealed h =
        let (headers, made, h1) =
          >>=-eq-ok (seal_headers env ciphers esk (ciphers.aead_key_bytes key) recipients) _ h in
        let (some', h2) = guard-eq-ok (some_headers headers) no_recipients _ h1 in
        let (body, sealed_body, h3) =
          or_fail-eq-ok
            (ciphers.aead_encrypt key zero_nonce plaintext
              (ciphers.bcs_header_aad (ciphers.x25519_public esk) headers))
            _ _ h2 in
        subst (Sealed key plaintext recipients) (ok-inj h3)
          (record { epk = refl; headers = made; body = sealed_body })

    -- Whatever recipients a plaintext is sealed for, each of them decrypts what was sealed to the
    -- plaintext, or a key that the sender did not use opens the body to something else.
    pub decrypt_bytes-encrypt_bytes :
        (key : AeadKey) (plaintext : Bytes) (recipients : List DhPublic) (sealed : HeaderEncrypted)
        → encrypt_bytes env ciphers esk key plaintext recipients ≡ ok sealed
        → In (ciphers.x25519_public recipient) recipients
        → (decrypt_bytes env ciphers recipient sealed ≡ ok plaintext)
          ⊎ WrongKey sealed.body (ciphers.bcs_header_aad sealed.sender_epk sealed.headers) plaintext
    unfolding decrypt_bytes
    decrypt_bytes-encrypt_bytes key plaintext recipients sealed h m =
        let made = encrypt_bytes-Sealed key plaintext recipients sealed h in
        let (ss, agreed, there) =
          seal_headers-In (ciphers.aead_key_bytes key) recipients sealed.headers m made.headers in
        let aad = ciphers.bcs_header_aad sealed.sender_epk sealed.headers in
        let body : ciphers.aead_encrypt key zero_nonce plaintext aad ≡ some sealed.body =
          ap
            (λ k.
              ciphers.aead_encrypt key zero_nonce plaintext
                (ciphers.bcs_header_aad k sealed.headers))
            made.epk
          ∙ made.body in
        let (p, tried, opened) =
          try_headers-found ss (ciphers.aead_key_bytes key) sealed.body aad plaintext sealed.headers
            there (open_header-own ss key plaintext aad sealed.body body) in
        let shared : diffie_hellman env ciphers recipient sealed.sender_epk ≡ some ss =
          ap (diffie_hellman env ciphers recipient) made.epk ∙ diffie_hellman-agree ∙ agreed in
        elim opened [
          | inl same ↦ inl (rw (shared, decrypt_bytes) (tried ∙ ap ok same))
          | inr wrong ↦ inr wrong
        ]
