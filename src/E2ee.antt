-- ===== src/E2ee.antt =====
-- End-to-end encryption: e2ee.rs and the messages of group.rs of libraries/nullspace-structs/src,
-- over aead.rs, dh.rs and stream.rs of libraries/nullspace-crypt/src. Random keys and nonces, and the
-- clock, are arguments.
use xirtam_core.Prelude.{
  ℕ, Bool, true, false, Option, none, some, List, [], ◌∷◌, map, length, take, String, ◌==◌, nat_eq,
  Result, ok, err, guard, or_fail, ◌>>=◌, ◌>>◌, if◌then◌else◌, Comparable, ◌&&◌, ◌≡◌,
}
use xirtam_core.Structs.{
  Bytes, Hash, SigningPublic, SigningSecret, Signature, Timestamp, NanoTimestamp, DhPublic,
  UserName, Blob, CertificateChain, DeviceSecret, blank_signature,
}
use xirtam_core.Env.{Env}
use xirtam_core.Crypto.{Signable, digest, sign, verify}
use xirtam_core.Certificate.{last_device, verify_chain}
pub mod Signed
pub mod Headers
pub mod Messages

-- [u8; 32] and [u8; 24]
abbrev pub DhSecret : Type 0
DhSecret = ℕ

abbrev pub AeadKey : Type 0
AeadKey = ℕ

abbrev pub Nonce : Type 0
Nonce = ℕ

abbrev pub zero_nonce : Nonce
zero_nonce = 0

pub record DeviceSigned : Type 0 where
  pub sender : UserName
  pub cert_chain : CertificateChain
  pub body : Bytes
  pub signature : Signature

pub record EncryptionHeader : Type 0 where
  pub receiver_mpk_short : Bytes
  pub receiver_key : Bytes

pub record HeaderEncrypted : Type 0 where
  pub sender_epk : DhPublic
  pub headers : List EncryptionHeader
  pub body : Bytes

pub record GroupMessage : Type 0 where
  pub nonce : Nonce
  pub ciphertext : Bytes

-- event.rs
pub data Recipient : Type 0 where
  user : UserName → Recipient
  group : Hash → Recipient

pub record Event : Type 0 where
  pub recipient : Recipient
  pub sent_at : NanoTimestamp
  pub mime : String
  pub body : Bytes

abbrev pub v1_message_content : String
v1_message_content = "v1.message_content"

pub data DeviceSignedError : Type 0 where
  decode_error verify_error : DeviceSignedError

pub data HeaderEncryptionError : Type 0 where
  encrypt_error decrypt_error dh_error no_recipients : HeaderEncryptionError

pub data GroupMessageError : Type 0 where
  encrypt_error decrypt_error decode_error : GroupMessageError

-- The packages x25519-dalek, chacha20, chacha20poly1305, and BCS of the types of this file.
pub record Ciphers : Type 0 where
  pub x25519_public : DhSecret → DhPublic
  pub x25519 : DhSecret → DhPublic → ℕ
  -- apply_keystream, under a key and a nonce
  pub keystream : ℕ → Nonce → Bytes → Bytes
  pub aead_encrypt : AeadKey → Nonce → Bytes → Bytes → Option Bytes
  pub aead_decrypt : AeadKey → Nonce → Bytes → Bytes → Option Bytes
  pub aead_key_bytes : AeadKey → Bytes
  pub aead_key_from_bytes : Bytes → AeadKey
  pub bcs_dh_public : DhPublic → Bytes
  pub bcs_header_aad : DhPublic → List EncryptionHeader → Bytes
  pub bcs_signed_body : UserName → CertificateChain → Bytes → Bytes
  pub bcs_blob : Blob → Bytes
  pub bcs_read_blob : Bytes → Option Blob
  pub bcs_event : Event → Bytes
  pub bcs_read_event : Bytes → Option Event
  pub bcs_signed : DeviceSigned → Bytes
  pub bcs_read_signed : Bytes → Option DeviceSigned

-- What the packages document: both sides of X25519 agree, a keystream undoes itself, what is sealed
-- opens, a key is 32 bytes, and BCS reads back what it wrote.
pub record IsSound (ciphers : Ciphers) : Type 0 where
  pub agree :
      (a b : DhSecret)
      → ciphers.x25519 a (ciphers.x25519_public b) ≡ ciphers.x25519 b (ciphers.x25519_public a)
  pub undone :
      (key : ℕ) (nonce : Nonce) (bytes : Bytes)
      → ciphers.keystream key nonce (ciphers.keystream key nonce bytes) ≡ bytes
  pub opens :
      (key : AeadKey) (nonce : Nonce) (plaintext aad ciphertext : Bytes)
      → ciphers.aead_encrypt key nonce plaintext aad ≡ some ciphertext
      → ciphers.aead_decrypt key nonce ciphertext aad ≡ some plaintext
  pub key_size : (key : AeadKey) → length (ciphers.aead_key_bytes key) ≡ 32
  pub key_back : (key : AeadKey) → ciphers.aead_key_from_bytes (ciphers.aead_key_bytes key) ≡ key
  pub blob_back : (blob : Blob) → ciphers.bcs_read_blob (ciphers.bcs_blob blob) ≡ some blob
  pub event_back : (event : Event) → ciphers.bcs_read_event (ciphers.bcs_event event) ≡ some event
  pub signed_back :
      (signed : DeviceSigned) → ciphers.bcs_read_signed (ciphers.bcs_signed signed) ≡ some signed

-- `[u8; 2]`'s equality
abbrev pub bytes_beq : Bytes → Bytes → Bool
bytes_beq [] [] = true
bytes_beq [] (b ∷ bs) = false
bytes_beq (x ∷ xs) [] = false
bytes_beq (x ∷ xs) (b ∷ bs) = x == b && bytes_beq xs bs

-- `!headers.is_empty()`
abbrev pub some_headers : List EncryptionHeader → Bool
some_headers [] = false
some_headers (_ ∷ _) = true

module _ (env : Env) (ciphers : Ciphers) where
  -- impl Signable for DeviceSigned
  abbrev pub signed_signable : Signable DeviceSigned
  signed_signable = record {
    signed_value = λ s. ciphers.bcs_signed_body s.sender s.cert_chain s.body;
    signature = λ s. s.signature;
    set_signature = λ s x. record s { signature = x };
  }

  unfoldable pub sign_bytes : Bytes → UserName → CertificateChain → DeviceSecret → DeviceSigned
  unfolding sign
  sign_bytes body sender cert_chain sender_device =
      sign env signed_signable
        (record {
          sender = sender;
          cert_chain = cert_chain;
          body = body;
          signature = blank_signature;
        })
        sender_device

  unfoldable pub sign_blob : Blob → UserName → CertificateChain → DeviceSecret → DeviceSigned
  sign_blob message sender cert_chain sender_device =
      sign_bytes (ciphers.bcs_blob message) sender cert_chain sender_device

  -- `verify_chain(..).is_ok()`
  abbrev pub chain_ok : Timestamp → CertificateChain → Hash → Bool
  chain_ok now chain root = elim (verify_chain env now chain root) [ ok _ ↦ true | err _ ↦ false ]

  unfoldable pub verify_bytes : Timestamp → Hash → DeviceSigned → Result DeviceSignedError Bytes
  unfolding verify
  verify_bytes now sender_root_hash signed = do
    guard (chain_ok now signed.cert_chain sender_root_hash) verify_error
    guard (verify env signed_signable signed (last_device signed.cert_chain).pk) verify_error
    ok signed.body

  unfoldable pub verify_blob : Timestamp → Hash → DeviceSigned → Result DeviceSignedError Blob
  verify_blob now sender_root_hash signed = do
    body ← verify_bytes now sender_root_hash signed
    or_fail (ciphers.bcs_read_blob body) decode_error

  -- `DhSecret::diffie_hellman`, none for the shared secret of zeros
  unfoldable pub diffie_hellman : DhSecret → DhPublic → Option ℕ
  diffie_hellman secret peer =
      let ss = ciphers.x25519 secret peer in if ss == 0 then none else some ss

  -- the first two bytes of the key's hash
  unfoldable pub mpk_short : DhPublic → Bytes
  mpk_short mpk = take 2 (env.hash_bytes (digest env (ciphers.bcs_dh_public mpk)))

  -- the loop over the recipients
  unfoldable pub seal_headers :
      DhSecret → Bytes → List DhPublic → Result HeaderEncryptionError (List EncryptionHeader)
  seal_headers sender_esk key_bytes [] = ok []
  seal_headers sender_esk key_bytes (recipient_mpk ∷ recipients) = do
    ss ← or_fail (diffie_hellman sender_esk recipient_mpk) dh_error
    headers ← seal_headers sender_esk key_bytes recipients
    ok (
        record {
          receiver_mpk_short = mpk_short recipient_mpk;
          receiver_key = ciphers.keystream ss zero_nonce key_bytes;
        }
        ∷ headers)

  unfoldable pub encrypt_bytes :
      DhSecret → AeadKey → Bytes → List DhPublic → Result HeaderEncryptionError HeaderEncrypted
  encrypt_bytes sender_esk key plaintext recipients = do
    headers ← seal_headers sender_esk (ciphers.aead_key_bytes key) recipients
    guard (some_headers headers) no_recipients
    ciphertext ←
        or_fail
          (ciphers.aead_encrypt key zero_nonce plaintext
            (ciphers.bcs_header_aad (ciphers.x25519_public sender_esk) headers))
          encrypt_error
    ok (record {
      sender_epk = ciphers.x25519_public sender_esk;
      headers = headers;
      body = ciphertext;
    })

  -- what one header opens to, if its key has the right size and opens the body
  unfoldable pub open_header : ℕ → Bytes → Bytes → EncryptionHeader → Option Bytes
  open_header ss body aad header =
      let key_bytes = ciphers.keystream ss zero_nonce header.receiver_key in
      if length key_bytes == 32
      then ciphers.aead_decrypt (ciphers.aead_key_from_bytes key_bytes) zero_nonce body aad
      else none

  -- the loop over the headers with the short hash of the recipient
  unfoldable pub try_headers :
      Bytes → ℕ → Bytes → Bytes → List EncryptionHeader → Result HeaderEncryptionError Bytes
  try_headers short ss body aad [] = err decrypt_error
  try_headers short ss body aad (header ∷ headers) =
      let rest = try_headers short ss body aad headers in
      if bytes_beq header.receiver_mpk_short short
      then elim (open_header ss body aad header) [ some plaintext ↦ ok plaintext | none ↦ rest ]
      else rest

  unfoldable pub decrypt_bytes : DhSecret → HeaderEncrypted → Result HeaderEncryptionError Bytes
  decrypt_bytes recipient_medium sealed = do
    ss ← or_fail (diffie_hellman recipient_medium sealed.sender_epk) dh_error
    try_headers (mpk_short (ciphers.x25519_public recipient_medium)) ss sealed.body
        (ciphers.bcs_header_aad sealed.sender_epk sealed.headers) sealed.headers

  -- the blob of an event
  unfoldable pub message_blob : Event → Blob
  message_blob message = record { kind = v1_message_content; inner = ciphers.bcs_event message }

  -- GroupMessage::encrypt_message and decrypt_message
  unfoldable pub encrypt_message :
      Nonce
      → Event
      → UserName
      → CertificateChain
      → DeviceSecret
      → AeadKey
      → Result GroupMessageError GroupMessage
  encrypt_message nonce message sender_username sender_chain sender_device key = do
    ciphertext ←
        or_fail
          (ciphers.aead_encrypt key nonce
            (ciphers.bcs_signed
              (sign_blob (message_blob message) sender_username sender_chain sender_device))
            [])
          encrypt_error
    ok (record { nonce = nonce; ciphertext = ciphertext })

  unfoldable pub decrypt_message : AeadKey → GroupMessage → Result GroupMessageError DeviceSigned
  decrypt_message key message = do
    plaintext ← or_fail (ciphers.aead_decrypt key message.nonce message.ciphertext []) decrypt_error
    or_fail (ciphers.bcs_read_signed plaintext) decode_error
