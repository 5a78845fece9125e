-- ===== src/Env.antt =====
-- What the source takes from packages: Ed25519 (ed25519-consensus), BLAKE3 (blake3) and BCS (bcs).
-- `Env` is a parameter of the model. Its functions are total, as they are in those packages on the
-- values that the source hands to them (the source unwraps BCS errors by `expect`).
use xirtam_core.Prelude.{ℕ, Bool, true, Option, some, List, ◌∷◌, ◌≡◌, String}
use xirtam_core.Structs.{
  Bytes, Hash, SigningPublic, SigningSecret, Signature, Timestamp, DhPublic, AuthToken,
  DirectoryUpdate, DirectoryUpdateInner, DirectoryHeader, Attachment, Fragment,
}

pub record Env : Type 0 where
  -- blake3::hash, blake3::keyed_hash
  pub blake3 : Bytes → Hash
  pub blake3_keyed : Hash → Bytes → Hash
  -- SigningKey::verification_key, SigningKey::sign, VerificationKey::verify
  pub ed25519_public : SigningSecret → SigningPublic
  pub ed25519_sign : SigningSecret → Bytes → Signature
  pub ed25519_verify : SigningPublic → Signature → Bytes → Bool
  -- bcs::to_bytes, at each type that the source serializes
  pub bcs_public : SigningPublic → Bytes
  pub bcs_certificate_body : SigningPublic → Timestamp → Bool → Bytes
  pub bcs_update_body : Hash → DirectoryUpdateInner → Bytes
  pub bcs_update : DirectoryUpdate → Bytes
  pub bcs_anchor_body : String → ℕ → Hash → Bytes
  pub bcs_header : DirectoryHeader → Bytes
  pub bcs_medium_pk_body : DhPublic → Timestamp → Bytes
  pub bcs_token : AuthToken → Bytes
  pub bcs_profile_body : Option String → Option Attachment → Timestamp → Bytes
  pub bcs_fragment : Fragment → Bytes
  pub bcs_history : List DirectoryUpdate → Bytes
  -- bcs::from_bytes, none where it fails
  pub bcs_read_history : Bytes → Option (List DirectoryUpdate)
  -- to_bytes of a hash, as_bytes of a text
  pub hash_bytes : Hash → Bytes
  pub text_bytes : String → Bytes

-- Ed25519: what a secret key signs verifies under its public key.
abbrev pub SignsCorrectly : Env → Type 0
SignsCorrectly env =
    (secret : SigningSecret) (message : Bytes)
    → env.ed25519_verify (env.ed25519_public secret) (env.ed25519_sign secret message) message
      ≡ true

-- BCS: a list is written in one byte at least, and is read back.
abbrev pub ReadsHistories : Env → Type 0
ReadsHistories env =
    (history : List DirectoryUpdate)
    → ((b : ℕ) × (bs : Bytes) × (env.bcs_history history ≡ b ∷ bs))
      × (env.bcs_read_history (env.bcs_history history) ≡ some history)
