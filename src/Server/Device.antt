-- ===== src/Server/Device.antt =====
-- binaries/nullspace-server/src/device.rs. What the directory answers, the clock, the server's name
-- and the random token are arguments. A value stands for the BCS bytes of its column, and a
-- `BTreeMap` in an answer for the list of its pairs.

pub mod Auth
pub mod Keys
use xirtam_core.Prelude.{
  ℕ, ◌^◌, Bool, true, false, not, ◌&&◌, Option, none, some, List, [], ◌∷◌, ltb, ◌==◌, nat_eq,
  string_eq, pair_eq, lookup, insert, any, keep, map, Result, ok, err, guard, or_fail, ◌>>=◌, ◌>>◌,
  if◌then◌else◌,
}
use xirtam_core.Structs.{
  Hash, UserName, ServerName, AuthToken, Timestamp, NanoTimestamp, CertificateChain, UserDescriptor,
  SignedMediumPk, ServerRpcError, access_denied, retry_later,
}
use xirtam_core.Env.{Env}
use xirtam_core.Crypto.{Signable, verify}
use xirtam_core.Certificate.{pk_hash, last_device, verify_chain}
use xirtam_core.Server.Database.{Database}
use xirtam_core.Server.Mailbox.{update_dm_mailbox}

-- `cert.verify(..).is_err()`, negated
abbrev pub accepts {ℓ} : {E : Type ℓ} → Result E (Unit {0}) → Bool
accepts (ok _) = true
accepts (err _) = false

-- INSERT OR REPLACE INTO device_auth_tokens: it drops the rows with the same primary key, and those
-- with the same token (device_auth_tokens_auth_token_uidx).
unfoldable pub insert_token : UserName → Hash → AuthToken → Database → Database
insert_token username device_hash token db = record db {
  device_auth_tokens =
      insert (username, device_hash) token
        (keep (λ row. not (row.1 == token)) db.device_auth_tokens);
}

unfoldable pub insert_certificate : UserName → Hash → CertificateChain → Database → Database
insert_certificate username device_hash chain db = record db {
  device_certificates = insert device_hash (username, chain) db.device_certificates;
}

-- SELECT device_hash, username .. WHERE auth_token = ?
unfoldable pub token_row :
    AuthToken → List ((UserName × Hash) × AuthToken) → Option (UserName × Hash)
token_row auth [] = none
token_row auth ((key, token) ∷ rows) = if token == auth then some key else token_row auth rows

-- SELECT cert_chain .. WHERE device_hash = ? AND username = ?
unfoldable pub certificate_of : UserName → Hash → Database → Option CertificateChain
certificate_of username device_hash db = elim (lookup device_hash db.device_certificates) [
  | some row ↦ if row.0 == username then some row.1 else none
  | none ↦ none
]

unfoldable pub device_list : UserName → Database → Option (List (Hash × CertificateChain))
device_list username db = elim (keep (λ row. row.1.0 == username) db.device_certificates) [
  | [] ↦ none
  | row ∷ rows ↦ some (map (λ r. (r.0, r.1.1)) (row ∷ rows))
]

-- .. JOIN device_auth_tokens d ON t.device_hash = d.device_hash WHERE d.username = ?
unfoldable pub device_medium_pks : UserName → Database → List (Hash × SignedMediumPk)
device_medium_pks username db =
    keep (λ t. any (λ d. d.0 == (username, t.0)) db.device_auth_tokens) db.device_medium_pks

module _ (env : Env) where
  abbrev pub medium_pk_signable : Signable SignedMediumPk
  medium_pk_signable = record {
    signed_value = λ m. env.bcs_medium_pk_body m.medium_pk m.created;
    signature = λ m. m.signature;
    set_signature = λ m s. record m { signature = s };
  }

  -- the statements of `device_auth` from `begin` to `commit`
  unfoldable pub enroll :
      NanoTimestamp
      → AuthToken
      → UserName
      → CertificateChain
      → Hash
      → Database
      → Result ServerRpcError (AuthToken × Database)
  enroll at new_token username cert device_hash db = do
    let existing = lookup (username, device_hash) db.device_auth_tokens
    let db1 = insert_certificate username device_hash cert db
    elim existing [
      | some token ↦ do db2 ← update_dm_mailbox env at username none db1; ok (token, db2)
      | none ↦ do
        db2 ←
            update_dm_mailbox env at username (some new_token)
              (insert_token username device_hash new_token db1)
        ok (new_token, db2)
    ]

  -- `found` is what the directory answers, none when the request fails. `now` is the clock of the
  -- certificates, `at` that of the database.
  unfoldable pub device_auth :
      Option (Option UserDescriptor)
      → ServerName
      → Timestamp
      → NanoTimestamp
      → AuthToken
      → UserName
      → CertificateChain
      → Database
      → Result ServerRpcError (AuthToken × Database)
  device_auth found server_name now at new_token username cert db = do
    let device_hash = pk_hash env (last_device cert).pk
    descriptor? ← or_fail found retry_later
    descriptor ← or_fail descriptor? access_denied
    guard (descriptor.server_name == server_name) access_denied
    guard (accepts (verify_chain env now cert descriptor.root_cert_hash)) access_denied
    enroll at new_token username cert device_hash db

  unfoldable pub device_add_medium_pk :
      AuthToken → SignedMediumPk → Database → Result ServerRpcError Database
  device_add_medium_pk auth medium_pk db = do
    row ← or_fail (token_row auth db.device_auth_tokens) access_denied
    chain ← or_fail (certificate_of row.0 row.1 db) access_denied
    let device = last_device chain
    guard (pk_hash env device.pk == row.1) access_denied
    guard (verify env medium_pk_signable medium_pk device.pk) access_denied
    guard (ltb medium_pk.created (2 ^ 63)) retry_later
    ok (record db { device_medium_pks = insert row.1 medium_pk db.device_medium_pks })
