-- ===== src/Server/Device/Auth.antt =====
-- Who gets a device's token, and which one.
use xirtam_core.Prelude.{
  ◌≡◌, refl, ap, ◌∙◌, subst, inl, inr, true, Option, none, some, ◌==◌, arith, string_eq, nat_eq,
  pair_eq, lookup, lookup-insert_self, Result, ok, >>=-eq-ok, guard-eq-ok, or_fail-eq-ok, ok-inj,
  Option-cases,
}
use xirtam_core.Structs.{
  Hash, UserName, ServerName, AuthToken, Timestamp, NanoTimestamp, MailboxId, MailboxAcl,
  CertificateChain, UserDescriptor, ServerRpcError, access_denied, retry_later,
}
use xirtam_core.Env.{Env}
use xirtam_core.Certificate.{pk_hash, last_device, verify_chain}
use xirtam_core.Server.Database.{Database, has_mailbox, ensure_mailbox}
use xirtam_core.Server.Mailbox.{insert_acl, direct, update_dm_mailbox}
use xirtam_core.Server.Mailbox.Refs.{IsLinked}
use xirtam_core.Server.Mailbox.Outcomes.{update_dm_mailbox-Succeeds}
use xirtam_core.Server.Device.{
  accepts, insert_token, insert_certificate, certificate_of, enroll, device_auth,
}

-- the two databases agree on the devices
abbrev SameDevices : Database → Database → Type 0
SameDevices db db' =
    (db'.device_auth_tokens ≡ db.device_auth_tokens)
    × (db'.device_certificates ≡ db.device_certificates)

insert_acl-devices :
    (db db' : Database) (mailbox : MailboxId) (acl : MailboxAcl)
    → insert_acl db mailbox acl ≡ ok db'
    → SameDevices db db'
unfolding insert_acl
insert_acl-devices db db' mailbox acl h = (ground (arith, h), ground (arith, h))

ensure_mailbox-devices :
    (mailbox : MailboxId) (at : NanoTimestamp) (db : Database)
    → SameDevices db (ensure_mailbox mailbox at db)
unfolding ensure_mailbox
ensure_mailbox-devices mailbox at db = (ground arith, ground arith)

module _ (env : Env) (at : NanoTimestamp) (username : UserName) where
  update_dm_mailbox-devices :
      (token : Option AuthToken) (db db' : Database)
      → update_dm_mailbox env at username token db ≡ ok db'
      → SameDevices db db'
  unfolding update_dm_mailbox
  update_dm_mailbox-devices none db db' h =
      let mailbox = direct env username in
      let a = ensure_mailbox-devices mailbox at db in
      let (db1, e, k) = >>=-eq-ok (insert_acl (ensure_mailbox mailbox at db) mailbox _) _ h in
      let b = insert_acl-devices _ db1 mailbox _ e in
      subst (SameDevices db) (ok-inj k) (b.0 ∙ a.0, b.1 ∙ a.1)
  update_dm_mailbox-devices (some token) db db' h =
      let mailbox = direct env username in
      let a = ensure_mailbox-devices mailbox at db in
      let (db1, e, k) = >>=-eq-ok (insert_acl (ensure_mailbox mailbox at db) mailbox _) _ h in
      let b = insert_acl-devices _ db1 mailbox _ e in
      let c = insert_acl-devices db1 db' mailbox _ k in (c.0 ∙ b.0 ∙ a.0, c.1 ∙ b.1 ∙ a.1)

module _ (env : Env) (found : Option (Option UserDescriptor)) (server_name : ServerName)
    (now : Timestamp) (at : NanoTimestamp) (new_token : AuthToken) (username : UserName)
    (cert : CertificateChain) (db : Database) where
  abbrev device_hash : Hash
  device_hash = pk_hash env (last_device cert).pk

  abbrev request : Result ServerRpcError (AuthToken × Database)
  request = device_auth env found server_name now at new_token username cert db

  -- the directory places the user on this server, and the chain leads to the user's root
  pub record Entitled : Type 0 where
    pub descriptor : UserDescriptor
    pub answered : found ≡ some (some descriptor)
    pub here : (descriptor.server_name == server_name) ≡ true
    pub chain : accepts (verify_chain env now cert descriptor.root_cert_hash) ≡ true

  -- Only a user of this server, with a chain that verifies against the root in the directory, gets
  -- a token.
  pub device_auth_sound :
      (token : AuthToken) (db' : Database) → request ≡ ok (token, db') → Entitled
  unfolding device_auth
  device_auth_sound token db' h =
      let (answered?, found_eq, k) = or_fail-eq-ok found retry_later _ h in
      let (descriptor, answered_eq, l) = or_fail-eq-ok answered? access_denied _ k in
      let (here, n) = guard-eq-ok (descriptor.server_name == server_name) _ _ l in
      let (chain, o) =
        guard-eq-ok (accepts (verify_chain env now cert descriptor.root_cert_hash)) _ _ n in
      record {
        descriptor = descriptor;
        answered = found_eq ∙ ap some answered_eq;
        here = here;
        chain = chain;
      }

  enroll-Entitled : Entitled → request ≡ enroll env at new_token username cert device_hash db
  unfolding device_auth
  enroll-Entitled e = rw (e.answered) (rw (e.here) (rw (e.chain) refl))

  -- the token that the device has, or the new one
  abbrev pub answer : AuthToken
  answer = elim (lookup (username, device_hash) db.device_auth_tokens) [
    | some token ↦ token
    | none ↦ new_token
  ]

  -- what a successful request leaves behind
  pub record Enrolled (db' : Database) : Type 0 where
    pub token : lookup (username, device_hash) db'.device_auth_tokens ≡ some answer
    pub certificate : certificate_of username device_hash db' ≡ some cert
    pub linked : IsLinked db'

  module _ (linked : IsLinked db) where
    abbrev certified : Database
    certified = insert_certificate username device_hash cert db

    certified-IsLinked : IsLinked certified
    unfolding insert_certificate has_mailbox
    certified-IsLinked = record { acl = linked.acl; entries = linked.entries }

    tokened-IsLinked : IsLinked (insert_token username device_hash new_token certified)
    unfolding insert_certificate insert_token has_mailbox
    tokened-IsLinked = record { acl = linked.acl; entries = linked.entries }

    certificate-found :
        (db' : Database)
        → db'.device_certificates ≡ certified.device_certificates
        → certificate_of username device_hash db' ≡ some cert
    unfolding insert_certificate certificate_of
    certificate-found db' e = ground (
      arith,
      e,
      lookup-insert_self device_hash (username, cert) db.device_certificates,
      string_eq.same_iff username username,
    )

    tokens-certified : certified.device_auth_tokens ≡ db.device_auth_tokens
    unfolding insert_certificate
    tokens-certified = refl

    token-inserted :
        lookup
          (username, device_hash)
          (insert_token username device_hash new_token certified).device_auth_tokens
        ≡ some new_token
    unfolding insert_token
    token-inserted = lookup-insert_self (username, device_hash) new_token _

    certificates-tokened :
        (insert_token username device_hash new_token certified).device_certificates
        ≡ certified.device_certificates
    unfolding insert_token
    certificates-tokened = refl

    enroll-Enrolled :
        (db' : Database) × (enroll env at new_token username cert device_hash db ≡ ok (answer, db'))
        × Enrolled db'
    unfolding enroll
    enroll-Enrolled = elim (Option-cases (lookup (username, device_hash) db.device_auth_tokens)) [
      | inr (old, held) ↦
          let (db', e, k) =
            update_dm_mailbox-Succeeds env at username none certified certified-IsLinked in
          let (tokens, certificates) =
            update_dm_mailbox-devices env at username none certified db' e in
          (
            db',
            rw (held, enroll, answer) (rw e refl),
            record {
              token = rw tokens (rw tokens-certified (rw (held, answer) refl));
              certificate = certificate-found db' certificates;
              linked = k;
            },
          )
      | inl fresh ↦
          let ready = insert_token username device_hash new_token certified in
          let (db', e, k) =
            update_dm_mailbox-Succeeds env at username (some new_token) ready tokened-IsLinked in
          let (tokens, certificates) =
            update_dm_mailbox-devices env at username (some new_token) ready db' e in
          (
            db',
            rw (fresh, enroll, answer) (rw e refl),
            record {
              token = rw tokens (rw (fresh, answer) token-inserted);
              certificate = certificate-found db' (certificates ∙ certificates-tokened);
              linked = k;
            },
          )
    ]

    -- In a database whose references hold, a request of an entitled user succeeds: the answer is
    -- the token that the device has, or the new one if it has none, and the database records it,
    -- and the chain, under the hash of the key of the chain's last device. Nothing that only the
    -- device knows is asked for.
    pub device_auth-Enrolled :
        Entitled → (db' : Database) × (request ≡ ok (answer, db')) × Enrolled db'
    device_auth-Enrolled entitled =
        let (db', e, enrolled) = enroll-Enrolled in (db', enroll-Entitled entitled ∙ e, enrolled)
