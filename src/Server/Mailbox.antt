-- ===== src/Server/Mailbox.antt =====
-- binaries/nullspace-server/src/mailbox.rs. The clock is an argument `now` of each handler.
pub mod Refs
pub mod Outcomes
pub mod Rights
pub mod Delivery
use xirtam_core.Prelude.{
  ℕ, zero, suc, ◌+◌, ◌*◌, Bool, true, false, not, ◌&&◌, ◌||◌, Option, none, some, List, [], ◌∷◌,
  ◌++◌, ◌==◌, nat_eq, string_eq, pair_eq, map, take, lookup, insert, without, any, keep, Result, ok,
  err, guard, ◌>>=◌, ◌>>◌, if◌then◌else◌,
}
use xirtam_core.Structs.{
  Hash, UserName, AuthToken, anonymous, MailboxId, GroupId, NanoTimestamp, Blob, MailboxEntry,
  MailboxAcl, MailboxRecvArgs, ServerRpcError, access_denied, retry_later,
}
use xirtam_core.Env.{Env}
use xirtam_core.Crypto.{digest, keyed_digest}
use xirtam_core.Server.Database.{
  Database, AclRow, EntryRow, i64_leb, i64_ltb, saturating_add, saturating_mul, has_mailbox,
  ensure_mailbox, insert_entry, by_time,
}
use xirtam_core.Server.PubSub.{PubSub, incr}

-- the state that the handlers share: the database and MAILBOX_NOTIFY
pub record Server : Type 0 where
  pub db : Database
  pub notify : PubSub

abbrev pub row_of : MailboxAcl → AclRow
row_of acl = record {
  can_edit_acl = acl.can_edit_acl;
  can_send = acl.can_send;
  can_recv = acl.can_recv;
}

abbrev pub acl_of : Hash → AclRow → MailboxAcl
acl_of token_hash row = record {
  token_hash = token_hash;
  can_edit_acl = row.can_edit_acl;
  can_send = row.can_send;
  can_recv = row.can_recv;
}

-- INSERT OR REPLACE INTO mailbox_acl: mailbox_id REFERENCES mailboxes
unfoldable pub insert_acl : Database → MailboxId → MailboxAcl → Result ServerRpcError Database
insert_acl db mailbox acl = do
  guard (has_mailbox db mailbox) retry_later
  ok (record db { mailbox_acl = insert (mailbox, acl.token_hash) (row_of acl) db.mailbox_acl })

unfoldable pub load_acl_hash : Database → MailboxId → Hash → Option MailboxAcl
load_acl_hash db mailbox token_hash = elim (lookup (mailbox, token_hash) db.mailbox_acl) [
  | some row ↦ some (acl_of token_hash row)
  | none ↦ none
]

unfoldable pub delete_acl : Database → MailboxId → Hash → Database
delete_acl db mailbox token_hash = record db {
  mailbox_acl = without (mailbox, token_hash) db.mailbox_acl;
}

unfoldable pub acl_is_subset : MailboxAcl → MailboxAcl → Bool
acl_is_subset candidate holder =
    (not candidate.can_edit_acl || holder.can_edit_acl)
    && (not candidate.can_send || holder.can_send)
    && (not candidate.can_recv || holder.can_recv)

unfoldable pub acl_is_empty : MailboxAcl → Bool
acl_is_empty candidate =
    not candidate.can_edit_acl && not candidate.can_send && not candidate.can_recv

unfoldable pub expires_at_from_ttl : NanoTimestamp → ℕ → Option ℕ
unfolding saturating_add saturating_mul
expires_at_from_ttl received_at ttl =
    if ttl == 0 then none else some (saturating_add received_at (saturating_mul ttl 1_000_000_000))

-- expires_at IS NOT NULL AND expires_at <= now
unfoldable pub expired : NanoTimestamp → EntryRow → Bool
expired now row = elim row.expires_at [ some t ↦ i64_leb t now | none ↦ false ]

unfoldable pub purge_expired_entries : NanoTimestamp → Database → Database
purge_expired_entries now db = record db {
  mailbox_entries = keep (λ row. not (expired now row)) db.mailbox_entries;
}

-- SELECT .. FROM mailbox_entries WHERE .. ORDER BY .. LIMIT 100
unfoldable pub selected : MailboxId → NanoTimestamp → NanoTimestamp → EntryRow → Bool
selected mailbox after now row =
    row.mailbox_id == mailbox && i64_ltb after row.received_at && not (expired now row)

unfoldable pub select_entries : MailboxId → NanoTimestamp → NanoTimestamp → Database → List EntryRow
select_entries mailbox after now db =
    take 100 (by_time (keep (selected mailbox after now) db.mailbox_entries))

abbrev pub entry_of : EntryRow → MailboxEntry
entry_of row = record {
  message = row.message;
  received_at = row.received_at;
  sender_auth_token_hash = row.sender_auth_token_hash;
}

module _ (env : Env) where
  -- `auth.bcs_hash()`
  unfoldable pub token_hash : AuthToken → Hash
  unfolding digest
  token_hash token = digest env (env.bcs_token token)

  -- MailboxId::direct, ::group_messages, ::group_management
  unfoldable pub direct : UserName → MailboxId
  direct username = keyed_digest env (env.text_bytes "direct-mailbox") (env.text_bytes username)

  unfoldable pub group_messages : GroupId → MailboxId
  group_messages group = keyed_digest env (env.text_bytes "group-messages") (env.hash_bytes group)

  unfoldable pub group_management : GroupId → MailboxId
  group_management group =
      keyed_digest env (env.text_bytes "group-management") (env.hash_bytes group)

  unfoldable pub load_acl : Database → MailboxId → AuthToken → Option MailboxAcl
  unfolding load_acl_hash
  load_acl db mailbox token = load_acl_hash db mailbox (token_hash token)

  unfoldable pub empty_acl : AuthToken → MailboxAcl
  empty_acl token = record {
    token_hash = token_hash token;
    can_edit_acl = false;
    can_send = false;
    can_recv = false;
  }

  unfoldable pub acl_for_token : Database → MailboxId → AuthToken → MailboxAcl
  unfolding load_acl empty_acl
  acl_for_token db mailbox token = elim (load_acl db mailbox token) [
    | some acl ↦ acl
    | none ↦ elim (load_acl db mailbox anonymous) [ some acl ↦ acl | none ↦ empty_acl token ]
  ]

  unfoldable pub mailbox_send :
      NanoTimestamp
      → AuthToken
      → MailboxId
      → Blob
      → ℕ
      → Server
      → Result ServerRpcError (NanoTimestamp × Server)
  mailbox_send now auth mailbox message ttl s = do
    let purged = purge_expired_entries now s.db
    guard (acl_for_token purged mailbox auth).can_send access_denied
    db ←
        insert_entry
          (record {
            mailbox_id = mailbox;
            entry_id = 0;
            received_at = now;
            message = message;
            sender_auth_token_hash = some (token_hash auth);
            expires_at = expires_at_from_ttl now ttl;
          })
          purged
    ok (now, record { db = db; notify = incr mailbox s.notify })

  -- One turn of the loop of `mailbox_multirecv` for one mailbox, up to the wait: the page that was
  -- read. With an empty page the loop waits for the counter to pass the value read before.
  unfoldable pub recv_once :
      NanoTimestamp
      → MailboxRecvArgs
      → Database
      → Result ServerRpcError (List MailboxEntry × Database)
  recv_once now arg db = do
    let purged = purge_expired_entries now db
    guard (acl_for_token purged arg.mailbox arg.auth).can_recv access_denied
    ok (map entry_of (select_entries arg.mailbox arg.after now purged), purged)

  -- `mailbox_multirecv` under a schedule: the turns of the racing loops that run before the
  -- timeout, each with its clock. The first page that is not empty, or the first error, ends the
  -- race; when the schedule ends first, the answer is the empty map.
  unfoldable pub mailbox_multirecv :
      List (NanoTimestamp × MailboxRecvArgs)
      → Database
      → Result ServerRpcError (List (MailboxId × List MailboxEntry) × Database)
  mailbox_multirecv [] db = ok ([], db)
  mailbox_multirecv ((now, arg) ∷ turns) db = recv_once now arg db >>= λ r. elim r.0 [
    | [] ↦ mailbox_multirecv turns r.1
    | entry ∷ entries ↦ ok ((arg.mailbox, entry ∷ entries) ∷ [], r.1)
  ]

  -- existing.can_edit_acl == arg.can_edit_acl && ..
  abbrev pub same_rights : MailboxAcl → MailboxAcl → Bool
  same_rights a b =
      (if a.can_edit_acl then b.can_edit_acl else not b.can_edit_acl)
      && (if a.can_send then b.can_send else not b.can_send)
      && (if a.can_recv then b.can_recv else not b.can_recv)

  unfoldable pub mailbox_acl_edit :
      AuthToken → MailboxId → MailboxAcl → Database → Result ServerRpcError Database
  mailbox_acl_edit auth mailbox arg db =
      if arg.token_hash == token_hash auth && acl_is_empty arg
      then ok (delete_acl db mailbox arg.token_hash)
      else (let existing = load_acl_hash db mailbox arg.token_hash in
          if elim existing [ some old ↦ same_rights old arg | none ↦ false ]
          then ok db
          else (let acl = acl_for_token db mailbox auth in
              let can_add_subset : Bool = elim existing [
                | none ↦ acl_is_subset arg acl
                | some _ ↦ false
              ] in
              if not acl.can_edit_acl && not can_add_subset
              then err access_denied
              else insert_acl db mailbox arg))

  unfoldable pub update_dm_mailbox :
      NanoTimestamp → UserName → Option AuthToken → Database → Result ServerRpcError Database
  update_dm_mailbox now username new_token db = do
    let mailbox = direct username
    db' ← insert_acl (ensure_mailbox mailbox now db) mailbox (record {
      token_hash = token_hash anonymous;
      can_edit_acl = false;
      can_send = true;
      can_recv = false;
    })
    elim new_token [
      | none ↦ ok db'
      | some token ↦ insert_acl db' mailbox (record {
        token_hash = token_hash token;
        can_edit_acl = false;
        can_send = true;
        can_recv = true;
      })
    ]

  -- SELECT 1 FROM device_auth_tokens WHERE auth_token = ?
  unfoldable pub auth_token_exists : Database → AuthToken → Bool
  auth_token_exists db auth = any (λ row. row.1 == auth) db.device_auth_tokens

  -- the body of the loop of `register_group`
  unfoldable pub grant_all :
      NanoTimestamp → AuthToken → MailboxId → Database → Result ServerRpcError Database
  grant_all now auth mailbox db = insert_acl (ensure_mailbox mailbox now db) mailbox (record {
    token_hash = token_hash auth;
    can_edit_acl = true;
    can_send = true;
    can_recv = true;
  })

  unfoldable pub register_group :
      NanoTimestamp → AuthToken → GroupId → Database → Result ServerRpcError Database
  unfolding grant_all
  register_group now auth group db = do
    guard (auth_token_exists db auth) access_denied
    db' ← grant_all now auth (group_messages group) db
    grant_all now auth (group_management group) db'
