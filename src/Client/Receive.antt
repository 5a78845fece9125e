-- ===== src/Client/Receive.antt =====
-- libraries/nullspace-client/src/convo/dm_recv.rs: what the client does with an entry of its direct
-- mailbox, over database.rs and attachments.rs. The client's tables are a record; the clock and the
-- directory's answers are arguments, and so are the formats of other packages.
pub mod Opened
pub mod Genuine
pub mod Position
use xirtam_core.Prelude.{
  ℕ, suc, ◌+◌, Bool, true, false, not, ◌&&◌, String, Option, none, some, List, [], ◌∷◌, ◌++◌, ◌==◌,
  nat_eq, string_eq, pair_eq, lookup, insert, any, ltb, Result, ok, err, or_fail, ◌>>=◌,
  if◌then◌else◌,
}
use xirtam_core.Structs.{
  Bytes, Hash, Timestamp, NanoTimestamp, UserName, ServerName, MailboxId, Blob, CertificateChain,
  DeviceSecret, Attachment, MailboxEntry,
}
use xirtam_core.Env.{Env}
use xirtam_core.Crypto.{digest}
use xirtam_core.E2ee.{
  Ciphers, DhSecret, DeviceSigned, HeaderEncrypted, Event, Recipient, user, group,
  v1_message_content, verify_blob, decrypt_bytes,
}

abbrev pub v1_direct_message : String
v1_direct_message = "v1.direct_message"

-- `Attachment::mime()`
abbrev pub attachment_mime : String
attachment_mime = "application/vnd.nullspace.v1.attachment"

-- what the handler uses of the identity
pub record Identity : Type 0 where
  pub username : UserName
  pub medium_sk_current : DhSecret
  pub medium_sk_prev : DhSecret

-- a row of convo_messages
pub record ConvoMessage : Type 0 where
  pub id : ℕ
  pub convo_id : ℕ
  pub sender_username : UserName
  pub mime : String
  pub body : Bytes
  pub sent_at : NanoTimestamp
  pub received_at : Option NanoTimestamp

-- mailbox_state, convos with their id and created_at, convo_messages, and attachment_roots
pub record ClientDb : Type 0 where
  pub mailbox_state : List ((ServerName × MailboxId) × NanoTimestamp)
  pub convos : List ((String × String) × (ℕ × NanoTimestamp))
  pub convo_messages : List ConvoMessage
  pub attachment_roots : List (Hash × (UserName × Attachment))

pub data RecvError : Type 0 where
  malformed undecryptable unknown_sender unverified : RecvError

unfoldable pub ensure_mailbox_state : ServerName → MailboxId → NanoTimestamp → ClientDb → ClientDb
ensure_mailbox_state server_name mailbox initial_after db =
    elim (lookup (server_name, mailbox) db.mailbox_state) [
      | some _ ↦ db
      | none ↦ record db {
        mailbox_state = insert (server_name, mailbox) initial_after db.mailbox_state;
      }
    ]

unfoldable pub load_mailbox_after : ServerName → MailboxId → ClientDb → NanoTimestamp
load_mailbox_after server_name mailbox db = elim (lookup (server_name, mailbox) db.mailbox_state) [
  | some after ↦ after
  | none ↦ 0
]

-- an UPDATE: no row, no change
unfoldable pub update_mailbox_after : ServerName → MailboxId → NanoTimestamp → ClientDb → ClientDb
update_mailbox_after server_name mailbox after db =
    elim (lookup (server_name, mailbox) db.mailbox_state) [
      | none ↦ db
      | some _ ↦ record db { mailbox_state = insert (server_name, mailbox) after db.mailbox_state }
    ]

-- SQLite's next INTEGER PRIMARY KEY: one more than the largest
abbrev pub after_all : List ℕ → ℕ
after_all [] = 1
after_all (id ∷ ids) = let next = after_all ids in if ltb id next then next else suc id

abbrev pub convo_ids : List ((String × String) × (ℕ × NanoTimestamp)) → List ℕ
convo_ids [] = []
convo_ids ((_, (id, _)) ∷ convos) = id ∷ convo_ids convos

abbrev pub message_ids : List ConvoMessage → List ℕ
message_ids [] = []
message_ids (message ∷ messages) = message.id ∷ message_ids messages

unfoldable pub ensure_convo_id : NanoTimestamp → String → String → ClientDb → ℕ × ClientDb
ensure_convo_id now convo_type counterparty db =
    elim (lookup (convo_type, counterparty) db.convos) [
      | some row ↦ (row.0, db)
      | none ↦
          let id = after_all (convo_ids db.convos) in
          (id, record db { convos = insert (convo_type, counterparty) (id, now) db.convos })
    ]

-- INSERT OR IGNORE INTO convo_messages, whose index on (convo_id, sent_at) is unique
unfoldable pub insert_message :
    ℕ → UserName → Event → NanoTimestamp → List ConvoMessage → List ConvoMessage
insert_message convo_id sender content received_at messages =
    if any (λ m. m.convo_id == convo_id && m.sent_at == content.sent_at) messages
    then messages
    else messages
      ++ record {
        id = after_all (message_ids messages);
        convo_id = convo_id;
        sender_username = sender;
        mime = content.mime;
        body = content.body;
        sent_at = content.sent_at;
        received_at = some received_at;
      }
        ∷ []

-- the peer of the conversation that a message between two users goes to, if it is ours
unfoldable pub dm_peer : UserName → UserName → Recipient → Option UserName
dm_peer own sender (group _) = none
dm_peer own sender (user recipient) =
    if not (recipient == own) && not (sender == own)
    then none
    else some (if sender == own then recipient else sender)

module _ (env : Env) (ciphers : Ciphers) (bcs_read_encrypted : Bytes → Option HeaderEncrypted)
    (json_read_attachment : Bytes → Option Attachment) (bcs_attachment : Attachment → Bytes)
    (root_hash : UserName → Option Hash) (now : Timestamp) where
  unfoldable pub store_attachment_root : UserName → Attachment → ClientDb → ClientDb
  store_attachment_root sender root db = record db {
    attachment_roots = insert (digest env (bcs_attachment root)) (sender, root) db.attachment_roots;
  }

  -- the `if` around `store_attachment_root`
  unfoldable pub store_attachment : UserName → Event → ClientDb → ClientDb
  store_attachment sender content db =
      if content.mime == attachment_mime
      then elim (json_read_attachment content.body) [
        | some root ↦ store_attachment_root sender root db
        | none ↦ db
      ]
      else db

  -- the current key, then the previous one
  unfoldable pub decrypt_either : Identity → HeaderEncrypted → Result RecvError Bytes
  decrypt_either identity encrypted =
      elim (decrypt_bytes env ciphers identity.medium_sk_current encrypted) [
        | ok decrypted ↦ ok decrypted
        | err _ ↦ elim (decrypt_bytes env ciphers identity.medium_sk_prev encrypted) [
          | ok decrypted ↦ ok decrypted
          | err _ ↦ err undecryptable
        ]
      ]

  unfoldable pub verified : DeviceSigned → Hash → Result RecvError Blob
  verified signed root = elim (verify_blob env ciphers now root signed) [
    | ok message ↦ ok message
    | err _ ↦ err unverified
  ]

  unfoldable pub read_content : UserName → Blob → Result RecvError (Option (UserName × Event))
  read_content sender message =
      if message.kind == v1_message_content
      then (do
        content ← or_fail (ciphers.bcs_read_event message.inner) malformed
        ok (some (sender, content)))
      else ok none

  -- the sender and the event of a blob, none if the kind of the blob is ignored
  unfoldable pub open_event : Identity → Blob → Result RecvError (Option (UserName × Event))
  open_event identity outer =
      if outer.kind == v1_direct_message
      then (do
        encrypted ← or_fail (bcs_read_encrypted outer.inner) malformed
        decrypted ← decrypt_either identity encrypted
        signed ← or_fail (ciphers.bcs_read_signed decrypted) malformed
        root ← or_fail (root_hash signed.sender) unknown_sender
        message ← verified signed root
        read_content signed.sender message)
      else ok none

  -- what is written for an event
  unfoldable pub store_dm :
      NanoTimestamp → UserName → UserName → Event → NanoTimestamp → ClientDb → ClientDb
  store_dm clock peer sender content received_at db =
      let (convo_id, db') =
        ensure_convo_id clock "direct" peer (store_attachment sender content db) in
      record db' {
        convo_messages = insert_message convo_id sender content received_at db'.convo_messages;
      }

  unfoldable pub process_mailbox_entry :
      NanoTimestamp
      → Identity
      → ServerName
      → MailboxId
      → MailboxEntry
      → ClientDb
      → Result RecvError (Unit {0}) × ClientDb
  process_mailbox_entry clock identity server_name mailbox entry db =
      let db' = update_mailbox_after server_name mailbox entry.received_at db in
      elim (open_event identity entry.message) [
        | err failure ↦ (err failure, db')
        | ok none ↦ (ok tt, db')
        | ok (some opened) ↦ (
          ok tt,
          elim (dm_peer identity.username opened.0 opened.1.recipient) [
            | none ↦ db'
            | some peer ↦ store_dm clock peer opened.0 opened.1 entry.received_at db'
          ],
        )
      ]

  -- the turns of the loop of `dm_recv_loop_once`, one for each entry that arrives; `after` is its
  -- variable
  unfoldable pub recv_turns :
      Identity
      → ServerName
      → MailboxId
      → List (NanoTimestamp × MailboxEntry)
      → NanoTimestamp
      → ClientDb
      → NanoTimestamp × ClientDb
  recv_turns identity server_name mailbox [] after db = (after, db)
  recv_turns identity server_name mailbox ((clock, entry) ∷ entries) after db =
      recv_turns identity server_name mailbox entries entry.received_at
        (process_mailbox_entry clock identity server_name mailbox entry db).1

  unfoldable pub dm_recv_loop_once :
      Identity
      → ServerName
      → MailboxId
      → List (NanoTimestamp × MailboxEntry)
      → ClientDb
      → NanoTimestamp × ClientDb
  dm_recv_loop_once identity server_name mailbox entries db =
      let db' = ensure_mailbox_state server_name mailbox 0 db in
      recv_turns identity server_name mailbox entries (load_mailbox_after server_name mailbox db')
        db'
