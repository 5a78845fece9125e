-- ===== src/Client/Receive/Genuine.antt =====
-- What a handled entry can leave in the tables of dm_recv.rs.
use xirtam_core.Prelude.{
  ◌≡◌, refl, sym, ap, none-ne-some, ◌∙◌, ◌⊎◌, inl, inr, ◌&&◌, Option, some, List, [], ◌∷◌, ◌++◌,
  ◌==◌, any, Bool-cases, Option-cases, ok, Result-cases, subst, string_eq, nat_eq, arith, String, ℕ,
  pair_eq,
}
use xirtam_core.Structs.{
  Bytes, Hash, Timestamp, NanoTimestamp, UserName, ServerName, MailboxId, Attachment, MailboxEntry,
}
use xirtam_core.Env.{Env}
use xirtam_core.E2ee.{Ciphers, HeaderEncrypted, Event, Recipient, user, group}
use xirtam_core.Client.Receive.{
  Identity, ConvoMessage, ClientDb, update_mailbox_after, ensure_convo_id, insert_message, dm_peer,
  store_attachment, store_attachment_root, open_event, store_dm, process_mailbox_entry, after_all,
  message_ids, attachment_mime,
}
use xirtam_core.Client.Receive.Opened.{SignedEvent, open_event_sound}

update-keeps :
    (server_name : ServerName) (mailbox : MailboxId) (after : NanoTimestamp) (db : ClientDb)
    → (update_mailbox_after server_name mailbox after db).convo_messages ≡ db.convo_messages
unfolding update_mailbox_after
update-keeps server_name mailbox after db = ground arith

ensure-keeps :
    (now : NanoTimestamp) (convo_type counterparty : String) (db : ClientDb)
    → (ensure_convo_id now convo_type counterparty db).1.convo_messages ≡ db.convo_messages
unfolding ensure_convo_id
ensure-keeps now convo_type counterparty db = ground arith

-- The recipient or the sender of a message with a peer is ourselves.
pub dm_peer-ours :
    (own sender : UserName) (recipient : Recipient) (peer : UserName)
    → dm_peer own sender recipient ≡ some peer
    → (recipient ≡ user own) ⊎ (sender ≡ own)
unfolding dm_peer
dm_peer-ours own sender (group id) peer h = cc
dm_peer-ours own sender (user r) peer h = elim (Bool-cases (r == own)) [
  | inl e ↦ inl (ap user ((string_eq.same_iff r own).0 e))
  | inr d ↦ elim (Bool-cases (sender == own)) [
    | inl e ↦ inr ((string_eq.same_iff sender own).0 e)
    | inr e ↦ absurd (none-ne-some (rw (d, e) at h))
  ]
]

insert_message-cases :
    (convo_id : ℕ) (sender : UserName) (content : Event) (received_at : NanoTimestamp)
    (messages : List ConvoMessage)
    → (insert_message convo_id sender content received_at messages ≡ messages)
      ⊎ (insert_message convo_id sender content received_at messages
          ≡ messages
            ++ record {
              id = after_all (message_ids messages);
              convo_id = convo_id;
              sender_username = sender;
              mime = content.mime;
              body = content.body;
              sent_at = content.sent_at;
              received_at = some received_at;
            }
              ∷ [])
unfolding insert_message
insert_message-cases convo_id sender content received_at messages =
    elim (Bool-cases (any (λ m. m.convo_id == convo_id && m.sent_at == content.sent_at) messages)) [
      | inl e ↦ inl (rw e refl)
      | inr e ↦ inr (rw e refl)
    ]

module _ (env : Env) (ciphers : Ciphers) (bcs_read_encrypted : Bytes → Option HeaderEncrypted)
    (json_read_attachment : Bytes → Option Attachment) (bcs_attachment : Attachment → Bytes)
    (root_hash : UserName → Option Hash) (now : Timestamp) where
  -- A row that an entry has left: an event that a device of the row's sender signed, to us or by us.
  pub record Genuine (own : UserName) (received_at : NanoTimestamp) (row : ConvoMessage)
      : Type 0 where
    pub content : Event
    pub signs :
        SignedEvent env ciphers bcs_read_encrypted json_read_attachment bcs_attachment root_hash now
          row.sender_username content
    pub ours : (content.recipient ≡ user own) ⊎ (row.sender_username ≡ own)
    pub mime : row.mime ≡ content.mime
    pub body : row.body ≡ content.body
    pub sent_at : row.sent_at ≡ content.sent_at
    pub received : row.received_at ≡ some received_at

  store-keeps :
      (sender : UserName) (content : Event) (db : ClientDb)
      → (store_attachment env ciphers bcs_read_encrypted json_read_attachment bcs_attachment
          root_hash now sender content db).convo_messages
        ≡ db.convo_messages
  unfolding store_attachment store_attachment_root
  store-keeps sender content db = elim (Bool-cases (content.mime == attachment_mime)) [
    | inr e ↦ rw e refl
    | inl e ↦ elim (Option-cases (json_read_attachment content.body)) [
      | inl none_read ↦ rw (e, none_read) refl
      | inr (root, read) ↦ rw (e, read) refl
    ]
  ]

  abbrev pub AddsGenuine : UserName → NanoTimestamp → List ConvoMessage → List ConvoMessage → Type 0
  AddsGenuine own received_at before after =
      (after ≡ before)
      ⊎ ((row : ConvoMessage) × (after ≡ before ++ row ∷ []) × Genuine own received_at row)

  inserts_genuine :
      (own : UserName) (convo_id : ℕ) (sender : UserName) (content : Event)
      (received_at : NanoTimestamp) (messages : List ConvoMessage)
      → SignedEvent env ciphers bcs_read_encrypted json_read_attachment bcs_attachment root_hash now
          sender content
      → (content.recipient ≡ user own) ⊎ (sender ≡ own)
      → AddsGenuine own received_at messages
          (insert_message convo_id sender content received_at messages)
  inserts_genuine own convo_id sender content received_at messages signs ours =
      elim (insert_message-cases convo_id sender content received_at messages) [
        | inl same ↦ inl same
        | inr added ↦ inr (
          _,
          added,
          record {
            content = content;
            signs = signs;
            ours = ours;
            mime = refl;
            body = refl;
            sent_at = refl;
            received = refl;
          },
        )
      ]

  store_dm-adds :
      (own : UserName) (clock : NanoTimestamp) (peer sender : UserName) (content : Event)
      (received_at : NanoTimestamp) (db : ClientDb)
      → SignedEvent env ciphers bcs_read_encrypted json_read_attachment bcs_attachment root_hash now
          sender content
      → (content.recipient ≡ user own) ⊎ (sender ≡ own)
      → AddsGenuine own received_at db.convo_messages
          (store_dm env ciphers bcs_read_encrypted json_read_attachment bcs_attachment root_hash now
            clock peer sender content received_at db).convo_messages
  unfolding store_dm
  store_dm-adds own clock peer sender content received_at db signs ours =
      let stored : ClientDb =
        store_attachment env ciphers bcs_read_encrypted json_read_attachment bcs_attachment
          root_hash now sender content db in
      let convo_id : ℕ = (ensure_convo_id clock "direct" peer stored).0 in
      subst
        (λ messages.
          AddsGenuine own received_at db.convo_messages
            (insert_message convo_id sender content received_at messages))
        (sym (ensure-keeps clock "direct" peer stored ∙ store-keeps sender content db))
        (inserts_genuine own convo_id sender content received_at db.convo_messages signs ours)

  -- Handling an entry of the mailbox leaves the stored messages as they were, or adds one message at
  -- the end, which is genuine: a device that chains to the root which the directory names for the
  -- sender has signed it, it is to us or by us, and it is stored as it was signed.
  pub process_mailbox_entry_sound :
      (clock : NanoTimestamp) (identity : Identity) (server_name : ServerName) (mailbox : MailboxId)
      (entry : MailboxEntry) (db : ClientDb)
      → AddsGenuine identity.username entry.received_at db.convo_messages
          (process_mailbox_entry env ciphers bcs_read_encrypted json_read_attachment bcs_attachment
            root_hash now clock identity server_name mailbox entry db).1.convo_messages
  unfolding process_mailbox_entry
  process_mailbox_entry_sound clock identity server_name mailbox entry db =
      let db' : ClientDb = update_mailbox_after server_name mailbox entry.received_at db in
      let kept = update-keeps server_name mailbox entry.received_at db in
      elim (Result-cases (
        open_event env ciphers bcs_read_encrypted json_read_attachment bcs_attachment root_hash now
          identity entry.message)) [
            | inl (failure, e) ↦ inl (rw (e, process_mailbox_entry) kept)
            | inr (answer, e) ↦ elim (Option-cases answer) [
              | inl ignored ↦ inl (rw (e, ignored, process_mailbox_entry) kept)
              | inr (opened, is_opened) ↦
                  elim (Option-cases (dm_peer identity.username opened.0 opened.1.recipient)) [
                    | inl no_peer ↦ inl (rw (e, is_opened, no_peer, process_mailbox_entry) kept)
                    | inr (peer, has_peer) ↦
                        rw (e, is_opened, has_peer, process_mailbox_entry)
                          (subst
                            (λ before.
                              AddsGenuine identity.username entry.received_at before
                                (store_dm env ciphers bcs_read_encrypted json_read_attachment
                                  bcs_attachment root_hash now clock peer opened.0 opened.1
                                  entry.received_at db').convo_messages)
                            kept
                            (store_dm-adds identity.username clock peer opened.0 opened.1
                              entry.received_at db'
                              (open_event_sound env ciphers bcs_read_encrypted json_read_attachment
                                bcs_attachment root_hash now identity entry.message opened
                                (e ∙ ap ok is_opened))
                              (dm_peer-ours identity.username opened.0 opened.1.recipient peer
                                has_peer)))
                  ]
            ]
          ]
