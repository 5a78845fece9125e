-- ===== src/Client/Receive/Position.antt =====
-- Where the loop of dm_recv.rs stands in its mailbox, in its variable and in the table.
use xirtam_core.Prelude.{
  ◌≡◌, refl, sym, ap, ◌∙◌, Option, some, List, [], ◌∷◌, ◌==◌, string_eq, nat_eq, pair_eq,
  Bool-cases, Option-cases, Result-cases, inl, inr, lookup, lookup-insert_self, String, arith,
}
use xirtam_core.Structs.{
  Bytes, Hash, Timestamp, NanoTimestamp, UserName, ServerName, MailboxId, Attachment, MailboxEntry,
}
use xirtam_core.Env.{Env}
use xirtam_core.E2ee.{Ciphers, HeaderEncrypted, Event}
use xirtam_core.Client.Receive.{
  Identity, ClientDb, update_mailbox_after, ensure_mailbox_state, load_mailbox_after,
  ensure_convo_id, dm_peer, store_attachment, store_attachment_root, open_event, store_dm,
  process_mailbox_entry, recv_turns, dm_recv_loop_once, attachment_mime,
}

ensure-keeps_position :
    (now : NanoTimestamp) (convo_type counterparty : String) (db : ClientDb)
    → (ensure_convo_id now convo_type counterparty db).1.mailbox_state ≡ db.mailbox_state
unfolding ensure_convo_id
ensure-keeps_position now convo_type counterparty db = ground arith

module _ (server_name : ServerName) (mailbox : MailboxId) where
  abbrev At : NanoTimestamp → ClientDb → Type 0
  At after db = lookup (server_name, mailbox) db.mailbox_state ≡ some after

  At-load :
      (after : NanoTimestamp) (db : ClientDb)
      → At after db
      → load_mailbox_after server_name mailbox db ≡ after
  unfolding load_mailbox_after
  At-load after db h = rw (h, load_mailbox_after) refl

  At-update :
      (before after : NanoTimestamp) (db : ClientDb)
      → At before db
      → At after (update_mailbox_after server_name mailbox after db)
  unfolding update_mailbox_after
  At-update before after db h =
      rw (h, update_mailbox_after)
        (lookup-insert_self (server_name, mailbox) after db.mailbox_state)

  At-ensure :
      (after : NanoTimestamp) (db : ClientDb)
      → (now : NanoTimestamp) × At now (ensure_mailbox_state server_name mailbox after db)
  unfolding ensure_mailbox_state
  At-ensure after db = elim (Option-cases (lookup (server_name, mailbox) db.mailbox_state)) [
    | inl e ↦ (
      after,
      rw (e, ensure_mailbox_state)
          (lookup-insert_self (server_name, mailbox) after db.mailbox_state),
    )
    | inr (now, e) ↦ (now, rw (e, ensure_mailbox_state) e)
  ]

  module _ (env : Env) (ciphers : Ciphers) (bcs_read_encrypted : Bytes → Option HeaderEncrypted)
      (json_read_attachment : Bytes → Option Attachment) (bcs_attachment : Attachment → Bytes)
      (root_hash : UserName → Option Hash) (now : Timestamp) where
    store-keeps_position :
        (sender : UserName) (content : Event) (db : ClientDb)
        → (store_attachment env ciphers bcs_read_encrypted json_read_attachment bcs_attachment
            root_hash now sender content db).mailbox_state
          ≡ db.mailbox_state
    unfolding store_attachment store_attachment_root
    store-keeps_position sender content db = elim (Bool-cases (content.mime == attachment_mime)) [
      | inr e ↦ rw e refl
      | inl e ↦ elim (Option-cases (json_read_attachment content.body)) [
        | inl none_read ↦ rw (e, none_read) refl
        | inr (root, read) ↦ rw (e, read) refl
      ]
    ]

    store_dm-keeps_position :
        (clock : NanoTimestamp) (peer sender : UserName) (content : Event)
        (received_at : NanoTimestamp) (db : ClientDb)
        → (store_dm env ciphers bcs_read_encrypted json_read_attachment bcs_attachment root_hash now
            clock peer sender content received_at db).mailbox_state
          ≡ db.mailbox_state
    unfolding store_dm
    store_dm-keeps_position clock peer sender content received_at db =
        ensure-keeps_position clock "direct" peer (
          store_attachment env ciphers bcs_read_encrypted json_read_attachment bcs_attachment
            root_hash now sender content db)
        ∙ store-keeps_position sender content db

    process-position :
        (clock : NanoTimestamp) (identity : Identity) (entry : MailboxEntry) (db : ClientDb)
        → (process_mailbox_entry env ciphers bcs_read_encrypted json_read_attachment bcs_attachment
            root_hash now clock identity server_name mailbox entry db).1.mailbox_state
          ≡ (update_mailbox_after server_name mailbox entry.received_at db).mailbox_state
    unfolding process_mailbox_entry
    process-position clock identity entry db =
        elim (Result-cases (
          open_event env ciphers bcs_read_encrypted json_read_attachment bcs_attachment root_hash
            now identity entry.message)) [
              | inl (failure, e) ↦ rw (e, process_mailbox_entry) refl
              | inr (answer, e) ↦ elim (Option-cases answer) [
                | inl ignored ↦ rw (e, ignored, process_mailbox_entry) refl
                | inr (opened, is_opened) ↦
                    elim (Option-cases (dm_peer identity.username opened.0 opened.1.recipient)) [
                      | inl no_peer ↦ rw (e, is_opened, no_peer, process_mailbox_entry) refl
                      | inr (peer, has_peer) ↦
                          rw (e, is_opened, has_peer, process_mailbox_entry)
                            (store_dm-keeps_position clock peer opened.0 opened.1 entry.received_at
                              (update_mailbox_after server_name mailbox entry.received_at db))
                    ]
              ]
            ]

    turns_position :
        (identity : Identity) (entries : List (NanoTimestamp × MailboxEntry))
        (after : NanoTimestamp) (db : ClientDb)
        → At after db
        → let run =
            recv_turns env ciphers bcs_read_encrypted json_read_attachment bcs_attachment root_hash
              now identity server_name mailbox entries after db in
          At run.0 run.1
    unfolding recv_turns
    turns_position identity [] after db h = h
    turns_position identity ((clock, entry) ∷ entries) after db h =
        turns_position identity entries entry.received_at _ (
          ap (lookup (server_name, mailbox)) (process-position clock identity entry db)
          ∙ At-update after entry.received_at db h)

    -- Whatever entries arrive, and however the handling of each ends, a loop that starts again reads
    -- from the table the position at which this one stands.
    pub dm_recv_loop_once_resumes :
        (identity : Identity) (entries : List (NanoTimestamp × MailboxEntry)) (db : ClientDb)
        → let run =
            dm_recv_loop_once env ciphers bcs_read_encrypted json_read_attachment bcs_attachment
              root_hash now identity server_name mailbox entries db in
          load_mailbox_after server_name mailbox run.1 ≡ run.0
    unfolding dm_recv_loop_once
    dm_recv_loop_once_resumes identity entries db =
        let (start, placed) = At-ensure 0 db in
        let opened : ClientDb = ensure_mailbox_state server_name mailbox 0 db in
        let after : NanoTimestamp = load_mailbox_after server_name mailbox opened in
        At-load _ _ (
          turns_position identity entries after opened
            (placed ∙ ap some (sym (At-load start opened placed))))
