-- ===== src/Tests/Mailbox.antt =====
-- A mailbox into which anyone may send, with one owner.
use xirtam_core.Prelude.{
  ℕ, ◌+◌, ◌≡◌, refl, ◌⊎◌, true, false, List, [], ◌∷◌, In, any, arith, ok, err, nat_eq,
}
use xirtam_core.Prelude.Dict.{lookup, insert, without}
use xirtam_core.Structs.{
  anonymous, AuthToken, Blob, MailboxAcl, MailboxEntry, access_denied, retry_later,
}
use xirtam_core.Crypto.{digest}
use xirtam_core.Server.Database.{
  Database, clashes, empty_database, has_mailbox, i64_ltb, insert_entry,
}
use xirtam_core.Server.PubSub.{empty_pubsub, incr, get_with, load, fetch_add}
use xirtam_core.Server.Mailbox.{
  Server, token_hash, acl_for_token, load_acl, load_acl_hash, purge_expired_entries, mailbox_send,
  mailbox_acl_edit, entry_of, recv_once, expired, selected, expires_at_from_ttl, acl_is_empty,
  acl_is_subset, insert_acl,
}
use xirtam_core.Server.Mailbox.Refs.{IsLinked, Succeeds, with_entry}
use xirtam_core.Server.Mailbox.Outcomes.{sent_row, mailbox_send_outcome, mailbox_acl_edit_outcome}
use xirtam_core.Server.Mailbox.Rights.{
  Permitted, Frame, mailbox_acl_edit-Permitted, no_rights, anyone_shuts_out,
}
use xirtam_core.Server.Mailbox.Delivery.{mailbox_send-recv}
use xirtam_core.Tests.Toy.{toy}

-- the owner's token is 7, and 8 is a stranger's
abbrev hashed : AuthToken → ℕ
hashed t = 1000003 + t + 1

abbrev database : Database
database = record empty_database {
  mailboxes = (50, 1) ∷ [];
  mailbox_acl =
      ((50, hashed anonymous), record { can_edit_acl = false; can_send = true; can_recv = false })
      ∷ ((50, hashed 7), record { can_edit_acl = true; can_send = true; can_recv = true })
      ∷ [];
}

abbrev server : Server
server = record { db = database; notify = empty_pubsub }

linked : IsLinked database
unfolding has_mailbox lookup
linked = record { acl = λ mailbox token row e. ground (arith, e); entries = tt }

abbrev hello : Blob
hello = record { kind = "v1.plaintext"; inner = 1 ∷ [] }

mailbox_send_outcome_example :
    ((mailbox_send toy 1000 8 50 hello 0 server ≡ err access_denied)
      × ((acl_for_token toy (purge_expired_entries 1000 database) 50 8).can_send ≡ false))
    ⊎ ((mailbox_send toy 1000 8 50 hello 0 server ≡ err retry_later)
        × ((acl_for_token toy (purge_expired_entries 1000 database) 50 8).can_send ≡ true)
        × (any
              (clashes (sent_row toy 1000 8 50 hello 0))
              (purge_expired_entries 1000 database).mailbox_entries
            ≡ true))
    ⊎ ((s' : Server) × (mailbox_send toy 1000 8 50 hello 0 server ≡ ok (1000, s'))
        × ((acl_for_token toy (purge_expired_entries 1000 database) 50 8).can_send ≡ true)
        × (any
              (clashes (sent_row toy 1000 8 50 hello 0))
              (purge_expired_entries 1000 database).mailbox_entries
            ≡ false)
        × (s'.db
            ≡ with_entry (sent_row toy 1000 8 50 hello 0) (purge_expired_entries 1000 database))
        × (s'.notify ≡ incr 50 server.notify)
        × IsLinked s'.db)
mailbox_send_outcome_example = mailbox_send_outcome toy 1000 8 50 hello 0 server linked

abbrev grant : MailboxAcl
grant = record { token_hash = hashed 9; can_edit_acl = false; can_send = true; can_recv = true }

mailbox_acl_edit_outcome_example :
    (mailbox_acl_edit toy 7 50 grant database ≡ err access_denied)
    ⊎ Succeeds (mailbox_acl_edit toy 7 50 grant database)
    ⊎ ((mailbox_acl_edit toy 7 50 grant database ≡ err retry_later)
        × (has_mailbox database 50 ≡ false)
        × (acl_is_empty grant ≡ true))
mailbox_acl_edit_outcome_example = mailbox_acl_edit_outcome toy 7 50 grant database linked

abbrev granted : Database
granted = record database {
  mailbox_acl =
      ((50, hashed 9), record { can_edit_acl = false; can_send = true; can_recv = true })
      ∷ database.mailbox_acl;
}

mailbox_acl_edit-Permitted_example :
    Permitted toy 7 50 grant database granted × Frame toy 7 50 grant database granted
unfolding mailbox_acl_edit insert_acl has_mailbox lookup insert without acl_for_token load_acl
    load_acl_hash token_hash digest acl_is_subset acl_is_empty
mailbox_acl_edit-Permitted_example = mailbox_acl_edit-Permitted toy 7 50 grant database granted refl

anyone_shuts_out_example :
    (db' : Database) × (mailbox_acl_edit toy 8 50 (no_rights toy 8 50 9) database ≡ ok db')
    × ((acl_for_token toy db' 50 9).can_send ≡ false)
    × ((acl_for_token toy db' 50 9).can_recv ≡ false)
unfolding has_mailbox lookup token_hash digest
anyone_shuts_out_example = anyone_shuts_out toy 8 50 9 database refl refl refl

abbrev server_after : Server
server_after = record {
  db = record database {
    mailbox_entries = record (sent_row toy 1000 8 50 hello 0) { entry_id = 1 } ∷ [];
    next_entry_id = 2;
  };
  notify = record { inner = (50, 0) ∷ []; cells = (0, 1) ∷ []; next = 1 };
}

sent : mailbox_send toy 1000 8 50 hello 0 server ≡ ok (1000, server_after)
unfolding mailbox_send purge_expired_entries insert_entry has_mailbox lookup insert without
    acl_for_token load_acl load_acl_hash token_hash digest incr get_with load fetch_add
sent = refl

mailbox_send-recv_example :
    (page : List MailboxEntry) × (db : Database) × (recv_once toy 2000
        (record { auth = 7; mailbox = 50; after = 0 })
        server_after.db
      ≡ ok (page, db))
    × In (entry_of (sent_row toy 1000 8 50 hello 0)) page
unfolding lookup acl_for_token load_acl load_acl_hash token_hash digest i64_ltb expired
    expires_at_from_ttl selected purge_expired_entries
mailbox_send-recv_example =
    mailbox_send-recv toy 1000 8 50 hello 0 server server_after 1000 sent 7 0 2000 refl refl refl
      (omega arith)
