-- ===== src/Server/Mailbox/Refs.antt =====
-- The foreign keys of the schema, and that they are never what makes a handler fail.
use xirtam_core.Prelude.{
  ◌+◌, ◌≡◌, refl, Bool, true, false, not, some, List, [], ◌∷◌, ◌++◌, All, All-append, arith, any,
  keep, All-map, nat_eq, pair_eq, lookup, insert, lookup-insert, lookup-without, Result, ok, err,
}
use xirtam_core.Structs.{Hash, MailboxId, NanoTimestamp, MailboxAcl, retry_later, ServerRpcError}
use xirtam_core.Server.Database.{
  Database, AclRow, EntryRow, has_mailbox, ensure_mailbox, insert_entry, clashes,
}
use xirtam_core.Server.Mailbox.{
  row_of, insert_acl, delete_acl, acl_is_empty, acl_is_subset, expired, purge_expired_entries,
}

-- mailbox_acl and mailbox_entries refer to rows of mailboxes.
pub record IsLinked (db : Database) : Type 0 where
  pub acl :
      (mailbox : MailboxId) (token : Hash) (row : AclRow)
      → lookup (mailbox, token) db.mailbox_acl ≡ some row
      → has_mailbox db mailbox ≡ true
  pub entries : All (λ row. has_mailbox db row.mailbox_id ≡ true) db.mailbox_entries

pub All-keep {ℓ κ} :
    {A : Type ℓ} (P : A → Type κ) (p : A → Bool) (xs : List A) → All P xs → All P (keep p xs)
All-keep P p [] h = tt
All-keep P p (x ∷ xs) h = ground (arith, All-keep P p xs h.1)

pub purge-IsLinked :
    (now : NanoTimestamp) {db : Database} → IsLinked db → IsLinked (purge_expired_entries now db)
unfolding purge_expired_entries has_mailbox
purge-IsLinked now {db} h = record {
  acl = h.acl;
  entries = All-keep _ (λ row. not (expired now row)) db.mailbox_entries h.entries;
}

pub has_mailbox-ensure_self :
    (mailbox : MailboxId) (at : NanoTimestamp) (db : Database)
    → has_mailbox (ensure_mailbox mailbox at db) mailbox ≡ true
unfolding ensure_mailbox
has_mailbox-ensure_self mailbox at db =
    ground (arith, lookup-insert mailbox mailbox at db.mailboxes)

pub has_mailbox-ensure :
    (mailbox other : MailboxId) (at : NanoTimestamp) (db : Database)
    → has_mailbox db other ≡ true
    → has_mailbox (ensure_mailbox mailbox at db) other ≡ true
unfolding ensure_mailbox
has_mailbox-ensure mailbox other at db h =
    ground (arith, lookup-insert mailbox other at db.mailboxes)

pub ensure-rows :
    (mailbox : MailboxId) (at : NanoTimestamp) (db : Database)
    → ((ensure_mailbox mailbox at db).mailbox_acl ≡ db.mailbox_acl)
      × ((ensure_mailbox mailbox at db).mailbox_entries ≡ db.mailbox_entries)
unfolding ensure_mailbox
ensure-rows mailbox at db = ground arith

pub ensure-IsLinked :
    (mailbox : MailboxId) (at : NanoTimestamp) (db : Database)
    → IsLinked db
    → IsLinked (ensure_mailbox mailbox at db)
unfolding ensure_mailbox
ensure-IsLinked mailbox at db h =
    let (acls, rows) = ensure-rows mailbox at db in
    record {
      acl = λ m t r e. has_mailbox-ensure mailbox m at db (h.acl m t r (rw acls at e));
      entries = rw rows (
          All-map (λ row. has_mailbox db row.mailbox_id ≡ true) _ db.mailbox_entries
            (λ row. has_mailbox-ensure mailbox row.mailbox_id at db) h.entries);
    }

-- The operation succeeds, and its result keeps the references.
abbrev pub Succeeds : Result ServerRpcError Database → Type 0
Succeeds m = (db : Database) × (m ≡ ok db) × IsLinked db

pub insert_acl-Succeeds :
    (db : Database) (mailbox : MailboxId) (acl : MailboxAcl)
    → has_mailbox db mailbox ≡ true
    → IsLinked db
    → Succeeds (insert_acl db mailbox acl)
unfolding insert_acl has_mailbox
insert_acl-Succeeds db mailbox acl there h = (
  record db { mailbox_acl = insert (mailbox, acl.token_hash) (row_of acl) db.mailbox_acl },
  rw there refl,
  record {
    acl = λ m t r e. ground (
      arith,
      lookup-insert (mailbox, acl.token_hash) (m, t) (row_of acl) db.mailbox_acl,
      h.acl m t r,
    );
    entries = h.entries;
  },
)

pub insert_acl-has_mailbox :
    (db db' : Database) (mailbox other : MailboxId) (acl : MailboxAcl)
    → insert_acl db mailbox acl ≡ ok db'
    → has_mailbox db other ≡ true
    → has_mailbox db' other ≡ true
unfolding insert_acl has_mailbox
insert_acl-has_mailbox db db' mailbox other acl e h = ground arith

pub delete_acl-IsLinked :
    (db : Database) (mailbox : MailboxId) (token : Hash)
    → IsLinked db
    → IsLinked (delete_acl db mailbox token)
unfolding delete_acl has_mailbox
delete_acl-IsLinked db mailbox token h = record {
  acl =
      λ m t r e. ground (arith, lookup-without (mailbox, token) (m, t) db.mailbox_acl, h.acl m t r);
  entries = h.entries;
}

-- the database with one more entry
abbrev pub with_entry : EntryRow → Database → Database
with_entry row db = record db {
  mailbox_entries = db.mailbox_entries ++ record row { entry_id = db.next_entry_id } ∷ [];
  next_entry_id = db.next_entry_id + 1;
}

pub insert_entry-fresh :
    (row : EntryRow) (db : Database)
    → has_mailbox db row.mailbox_id ≡ true
    → any (clashes row) db.mailbox_entries ≡ false
    → insert_entry row db ≡ ok (with_entry row db)
unfolding insert_entry
insert_entry-fresh row db there fresh = rw (fresh, there) refl

pub with_entry-IsLinked :
    (row : EntryRow) (db : Database)
    → has_mailbox db row.mailbox_id ≡ true
    → IsLinked db
    → IsLinked (with_entry row db)
unfolding has_mailbox
with_entry-IsLinked row db there h = record {
  acl = h.acl;
  entries = All-append _ db.mailbox_entries _ h.entries (there, tt);
}

pub insert_entry-clash :
    (row : EntryRow) (db : Database)
    → any (clashes row) db.mailbox_entries ≡ true
    → insert_entry row db ≡ err retry_later
unfolding insert_entry
insert_entry-clash row db clash = rw clash refl

pub can_send-ne-empty : (acl : MailboxAcl) → acl.can_send ≡ true → acl_is_empty acl ≡ false
unfolding acl_is_empty
can_send-ne-empty acl h = ground arith

pub can_edit-ne-empty : (acl : MailboxAcl) → acl.can_edit_acl ≡ true → acl_is_empty acl ≡ false
unfolding acl_is_empty
can_edit-ne-empty acl h = ground arith

-- who grants a right has one
pub subset-ne-empty :
    (arg acl : MailboxAcl)
    → acl_is_subset arg acl ≡ true
    → acl_is_empty arg ≡ false
    → acl_is_empty acl ≡ false
unfolding acl_is_subset acl_is_empty
subset-ne-empty arg acl h k = ground arith
