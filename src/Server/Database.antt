-- ===== src/Server/Database.antt =====
-- The server's SQLite database (binaries/nullspace-server/migrations), with the meaning of the
-- statements that the handlers run.
--
-- A handler runs one transaction: it takes the database and returns the new one, or an error, on
-- which the transaction is dropped and the database stays as it was. A statement fails where it
-- breaks a constraint of the schema; failures of the disk are not modelled.
use xirtam_core.Prelude.{
  ℕ, ◌+◌, ◌-◌, ◌*◌, ◌%◌, ◌^◌, min, Bool, true, false, ◌&&◌, not, Option, none, some, List, [], ◌∷◌,
  ◌++◌, ltb, leb, ◌==◌, nat_eq, string_eq, pair_eq, lookup, insert, any, Result, ok, guard, ◌>>◌,
  if◌then◌else◌,
}
use xirtam_core.Structs.{
  Hash, UserName, AuthToken, MailboxId, NanoTimestamp, Blob, CertificateChain, SignedMediumPk,
  ServerRpcError, retry_later,
}

-- the columns of mailbox_acl behind its key (mailbox_id, token_hash)
pub record AclRow : Type 0 where
  pub can_edit_acl : Bool
  pub can_send : Bool
  pub can_recv : Bool

-- a row of mailbox_entries; times are the 64 bits of the INTEGER column
pub record EntryRow : Type 0 where
  pub mailbox_id : MailboxId
  pub entry_id : ℕ
  pub received_at : NanoTimestamp
  pub message : Blob
  pub sender_auth_token_hash : Option Hash
  pub expires_at : Option ℕ

pub record Database : Type 0 where
  pub mailboxes : List (MailboxId × NanoTimestamp)
  pub mailbox_entries : List EntryRow
  -- the AUTOINCREMENT counter of entry_id
  pub next_entry_id : ℕ
  pub mailbox_acl : List ((MailboxId × Hash) × AclRow)
  pub device_certificates : List (Hash × (UserName × CertificateChain))
  pub device_auth_tokens : List ((UserName × Hash) × AuthToken)
  pub device_medium_pks : List (Hash × SignedMediumPk)

abbrev pub empty_database : Database
empty_database = record {
  mailboxes = [];
  mailbox_entries = [];
  next_entry_id = 1;
  mailbox_acl = [];
  device_certificates = [];
  device_auth_tokens = [];
  device_medium_pks = [];
}

abbrev pub u64_max : ℕ
u64_max = 2 ^ 64 - 1

-- `x as i64` and `<=`, `<` of SQLite on such columns, read off the 64 bits
abbrev pub i64_rank : ℕ → ℕ
i64_rank x = (x + 2 ^ 63) % 2 ^ 64

unfoldable pub i64_leb : ℕ → ℕ → Bool
i64_leb a b = leb (i64_rank a) (i64_rank b)

unfoldable pub i64_ltb : ℕ → ℕ → Bool
i64_ltb a b = ltb (i64_rank a) (i64_rank b)

-- u64::saturating_add, u64::saturating_mul
unfoldable pub saturating_add : ℕ → ℕ → ℕ
saturating_add a b = min (a + b) u64_max

unfoldable pub saturating_mul : ℕ → ℕ → ℕ
saturating_mul a b = min (a * b) u64_max

unfoldable pub has_mailbox : Database → MailboxId → Bool
has_mailbox db mailbox = elim (lookup mailbox db.mailboxes) [ some _ ↦ true | none ↦ false ]

-- INSERT OR IGNORE INTO mailboxes
unfoldable pub ensure_mailbox : MailboxId → NanoTimestamp → Database → Database
unfolding has_mailbox
ensure_mailbox mailbox created_at db =
    if has_mailbox db mailbox
    then db
    else record db { mailboxes = insert mailbox created_at db.mailboxes }

-- INSERT INTO mailbox_entries: UNIQUE (mailbox_id, received_at), mailbox_id REFERENCES mailboxes.
-- The row's entry_id is the counter's value.
abbrev pub clashes : EntryRow → EntryRow → Bool
clashes row other = other.mailbox_id == row.mailbox_id && other.received_at == row.received_at

unfoldable pub insert_entry : EntryRow → Database → Result ServerRpcError Database
insert_entry row db = do
  guard (not (any (clashes row) db.mailbox_entries)) retry_later
  guard (has_mailbox db row.mailbox_id) retry_later
  ok (record db {
    mailbox_entries = db.mailbox_entries ++ record row { entry_id = db.next_entry_id } ∷ [];
    next_entry_id = db.next_entry_id + 1;
  })

-- Time-ordered rows: ORDER BY received_at, entry_id. Rows stand in the order of entry_id, and the
-- sort is stable.
unfoldable pub place : EntryRow → List EntryRow → List EntryRow
place row [] = row ∷ []
place row (r ∷ rows) =
    if i64_ltb r.received_at row.received_at then r ∷ place row rows else row ∷ r ∷ rows

unfoldable pub by_time : List EntryRow → List EntryRow
unfolding place
by_time [] = []
by_time (row ∷ rows) = place row (by_time rows)
