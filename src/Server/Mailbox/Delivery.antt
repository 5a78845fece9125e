-- ===== src/Server/Mailbox/Delivery.antt =====
-- From `mailbox_send` to `mailbox_recv`: pages, and the delivery of what was sent.
use xirtam_core.Prelude.{
  ℕ, zero, suc, ◌≤◌, ◌≡◌, refl, subst, >>=-eq-ok, ap, ◌⊎◌, inl, inr, Bool, true, false, not, List,
  [], ◌∷◌, map, keep, take, length, In, In-append_right, any, arith, ◌==◌, nat_eq, Bool-cases,
  guard-eq-ok, ok-inj, ok,
}
use xirtam_core.Structs.{AuthToken, MailboxId, NanoTimestamp, Blob, MailboxEntry}
use xirtam_core.Env.{Env}
use xirtam_core.Server.Database.{
  Database, EntryRow, i64_ltb, place, by_time, insert_entry, clashes, has_mailbox,
}
use xirtam_core.Server.PubSub.{incr}
use xirtam_core.Server.Mailbox.Outcomes.{sent_row}
use xirtam_core.Server.Mailbox.{
  Server, acl_for_token, entry_of, expired, purge_expired_entries, selected, select_entries,
  mailbox_send, recv_once,
}

In-keep {ℓ} :
    {A : Type ℓ} (p : A → Bool) (a : A) (xs : List A) → In a xs → p a ≡ true → In a (keep p xs)
In-keep p a [] m h = m
In-keep p a (x ∷ xs) (inl e) h = let k : p x ≡ true = rw e at h in rw k (inl e)
In-keep p a (x ∷ xs) (inr m) h = elim (Bool-cases (p x)) [
  | inl k ↦ rw k (inr (In-keep p a xs m h))
  | inr k ↦ rw k (In-keep p a xs m h)
]

In-map {ℓ κ} :
    {A : Type ℓ} {B : Type κ} (f : A → B) (a : A) (xs : List A) → In a xs → In (f a) (map f xs)
In-map f a [] m = elim m [ ]
In-map f a (x ∷ xs) (inl e) = inl (ap f e)
In-map f a (x ∷ xs) (inr m) = inr (In-map f a xs m)

take-all {ℓ} : {A : Type ℓ} (n : ℕ) (xs : List A) → length xs ≤ n → take n xs ≡ xs
take-all zero [] h = refl
take-all zero (x ∷ xs) h = absurd (omega (arith, h))
take-all (suc n) [] h = refl
take-all (suc n) (x ∷ xs) h = ap (λ l. x ∷ l) (take-all n xs (omega (arith, h)))

In-place : (a row : EntryRow) (rows : List EntryRow) → (a ≡ row) ⊎ In a rows → In a (place row rows)
unfolding place
In-place a row [] h = h
In-place a row (r ∷ rows) h = elim (Bool-cases (i64_ltb r.received_at row.received_at)) [
  | inr k ↦ rw k h
  | inl k ↦ rw k (elim h [
    | inl e ↦ inr (In-place a row rows (inl e))
    | inr m ↦ elim m [ inl e ↦ inl e | inr n ↦ inr (In-place a row rows (inr n)) ]
  ])
]

In-by_time : (a : EntryRow) (rows : List EntryRow) → In a rows → In a (by_time rows)
unfolding by_time
In-by_time a [] m = m
In-by_time a (row ∷ rows) (inl e) = In-place a row (by_time rows) (inl e)
In-by_time a (row ∷ rows) (inr m) = In-place a row (by_time rows) (inr (In-by_time a rows m))

length-place : (row : EntryRow) (rows : List EntryRow) → length (place row rows) ≡ suc (length rows)
unfolding place
length-place row [] = refl
length-place row (r ∷ rows) = ground (arith, length-place row rows)

length-by_time : (rows : List EntryRow) → length (by_time rows) ≡ length rows
unfolding by_time
length-by_time [] = refl
length-by_time (row ∷ rows) = omega (arith, length-place row (by_time rows), length-by_time rows)

-- what a page can hold is on it
page-In :
    (a : EntryRow) (mailbox : MailboxId) (after now : NanoTimestamp) (db : Database)
    → In a db.mailbox_entries
    → selected mailbox after now a ≡ true
    → length (keep (selected mailbox after now) db.mailbox_entries) ≤ 100
    → In (entry_of a) (map entry_of (select_entries mailbox after now db))
unfolding select_entries
page-In a mailbox after now db m h fits =
    let rows = keep (selected mailbox after now) db.mailbox_entries in
    rw (take-all 100 (by_time rows) (omega (arith, length-by_time rows, fits)))
      (In-map entry_of a (by_time rows) (In-by_time a rows (In-keep _ a db.mailbox_entries m h)))

insert_entry-In :
    (row : EntryRow) (db db' : Database)
    → insert_entry row db ≡ ok db'
    → In (record row { entry_id = db.next_entry_id }) db'.mailbox_entries
      × (db'.mailbox_acl ≡ db.mailbox_acl)
unfolding insert_entry
insert_entry-In row db db' h =
    let (fresh, k) = guard-eq-ok (not (any (clashes row) db.mailbox_entries)) _ _ h in
    let (there, e) = guard-eq-ok (has_mailbox db row.mailbox_id) _ _ k in
    subst
      (λ d.
        In (record row { entry_id = db.next_entry_id }) d.mailbox_entries
        × (d.mailbox_acl ≡ db.mailbox_acl))
      (ok-inj e) (In-append_right _ db.mailbox_entries _ (inl refl), refl)

module _ (env : Env) (now : NanoTimestamp) (auth : AuthToken) (mailbox : MailboxId) (message : Blob)
    (ttl : ℕ) (s s' : Server) (at : NanoTimestamp)
    (sent : mailbox_send env now auth mailbox message ttl s ≡ ok (at, s')) where
  abbrev row_sent : EntryRow
  row_sent = record (sent_row env now auth mailbox message ttl) { entry_id = s.db.next_entry_id }

  sent-parts : In row_sent s'.db.mailbox_entries × (s'.db.mailbox_acl ≡ s.db.mailbox_acl)
  unfolding mailbox_send purge_expired_entries
  sent-parts =
      let (may, k) =
        guard-eq-ok (acl_for_token env (purge_expired_entries now s.db) mailbox auth).can_send _ _
          sent in
      let (db, e, f) = >>=-eq-ok (insert_entry _ _) _ k in
      let (there, acls) = insert_entry-In _ _ db e in
      let (time, same) : (now ≡ at) × (record { db = db; notify = incr mailbox s.notify } ≡ s') =
        ground (arith, f) in
      subst
        (λ after_send.
          In row_sent after_send.db.mailbox_entries
          × (after_send.db.mailbox_acl ≡ s.db.mailbox_acl))
        same (there, acls)

  purge-acl :
      (later : NanoTimestamp) (db : Database) (reader : AuthToken)
      → acl_for_token env (purge_expired_entries later db) mailbox reader
        ≡ acl_for_token env db mailbox reader
  unfolding purge_expired_entries acl_for_token
  purge-acl later db reader = refl

  kept_row :
      (later : NanoTimestamp)
      → expired later (sent_row env now auth mailbox message ttl) ≡ false
      → In row_sent (purge_expired_entries later s'.db).mailbox_entries
  unfolding purge_expired_entries expired
  kept_row later lives = In-keep _ row_sent s'.db.mailbox_entries sent-parts.0 (rw lives refl)

  selects_row :
      (after later : NanoTimestamp)
      → i64_ltb after now ≡ true
      → expired later (sent_row env now auth mailbox message ttl) ≡ false
      → selected mailbox after later row_sent ≡ true
  unfolding selected expired
  selects_row after later newer lives =
      let self : (mailbox == mailbox) ≡ true = ground arith in ground (arith, self, newer, lives)

  -- After a send that succeeds, a turn of a receiving loop that may receive from the mailbox reads
  -- a page with the entry, if it asks for entries after an earlier time, its clock is before the
  -- entry's expiry, and at most 100 entries that have not expired qualify.
  pub mailbox_send-recv :
      (reader : AuthToken) (after later : NanoTimestamp)
      → (acl_for_token env s'.db mailbox reader).can_recv ≡ true
      → i64_ltb after now ≡ true
      → expired later (sent_row env now auth mailbox message ttl) ≡ false
      → length
          (keep (selected mailbox after later) (purge_expired_entries later s'.db).mailbox_entries)
        ≤ 100
      → (page : List MailboxEntry) × (db : Database) × (recv_once env later
            (record { auth = reader; mailbox = mailbox; after = after })
            s'.db
          ≡ ok (page, db))
        × In (entry_of (sent_row env now auth mailbox message ttl)) page
  unfolding recv_once
  mailbox_send-recv reader after later may newer lives fits =
      let purged = purge_expired_entries later s'.db in
      (
        map entry_of (select_entries mailbox after later purged),
        purged,
        rw (purge-acl later s'.db reader, may) refl,
        page-In row_sent mailbox after later purged (kept_row later lives)
            (selects_row after later newer lives) fits,
      )
