-- ===== src/Server/Mailbox/Outcomes.antt =====
-- What the handlers of mailbox.rs answer in a database whose references hold.
use xirtam_core.Prelude.{
  ℕ, ◌≡◌, subst, refl, ◌⊎◌, inl, inr, true, false, Option, none, some, List, arith, any, ◌&&◌, ◌==◌,
  nat_eq, pair_eq, lookup, Bool-cases, Option-cases, true-ne-false, ok, err,
}
use xirtam_core.Structs.{
  UserName, AuthToken, anonymous, MailboxId, GroupId, NanoTimestamp, Blob, MailboxEntry, MailboxAcl,
  MailboxRecvArgs, access_denied, retry_later,
}
use xirtam_core.Env.{Env}
use xirtam_core.Server.Database.{Database, EntryRow, has_mailbox, ensure_mailbox, clashes}
use xirtam_core.Server.PubSub.{incr}
use xirtam_core.Server.Mailbox.{
  Server, expires_at_from_ttl, insert_acl, load_acl_hash, delete_acl, acl_is_empty, acl_is_subset,
  same_rights, purge_expired_entries, token_hash, acl_for_token, mailbox_send, recv_once,
  mailbox_acl_edit, update_dm_mailbox, direct, auth_token_exists, grant_all, register_group,
  group_messages, group_management,
}
use xirtam_core.Server.Mailbox.Refs.{
  IsLinked, Succeeds, purge-IsLinked, has_mailbox-ensure_self, ensure-IsLinked, insert_acl-Succeeds,
  insert_acl-has_mailbox, delete_acl-IsLinked, with_entry, insert_entry-fresh, with_entry-IsLinked,
  insert_entry-clash, can_send-ne-empty, can_edit-ne-empty, subset-ne-empty,
}

module _ (env : Env) where
  -- Rights come from a row, and so from a mailbox that is there.
  rights-has_mailbox :
      (db : Database) (mailbox : MailboxId) (auth : AuthToken)
      → IsLinked db
      → acl_is_empty (acl_for_token env db mailbox auth) ≡ false
      → has_mailbox db mailbox ≡ true
  unfolding acl_for_token load_acl_hash acl_is_empty
  rights-has_mailbox db mailbox auth h may =
      elim (Option-cases (lookup (mailbox, token_hash env auth) db.mailbox_acl)) [
        | inr (row, e) ↦ h.acl mailbox (token_hash env auth) row e
        | inl e ↦ elim (Option-cases (lookup (mailbox, token_hash env anonymous) db.mailbox_acl)) [
          | inr (row, f) ↦ h.acl mailbox (token_hash env anonymous) row f
          | inl f ↦ absurd (ground arith)
        ]
      ]

  abbrev pub sent_row : NanoTimestamp → AuthToken → MailboxId → Blob → ℕ → EntryRow
  sent_row now auth mailbox message ttl = record {
    mailbox_id = mailbox;
    entry_id = 0;
    received_at = now;
    message = message;
    sender_auth_token_hash = some (token_hash env auth);
    expires_at = expires_at_from_ttl now ttl;
  }

  module _ (now : NanoTimestamp) (auth : AuthToken) (mailbox : MailboxId) (message : Blob) (ttl : ℕ)
      (s : Server) (linked : IsLinked s.db) where
    abbrev purged : Database
    purged = purge_expired_entries now s.db

    -- In a database whose references hold, there are three outcomes, and their conditions exclude
    -- each other. A sender that may not send is refused. One that may is told to retry if an
    -- unexpired entry of the mailbox has the same time. Otherwise the send succeeds at that time:
    -- expired entries are gone, the entry stands behind the others under the next number, all else
    -- in the database is as it was, the counter of the mailbox is raised, and the references hold.
    pub mailbox_send_outcome :
        ((mailbox_send env now auth mailbox message ttl s ≡ err access_denied)
          × ((acl_for_token env purged mailbox auth).can_send ≡ false))
        ⊎ ((mailbox_send env now auth mailbox message ttl s ≡ err retry_later)
            × ((acl_for_token env purged mailbox auth).can_send ≡ true)
            × (any (clashes (sent_row now auth mailbox message ttl)) purged.mailbox_entries ≡ true))
        ⊎ ((s' : Server) × (mailbox_send env now auth mailbox message ttl s ≡ ok (now, s'))
            × ((acl_for_token env purged mailbox auth).can_send ≡ true)
            × (any (clashes (sent_row now auth mailbox message ttl)) purged.mailbox_entries ≡ false)
            × (s'.db ≡ with_entry (sent_row now auth mailbox message ttl) purged)
            × (s'.notify ≡ incr mailbox s.notify)
            × IsLinked s'.db)
    unfolding mailbox_send
    mailbox_send_outcome = elim (Bool-cases (acl_for_token env purged mailbox auth).can_send) [
      | inr refused ↦ inl (rw refused refl, refused)
      | inl may ↦
          let kept : IsLinked purged = purge-IsLinked now linked in
          let there : has_mailbox purged mailbox ≡ true =
            rights-has_mailbox purged mailbox auth kept (can_send-ne-empty _ may) in
          let row : EntryRow = sent_row now auth mailbox message ttl in
          elim (Bool-cases (any (clashes row) purged.mailbox_entries)) [
            | inl clash ↦
                inr (inl (rw may (rw (insert_entry-clash row purged clash) refl), may, clash))
            | inr fresh ↦ inr (
                inr (
                  record { db = with_entry row purged; notify = incr mailbox s.notify },
                  rw may (rw (insert_entry-fresh row purged there fresh) refl),
                  may,
                  fresh,
                  refl,
                  refl,
                  with_entry-IsLinked row purged there kept,
                ))
          ]
    ]

  pub recv_once-IsLinked :
      (now : NanoTimestamp) (arg : MailboxRecvArgs) (db db' : Database) (page : List MailboxEntry)
      → IsLinked db
      → recv_once env now arg db ≡ ok (page, db')
      → IsLinked db'
  unfolding recv_once
  recv_once-IsLinked now arg db db' page h e =
      let same : purge_expired_entries now db ≡ db' = ground arith in
      subst IsLinked same (purge-IsLinked now h)

  insert_acl-missing :
      (db : Database) (mailbox : MailboxId) (acl : MailboxAcl)
      → has_mailbox db mailbox ≡ false
      → insert_acl db mailbox acl ≡ err retry_later
  unfolding insert_acl
  insert_acl-missing db mailbox acl missing = rw missing refl

  -- What is written is granted by the caller's rights, or grants nothing.
  write-outcome :
      (auth : AuthToken) (mailbox : MailboxId) (arg : MailboxAcl) (db : Database)
      → IsLinked db
      → ((acl_for_token env db mailbox auth).can_edit_acl ≡ true)
        ⊎ (acl_is_subset arg (acl_for_token env db mailbox auth) ≡ true)
      → Succeeds (insert_acl db mailbox arg)
        ⊎ ((insert_acl db mailbox arg ≡ err retry_later)
            × (has_mailbox db mailbox ≡ false)
            × (acl_is_empty arg ≡ true))
  write-outcome auth mailbox arg db h may = elim (Bool-cases (has_mailbox db mailbox)) [
    | inl there ↦ inl (insert_acl-Succeeds db mailbox arg there h)
    | inr missing ↦ elim (Bool-cases (acl_is_empty arg)) [
      | inl empty ↦ inr (insert_acl-missing db mailbox arg missing, missing, empty)
      | inr some' ↦
          let holder = acl_for_token env db mailbox auth in
          let rights : acl_is_empty holder ≡ false = elim may [
            | inl edit ↦ can_edit-ne-empty holder edit
            | inr subset ↦ subset-ne-empty arg holder subset some'
          ] in
          absurd (true-ne-false (rights-has_mailbox db mailbox auth h rights) missing)
    ]
  ]

  -- In a database whose references hold, an edit of an ACL is denied, or succeeds and keeps the
  -- references, or is told to retry, which happens only for an ACL without any right in a mailbox
  -- that does not exist.
  pub mailbox_acl_edit_outcome :
      (auth : AuthToken) (mailbox : MailboxId) (arg : MailboxAcl) (db : Database)
      → IsLinked db
      → (mailbox_acl_edit env auth mailbox arg db ≡ err access_denied)
        ⊎ Succeeds (mailbox_acl_edit env auth mailbox arg db)
        ⊎ ((mailbox_acl_edit env auth mailbox arg db ≡ err retry_later)
            × (has_mailbox db mailbox ≡ false)
            × (acl_is_empty arg ≡ true))
  unfolding mailbox_acl_edit
  mailbox_acl_edit_outcome auth mailbox arg db h =
      elim (Bool-cases (arg.token_hash == token_hash env auth && acl_is_empty arg)) [
        | inl own ↦ inr (
            inl (
              delete_acl db mailbox arg.token_hash,
              rw own refl,
              delete_acl-IsLinked db mailbox arg.token_hash h,
            ))
        | inr other ↦ rw other (elim (Option-cases (load_acl_hash db mailbox arg.token_hash)) [
          | inr (old, found) ↦ elim (Bool-cases (same_rights env old arg)) [
            | inl same ↦ inr (inl (db, rw found (rw same refl), h))
            | inr new ↦ elim (Bool-cases (acl_for_token env db mailbox auth).can_edit_acl) [
              | inr plain ↦ inl (rw found (rw new (rw plain refl)))
              | inl edit ↦
                  rw found (rw new (rw edit (inr (write-outcome auth mailbox arg db h (inl edit)))))
            ]
          ]
          | inl none' ↦ elim (Bool-cases (acl_for_token env db mailbox auth).can_edit_acl) [
            | inl edit ↦ rw none' (rw edit (inr (write-outcome auth mailbox arg db h (inl edit))))
            | inr plain ↦
                elim (Bool-cases (acl_is_subset arg (acl_for_token env db mailbox auth))) [
                  | inr more ↦ inl (rw none' (rw more (rw plain refl)))
                  | inl subset ↦ rw none' (
                      rw subset (rw plain (inr (write-outcome auth mailbox arg db h (inr subset)))))
                ]
          ]
        ])
      ]

  pub update_dm_mailbox-Succeeds :
      (now : NanoTimestamp) (username : UserName) (new_token : Option AuthToken) (db : Database)
      → IsLinked db
      → Succeeds (update_dm_mailbox env now username new_token db)
  unfolding update_dm_mailbox
  update_dm_mailbox-Succeeds now username new_token db h =
      let mailbox = direct env username in
      let ready = ensure_mailbox mailbox now db in
      let here : has_mailbox ready mailbox ≡ true = has_mailbox-ensure_self mailbox now db in
      let acl : MailboxAcl = record {
        token_hash = token_hash env anonymous;
        can_edit_acl = false;
        can_send = true;
        can_recv = false;
      } in
      let (db', e, k) =
        insert_acl-Succeeds ready mailbox acl here (ensure-IsLinked mailbox now db h) in
      rw e
        (elim new_token
          as (λ t. Succeeds (elim t [
            | none ↦ ok db'
            | some token ↦ insert_acl db' mailbox (record {
              token_hash = token_hash env token;
              can_edit_acl = false;
              can_send = true;
              can_recv = true;
            })
          ])) [
            | none ↦ (db', refl, k)
            | some token ↦
                insert_acl-Succeeds db' mailbox _
                  (insert_acl-has_mailbox ready db' mailbox mailbox acl e here) k
          ])

  grant_all-Succeeds :
      (now : NanoTimestamp) (auth : AuthToken) (mailbox : MailboxId) (db : Database)
      → IsLinked db
      → Succeeds (grant_all env now auth mailbox db)
  unfolding grant_all
  grant_all-Succeeds now auth mailbox db h =
      insert_acl-Succeeds (ensure_mailbox mailbox now db) mailbox _
        (has_mailbox-ensure_self mailbox now db) (ensure-IsLinked mailbox now db h)

  -- Registering a group succeeds for every known token, whatever stood in the database, and is
  -- denied to every other token.
  pub register_group_outcome :
      (now : NanoTimestamp) (auth : AuthToken) (group : GroupId) (db : Database)
      → IsLinked db
      → ((auth_token_exists env db auth ≡ true) × Succeeds (register_group env now auth group db))
        ⊎ ((auth_token_exists env db auth ≡ false)
            × (register_group env now auth group db ≡ err access_denied))
  unfolding register_group
  register_group_outcome now auth group db h = elim (Bool-cases (auth_token_exists env db auth)) [
    | inr unknown ↦ inr (unknown, rw unknown refl)
    | inl known ↦
        let (db', e, k) = grant_all-Succeeds now auth (group_messages env group) db h in
        let (db'', e', k') = grant_all-Succeeds now auth (group_management env group) db' k in
        inl (known, (db'', rw known (rw e e'), k'))
  ]
