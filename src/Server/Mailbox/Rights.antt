-- ===== src/Server/Mailbox/Rights.antt =====
-- Who may change an ACL, and how.
use xirtam_core.Prelude.{
  ◌≡◌, subst, refl, ◌⊎◌, inl, inr, true, false, Option, none, some, arith, ◌==◌, nat_eq, pair_eq,
  lookup, insert, lookup-insert, lookup-insert_self, lookup-without, lookup-without_self, ok,
}
use xirtam_core.Structs.{Hash, AuthToken, MailboxId, MailboxAcl}
use xirtam_core.Env.{Env}
use xirtam_core.Server.Database.{Database, AclRow, has_mailbox}
use xirtam_core.Server.Mailbox.{
  row_of, insert_acl, load_acl_hash, delete_acl, acl_is_subset, acl_is_empty, token_hash,
  acl_for_token, mailbox_acl_edit,
}

abbrev pub acl_row : Database → MailboxId → Hash → Option AclRow
acl_row db mailbox token = lookup (mailbox, token) db.mailbox_acl

module _ (env : Env) (auth : AuthToken) (mailbox : MailboxId) (arg : MailboxAcl) where
  abbrev pub caller : Database → MailboxAcl
  caller db = acl_for_token env db mailbox auth

  -- The ways in which a caller may bring about the row of `arg.token_hash`.
  pub data Permitted (db db' : Database) : Type 0 where
    -- the caller gives up its own row
    self_removal :
        arg.token_hash ≡ token_hash env auth
        → acl_is_empty arg ≡ true
        → acl_row db' mailbox arg.token_hash ≡ none
        → Permitted db db'
    no_change : db' ≡ db → Permitted db db'
    by_editor :
        (caller db).can_edit_acl ≡ true
        → acl_row db' mailbox arg.token_hash ≡ some (row_of arg)
        → Permitted db db'
    -- a token without a row gets no more than the caller has
    delegated :
        acl_row db mailbox arg.token_hash ≡ none
        → acl_is_subset arg (caller db) ≡ true
        → acl_row db' mailbox arg.token_hash ≡ some (row_of arg)
        → Permitted db db'

  insert_acl-row :
      (db db' : Database)
      → insert_acl db mailbox arg ≡ ok db'
      → (acl_row db' mailbox arg.token_hash ≡ some (row_of arg))
        × ((m : MailboxId) (t : Hash)
            → (◌==◌ {T = MailboxId × Hash} (mailbox, arg.token_hash) (m, t)) ≡ false
            → acl_row db' m t ≡ acl_row db m t)
  unfolding insert_acl
  insert_acl-row db db' e =
      let key : MailboxId × Hash = (mailbox, arg.token_hash) in
      (
        ground (arith, lookup-insert_self key (row_of arg) db.mailbox_acl),
        λ m t other. ground (arith, lookup-insert key (m, t) (row_of arg) db.mailbox_acl),
      )

  acl_row-load :
      (db : Database)
      → load_acl_hash db mailbox arg.token_hash ≡ none
      → acl_row db mailbox arg.token_hash ≡ none
  unfolding load_acl_hash
  acl_row-load db h = ground arith

  abbrev pub Frame : Database → Database → Type 0
  Frame db db' =
      (m : MailboxId) (t : Hash)
      → (◌==◌ {T = MailboxId × Hash} (mailbox, arg.token_hash) (m, t)) ≡ false
      → acl_row db' m t ≡ acl_row db m t

  -- The branches of the handler that succeed.
  edit-cases :
      (db db' : Database)
      → mailbox_acl_edit env auth mailbox arg db ≡ ok db'
      → ((arg.token_hash ≡ token_hash env auth)
          × (acl_is_empty arg ≡ true)
          × (delete_acl db mailbox arg.token_hash ≡ db'))
        ⊎ (db ≡ db')
        ⊎ (((caller db).can_edit_acl ≡ true) × (insert_acl db mailbox arg ≡ ok db'))
        ⊎ ((load_acl_hash db mailbox arg.token_hash ≡ none)
            × (acl_is_subset arg (caller db) ≡ true)
            × (insert_acl db mailbox arg ≡ ok db'))
  unfolding mailbox_acl_edit
  edit-cases db db' h = ground arith

  -- An edit that is accepted changes no row but the one of the token that it names, and that one
  -- only as the caller may: it removes its own row, or has the right to edit, or gives a token that
  -- has no row a part of its own rights.
  pub mailbox_acl_edit-Permitted :
      (db db' : Database)
      → mailbox_acl_edit env auth mailbox arg db ≡ ok db'
      → Permitted db db' × Frame db db'
  mailbox_acl_edit-Permitted db db' h = elim (edit-cases db db' h) [
    | inl (own, empty, e) ↦
        let key : MailboxId × Hash = (mailbox, arg.token_hash) in
        let gone : acl_row (delete_acl db mailbox arg.token_hash) mailbox arg.token_hash ≡ none =
          unfold delete_acl in lookup-without_self key db.mailbox_acl in
        let kept : Frame db (delete_acl db mailbox arg.token_hash) =
          unfold delete_acl in
          λ m t other. ground (arith, lookup-without key (m, t) db.mailbox_acl) in
        subst (λ d. Permitted db d × Frame db d) e (self_removal own empty gone, kept)
    | inr (inl e) ↦ subst (λ d. Permitted db d × Frame db d) e (no_change refl, λ m t other. refl)
    | inr (inr (inl (edit, e))) ↦
        let (row, kept) = insert_acl-row db db' e in (by_editor edit row, kept)
    | inr (inr (inr (none', subset, e))) ↦
        let (row, kept) = insert_acl-row db db' e in
        (delegated (acl_row-load db none') subset row, kept)
  ]

module _ (env : Env) (auth : AuthToken) (mailbox : MailboxId) (victim : AuthToken) where
  abbrev pub no_rights : MailboxAcl
  no_rights = record {
    token_hash = token_hash env victim;
    can_edit_acl = false;
    can_send = false;
    can_recv = false;
  }

  -- Any caller, without any right in a mailbox, can shut another token out of it: if the mailbox
  -- exists and the other token has no row there, so that it has the rights of the anonymous token,
  -- then an edit that names it and grants nothing is accepted, and leaves it unable to send or
  -- receive.
  pub anyone_shuts_out :
      (db : Database)
      → (token_hash env victim == token_hash env auth) ≡ false
      → has_mailbox db mailbox ≡ true
      → acl_row db mailbox (token_hash env victim) ≡ none
      → (db' : Database) × (mailbox_acl_edit env auth mailbox no_rights db ≡ ok db')
        × ((acl_for_token env db' mailbox victim).can_send ≡ false)
        × ((acl_for_token env db' mailbox victim).can_recv ≡ false)
  unfolding mailbox_acl_edit insert_acl load_acl_hash acl_is_subset acl_for_token
  anyone_shuts_out db other there free =
      let key : MailboxId × Hash = (mailbox, token_hash env victim) in
      (
        record db { mailbox_acl = insert key (row_of no_rights) db.mailbox_acl },
        ground arith,
        ground (arith, lookup-insert_self key (row_of no_rights) db.mailbox_acl),
        ground (arith, lookup-insert_self key (row_of no_rights) db.mailbox_acl),
      )
