-- ===== src/Client/Roster/Changes.antt =====
-- `apply_manage_message` on tables that hold some members.
use xirtam_core.Prelude.{
  ℕ, ◌+◌, ◌≡◌, ◌≢◌, refl, ◌⊎◌, inl, inr, Bool, true, false, Option, none, some, ◌==◌, nat_eq,
  string_eq, pair_eq, lookup, insert, lookup-insert_self, Result, ok, if◌then◌else◌, Bool-cases,
  Option-cases,
}
use xirtam_core.Structs.{UserName, GroupId}
use xirtam_core.Client.Roster.{
  pending, accepted, banned, GroupManageMsg, invite_sent, invite_accepted, leave, ban, unban,
  add_admin, remove_admin, RosterMember, RosterError, Tables, GroupRoster, is_active, is_banned,
  sender_active, sender_admin, change, bump_version, apply_manage_message,
}
use xirtam_core.Client.Roster.Rules.{
  Standing, Members, active, admin, excluded, effect, set, Shows, version,
}
use xirtam_core.Client.Roster.Steps.{member_of, Outcome, get_raw-shows, ignored, removed, upserted}

module _ (roster : GroupRoster) (t : Tables) (m : Members) (shows : Shows roster t m) where
  abbrev pub Follows :
      Result RosterError (Bool × Tables) → Option (UserName × Option Standing) → Type 0
  Follows res e = (r : Bool × Tables) × (res ≡ ok r) × Outcome roster t m shows r e

  sender_active-eq :
      (username : UserName) (o : Option Standing) → sender_active (member_of username o) ≡ active o
  unfolding sender_active active
  sender_active-eq username none = refl
  sender_active-eq username (some s) = refl

  sender_admin-eq :
      (username : UserName) (o : Option Standing) → sender_admin (member_of username o) ≡ admin o
  unfolding sender_admin admin
  sender_admin-eq username none = refl
  sender_admin-eq username (some s) = refl

  module _ (sender target : UserName) where
    me : Option RosterMember
    me = member_of sender (m sender)

    invite_sent-Follows :
        Follows
          (change roster sender me (invite_sent target) t)
          (effect m sender (invite_sent target))
    unfolding change effect me
    invite_sent-Follows =
        rw (sender_active-eq sender (m sender), get_raw-shows roster t m shows target)
          (elim (Bool-cases (active (m sender))) [
            | inr not_active ↦ rw not_active ((false, t), refl, ignored roster t m shows)
            | inl may ↦ rw may (elim (Option-cases (m target)) [
              | inl none' ↦ rw none' (_, refl, upserted roster t m shows target false pending)
              | inr (old, here) ↦ rw here ((false, t), refl, ignored roster t m shows)
            ])
          ])

    invite_accepted-Follows :
        Follows (change roster sender me invite_accepted t) (effect m sender invite_accepted)
    unfolding change effect me excluded
    invite_accepted-Follows =
        rw (get_raw-shows roster t m shows sender) (elim (Option-cases (m sender)) [
          | inl none' ↦ rw none' (_, refl, upserted roster t m shows sender false accepted)
          | inr (old, here) ↦ rw here (elim (Bool-cases (is_banned old.status)) [
            | inl out ↦ rw out ((false, t), refl, ignored roster t m shows)
            | inr in' ↦ rw in' (_, refl, upserted roster t m shows sender false accepted)
          ])
        ])

    leave-Follows : Follows (change roster sender me leave t) (effect m sender leave)
    unfolding change effect me
    leave-Follows = rw (get_raw-shows roster t m shows sender) (elim (Option-cases (m sender)) [
      | inl none' ↦ rw (none', effect) ((false, t), refl, ignored roster t m shows)
      | inr (old, here) ↦
          rw (here, effect)
            (elim (Bool-cases (is_banned old.status)) [
              | inl out ↦ rw out ((false, t), refl, ignored roster t m shows)
              | inr in' ↦ rw in' (_, refl, removed roster t m shows sender old here)
            ])
    ])

    ban-Follows : Follows (change roster sender me (ban target) t) (effect m sender (ban target))
    unfolding change effect me
    ban-Follows = rw (sender_admin-eq sender (m sender)) (elim (Bool-cases (admin (m sender))) [
      | inr no_admin ↦ rw no_admin ((false, t), refl, ignored roster t m shows)
      | inl may ↦ rw may (_, refl, upserted roster t m shows target false banned)
    ])

    unban-Follows :
        Follows (change roster sender me (unban target) t) (effect m sender (unban target))
    unfolding change effect me excluded
    unban-Follows =
        rw (sender_admin-eq sender (m sender), get_raw-shows roster t m shows target)
          (elim (Bool-cases (admin (m sender))) [
            | inr no_admin ↦ rw no_admin ((false, t), refl, ignored roster t m shows)
            | inl may ↦ rw may (elim (Option-cases (m target)) [
              | inl none' ↦ rw none' ((false, t), refl, ignored roster t m shows)
              | inr (old, here) ↦ rw here (elim (Bool-cases (is_banned old.status)) [
                | inl out ↦ rw out (_, refl, upserted roster t m shows target false pending)
                | inr in' ↦ rw in' ((false, t), refl, ignored roster t m shows)
              ])
            ])
          ])

    add_admin-Follows :
        Follows (change roster sender me (add_admin target) t) (effect m sender (add_admin target))
    unfolding change effect me
    add_admin-Follows =
        rw (sender_admin-eq sender (m sender), get_raw-shows roster t m shows target)
          (elim (Bool-cases (admin (m sender))) [
            | inr no_admin ↦ rw no_admin ((false, t), refl, ignored roster t m shows)
            | inl may ↦ rw may (elim (Option-cases (m target)) [
              | inl none' ↦ rw none' ((false, t), refl, ignored roster t m shows)
              | inr (old, here) ↦ rw here (elim (Bool-cases (is_active old.status)) [
                | inl in' ↦ rw in' (_, refl, upserted roster t m shows target true old.status)
                | inr out ↦ rw out ((false, t), refl, ignored roster t m shows)
              ])
            ])
          ])

    remove_admin-Follows :
        Follows
          (change roster sender me (remove_admin target) t)
          (effect m sender (remove_admin target))
    unfolding change effect me
    remove_admin-Follows =
        rw (sender_admin-eq sender (m sender), get_raw-shows roster t m shows target)
          (elim (Bool-cases (admin (m sender))) [
            | inr no_admin ↦ rw no_admin ((false, t), refl, ignored roster t m shows)
            | inl may ↦ rw may (elim (Option-cases (m target)) [
              | inl none' ↦ rw none' ((false, t), refl, ignored roster t m shows)
              | inr (old, here) ↦ rw here (elim (Bool-cases (is_active old.status)) [
                | inl in' ↦ rw in' (_, refl, upserted roster t m shows target false old.status)
                | inr out ↦ rw out ((false, t), refl, ignored roster t m shows)
              ])
            ])
          ])

  change-Follows :
      (sender : UserName) (manage : GroupManageMsg)
      → Follows
          (change roster sender (member_of sender (m sender)) manage t)
          (effect m sender manage)
  unfolding me
  change-Follows sender (invite_sent target) = invite_sent-Follows sender target
  change-Follows sender invite_accepted = invite_accepted-Follows sender sender
  change-Follows sender leave = leave-Follows sender sender
  change-Follows sender (ban target) = ban-Follows sender target
  change-Follows sender (unban target) = unban-Follows sender target
  change-Follows sender (add_admin target) = add_admin-Follows sender target
  change-Follows sender (remove_admin target) = remove_admin-Follows sender target

  abbrev pub Grows : Members → Bool → Tables → ℕ → Type 0
  Grows after changed t' v =
      ((changed ≡ true)
        × (version roster t' ≡ some (v + 1))
        × ((username : UserName) × (after username ≢ m username)))
      ⊎ ((changed ≡ false) × (t' ≡ t))

  abbrev pub Apart : Tables → Type 0
  Apart t' =
      (g : GroupId) (username : UserName)
      → (roster.group_id == g) ≡ false
      → lookup (g, username) t'.group_members ≡ lookup (g, username) t.group_members

  abbrev finish : Bool × Tables → Tables
  finish r = if r.0 then bump_version roster r.1 else r.1

  bump_version-eq :
      (tables : Tables) (v : ℕ)
      → version roster tables ≡ some v
      → bump_version roster tables
        ≡ record tables { roster_version = insert roster.group_id (v + 1) tables.roster_version }
  unfolding bump_version
  bump_version-eq tables v here = rw (here, bump_version) refl

  finished :
      (r : Bool × Tables) (e : Option (UserName × Option Standing)) (v : ℕ)
      → version roster t ≡ some v
      → Outcome roster t m shows r e
      → Shows roster (finish r) (set e m) × Grows (set e m) r.0 (finish r) v × Apart (finish r)
  finished (true, t') e v at_v o =
      let here : lookup roster.group_id t'.roster_version ≡ some v = rw o.version at_v in
      rw (bump_version-eq t' v here) (
        o.shown,
        inl (refl, lookup-insert_self roster.group_id (v + 1) t'.roster_version, o.differs refl),
        o.others,
      )
  finished (false, t') e v at_v o = (o.shown, inr (refl, o.idle refl), o.others)

  -- A message leads the tables as its effect leads the members.
  pub apply_manage_message-effect :
      (sender : UserName) (manage : GroupManageMsg) (v : ℕ)
      → version roster t ≡ some v
      → (changed : Bool) × (t' : Tables) × (apply_manage_message roster sender manage t
          ≡ ok (changed, t'))
        × Shows roster t' (set (effect m sender manage) m)
        × Grows (set (effect m sender manage) m) changed t' v
        × Apart t'
  unfolding apply_manage_message
  apply_manage_message-effect sender manage v at_v =
      let (r, e, o) = change-Follows sender manage in
      rw (get_raw-shows roster t m shows sender, e)
        (let (shown, grows, apart) = finished r (effect m sender manage) v at_v o in
          (r.0, finish r, refl, shown, grows, apart))
