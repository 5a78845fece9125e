-- ===== src/Client/Roster/Prescribed.antt =====
-- Where the code does what docs/protocol/groups.md prescribes, and where it does not.
use xirtam_core.Prelude.{ℕ, ◌≡◌, sym, ap, ◌∙◌, Bool, true, false, some, string_eq, arith, ok, subst}
use xirtam_core.Structs.{UserName}
use xirtam_core.Client.Roster.{
  accepted, GroupManageMsg, invite_sent, invite_accepted, leave, ban, unban, add_admin,
  remove_admin, Tables, GroupRoster, is_active, is_banned, row_at, apply_manage_message,
}
use xirtam_core.Client.Roster.Rules.{
  Members, plain, active, admin, excluded, effect, set, prescribed, admin_accepts, stored, Shows,
  version,
}
use xirtam_core.Client.Roster.Changes.{apply_manage_message-effect, Grows, Apart}

effect-prescribed :
    (m : Members) (sender : UserName) (manage : GroupManageMsg)
    → admin_accepts m sender manage ≡ false
    → (username : UserName)
    → prescribed m sender manage username ≡ set (effect m sender manage) m username
unfolding effect active admin excluded
effect-prescribed m sender (invite_sent target) h username =
    ground (arith, string_eq.same_iff target username)
effect-prescribed m sender invite_accepted h username =
    ground (arith, string_eq.same_iff sender username)
effect-prescribed m sender leave h username = ground (arith, string_eq.same_iff sender username)
effect-prescribed m sender (ban target) h username =
    ground (arith, string_eq.same_iff target username)
effect-prescribed m sender (unban target) h username =
    ground (arith, string_eq.same_iff target username)
effect-prescribed m sender (add_admin target) h username =
    ground (arith, string_eq.same_iff target username)
effect-prescribed m sender (remove_admin target) h username =
    ground (arith, string_eq.same_iff target username)

acceptance-demotes :
    (m : Members) (sender : UserName)
    → admin (m sender) ≡ true
    → set (effect m sender invite_accepted) m sender ≡ plain accepted
unfolding effect admin excluded is_active is_banned
acceptance-demotes m sender powers = ground (arith, string_eq.same_iff sender sender)

acceptance-prescribed :
    (m : Members) (sender : UserName)
    → admin (m sender) ≡ true
    → prescribed m sender invite_accepted sender
      ≡ some (record { is_admin = true; status = accepted })
unfolding admin excluded is_active is_banned
acceptance-prescribed m sender powers = ground (arith, string_eq.same_iff sender sender)

module _ (roster : GroupRoster) (t : Tables) (m : Members) (shows : Shows roster t m) where
  -- Tables whose rows hold the members `m` are led by every message, unless it is an admin's
  -- acceptance of an invitation, to tables that hold the members that the document prescribes. The
  -- answer is true exactly if a member's standing changes: then the version of the roster grows by
  -- one, and otherwise the tables stay as they are. The members of other groups stay.
  pub apply_manage_message_refines :
      (sender : UserName) (manage : GroupManageMsg) (v : ℕ)
      → version roster t ≡ some v
      → admin_accepts m sender manage ≡ false
      → (changed : Bool) × (t' : Tables) × (apply_manage_message roster sender manage t
          ≡ ok (changed, t'))
        × Shows roster t' (prescribed m sender manage)
        × Grows roster t m shows (prescribed m sender manage) changed t' v
        × Apart roster t m shows t'
  apply_manage_message_refines sender manage v at_v other =
      let same : set (effect m sender manage) m ≡ prescribed m sender manage =
        λ i username. sym (effect-prescribed m sender manage other username) i in
      subst
        (λ after.
          (changed : Bool) × (t' : Tables) × (apply_manage_message roster sender manage t
            ≡ ok (changed, t'))
          × Shows roster t' after
          × Grows roster t m shows after changed t' v
          × Apart roster t m shows t')
        same (apply_manage_message-effect roster t m shows sender manage v at_v)

  -- An admin that accepts an invitation is no admin in the tables that follow, where the document
  -- prescribes an accepted admin.
  pub accepting_admin_demoted :
      (sender : UserName) (v : ℕ)
      → version roster t ≡ some v
      → admin (m sender) ≡ true
      → (changed : Bool) × (t' : Tables) × (apply_manage_message roster sender invite_accepted t
          ≡ ok (changed, t'))
        × (row_at roster t' sender ≡ stored sender (plain accepted))
        × (prescribed m sender invite_accepted sender
            ≡ some (record { is_admin = true; status = accepted }))
  accepting_admin_demoted sender v at_v powers =
      let (changed, t', runs, shown, _, _) =
        apply_manage_message-effect roster t m shows sender invite_accepted v at_v in
      (
        changed,
        t',
        runs,
        shown sender ∙ ap (stored sender) (acceptance-demotes m sender powers),
        acceptance-prescribed m sender powers,
      )
