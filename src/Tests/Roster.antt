-- ===== src/Tests/Roster.antt =====
-- A group of an admin, a member and a banned member.
use xirtam_core.Prelude.{
  ℕ, ◌≡◌, ◌≢◌, refl, ◌⊎◌, Bool, true, false, none, some, List, [], ◌∷◌, ok, ◌==◌, nat_eq, string_eq,
  if◌then◌else◌, true-ne-false, arith,
}
use xirtam_core.Prelude.Dict.{lookup}
use xirtam_core.Structs.{UserName}
use xirtam_core.Client.Roster.{
  accepted, banned, pending, GroupManageMsg, invite_sent, invite_accepted, ban, unban, add_admin,
  GroupRoster, Tables, row_of, flag, status_as_str, is_banned, is_active, row_at,
  apply_manage_message, ensure_initialized,
}
use xirtam_core.Client.Roster.Rules.{
  Members, plain, effect, prescribed, stored, admin, active, excluded, Shows, version,
}
use xirtam_core.Client.Roster.Changes.{Grows, Apart}
use xirtam_core.Client.Roster.Prescribed.{apply_manage_message_refines, accepting_admin_demoted}
use xirtam_core.Client.Roster.Banned.{apply_all, run, ban_holds, banned_sender_ignored}
use xirtam_core.Client.Roster.Start.{ensure_initialized_once, with_admin}

abbrev group : GroupRoster
group = record { group_id = 9; init_admin = "@ada" }

abbrev tables : Tables
tables = record {
  group_members =
      ((9, "@ada"), record { is_admin = 1; status = "accepted" })
      ∷ ((9, "@bob"), record { is_admin = 0; status = "pending" })
      ∷ ((9, "@eve"), record { is_admin = 0; status = "banned" })
      ∷ [];
  roster_version = (9, 3) ∷ [];
}

abbrev members : Members
members username =
    if "@ada" == username
    then some (record { is_admin = true; status = accepted })
    else (if "@bob" == username
        then plain pending
        else (if "@eve" == username then plain banned else none))

shown : Shows group tables members
unfolding row_of flag status_as_str lookup
shown username = ground arith

rules_example : effect members "@bob" (invite_sent "@dan") ≡ some ("@dan", plain pending)
unfolding effect active
rules_example = refl

apply_manage_message_refines_example :
    (changed : Bool) × (t' : Tables) × (apply_manage_message group "@ada" (ban "@bob") tables
      ≡ ok (changed, t'))
    × Shows group t' (prescribed members "@ada" (ban "@bob"))
    × Grows group tables members shown (prescribed members "@ada" (ban "@bob")) changed t' 3
    × Apart group tables members shown t'
unfolding lookup
apply_manage_message_refines_example =
    apply_manage_message_refines group tables members shown "@ada" (ban "@bob") 3 refl refl

ada_demoted :
    (changed : Bool) × (t' : Tables) × (apply_manage_message group "@ada" invite_accepted tables
      ≡ ok (changed, t'))
    × (row_at group t' "@ada" ≡ stored "@ada" (plain accepted))
    × (prescribed members "@ada" invite_accepted "@ada"
        ≡ some (record { is_admin = true; status = accepted }))
unfolding lookup admin is_active
ada_demoted = accepting_admin_demoted group tables members shown "@ada" 3 refl refl

unban-inj : {u v : UserName} → unban u ≡ unban v → u ≡ v
unban-inj e = cc

bob-ne-eve : ◌≢◌ {A = UserName} "@bob" "@eve"
bob-ne-eve e = true-ne-false ((string_eq.same_iff "@bob" "@eve").1 e) refl

abbrev messages : List (UserName × GroupManageMsg)
messages = ("@eve", invite_accepted) ∷ ("@ada", add_admin "@eve") ∷ ("@ada", unban "@bob") ∷ []

ban_holds_example :
    (t' : Tables) × (apply_all group messages tables ≡ ok t')
    × Shows group t' (run messages members)
    × (excluded (run messages members "@eve") ≡ true)
unfolding lookup excluded is_banned
ban_holds_example =
    ban_holds group "@eve" messages tables members 3 shown refl refl
      (λ e. cc, (λ e. cc, (λ e. bob-ne-eve (unban-inj e), tt)))

banned_sender_ignored_example :
    apply_manage_message group "@eve" invite_accepted tables ≡ ok (false, tables)
unfolding lookup excluded is_banned
banned_sender_ignored_example =
    banned_sender_ignored group tables members 3 "@eve" invite_accepted shown refl refl

opened_once :
    (t' : Tables) × (ensure_initialized group tables ≡ ok t')
    × (ensure_initialized group t' ≡ ok t')
    × (((◌≡◌ {A = ℕ} 3 0)
          × (version group t' ≡ some 1)
          × Shows group t' (with_admin group tables members shown))
        ⊎ ((◌≢◌ {A = ℕ} 3 0) × (t' ≡ tables)))
unfolding lookup
opened_once = ensure_initialized_once group tables members shown 3 refl
