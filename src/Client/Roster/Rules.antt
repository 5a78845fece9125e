-- ===== src/Client/Roster/Rules.antt =====
-- The members of a group without their tables: what each message does to them in the code
-- (`effect`), and what docs/protocol/groups.md prescribes (`prescribed`).
use xirtam_core.Prelude.{
  ℕ, nat_eq, ◌≡◌, Bool, true, false, not, ◌&&◌, Option, none, some, ◌==◌, string_eq, lookup,
  if◌then◌else◌,
}
use xirtam_core.Structs.{UserName}
use xirtam_core.Client.Roster.{
  GroupMemberStatus, pending, accepted, banned, GroupManageMsg, invite_sent, invite_accepted, leave,
  ban, unban, add_admin, remove_admin, MemberRow, Tables, GroupRoster, row_of, row_at, member_with,
  is_active, is_banned,
}

pub record Standing : Type 0 where
  pub is_admin : Bool
  pub status : GroupMemberStatus

-- who is in the group, and how
abbrev pub Members : Type 0
Members = UserName → Option Standing

abbrev pub plain : GroupMemberStatus → Option Standing
plain status = some (record { is_admin = false; status = status })

unfoldable pub active : Option Standing → Bool
unfolding is_active
active who = elim who [ some s ↦ is_active s.status | none ↦ false ]

unfoldable pub admin : Option Standing → Bool
unfolding is_active
admin who = elim who [ some s ↦ s.is_admin && is_active s.status | none ↦ false ]

unfoldable pub excluded : Option Standing → Bool
unfolding is_banned
excluded who = elim who [ some s ↦ is_banned s.status | none ↦ false ]

-- What the code does: the member whose standing a message sets, and the new standing; none where it
-- is ignored.
unfoldable pub effect : Members → UserName → GroupManageMsg → Option (UserName × Option Standing)
effect m sender (invite_sent target) =
    if active (m sender)
    then elim (m target) [ none ↦ some (target, plain pending) | some _ ↦ none ]
    else none
effect m sender invite_accepted =
    if excluded (m sender) then none else some (sender, plain accepted)
effect m sender leave = elim (m sender) [
  | none ↦ none
  | some s ↦ if is_banned s.status then none else some (sender, none)
]
effect m sender (ban target) = if admin (m sender) then some (target, plain banned) else none
effect m sender (unban target) =
    if admin (m sender) && excluded (m target) then some (target, plain pending) else none
effect m sender (add_admin target) =
    if admin (m sender)
    then elim (m target) [
      | some s ↦
          if is_active s.status then some (target, some (record s { is_admin = true })) else none
      | none ↦ none
    ]
    else none
effect m sender (remove_admin target) =
    if admin (m sender)
    then elim (m target) [
      | some s ↦ if is_active s.status then some (target, plain s.status) else none
      | none ↦ none
    ]
    else none

abbrev pub set : Option (UserName × Option Standing) → Members → Members
set none m username = m username
set (some (target, standing)) m username = if target == username then standing else m username

-- The document's authorization rules.
abbrev pub authorized : Members → UserName → GroupManageMsg → Bool
authorized m sender (invite_sent _) = active (m sender)
authorized m sender invite_accepted = not (excluded (m sender))
authorized m sender leave = not (excluded (m sender))
authorized m sender (ban _) = admin (m sender)
authorized m sender (unban _) = admin (m sender)
authorized m sender (add_admin _) = admin (m sender)
authorized m sender (remove_admin _) = admin (m sender)

-- whom a message is about
abbrev pub subject : UserName → GroupManageMsg → UserName
subject sender (invite_sent target) = target
subject sender invite_accepted = sender
subject sender leave = sender
subject sender (ban target) = target
subject sender (unban target) = target
subject sender (add_admin target) = target
subject sender (remove_admin target) = target

abbrev pub with_status : GroupMemberStatus → Option Standing → Option Standing
with_status status none = plain status
with_status status (some s) = some (record s { status = status })

abbrev pub with_admin_flag : Bool → Option Standing → Option Standing
with_admin_flag is_admin none = none
with_admin_flag is_admin (some s) = some (record s { is_admin = is_admin })

-- The document's column "Meaning": what becomes of that member. A ban leaves no admin flag, which
-- has a meaning only for members that are not banned.
abbrev pub becomes : GroupManageMsg → Option Standing → Option Standing
becomes (invite_sent _) none = plain pending
becomes (invite_sent _) (some s) = some s
becomes invite_accepted who = with_status accepted who
becomes leave who = none
becomes (ban _) who = plain banned
becomes (unban _) who = if excluded who then plain pending else who
becomes (add_admin _) who = if active who then with_admin_flag true who else who
becomes (remove_admin _) who = if active who then with_admin_flag false who else who

abbrev pub prescribed : Members → UserName → GroupManageMsg → Members
prescribed m sender manage username =
    if authorized m sender manage && subject sender manage == username
    then becomes manage (m username)
    else m username

-- an admin accepts an invitation
abbrev pub admin_accepts : Members → UserName → GroupManageMsg → Bool
admin_accepts m sender invite_accepted = admin (m sender)
admin_accepts m sender _ = false

-- what the tables hold for a standing
abbrev pub stored : UserName → Option Standing → Option MemberRow
stored username none = none
stored username (some s) = some (row_of (member_with username s.is_admin s.status))

-- the tables hold these members of the group
abbrev pub Shows : GroupRoster → Tables → Members → Type 0
Shows roster t m = (username : UserName) → row_at roster t username ≡ stored username (m username)

abbrev pub version : GroupRoster → Tables → Option ℕ
version roster t = lookup roster.group_id t.roster_version
