-- ===== src/Client/Roster.antt =====
-- libraries/nullspace-client/src/convo/roster.rs: the members of a group as one device sees them.
-- The roster lives in two tables of the client's database. Its methods take them and return them.
pub mod Rules
pub mod Steps
pub mod Changes
pub mod Prescribed
pub mod Banned
pub mod Start
use xirtam_core.Prelude.{
  ℕ, ◌+◌, Bool, true, false, not, ◌&&◌, ◌||◌, String, Option, none, some, List, [], ◌∷◌, ◌==◌,
  nat_eq, string_eq, pair_eq, lookup, insert, without, Result, ok, err, guard, ◌>>=◌, ◌>>◌,
  if◌then◌else◌,
}
use xirtam_core.Structs.{UserName, GroupId}

pub data GroupMemberStatus : Type 0 where
  pending accepted banned : GroupMemberStatus

pub data GroupManageMsg : Type 0 where
  invite_sent : UserName → GroupManageMsg
  invite_accepted leave : GroupManageMsg
  ban unban add_admin remove_admin : UserName → GroupManageMsg

pub record RosterMember : Type 0 where
  pub username : UserName
  pub is_admin : Bool
  pub status : GroupMemberStatus

-- a row of group_members: is_admin INTEGER, status TEXT
pub record MemberRow : Type 0 where
  pub is_admin : ℕ
  pub status : String

-- group_members by its primary key, and the column roster_version of groups
pub record Tables : Type 0 where
  pub group_members : List ((GroupId × UserName) × MemberRow)
  pub roster_version : List (GroupId × ℕ)

pub data RosterError : Type 0 where
  group_not_found invalid_status : RosterError

pub record GroupRoster : Type 0 where
  pub group_id : GroupId
  pub init_admin : UserName

unfoldable pub is_active : GroupMemberStatus → Bool
is_active pending = true
is_active accepted = true
is_active banned = false

unfoldable pub is_banned : GroupMemberStatus → Bool
is_banned banned = true
is_banned _ = false

unfoldable pub status_from_str : String → Option GroupMemberStatus
status_from_str value =
    if value == "pending"
    then some pending
    else (if value == "accepted"
        then some accepted
        else (if value == "banned" then some banned else none))

unfoldable pub status_as_str : GroupMemberStatus → String
status_as_str pending = "pending"
status_as_str accepted = "accepted"
status_as_str banned = "banned"

-- `i64::from` of a bool
unfoldable pub flag : Bool → ℕ
flag true = 1
flag false = 0

unfoldable pub row_of : RosterMember → MemberRow
unfolding flag status_as_str
row_of member = record { is_admin = flag member.is_admin; status = status_as_str member.status }

-- a row as the code reads it
unfoldable pub decode : UserName → MemberRow → Result RosterError RosterMember
decode username row = elim (status_from_str row.status) [
  | none ↦ err invalid_status
  | some status ↦
      ok (record { username = username; is_admin = not (row.is_admin == 0); status = status })
]

-- the row is compared as it is stored
abbrev pub same_row : MemberRow → MemberRow → Bool
same_row a b = a.is_admin == b.is_admin && a.status == b.status

abbrev pub member_with : UserName → Bool → GroupMemberStatus → RosterMember
member_with username is_admin status = record {
  username = username;
  is_admin = is_admin;
  status = status;
}

unfoldable pub sender_active : Option RosterMember → Bool
sender_active me = elim me [ some member ↦ is_active member.status | none ↦ false ]

unfoldable pub sender_admin : Option RosterMember → Bool
sender_admin me = elim me [
  | some member ↦ member.is_admin && is_active member.status
  | none ↦ false
]

module _ (roster : GroupRoster) where
  abbrev pub row_at : Tables → UserName → Option MemberRow
  row_at t username = lookup (roster.group_id, username) t.group_members

  unfoldable pub get_raw : Tables → UserName → Result RosterError (Option RosterMember)
  get_raw t username = elim (row_at t username) [
    | none ↦ ok none
    | some row ↦ decode username row >>= λ member. ok (some member)
  ]

  abbrev pub put : RosterMember → Tables → Tables
  put member t = record t {
    group_members = insert (roster.group_id, member.username) (row_of member) t.group_members;
  }

  unfoldable pub upsert_member : RosterMember → Tables → Bool × Tables
  upsert_member member t =
      if elim (row_at t member.username) [ some row ↦ same_row row (row_of member) | none ↦ false ]
      then (false, t)
      else (true, put member t)

  unfoldable pub remove_member : UserName → Tables → Bool × Tables
  remove_member username t = (
    elim (row_at t username) [ some _ ↦ true | none ↦ false ],
    record t { group_members = without (roster.group_id, username) t.group_members },
  )

  unfoldable pub bump_version : Tables → Tables
  bump_version t = elim (lookup roster.group_id t.roster_version) [
    | none ↦ t
    | some version ↦ record t {
      roster_version = insert roster.group_id (version + 1) t.roster_version;
    }
  ]

  unfoldable pub ensure_initialized : Tables → Result RosterError Tables
  ensure_initialized t = elim (lookup roster.group_id t.roster_version) [
    | none ↦ err group_not_found
    | some version ↦
        if not (version == 0)
        then ok t
        else (let (changed, t') =
              upsert_member
                (record { username = roster.init_admin; is_admin = true; status = accepted }) t in
            ok (record t' { roster_version = insert roster.group_id 1 t'.roster_version }))
  ]

  -- The arms of the `match` in `apply_manage_message`. The two guarded arms of an invitation take
  -- the three states of a member that is found.
  unfoldable pub change :
      UserName → Option RosterMember → GroupManageMsg → Tables → Result RosterError (Bool × Tables)
  change sender me (invite_sent username) t =
      if not (sender_active me)
      then ok (false, t)
      else (get_raw t username >>= λ found. elim found [
        | some member ↦ ok (false, t)
        | none ↦ ok (upsert_member (member_with username false pending) t)
      ])
  change sender me invite_accepted t = get_raw t sender >>= λ found. elim found [
    | some member ↦
        if is_banned member.status
        then ok (false, t)
        else ok (upsert_member (member_with sender false accepted) t)
    | none ↦ ok (upsert_member (member_with sender false accepted) t)
  ]
  change sender me leave t = get_raw t sender >>= λ found. elim found [
    | some member ↦ if is_banned member.status then ok (false, t) else ok (remove_member sender t)
    | none ↦ ok (false, t)
  ]
  change sender me (ban username) t =
      if not (sender_admin me)
      then ok (false, t)
      else ok (upsert_member (member_with username false banned) t)
  change sender me (unban username) t =
      if not (sender_admin me)
      then ok (false, t)
      else (get_raw t username >>= λ found. elim found [
        | some member ↦
            if is_banned member.status
            then ok (upsert_member (member_with username false pending) t)
            else ok (false, t)
        | none ↦ ok (false, t)
      ])
  change sender me (add_admin username) t =
      if not (sender_admin me)
      then ok (false, t)
      else (get_raw t username >>= λ found. elim found [
        | some member ↦
            if is_active member.status
            then ok (upsert_member (member_with username true member.status) t)
            else ok (false, t)
        | none ↦ ok (false, t)
      ])
  change sender me (remove_admin username) t =
      if not (sender_admin me)
      then ok (false, t)
      else (get_raw t username >>= λ found. elim found [
        | some member ↦
            if is_active member.status
            then ok (upsert_member (member_with username false member.status) t)
            else ok (false, t)
        | none ↦ ok (false, t)
      ])

  unfoldable pub apply_manage_message :
      UserName → GroupManageMsg → Tables → Result RosterError (Bool × Tables)
  apply_manage_message sender manage t = do
    me ← get_raw t sender
    (changed, t') ← change sender me manage t
    ok (changed, if changed then bump_version t' else t')
