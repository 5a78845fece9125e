-- ===== src/Client/Roster/Steps.antt =====
-- What the statements of a change do to the members that the tables hold.
use xirtam_core.Prelude.{
  ◌≡◌, ◌≢◌, ◌∙◌, refl, sym, ap, inl, inr, Bool, true, false, Option, none, some, ◌==◌, arith,
  nat_eq, string_eq, pair_eq, nat_beq_iff, lookup, lookup-insert, lookup-without, ok, ◌>>=◌,
  Bool-cases, Option-cases, some-inj, true-ne-false,
}
use xirtam_core.Structs.{UserName, GroupId}
use xirtam_core.Client.Roster.{
  GroupMemberStatus, pending, accepted, banned, RosterMember, MemberRow, Tables, GroupRoster, flag,
  row_of, row_at, member_with, status_as_str, status_from_str, decode, get_raw, same_row, put,
  upsert_member, remove_member,
}
use xirtam_core.Client.Roster.Rules.{Standing, Members, set, stored, Shows}

abbrev pub member_of : UserName → Option Standing → Option RosterMember
member_of username none = none
member_of username (some s) = some (member_with username s.is_admin s.status)

decode-row_of :
    (username : UserName) (is_admin : Bool) (status : GroupMemberStatus)
    → decode username (row_of (member_with username is_admin status))
      ≡ ok (member_with username is_admin status)
unfolding decode row_of flag status_as_str status_from_str
decode-row_of username true pending = refl
decode-row_of username true accepted = refl
decode-row_of username true banned = refl
decode-row_of username false pending = refl
decode-row_of username false accepted = refl
decode-row_of username false banned = refl

status_as_str-read : (s : GroupMemberStatus) → status_from_str (status_as_str s) ≡ some s
unfolding status_as_str status_from_str
status_as_str-read pending = refl
status_as_str-read accepted = refl
status_as_str-read banned = refl

-- the columns distinguish standings
flag-inj : (a b : Bool) → nat_eq.same (flag a) (flag b) ≡ true → a ≡ b
unfolding flag
flag-inj true true h = refl
flag-inj false false h = refl
flag-inj true false h = cc
flag-inj false true h = cc

status_as_str-inj :
    (s r : GroupMemberStatus) → string_eq.same (status_as_str s) (status_as_str r) ≡ true → s ≡ r
unfolding status_as_str
status_as_str-inj s r h =
    let read : (s : GroupMemberStatus) → status_from_str (status_as_str s) ≡ some s =
      status_as_str-read in
    some-inj (sym (read s) ∙ ap status_from_str ((string_eq.same_iff _ _).0 h) ∙ read r)

same_row_self : (row : MemberRow) → same_row row row ≡ true
same_row_self row = ground (arith, string_eq.same_iff row.status row.status)

same_row-eq :
    (u v : UserName) (a b : Bool) (s r : GroupMemberStatus)
    → same_row (row_of (member_with u a s)) (row_of (member_with v b r)) ≡ true
    → (a ≡ b) × (s ≡ r)
unfolding row_of
same_row-eq u v a b s r h = ground (arith, flag-inj a b, status_as_str-inj s r)

module _ (roster : GroupRoster) (t : Tables) (m : Members) (shows : Shows roster t m) where
  pub get_raw-shows :
      (username : UserName) → get_raw roster t username ≡ ok (member_of username (m username))
  unfolding get_raw
  get_raw-shows username =
      rw (shows username, get_raw)
        (elim (m username)
          as (λ o.
            elim (stored username o) [
              | none ↦ ok none
              | some row ↦ decode username row >>= λ member. ok (some member)
            ]
            ≡ ok (member_of username o)) [
              | none ↦ refl
              | some s ↦ rw (decode-row_of username s.is_admin s.status) refl
            ])

  -- a step of the tables, from `t`, that does what an effect says
  pub record Outcome (r : Bool × Tables) (e : Option (UserName × Option Standing)) : Type 0 where
    pub shown : Shows roster r.1 (set e m)
    pub version : r.1.roster_version ≡ t.roster_version
    pub idle : r.0 ≡ false → r.1 ≡ t
    pub differs : r.0 ≡ true → (username : UserName) × (set e m username ≢ m username)
    pub others :
        (g : GroupId) (username : UserName)
        → (roster.group_id == g) ≡ false
        → lookup (g, username) r.1.group_members ≡ lookup (g, username) t.group_members

  pub ignored : Outcome (false, t) none
  ignored = record {
    shown = shows;
    version = refl;
    idle = λ _. refl;
    differs = λ h. cc;
    others = λ _ _ _. refl;
  }

  pub removed :
      (username : UserName) (s : Standing)
      → m username ≡ some s
      → Outcome (remove_member roster username t) (some (username, none))
  unfolding remove_member
  removed username s here = record {
    shown = λ u. ground (
      arith,
      lookup-without (roster.group_id, username) (roster.group_id, u) t.group_members,
      shows u,
      nat_beq_iff roster.group_id roster.group_id,
    );
    version = refl;
    idle = λ h. ground (arith, shows username, here);
    differs = λ h. (username, λ e. ground (arith, string_eq.same_iff username username, here, e));
    others = λ g u other.
        ground (arith, lookup-without (roster.group_id, username) (g, u) t.group_members);
  }

  module _ (username : UserName) (b : Bool) (s : GroupMemberStatus) where
    abbrev new : Standing
    new = record { is_admin = b; status = s }

    abbrev member : RosterMember
    member = member_with username b s

    abbrev stands : Bool
    stands = elim (row_at roster t username) [
      | some row ↦ same_row row (row_of member)
      | none ↦ false
    ]

    unchanged : m username ≡ some new → Outcome (false, t) (some (username, some new))
    unchanged here = record {
      shown = λ u. ground (arith, shows u, string_eq.same_iff username u, here);
      version = refl;
      idle = λ _. refl;
      differs = λ h. cc;
      others = λ _ _ _. refl;
    }

    written :
        m username ≢ some new → Outcome (true, put roster member t) (some (username, some new))
    written other = record {
      shown = λ u. ground (
        arith,
        lookup-insert (roster.group_id, username) (roster.group_id, u) (row_of member)
            t.group_members,
        shows u,
        nat_beq_iff roster.group_id roster.group_id,
        string_eq.same_iff username u,
      );
      version = refl;
      idle = λ h. cc;
      differs =
          λ h. (username, λ e. other (ground (arith, string_eq.same_iff username username, e)));
      others = λ g u away.
          ground (
            arith,
            lookup-insert (roster.group_id, username) (g, u) (row_of member) t.group_members,
          );
    }

    stands-eq : stands ≡ true → m username ≡ some new
    stands-eq h = elim (Option-cases (m username)) [
      | inl none' ↦ ground (arith, shows username, none')
      | inr (old, here) ↦
          ground
            (arith, shows username, here, same_row-eq username username old.is_admin b old.status s)
    ]

    eq-stands : m username ≡ some new → stands ≡ true
    eq-stands here = ground (arith, shows username, here, same_row_self (row_of member))

    pub upserted : Outcome (upsert_member roster member t) (some (username, some new))
    unfolding upsert_member
    upserted = elim (Bool-cases stands) [
      | inl held ↦ rw held (unchanged (stands-eq held))
      | inr other ↦ rw other (written (λ e. true-ne-false (eq-stands e) other))
    ]
