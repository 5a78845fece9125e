-- ===== src/Client/Roster/Start.antt =====
-- The first roster of a group.
use xirtam_core.Prelude.{
  ℕ, zero, suc, ◌≡◌, ◌≢◌, refl, ◌⊎◌, inl, inr, true, false, some, ◌==◌, arith, nat_eq, insert,
  lookup-insert_self, ok,
}
use xirtam_core.Client.Roster.{
  accepted, Tables, GroupRoster, upsert_member, member_with, ensure_initialized,
}
use xirtam_core.Client.Roster.Rules.{Members, set, Shows, version}
use xirtam_core.Client.Roster.Steps.{upserted}

module _ (roster : GroupRoster) (t : Tables) (m : Members) (shows : Shows roster t m) where
  abbrev pub with_admin : Members
  with_admin =
      set (some (roster.init_admin, some (record { is_admin = true; status = accepted }))) m

  -- Opening a group's roster makes its first admin a member with the rights of an admin, the first
  -- time, when the version is 0, and changes nothing later. Opening it again changes nothing.
  pub ensure_initialized_once :
      (v : ℕ)
      → version roster t ≡ some v
      → (t' : Tables) × (ensure_initialized roster t ≡ ok t')
        × (ensure_initialized roster t' ≡ ok t')
        × (((v ≡ 0) × (version roster t' ≡ some 1) × Shows roster t' with_admin)
            ⊎ ((v ≢ 0) × (t' ≡ t)))
  unfolding ensure_initialized
  ensure_initialized_once (suc v) at_v =
      let positive : (suc v == 0) ≡ false = ground arith in
      let same : ensure_initialized roster t ≡ ok t =
        rw (at_v, ensure_initialized) (rw positive refl) in
      (t, same, same, inr (λ e. omega (arith, e), refl))
  ensure_initialized_once zero at_v =
      let o = upserted roster t m shows roster.init_admin true accepted in
      let r = upsert_member roster (member_with roster.init_admin true accepted) t in
      let first = lookup-insert_self roster.group_id 1 r.1.roster_version in
      (
        record r.1 { roster_version = insert roster.group_id 1 r.1.roster_version },
        rw (at_v, ensure_initialized) refl,
        rw (first, ensure_initialized) refl,
        inl (refl, first, o.shown),
      )
