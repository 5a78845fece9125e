-- ===== src/Client/Roster/Banned.antt =====
-- What stays through any sequence of messages: bans.
use xirtam_core.Prelude.{
  ◌≡◌, ◌≢◌, refl, ap, ◌∙◌, inl, inr, true, false, ◌&&◌, Option, none, some, List, [], ◌∷◌, All,
  arith, string_eq, Bool-cases, Result, ok, ℕ, ◌+◌, ◌>>=◌,
}
use xirtam_core.Structs.{UserName}
use xirtam_core.Client.Roster.{
  GroupManageMsg, invite_sent, invite_accepted, leave, ban, unban, add_admin, remove_admin,
  is_active, is_banned, GroupRoster, Tables, RosterError, apply_manage_message,
}
use xirtam_core.Client.Roster.Rules.{
  Standing, Members, active, admin, excluded, effect, set, Shows, version,
}
use xirtam_core.Client.Roster.Changes.{apply_manage_message-effect}

-- the messages of one management mailbox, in the order in which they are seen
unfoldable pub apply_all :
    GroupRoster → List (UserName × GroupManageMsg) → Tables → Result RosterError Tables
apply_all roster [] t = ok t
apply_all roster ((sender, manage) ∷ rest) t =
    apply_manage_message roster sender manage t >>= λ r. apply_all roster rest r.1

abbrev pub run : List (UserName × GroupManageMsg) → Members → Members
run [] m = m
run ((sender, manage) ∷ rest) m = run rest (set (effect m sender manage) m)

standing-not_active :
    (s : Standing)
    → is_banned s.status ≡ true
    → (is_active s.status ≡ false) × ((s.is_admin && is_active s.status) ≡ false)
unfolding is_banned is_active
standing-not_active s h = ground arith

banned-not_active :
    (o : Option Standing) → excluded o ≡ true → (active o ≡ false) × (admin o ≡ false)
unfolding excluded active admin
banned-not_active none h = cc
banned-not_active (some s) h = standing-not_active s h

-- A banned sender's message is ignored.
banned_ignored :
    (m : Members) (sender : UserName) (manage : GroupManageMsg)
    → excluded (m sender) ≡ true
    → effect m sender manage ≡ none
unfolding effect excluded
banned_ignored m sender (invite_sent target) h = ground (arith, banned-not_active (m sender) h)
banned_ignored m sender invite_accepted h = ground arith
banned_ignored m sender leave h = ground arith
banned_ignored m sender (ban target) h = ground (arith, banned-not_active (m sender) h)
banned_ignored m sender (unban target) h = ground (arith, banned-not_active (m sender) h)
banned_ignored m sender (add_admin target) h = ground (arith, banned-not_active (m sender) h)
banned_ignored m sender (remove_admin target) h = ground (arith, banned-not_active (m sender) h)

module _ (u : UserName) where
  keeps_ban :
      (m : Members) (sender : UserName) (manage : GroupManageMsg)
      → manage ≢ unban u
      → excluded (m u) ≡ true
      → excluded (set (effect m sender manage) m u) ≡ true
  unfolding effect excluded
  keeps_ban m sender (invite_sent target) ne h = ground (arith, string_eq.same_iff target u)
  keeps_ban m sender invite_accepted ne h = ground (arith, string_eq.same_iff sender u)
  keeps_ban m sender leave ne h = ground (arith, string_eq.same_iff sender u)
  keeps_ban m sender (ban target) ne h = ground (arith, string_eq.same_iff target u)
  keeps_ban m sender (unban target) ne h = elim (Bool-cases (string_eq.same target u)) [
    | inl same ↦ absurd (ne (ap unban ((string_eq.same_iff target u).0 same)))
    | inr other ↦ ground arith
  ]
  keeps_ban m sender (add_admin target) ne h = ground (arith, string_eq.same_iff target u)
  keeps_ban m sender (remove_admin target) ne h = ground (arith, string_eq.same_iff target u)

  run-keeps_ban :
      (msgs : List (UserName × GroupManageMsg)) (m : Members)
      → All (λ msg. msg.1 ≢ unban u) msgs
      → excluded (m u) ≡ true
      → excluded (run msgs m u) ≡ true
  run-keeps_ban [] m none_unban h = h
  run-keeps_ban ((sender, manage) ∷ rest) m none_unban h =
      run-keeps_ban rest (set (effect m sender manage) m) none_unban.1
        (keeps_ban m sender manage none_unban.0 h)

module _ (roster : GroupRoster) where
  apply_all_refines :
      (msgs : List (UserName × GroupManageMsg)) (t : Tables) (m : Members) (v : ℕ)
      → Shows roster t m
      → version roster t ≡ some v
      → (t' : Tables) × (apply_all roster msgs t ≡ ok t') × Shows roster t' (run msgs m)
  unfolding apply_all
  apply_all_refines [] t m v shows at_v = (t, refl, shows)
  apply_all_refines ((sender, manage) ∷ rest) t m v shows at_v =
      let (changed, t', e, shows', grows, apart) =
        apply_manage_message-effect roster t m shows sender manage v at_v in
      let (w, at_w) : (w : ℕ) × (version roster t' ≡ some w) = elim grows [
        | inl g ↦ (v + 1, g.1)
        | inr g ↦ (v, rw g.1 at_v)
      ] in
      let (t'', f, shows'') =
        apply_all_refines rest t' (set (effect m sender manage) m) w shows' at_w in
      (t'', rw e f, shows'')

  -- Through any sequence of messages of which none unbans a member: a member that is banned at
  -- first is banned in the tables at the end, which hold the members that the messages lead to.
  pub ban_holds :
      (u : UserName) (msgs : List (UserName × GroupManageMsg)) (t : Tables) (m : Members) (v : ℕ)
      → Shows roster t m
      → version roster t ≡ some v
      → excluded (m u) ≡ true
      → All (λ msg. msg.1 ≢ unban u) msgs
      → (t' : Tables) × (apply_all roster msgs t ≡ ok t')
        × Shows roster t' (run msgs m)
        × (excluded (run msgs m u) ≡ true)
  ban_holds u msgs t m v shows at_v out none_unban =
      let (t', e, shown) = apply_all_refines msgs t m v shows at_v in
      (t', e, shown, run-keeps_ban u msgs m none_unban out)

  -- In a group, the tables stay as they are at a message of a banned sender.
  pub banned_sender_ignored :
      (t : Tables) (m : Members) (v : ℕ) (sender : UserName) (manage : GroupManageMsg)
      → Shows roster t m
      → version roster t ≡ some v
      → excluded (m sender) ≡ true
      → apply_manage_message roster sender manage t ≡ ok (false, t)
  banned_sender_ignored t m v sender manage shows at_v out =
      let (changed, t', e, shows', grows, apart) =
        apply_manage_message-effect roster t m shows sender manage v at_v in
      let idle = banned_ignored m sender manage out in
      elim grows [
        | inl (yes', grown, (u, ne)) ↦ absurd (rw idle at ne refl)
        | inr (no', same) ↦ e ∙ ap ok (rw (no', same) refl)
      ]
