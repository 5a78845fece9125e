-- ===== src/Directory/History/Valid.antt =====
-- Histories by rules, and `verify_history` as their decision.
use xirtam_core.Prelude.{
  ◌≡◌, refl, ap, ◌↔◌, true, Option, none, some, List, [], ◌∷◌, ◌==◌, nat_eq, nat_beq_iff, In,
  any-witness, any-In, ok, guard-eq-ok, guard-true, ◌∙◌,
}
use xirtam_core.Structs.{
  Hash, SigningPublic, zero_hash, DirectoryUpdate, DirectoryUpdateInner, add_owner, del_owner,
  update,
}
use xirtam_core.Env.{Env}
use xirtam_core.Directory.History.{
  Owners, apply_owners, expected_prev, update_hash, update_verified, authority, first_owner,
  verify_from, verify_history,
}

module _ (env : Env) where
  -- Who may make an update: any owner; while there is none, a first owner for itself.
  pub data Authorized (u : DirectoryUpdate) : Owners → Type 0 where
    by_owner :
        (owners : Owners) (owner : SigningPublic)
        → In owner owners
        → update_verified env u owner ≡ true
        → Authorized u owners
    by_first :
        (owner : SigningPublic)
        → u.update_type ≡ add_owner owner
        → update_verified env u owner ≡ true
        → Authorized u []

  -- From the owners and the hash before it, a list of updates is linked and authorized throughout.
  pub data Valid : Owners → Hash → List DirectoryUpdate → Type 0 where
    done : (owners : Owners) (prev : Hash) → Valid owners prev []
    link :
        (owners : Owners) (prev : Hash) (u : DirectoryUpdate) (us : List DirectoryUpdate)
        → u.prev_update_hash ≡ prev
        → Authorized u owners
        → Valid (apply_owners u.update_type owners) (update_hash env u) us
        → Valid owners prev (u ∷ us)

  first-Authorized :
      (u : DirectoryUpdate) (t : DirectoryUpdateInner)
      → u.update_type ≡ t
      → (first_owner env u t).0 ≡ true
      → Authorized u []
  first-Authorized u (add_owner k) e h = by_first k e h
  first-Authorized u (del_owner k) e h = cc
  first-Authorized u (update b) e h = cc

  authority-Authorized :
      (owners : Owners) (u : DirectoryUpdate)
      → (authority env owners u).0 ≡ true
      → Authorized u owners
  unfolding authority
  authority-Authorized [] u h = first-Authorized u u.update_type refl h
  authority-Authorized (o ∷ owners) u h =
      let (k, m, v) = any-witness (λ owner. update_verified env u owner) (o ∷ owners) h in
      by_owner (o ∷ owners) k m v

  Authorized-authority :
      {owners : Owners} (u : DirectoryUpdate)
      → Authorized u owners
      → (authority env owners u).0 ≡ true
  unfolding authority
  Authorized-authority u (by_owner [] k m v) = elim m [ ]
  Authorized-authority u (by_owner (o ∷ owners) k m v) =
      any-In (λ owner. update_verified env u owner) k (o ∷ owners) m v
  Authorized-authority u (by_first k e v) = ap (λ t. (first_owner env u t).0) e ∙ v

  pub authority_iff :
      (owners : Owners) (u : DirectoryUpdate)
      → ((authority env owners u).0 ≡ true) ↔ Authorized u owners
  authority_iff owners u = (authority-Authorized owners u, Authorized-authority u)

  pub verify_from-Valid :
      (owners : Owners) (prev : Option Hash) (us : List DirectoryUpdate)
      → verify_from env owners prev us ≡ ok tt
      → Valid owners (expected_prev prev) us
  unfolding verify_from
  verify_from-Valid owners prev [] h = done owners (expected_prev prev)
  verify_from-Valid owners prev (u ∷ us) h =
      let (linked, h') = guard-eq-ok (u.prev_update_hash == expected_prev prev) _ _ h in
      let (allowed, h'') = guard-eq-ok (authority env owners u).0 _ _ h' in
      link owners (expected_prev prev) u us ((nat_beq_iff _ _).0 linked)
        (authority-Authorized owners u allowed)
        (verify_from-Valid (apply_owners u.update_type owners) (some (update_hash env u)) us h'')

  pub Valid-verify_from :
      (owners : Owners) (prev : Option Hash) (us : List DirectoryUpdate)
      → Valid owners (expected_prev prev) us
      → verify_from env owners prev us ≡ ok tt
  unfolding verify_from
  Valid-verify_from owners prev [] v = refl
  Valid-verify_from owners prev (u ∷ us) (link _ _ _ _ linked allowed v) =
      guard-true (u.prev_update_hash == expected_prev prev) _ _ ((nat_beq_iff _ _).1 linked)
      ∙ guard-true (authority env owners u).0 _ _ (Authorized-authority u allowed)
      ∙ Valid-verify_from (apply_owners u.update_type owners) (some (update_hash env u)) us v

  -- `verify_history` accepts a history exactly when it is linked from the zero hash and every
  -- update is authorized by the owners that the updates before it leave.
  pub verify_history_iff :
      (us : List DirectoryUpdate) → (verify_history env us ≡ ok tt) ↔ Valid [] zero_hash us
  unfolding verify_history
  verify_history_iff us = (verify_from-Valid [] none us, Valid-verify_from [] none us)
