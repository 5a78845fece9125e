-- ===== src/Directory/History/Append.antt =====
-- A history is valid up to any point, and goes on from the owners and the hash at that point.
use xirtam_core.Prelude.{◌≡◌, refl, ◌∙◌, ap, List, [], ◌∷◌, ◌++◌, nat_eq, ok}
use xirtam_core.Structs.{
  Hash, DirectoryUpdate, DirectoryUpdateInner, add_owner, del_owner, update, zero_hash,
}
use xirtam_core.Env.{Env}
use xirtam_core.Directory.History.{
  Owners, apply_owners, update_hash, verify_history, prev_update_hash, DirectoryListing,
  list_update, list_updates,
}
use xirtam_core.Directory.History.Valid.{Valid, done, link, verify_history_iff}

-- the owners that a list of updates leaves
unfoldable pub owners_after : Owners → List DirectoryUpdate → Owners
owners_after owners [] = owners
owners_after owners (u ∷ us) = owners_after (apply_owners u.update_type owners) us

-- The client's listing follows the same owners as the verification does.
owners-list_update :
    (l : DirectoryListing) (t : DirectoryUpdateInner)
    → (list_update l t).owners ≡ apply_owners t l.owners
unfolding apply_owners
owners-list_update l (add_owner k) = refl
owners-list_update l (del_owner k) = refl
owners-list_update l (update b) = refl

pub owners-list_updates :
    (l : DirectoryListing) (us : List DirectoryUpdate)
    → (list_updates l us).owners ≡ owners_after l.owners us
unfolding list_updates owners_after
owners-list_updates l [] = refl
owners-list_updates l (u ∷ us) =
    owners-list_updates (list_update l u.update_type) us
    ∙ ap (λ o. owners_after o us) (owners-list_update l u.update_type)

module _ (env : Env) where
  unfoldable pub hash_after : Hash → List DirectoryUpdate → Hash
  hash_after prev [] = prev
  hash_after prev (u ∷ us) = hash_after (update_hash env u) us

  pub prev_update_hash-hash_after :
      (us : List DirectoryUpdate) → prev_update_hash env us ≡ hash_after zero_hash us
  unfolding prev_update_hash hash_after
  prev_update_hash-hash_after [] = refl
  prev_update_hash-hash_after (u ∷ []) = refl
  prev_update_hash-hash_after (u ∷ v ∷ us) = prev_update_hash-hash_after (v ∷ us)

  pub Valid-append :
      (owners : Owners) (prev : Hash) (xs ys : List DirectoryUpdate)
      → Valid env owners prev xs
      → Valid env (owners_after owners xs) (hash_after prev xs) ys
      → Valid env owners prev (xs ++ ys)
  unfolding owners_after hash_after
  Valid-append owners prev [] ys v w = w
  Valid-append owners prev (u ∷ us) ys (link _ _ _ _ linked allowed v) w =
      link owners prev u (us ++ ys) linked allowed
        (Valid-append (apply_owners u.update_type owners) (update_hash env u) us ys v w)

  pub Valid-split :
      (owners : Owners) (prev : Hash) (xs ys : List DirectoryUpdate)
      → Valid env owners prev (xs ++ ys)
      → Valid env owners prev xs × Valid env (owners_after owners xs) (hash_after prev xs) ys
  unfolding owners_after hash_after
  Valid-split owners prev [] ys v = (done owners prev, v)
  Valid-split owners prev (u ∷ us) ys (link _ _ _ _ linked allowed v) =
      let (a, b) = Valid-split (apply_owners u.update_type owners) (update_hash env u) us ys v in
      (link owners prev u us linked allowed a, b)

  -- Every earlier state of an accepted history is accepted.
  pub verify_history_prefix :
      (xs ys : List DirectoryUpdate)
      → verify_history env (xs ++ ys) ≡ ok tt
      → verify_history env xs ≡ ok tt
  verify_history_prefix xs ys h =
      (verify_history_iff env xs).1
        (Valid-split [] zero_hash xs ys ((verify_history_iff env (xs ++ ys)).0 h)).0
