-- ===== src/Directory/History/Extend.antt =====
-- What may come next: the contract between the client that signs and the server that checks.
use xirtam_core.Prelude.{
  ◌≡◌, refl, sym, ◌∙◌, ap, subst, ◌↔◌, List, [], ◌∷◌, ◌++◌, none, In, ok, >>=-eq-ok, arith, true,
}
use xirtam_core.Structs.{
  Hash, SigningSecret, zero_hash, blank_signature, DirectoryUpdate, DirectoryUpdateInner,
  DirectoryResponse, add_owner,
}
use xirtam_core.Env.{Env, SignsCorrectly}
use xirtam_core.Crypto.{IsLawful, public_key, verify-sign}
use xirtam_core.Directory.History.{
  DirectoryListing, update_signable, update_verified, verify_history, prev_update_hash,
  signed_update, list_updates, build_listing,
}
use xirtam_core.Directory.History.Valid.{
  Valid, Authorized, by_owner, by_first, done, link, verify_history_iff,
}
use xirtam_core.Directory.History.Append.{
  owners_after, owners-list_updates, hash_after, prev_update_hash-hash_after, Valid-append,
  Valid-split,
}

module _ (env : Env) where
  listing_owners :
      (response : DirectoryResponse) (l : DirectoryListing)
      → build_listing env response ≡ ok l
      → (verify_history env response.history ≡ ok tt)
        × (l.owners ≡ owners_after [] response.history)
  unfolding build_listing
  listing_owners response l h =
      let (u, v, e) = >>=-eq-ok (verify_history env response.history) _ h in
      let start : DirectoryListing = record { latest = none; owners = [] } in
      let same : list_updates start response.history ≡ l = ground arith in
      (
        v,
        ap (λ (k : DirectoryListing). k.owners) (sym same)
            ∙ owners-list_updates start response.history,
      )

  -- When a client has a listing of a key, the server's check accepts one more update of that key
  -- exactly if the update names the hash of the last one and an owner of the listing signed it, or,
  -- with no owner listed, if it adds a first owner that signed it itself.
  pub next_update_iff :
      (response : DirectoryResponse) (l : DirectoryListing) (u : DirectoryUpdate)
      → build_listing env response ≡ ok l
      → (verify_history env (response.history ++ u ∷ []) ≡ ok tt)
        ↔ ((u.prev_update_hash ≡ prev_update_hash env response.history) × Authorized env u l.owners)
  next_update_iff response l u h =
      let (ok', owners) = listing_owners response l h in
      let past : Valid env [] zero_hash response.history =
        (verify_history_iff env response.history).0 ok' in
      let last : prev_update_hash env response.history ≡ hash_after env zero_hash response.history =
        prev_update_hash-hash_after env response.history in
      (
        (λ accepted.
            let all = (verify_history_iff env (response.history ++ u ∷ [])).0 accepted in
            rw (owners, last)
              (one_link (Valid-split env [] zero_hash response.history (u ∷ []) all).1)),
        (λ next. (verify_history_iff env (response.history ++ u ∷ [])).1 (
            Valid-append env [] zero_hash response.history (u ∷ []) past
              (link _ _ u [] (next.0 ∙ last) (subst (Authorized env u) owners next.1) (done _ _)))),
      )
    where
      one_link :
          {o : List Hash} {p : Hash}
          → Valid env o p (u ∷ [])
          → (u.prev_update_hash ≡ p) × Authorized env u o
      one_link (link _ _ _ _ linked allowed v) = (linked, allowed)

  update-IsLawful : IsLawful env (update_signable env)
  update-IsLawful = record { signed_value_set = λ a s. refl; signature_set = λ a s. refl }

  module _ (correct : SignsCorrectly env) (signer : SigningSecret) where
    signed_update-verified :
        (prev : Hash) (t : DirectoryUpdateInner)
        → update_verified env (signed_update env prev t signer) (public_key env signer) ≡ true
    unfolding update_verified signed_update
    signed_update-verified prev t =
        verify-sign env (update_signable env) update-IsLawful correct
          (record { prev_update_hash = prev; update_type = t; signature = blank_signature }) signer

    -- What a listed owner signs with the client's `signed_update`, over the hash that the client
    -- computes from the history, is accepted as the next update, whatever the update is.
    pub owner_update_accepted :
        (response : DirectoryResponse) (l : DirectoryListing) (t : DirectoryUpdateInner)
        → build_listing env response ≡ ok l
        → In (public_key env signer) l.owners
        → verify_history env (
            response.history
            ++ signed_update env (prev_update_hash env response.history) t signer ∷ [])
          ≡ ok tt
    unfolding signed_update
    owner_update_accepted response l t h m =
        let prev = prev_update_hash env response.history in
        (next_update_iff response l (signed_update env prev t signer) h).1
          (refl, by_owner l.owners (public_key env signer) m (signed_update-verified prev t))

    -- A key with no update yet is claimed by adding the signer as its first owner.
    pub first_owner_accepted :
        verify_history env
          (signed_update env zero_hash (add_owner (public_key env signer)) signer ∷ [])
        ≡ ok tt
    unfolding signed_update
    first_owner_accepted =
        let t = add_owner (public_key env signer) in
        let u = signed_update env zero_hash t signer in
        (verify_history_iff env (u ∷ [])).1 (
          link [] zero_hash u [] refl
            (by_first (public_key env signer) refl (signed_update-verified zero_hash t)) (done _ _))
