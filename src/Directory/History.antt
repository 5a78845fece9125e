-- ===== src/Directory/History.antt =====
-- `verify_history` of libraries/nullspace-structs/src/directory.rs, and the client's `build_listing`,
-- `prev_update_hash` and `signed_update` (libraries/nullspace-dirclient/src/lib.rs).
pub mod Valid
pub mod Rightful
pub mod Append
pub mod Extend
pub mod Tamper
use xirtam_core.Prelude.{
  Bool, true, false, not, Option, none, some, List, [], ◌∷◌, ◌++◌, ◌==◌, nat_eq, any, keep,
  contains, last?, Result, ok, err, guard, ◌>>=◌, ◌>>◌, if◌then◌else◌,
}
use xirtam_core.Structs.{
  Hash, SigningPublic, SigningSecret, zero_hash, blank_signature, Blob, DirectoryUpdate,
  DirectoryUpdateInner, add_owner, del_owner, update, DirectoryHistoryError, no_owners,
  invalid_signature, invalid_prev_hash, DirectoryResponse,
}
use xirtam_core.Env.{Env}
use xirtam_core.Crypto.{Signable, digest, sign, verify}

abbrev pub Owners : Type 0
Owners = List SigningPublic

-- the `match &update.update_type` that ends the loop's body
unfoldable pub apply_owners : DirectoryUpdateInner → Owners → Owners
apply_owners (add_owner owner) owners =
    if contains owners owner then owners else owners ++ owner ∷ []
apply_owners (del_owner owner) owners = keep (λ existing. not (existing == owner)) owners
apply_owners (update _) owners = owners

-- the hash that an update must name: the one of the update before it, or zeros
abbrev pub expected_prev : Option Hash → Hash
expected_prev (some expected) = expected
expected_prev none = zero_hash

module _ (env : Env) where
  -- impl Signable for DirectoryUpdate
  abbrev pub update_signable : Signable DirectoryUpdate
  update_signable = record {
    signed_value = λ u. env.bcs_update_body u.prev_update_hash u.update_type;
    signature = λ u. u.signature;
    set_signature = λ u s. record u { signature = s };
  }

  -- DirectoryUpdate::hash, and the client's `update_hash`
  unfoldable pub update_hash : DirectoryUpdate → Hash
  unfolding digest
  update_hash u = digest env (env.bcs_update u)

  -- `update.verify(pk).is_ok()`
  unfoldable pub update_verified : DirectoryUpdate → SigningPublic → Bool
  unfolding verify
  update_verified u pk = verify env update_signable u pk

  -- `(is_valid, can_verify)` while there is no owner
  abbrev pub first_owner : DirectoryUpdate → DirectoryUpdateInner → Bool × Bool
  first_owner u (add_owner owner_pk) = (update_verified u owner_pk, true)
  first_owner u _ = (false, false)

  -- `(is_valid, can_verify)`
  unfoldable pub authority : Owners → DirectoryUpdate → Bool × Bool
  authority [] u = first_owner u u.update_type
  authority (o ∷ owners) u = (any (λ owner. update_verified u owner) (o ∷ owners), true)

  -- the loop of `verify_history`, from its variables `owners` and `prev_hash`
  unfoldable pub verify_from :
      Owners → Option Hash → List DirectoryUpdate → Result DirectoryHistoryError (Unit {0})
  verify_from owners prev_hash [] = ok tt
  verify_from owners prev_hash (u ∷ us) = do
    guard (u.prev_update_hash == expected_prev prev_hash) invalid_prev_hash
    guard (authority owners u).0 (if (authority owners u).1 then invalid_signature else no_owners)
    verify_from (apply_owners u.update_type owners) (some (update_hash u)) us

  unfoldable pub verify_history : List DirectoryUpdate → Result DirectoryHistoryError (Unit {0})
  verify_history updates = verify_from [] none updates

  -- prev_update_hash of the client
  unfoldable pub prev_update_hash : List DirectoryUpdate → Hash
  prev_update_hash history = elim (last? history) [ some u ↦ update_hash u | none ↦ zero_hash ]

  unfoldable pub signed_update : Hash → DirectoryUpdateInner → SigningSecret → DirectoryUpdate
  unfolding sign
  signed_update prev update_type signer =
      sign env update_signable
        (record { prev_update_hash = prev; update_type = update_type; signature = blank_signature })
        signer

-- `DirectoryListing`
pub record DirectoryListing : Type 0 where
  pub latest : Option Blob
  pub owners : Owners

-- the loop of `build_listing`
abbrev pub list_update : DirectoryListing → DirectoryUpdateInner → DirectoryListing
list_update l (add_owner owner) = record l {
  owners = if contains l.owners owner then l.owners else l.owners ++ owner ∷ [];
}
list_update l (del_owner owner) = record l {
  owners = keep (λ existing. not (existing == owner)) l.owners;
}
list_update l (update message) = record l { latest = some message }

unfoldable pub list_updates : DirectoryListing → List DirectoryUpdate → DirectoryListing
list_updates l [] = l
list_updates l (u ∷ us) = list_updates (list_update l u.update_type) us

unfoldable pub build_listing :
    Env → DirectoryResponse → Result DirectoryHistoryError DirectoryListing
unfolding verify_history
build_listing env response = do
  verify_history env response.history
  ok (list_updates (record { latest = none; owners = [] }) response.history)
