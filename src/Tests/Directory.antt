-- ===== src/Tests/Directory.antt =====
-- A key that is claimed by one owner, which then publishes a blob.
use xirtam_core.Prelude.{◌≡◌, ◌↔◌, ◌⊎◌, refl, inl, some, List, [], ◌∷◌, ◌++◌, ok}
use xirtam_core.Structs.{
  zero_hash, DirectoryUpdate, DirectoryResponse, add_owner, del_owner, update,
}
use xirtam_core.Crypto.{public_key}
use xirtam_core.Directory.History.{
  DirectoryListing, update_hash, update_verified, authority, apply_owners, verify_from,
  verify_history, prev_update_hash, signed_update, list_updates, build_listing,
}
use xirtam_core.Directory.History.Valid.{Valid, Authorized, verify_history_iff}
use xirtam_core.Directory.History.Rightful.{Rightful, verify_history-Rightful}
use xirtam_core.Directory.History.Extend.{next_update_iff, owner_update_accepted}
use xirtam_core.Directory.History.Tamper.{Collision, prev_update_hash_unique}
use xirtam_core.Tests.Toy.{toy, toy-SignsCorrectly}

abbrev claim : DirectoryUpdate
unfolding signed_update
claim = signed_update toy zero_hash (add_owner 1007) 7

abbrev publish : DirectoryUpdate
unfolding signed_update update_hash claim
publish =
    signed_update toy (update_hash toy claim) (update (record { kind = "v1.x"; inner = 5 ∷ [] })) 7

abbrev history : List DirectoryUpdate
history = claim ∷ publish ∷ []

accepted : verify_history toy history ≡ ok tt
unfolding verify_history verify_from authority apply_owners update_hash update_verified claim
    publish
accepted = refl

abbrev response : DirectoryResponse
response = record { history = history; proof_height = 3; proof_merkle_branch = [] }

abbrev listing : DirectoryListing
listing = record { latest = some (record { kind = "v1.x"; inner = 5 ∷ [] }); owners = 1007 ∷ [] }

listed : build_listing toy response ≡ ok listing
unfolding build_listing verify_from authority apply_owners update_hash update_verified claim publish
    list_updates
listed = refl

next_update_iff_example : (verify_history toy (history ++ claim ∷ []) ≡ ok tt) ↔ (
    (claim.prev_update_hash ≡ prev_update_hash toy history) × Authorized toy claim listing.owners)
next_update_iff_example = next_update_iff toy response listing claim listed

owner_update_accepted_example :
    verify_history toy
      (history ++ signed_update toy (prev_update_hash toy history) (del_owner 1007) 7 ∷ [])
    ≡ ok tt
unfolding public_key
owner_update_accepted_example =
    owner_update_accepted toy toy-SignsCorrectly 7 response listing (del_owner 1007) listed
      (inl refl)

prev_update_hash_unique_example : (history ≡ history) ⊎ Collision toy
prev_update_hash_unique_example = prev_update_hash_unique toy history history accepted accepted refl

history_decided : (verify_history toy history ≡ ok tt) ↔ Valid toy [] zero_hash history
history_decided = verify_history_iff toy history

verify_history-Rightful_example : (verify_history toy history ≡ ok tt) ↔ Rightful toy [] history
verify_history-Rightful_example = verify_history-Rightful toy history
