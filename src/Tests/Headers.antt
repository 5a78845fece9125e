-- ===== src/Tests/Headers.antt =====
-- A directory with two headers.
use xirtam_core.Prelude.{
  ℕ, ◌≡◌, refl, suc, sym, ap, subst, Option, some, List, [], ◌∷◌, arith, nat_eq, ok,
}
use xirtam_core.Prelude.Dict.{lookup, insert, without}
use xirtam_core.Structs.{Hash, DirectoryAnchor, DirectoryHeader}
use xirtam_core.Crypto.{digest}
use xirtam_core.Directory.Headers.{
  Headers, max_stored_height, load_header_hash, header_hash, stage, commit, fetch_batch, sync_loop,
  sync_headers,
}
use xirtam_core.Directory.Headers.Chain.{IsChain}
use xirtam_core.Directory.Headers.Sync.{sync_headers-IsChain, sync_headers-anchored}
use xirtam_core.Tests.Toy.{toy, pack}

abbrev first : DirectoryHeader
first = record { prev = 0; smt_root = 11; time_unix = 100 }

abbrev first_hash : Hash
first_hash = pack (toy.bcs_header first)

abbrev second : DirectoryHeader
second = record { prev = first_hash; smt_root = 12; time_unix = 200 }

abbrev second_hash : Hash
second_hash = pack (toy.bcs_header second)

abbrev stored : Headers
stored = (0, (first, first_hash)) ∷ []

abbrev anchor : DirectoryAnchor
anchor = record {
  directory_id = "d";
  last_header_height = 1;
  last_header_hash = second_hash;
  signature = 0;
}

abbrev get_headers : ℕ → ℕ → Option (List DirectoryHeader)
get_headers from to = some (second ∷ [])

only_row :
    (h : ℕ) (row : DirectoryHeader × Hash)
    → lookup h stored ≡ some row
    → (h ≡ 0) × ((first, first_hash) ≡ row)
unfolding lookup
only_row h row e = ground (arith, e)

first-hashed : first_hash ≡ header_hash toy first
unfolding header_hash digest
first-hashed = refl

stored-IsChain : IsChain toy stored
stored-IsChain = record {
  hashed = λ h row e. subst (λ r. r.1 ≡ header_hash toy r.0) (only_row h row e).1 first-hashed;
  linked = λ h row e. absurd (omega (arith, (only_row (suc h) row e).0));
  genesis = λ row e. ap (λ r. r.0.prev) (sym (only_row 0 row e).1);
}

synced : (sync_headers toy get_headers anchor stored).1 ≡ ok tt
unfolding sync_headers max_stored_height load_header_hash lookup sync_loop fetch_batch stage commit
    header_hash digest insert without
synced = refl

sync_headers-IsChain_example : IsChain toy (sync_headers toy get_headers anchor stored).0
sync_headers-IsChain_example = sync_headers-IsChain toy get_headers anchor stored stored-IsChain

sync_headers-anchored_example :
    (row : DirectoryHeader × Hash) × (lookup 1 (sync_headers toy get_headers anchor stored).0
      ≡ some row)
    × (row.1 ≡ second_hash)
unfolding max_stored_height
sync_headers-anchored_example =
    sync_headers-anchored toy get_headers anchor stored stored-IsChain (omega arith) synced
