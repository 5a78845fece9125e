-- ===== src/Tests/Reader.antt =====
-- A client of the directory with two headers.
use xirtam_core.Prelude.{
  ℕ, ◌≡◌, ◌⊎◌, refl, sym, inl, inr, true, suc, ◌+◌, ◌*◌, ◌<◌, Option, none, some, List, [], ◌∷◌,
  nat_eq, ok, arith, ap, subst,
}
use xirtam_core.Prelude.Dict.{lookup, insert, without}
use xirtam_core.Structs.{Hash, DirectoryAnchor, DirectoryHeader, DirectoryResponse}
use xirtam_core.Crypto.{digest, verify}
use xirtam_core.Directory.Headers.{
  Headers, max_stored_height, load_header, load_header_hash, header_hash, stage, commit,
  fetch_batch, sync_loop, sync_headers,
}
use xirtam_core.Directory.Headers.Chain.{IsChain}
use xirtam_core.Directory.Merkle.{key_hash, history_in}
use xirtam_core.Directory.Serve.Growth.{Extends}
use xirtam_core.Directory.Client.{
  DirClient, anchor_verified, await_anchor, try_get_with, verify_response, sync_and_verify,
  fetch_verified_response,
}
use xirtam_core.Directory.Client.Verified.{Backed, fetch_verified_response_sound}
use xirtam_core.Directory.Client.Honest.{serve, sync_headers_honest}
use xirtam_core.Tests.Toy.{toy, toy-ReadsHistories, pack}
use xirtam_core.Tests.Tree.{toy_smt, toy_smt-ProofsSound}

abbrev first : DirectoryHeader
first = record { prev = 0; smt_root = 0; time_unix = 100 }

abbrev first_hash : Hash
first_hash = pack (toy.bcs_header first)

abbrev second : DirectoryHeader
second = record { prev = first_hash; smt_root = 0; time_unix = 200 }

abbrev second_hash : Hash
second_hash = pack (toy.bcs_header second)

abbrev one_header : Headers
one_header = (0, (first, first_hash)) ∷ []

abbrev both_headers : Headers
both_headers = (1, (second, second_hash)) ∷ (0, (first, first_hash)) ∷ []

-- an anchor that the directory signs with the secret 5
abbrev anchor_at : ℕ → Hash → DirectoryAnchor
anchor_at height hash = record {
  directory_id = "d";
  last_header_height = height;
  last_header_hash = hash;
  signature = 1005 + pack (toy.bcs_anchor_body "d" height hash) * 10007;
}

abbrev latest : DirectoryAnchor
latest = anchor_at 1 second_hash

abbrev reader : DirClient
reader = record { anchor_pk = 1005; pool = one_header; anchor_cache = [] }

first-hashed : first_hash ≡ header_hash toy first
unfolding header_hash digest
first-hashed = refl

second-hashed : second_hash ≡ header_hash toy second
unfolding header_hash digest
second-hashed = refl

one_row :
    (h : ℕ) (row : DirectoryHeader × Hash)
    → lookup h one_header ≡ some row
    → (h ≡ 0) × ((first, first_hash) ≡ row)
unfolding lookup
one_row h row e = ground (arith, e)

one-IsChain : IsChain toy one_header
one-IsChain = record {
  hashed = λ h row e. subst (λ r. r.1 ≡ header_hash toy r.0) (one_row h row e).1 first-hashed;
  linked = λ h row e. absurd (omega (arith, (one_row (suc h) row e).0));
  genesis = λ row e. ap (λ r. r.0.prev) (sym (one_row 0 row e).1);
}

both_rows :
    (h : ℕ) (row : DirectoryHeader × Hash)
    → lookup h both_headers ≡ some row
    → (h ≡ 0) × ((first, first_hash) ≡ row) ⊎ (h ≡ 1) × ((second, second_hash) ≡ row)
unfolding lookup
both_rows h row e = ground (arith, e)

both-IsChain : IsChain toy both_headers
unfolding lookup
both-IsChain = record {
  hashed = λ h row e. elim (both_rows h row e) [
    | inl (at, is) ↦ subst (λ r. r.1 ≡ header_hash toy r.0) is first-hashed
    | inr (at, is) ↦ subst (λ r. r.1 ≡ header_hash toy r.0) is second-hashed
  ];
  linked = λ h row e. elim (both_rows (suc h) row e) [
    | inl (at, is) ↦ absurd (omega (arith, at))
    | inr (at, is) ↦
        let zero' : 0 ≡ h = omega (arith, at) in
        (
          (first, first_hash),
          subst (λ n. lookup n both_headers ≡ some (first, first_hash)) zero' refl,
          ap (λ r. r.0.prev) (sym is),
        )
  ];
  genesis = λ row e. elim (both_rows 0 row e) [
    | inl (at, is) ↦ ap (λ r. r.0.prev) (sym is)
    | inr (at, is) ↦ absurd (omega (arith, at))
  ];
}

one_in_both : Extends one_header both_headers
unfolding lookup
one_in_both = record {
  keeps = λ h row e.
      let (at, is) = one_row h row e in
      subst (λ n. lookup n both_headers ≡ some row) (sym at) (ap some is);
}

above_latest : (h : ℕ) → 1 < h → lookup h one_header ≡ none
unfolding lookup
above_latest h above = ground (arith, above)

top_row : lookup 1 both_headers ≡ some (second, second_hash)
unfolding lookup
top_row = refl

sync_headers_honest_example :
    ((sync_headers toy
        (serve toy both_headers both-IsChain latest (second, second_hash) top_row)
        latest
        one_header).1
      ≡ ok tt)
    × Extends
        (sync_headers toy
          (serve toy both_headers both-IsChain latest (second, second_hash) top_row)
          latest
          one_header).0
        both_headers
sync_headers_honest_example =
    sync_headers_honest toy both_headers both-IsChain latest (second, second_hash) top_row
      one_header one_in_both refl above_latest

-- The directory answers for a key that nobody has claimed.
abbrev response : DirectoryResponse
response = record { history = []; proof_height = 1; proof_merkle_branch = [] }

abbrev get_headers : ℕ → ℕ → Option (List DirectoryHeader)
get_headers from to = some (second ∷ [])

accepted :
    (fetch_verified_response toy
      (toy_smt ([] ∷ []))
      get_headers
      "bob"
      (some response)
      (some latest ∷ [])
      reader).1
    ≡ ok response
unfolding fetch_verified_response try_get_with await_anchor anchor_verified verify sync_and_verify
    sync_headers max_stored_height load_header_hash lookup sync_loop fetch_batch stage commit
    header_hash digest insert without verify_response load_header key_hash
accepted = refl

no_anchors :
    (height : ℕ) (anchor : DirectoryAnchor)
    → lookup height [] ≡ some anchor
    → anchor_verified toy 1005 anchor ≡ true
unfolding lookup
no_anchors height anchor h = cc

fetch_verified_response_sound_example :
    (b : Backed toy
      (toy_smt ([] ∷ []))
      (toy_smt-ProofsSound ([] ∷ []))
      toy-ReadsHistories
      get_headers
      "bob"
      (some latest ∷ [])
      reader
      one-IsChain
      no_anchors
      (fetch_verified_response toy
        (toy_smt ([] ∷ []))
        get_headers
        "bob"
        (some response)
        (some latest ∷ [])
        reader).0
      response)
    × (response ≡ response)
    × (history_in toy
          (toy_smt ([] ∷ []))
          ((toy_smt ([] ∷ [])).open_tree b.header.smt_root)
          (key_hash toy "bob")
        ≡ some [])
fetch_verified_response_sound_example =
    fetch_verified_response_sound toy (toy_smt ([] ∷ [])) (toy_smt-ProofsSound ([] ∷ []))
      toy-ReadsHistories get_headers "bob" (some latest ∷ []) reader one-IsChain no_anchors response
      response accepted
