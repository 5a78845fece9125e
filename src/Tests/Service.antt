-- ===== src/Tests/Service.antt =====
-- A directory server with one header, which commits the first update of a key, and its mirror.
use xirtam_core.Prelude.{
  ◌≡◌, ◌≢◌, ◌⊎◌, refl, sym, ◌∙◌, ap, inl, inr, none, some, List, [], ◌∷◌, ◌++◌, true, ok, err,
  ok-inj, some-inj, subst, In, length, nat_eq, string_eq,
}
use xirtam_core.Prelude.Dict.{lookup, insert, without}
use xirtam_core.Structs.{
  Bytes, zero_hash, DirectoryErr, DirectoryAnchor, DirectoryHeader, DirectoryUpdate, DirectoryChunk,
  DirectoryResponse, PowSeed, add_owner,
}
use xirtam_core.Crypto.{digest}
use xirtam_core.Directory.History.{
  update_hash, update_verified, authority, apply_owners, verify_from, verify_history, signed_update,
}
use xirtam_core.Directory.History.Tamper.{Collision}
use xirtam_core.Directory.Headers.{max_stored_height, load_header, header_hash}
use xirtam_core.Directory.Merkle.{
  Smt, ActsAsMap, key_hash, decode_history, history_in, load_history_from_smt,
}
use xirtam_core.Directory.Pow.{
  Equix, new_seed, checked_mul, next_nonce, from_be_bytes, challenge, solution_value,
  validate_solution, first_paying, solve_equix_pow,
}
use xirtam_core.Directory.Pow.Solved.{SolvesCorrectly, solve-validate_solution}
use xirtam_core.Directory.State.{
  DirectoryState, insert_pow_seed, purge_pow_seeds, load_last_header, insert_chunk, load_chunk,
}
use xirtam_core.Directory.Serve.{
  pending, next_place, base_history, check_updates, write_updates, base_tree, build_root,
  commit_chunk, stage_update, v1_get_item, v1_get_pow_seed,
}
use xirtam_core.Directory.Serve.Loops.{Apart}
use xirtam_core.Directory.Serve.Committed.{Committed, with_chunk}
use xirtam_core.Directory.Serve.Growth.{Extends, with_chunk-Committed, Committed-same}
use xirtam_core.Directory.Serve.Steps.{start, next, committed, Run-Committed, empty-Committed}
use xirtam_core.Directory.Serve.Staged.{Ready}
use xirtam_core.Directory.Serve.Progress.{opened, then_seed, Stores, Calls-commit}
use xirtam_core.Directory.Serve.Answers.{commit_chunk-get_item}
use xirtam_core.Directory.Serve.Lost.{stale_update_loses}
use xirtam_core.Directory.Mirror.{sync_once, apply_chunk}
use xirtam_core.Directory.Mirror.Keeps.{sync_once-Committed}
use xirtam_core.Directory.Mirror.Follows.{apply_chunk-commit_chunk}
use xirtam_core.Tests.Toy.{toy, toy-ReadsHistories, text, pack}
use xirtam_core.Tests.Codec.{write_history}
use xirtam_core.Tests.Tree.{Tree, toy_smt, toy_smt-ActsAsMap}

-- two owners, each claiming the same key
abbrev claim : DirectoryUpdate
unfolding signed_update
claim = signed_update toy zero_hash (add_owner 1007) 7

abbrev rival : DirectoryUpdate
unfolding signed_update
rival = signed_update toy zero_hash (add_owner 1008) 8

abbrev with_claim : Tree
unfolding claim
with_claim = (pack (text "alice"), write_history (claim ∷ [])) ∷ []

abbrev smt : Smt Tree
smt = toy_smt ([] ∷ with_claim ∷ [])

laws : ActsAsMap smt
laws = toy_smt-ActsAsMap ([] ∷ with_claim ∷ [])

abbrev nothing : DirectoryState
nothing = record {
  pow_seeds = [];
  headers = [];
  chunks = [];
  secret_key = some 5;
  directory_id = "d";
  staging = [];
  mirror = none;
}

abbrev first : DirectoryHeader
first = record { prev = 0; smt_root = 0; time_unix = 100 }

abbrev first_chunk : DirectoryChunk
first_chunk = record { header = first; updates = [] }

abbrev quiet : DirectoryState
unfolding insert without
quiet = with_chunk toy smt 0 first_chunk nothing

abbrev busy : DirectoryState
unfolding claim quiet
busy = record quiet { staging = ("alice", claim ∷ []) ∷ [] }

nothing-Committed : Committed toy smt nothing
nothing-Committed = empty-Committed toy smt laws toy-ReadsHistories nothing refl refl

quiet-Committed : Committed toy smt quiet
unfolding quiet history_in decode_history verify_history verify_from lookup
quiet-Committed =
    with_chunk-Committed toy smt 0 first_chunk nothing nothing-Committed
      (record { free = λ h _. refl; below = refl }) (λ hash. ([], refl, refl))

busy-Committed : Committed toy smt busy
unfolding busy
busy-Committed = Committed-same toy smt quiet busy refl refl quiet-Committed

committed_once : (commit_chunk toy smt 200 busy).1 ≡ ok tt
unfolding busy quiet claim commit_chunk next_place load_last_header max_stored_height load_header
    lookup insert without build_root check_updates base_history load_history_from_smt history_in
    decode_history key_hash digest verify_history verify_from update_verified authority apply_owners
    update_hash write_updates insert_chunk header_hash
committed_once = refl

-- nothing is committed for the key
no_history : base_history toy smt (next_place toy busy).1.1 "alice" ≡ ok []
unfolding busy quiet next_place load_last_header max_stored_height load_header lookup insert without
    base_history load_history_from_smt history_in decode_history
no_history = refl

no_history_quiet : base_history toy smt (next_place toy quiet).1.1 "alice" ≡ ok []
unfolding quiet next_place load_last_header max_stored_height load_header lookup insert without
    base_history load_history_from_smt history_in decode_history
no_history_quiet = refl

claim_verifies : verify_history toy (claim ∷ []) ≡ ok tt
unfolding claim verify_history verify_from update_verified authority apply_owners update_hash
claim_verifies = refl

rival_verifies : verify_history toy (rival ∷ []) ≡ ok tt
unfolding rival verify_history verify_from update_verified authority apply_owners update_hash
rival_verifies = refl

alice_waits : pending "alice" busy.staging ≡ claim ∷ []
unfolding busy claim pending lookup
alice_waits = refl

apart : Apart toy "alice" busy.staging
unfolding busy
apart = (inl refl, tt)

Run-Committed_example :
    Committed toy smt (commit_chunk toy smt 200 busy).0
    × Extends busy.headers (commit_chunk toy smt 200 busy).0.headers
Run-Committed_example =
    Run-Committed toy smt laws toy-ReadsHistories busy (commit_chunk toy smt 200 busy).0
      busy-Committed (next busy _ start (committed 200))

commit_chunk-get_item_example :
    (response : DirectoryResponse) × (header : DirectoryHeader) × (val : Bytes) × (v1_get_item toy
        smt "alice"
        (commit_chunk toy smt 200 busy).0
      ≡ ok response)
    × (load_last_header (commit_chunk toy smt 200 busy).0 ≡ some (response.proof_height, header))
    × (response.history ≡ [] ++ pending "alice" busy.staging)
    × (decode_history toy val ≡ some response.history)
    × (smt.verify_proof response.proof_merkle_branch header.smt_root (key_hash toy "alice") val
        ≡ true)
unfolding busy lookup
commit_chunk-get_item_example =
    commit_chunk-get_item toy smt laws toy-ReadsHistories 200 busy busy-Committed committed_once
      "alice" [] (refl, tt) apart no_history

cons-ne-nil : (u : DirectoryUpdate) (list : List DirectoryUpdate) → list ≡ u ∷ [] → list ≢ []
cons-ne-nil u list e h = cc

stale_update_loses_example :
    Collision toy
    ⊎ ((stage_update toy "alice" rival [] (commit_chunk toy smt 200 busy).0).1 ≡ ok tt)
      × ((e : DirectoryErr) × (commit_chunk toy smt 300
              (stage_update toy "alice" rival [] (commit_chunk toy smt 200 busy).0).0
            ≡ ((commit_chunk toy smt 200 busy).0, err e)))
unfolding busy lookup
stale_update_loses_example =
    stale_update_loses toy smt laws toy-ReadsHistories 200 300 busy "alice" rival [] busy-Committed
      (refl, tt) apart (cons-ne-nil claim _ alice_waits) no_history
      (ap (verify_history toy) alice_waits ∙ claim_verifies) committed_once rival_verifies

apply_chunk-commit_chunk_example :
    (chunk : DirectoryChunk) × (after : DirectoryState) × (load_chunk
        (next_place toy busy).0
        (commit_chunk toy smt 200 busy).0
      ≡ some chunk)
    × (apply_chunk toy smt (next_place toy busy).0 chunk quiet ≡ ok after)
    × (after.headers ≡ (commit_chunk toy smt 200 busy).0.headers)
    × (after.chunks ≡ (commit_chunk toy smt 200 busy).0.chunks)
unfolding busy
apply_chunk-commit_chunk_example =
    apply_chunk-commit_chunk toy smt laws toy-ReadsHistories 200 busy quiet busy-Committed
      quiet-Committed refl refl committed_once

abbrev anchor : DirectoryAnchor
anchor = record {
  directory_id = "d";
  last_header_height = 0;
  last_header_hash = pack (toy.bcs_header first);
  signature = 0;
}

sync_once-Committed_example :
    Committed toy smt (sync_once toy smt (some anchor) (λ h. some first_chunk) nothing).0
    × Extends [] (sync_once toy smt (some anchor) (λ h. some first_chunk) nothing).0.headers
sync_once-Committed_example =
    sync_once-Committed toy smt laws toy-ReadsHistories (some anchor) (λ h. some first_chunk)
      nothing nothing-Committed

busy-Ready : Ready toy smt busy
unfolding busy lookup
busy-Ready = record {
  tables = busy-Committed;
  once = (refl, tt);
  continues = (([], no_history, claim_verifies), tt);
}

-- the tree of the commit is known
busy_tree :
    write_updates toy smt
      (next_place toy busy).1.1
      busy.staging
      (base_tree toy smt (next_place toy busy).1.1)
    ≡ ok with_claim
unfolding busy quiet claim with_claim next_place load_last_header max_stored_height load_header
    lookup insert without write_updates base_history load_history_from_smt history_in decode_history
    key_hash digest
busy_tree = refl

busy-Stores : Stores toy smt (v1_get_pow_seed 50 9 busy).0
unfolding v1_get_pow_seed insert_pow_seed purge_pow_seeds next_place load_last_header with_claim
busy-Stores = (
  λ t k v. (insert k v t, refl),
  λ tree h.
      let is : with_claim ≡ tree = ok-inj (sym busy_tree ∙ h) in
      (1, subst (λ (t : Tree). smt.commit_tree t ≡ some 1) is refl),
)

Calls-commit_example : (commit_chunk toy smt 300 (v1_get_pow_seed 50 9 busy).0).1 ≡ ok tt
Calls-commit_example =
    Calls-commit toy smt laws toy-ReadsHistories busy (v1_get_pow_seed 50 9 busy).0 300 busy-Ready
      (then_seed busy 50 9 opened) busy-Stores

-- a puzzle of which every byte is a solution
abbrev equix : Equix
equix = record { num_bytes = 1; verify_bytes = λ c s. true; solve = λ c. some ((7 ∷ []) ∷ []) }

equix-SolvesCorrectly : SolvesCorrectly toy equix
equix-SolvesCorrectly c solutions bytes h m =
    let is : (7 ∷ []) ∷ [] ≡ solutions = some-inj h in only bytes (subst (In bytes) (sym is) m)
  where
    only : (b : Bytes) → In b ((7 ∷ []) ∷ []) → (length b ≡ 1) × (true ≡ true)
    only b (inl e) = (ap length e, refl)
    only b (inr n) = elim n [ ]

abbrev seed : PowSeed
unfolding new_seed
seed = new_seed 50 9

solved :
    solve_equix_pow toy equix 1 seed seed.effort 3
    ≡ some (record { seed = 9; nonce = 3; solution = 7 ∷ [] })
unfolding seed solve_equix_pow first_paying checked_mul solution_value from_be_bytes digest
    next_nonce challenge
solved = refl

accepted_solution :
    validate_solution toy equix seed seed.effort (record { seed = 9; nonce = 3; solution = 7 ∷ [] })
    ≡ ok tt
accepted_solution =
    solve-validate_solution toy equix equix-SolvesCorrectly 1 seed seed.effort 3
      (record { seed = 9; nonce = 3; solution = 7 ∷ [] }) solved
