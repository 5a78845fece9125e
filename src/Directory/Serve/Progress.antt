-- ===== src/Directory/Serve/Progress.antt =====
-- Commits of the directory server: when they go through, and what is lost when one does not.
use xirtam_core.Prelude.{◌≡◌, refl, ap, Option, some, [], ◌∷◌, ◌++◌, String, All, Result, ok}
use xirtam_core.Structs.{Bytes, Hash, Timestamp, DirectoryErr, DirectoryUpdate, PowSolution}
use xirtam_core.Env.{Env, ReadsHistories}
use xirtam_core.Directory.Merkle.{Smt, ActsAsMap, key_hash}
use xirtam_core.Directory.Pow.{Equix}
use xirtam_core.Directory.State.{Updates, DirectoryState}
use xirtam_core.Directory.Serve.{
  write_updates, base_tree, build_root, commit_chunk, v1_insert_update, v1_get_pow_seed,
}
use xirtam_core.Directory.Serve.Loops.{Continues, Continues-check_updates}
use xirtam_core.Directory.Serve.Committed.{root_of, commit_chunk-built}
use xirtam_core.Directory.Serve.Staged.{
  Ready, v1_insert_update-Ready, v1_get_pow_seed-Ready, commit_chunk-Ready,
}

module _ {ℓ} {Tree : Type ℓ} (env : Env) (smt : Smt Tree) where
  -- A sequence of calls and commits of which none interrupts another.
  pub data Calls (state : DirectoryState) : DirectoryState → Type ℓ where
    opened : Calls state state
    then_seed :
        (last : DirectoryState) (now : Timestamp) (seed_bytes : Hash)
        → Calls state last
        → Calls state (v1_get_pow_seed now seed_bytes last).0
    then_insert :
        (last : DirectoryState) (equix : Equix)
        (forward : String → DirectoryUpdate → PowSolution → Result DirectoryErr (Unit {0}))
        (now : Timestamp) (key : String) (update : DirectoryUpdate) (pow_solution : PowSolution)
        → Calls state last
        → Calls state (v1_insert_update env smt equix forward now key update pow_solution last).0
    then_commit :
        (last : DirectoryState) (now : Timestamp)
        → Calls state last
        → Calls state (commit_chunk env smt now last).0

  -- The store takes every write, and the tree that a commit makes of what is staged.
  abbrev pub Stores : DirectoryState → Type ℓ
  Stores state =
      ((t : Tree) (k : Hash) (v : Bytes) → (u : Tree) × (smt.write t k v ≡ some u))
      × ((tree : Tree)
          → write_updates env smt (root_of env smt state) state.staging
              (base_tree env smt (root_of env smt state))
            ≡ ok tree
          → (root : Hash) × (smt.commit_tree tree ≡ some root))

  write_updates_total :
      ((t : Tree) (k : Hash) (v : Bytes) → (u : Tree) × (smt.write t k v ≡ some u))
      → (root : Option Hash) (updates : Updates) (tree : Tree)
      → All (Continues env smt root) updates
      → (written : Tree) × (write_updates env smt root updates tree ≡ ok written)
  unfolding write_updates
  write_updates_total writes root [] tree all = (tree, refl)
  write_updates_total writes root ((key, list) ∷ updates) tree ((history, based, v), all) =
      let (next, wrote) = writes tree (key_hash env key) (env.bcs_history (history ++ list)) in
      rw (based, write_updates) (rw wrote (write_updates_total writes root updates next all))

  build_root_total :
      (state : DirectoryState)
      → Stores state
      → All (Continues env smt (root_of env smt state)) state.staging
      → (smt_root : Hash) × (build_root env smt (root_of env smt state) state.staging ≡ ok smt_root)
  unfolding build_root
  build_root_total state (writes, commits) all =
      let root = root_of env smt state in
      let (tree, written) =
        write_updates_total writes root state.staging (base_tree env smt root) all in
      let (smt_root, stored) = commits tree written in
      (
        smt_root,
        rw (Continues-check_updates env smt root state.staging all, build_root)
            (rw written (rw stored refl)),
      )

  commit_chunk_succeeds :
      (now : Timestamp) (state : DirectoryState)
      → Stores state
      → Ready env smt state
      → (commit_chunk env smt now state).1 ≡ ok tt
  commit_chunk_succeeds now state stores ready =
      let (smt_root, built) = build_root_total state stores ready.continues in
      ap (λ r. r.1) (commit_chunk-built env smt now state smt_root ready.tables built)

  module _ (map_like : ActsAsMap smt) (reads : ReadsHistories env) where
    pub Calls-Ready :
        (first last : DirectoryState) → Ready env smt first → Calls first last → Ready env smt last
    Calls-Ready first last ready opened = ready
    Calls-Ready first last ready (then_seed middle now seed_bytes calls) =
        v1_get_pow_seed-Ready env smt now seed_bytes middle (Calls-Ready first middle ready calls)
    Calls-Ready first last ready (then_insert middle equix forward now key update pow calls) =
        v1_insert_update-Ready env smt equix forward now key update pow middle
          (Calls-Ready first middle ready calls)
    Calls-Ready first last ready (then_commit middle now calls) =
        commit_chunk-Ready env smt map_like reads now middle (Calls-Ready first middle ready calls)

    -- After any sequence of calls and commits of which none interrupts another, whatever updates are
    -- sent, the next commit succeeds, if the store of the tree does not fail in it.
    pub Calls-commit :
        (first last : DirectoryState) (now : Timestamp)
        → Ready env smt first
        → Calls first last
        → Stores last
        → (commit_chunk env smt now last).1 ≡ ok tt
    Calls-commit first last now ready calls stores =
        commit_chunk_succeeds now last stores (Calls-Ready first last ready calls)
