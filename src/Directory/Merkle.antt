-- ===== src/Directory/Merkle.antt =====
-- novasmt, the sparse Merkle tree of the directory, and the history that a tree holds for a key
-- (load_history_from_smt of binaries/nullspace-directory/src/server.rs, and its copy in mirror.rs).
use xirtam_core.Prelude.{
  Bool, true, Option, none, some, List, [], ◌∷◌, String, ◌≡◌, ◌==◌, nat_eq, Result, or_fail,
  if◌then◌else◌,
}
use xirtam_core.Structs.{Bytes, Hash, DirectoryUpdate, DirectoryErr, retry_later}
use xirtam_core.Env.{Env, ReadsHistories}
use xirtam_core.Crypto.{digest}

-- The store of nodes only grows, so that a tree is a value. An operation gives none where the store
-- fails. A key without a value reads as no bytes.
pub record Smt {ℓ} (Tree : Type ℓ) : Type ℓ where
  -- Tree::open, at a root, and Tree::empty
  pub open_tree : Hash → Tree
  pub empty_tree : Tree
  -- get, with, commit
  pub get : Tree → Hash → Option Bytes
  pub write : Tree → Hash → Bytes → Option Tree
  pub commit_tree : Tree → Option Hash
  -- get_with_proof followed by compress, and FullProof::verify after decompress
  pub get_with_proof : Tree → Hash → Option (Bytes × Bytes)
  pub verify_proof : Bytes → Hash → Hash → Bytes → Bool

-- A tree is a map, a commit gives the root under which it is found, and its proofs verify.
pub record ActsAsMap {ℓ} {Tree : Type ℓ} (smt : Smt Tree) : Type ℓ where
  pub get-empty : (k : Hash) → smt.get smt.empty_tree k ≡ some []
  pub get-write :
      (t u : Tree) (k j : Hash) (v : Bytes)
      → smt.write t k v ≡ some u
      → smt.get u j ≡ (if k == j then some v else smt.get t j)
  pub get-commit :
      (t : Tree) (root k : Hash)
      → smt.commit_tree t ≡ some root
      → smt.get (smt.open_tree root) k ≡ smt.get t k
  pub proves :
      (root k : Hash) (v : Bytes)
      → smt.get (smt.open_tree root) k ≡ some v
      → (proof : Bytes) × (smt.get_with_proof (smt.open_tree root) k ≡ some (v, proof))
        × (smt.verify_proof proof root k v ≡ true)

module _ (env : Env) where
  -- `Hash::digest(key.as_bytes())`
  unfoldable pub key_hash : String → Hash
  unfolding digest
  key_hash key = digest env (env.text_bytes key)

  -- no bytes are no history
  unfoldable pub decode_history : Bytes → Option (List DirectoryUpdate)
  decode_history [] = some []
  decode_history (b ∷ bs) = env.bcs_read_history (b ∷ bs)

  pub decode_history-bcs :
      ReadsHistories env
      → (history : List DirectoryUpdate) → decode_history (env.bcs_history history) ≡ some history
  unfolding decode_history
  decode_history-bcs reads history =
      let ((b, bs, written), read) = reads history in
      let read' : env.bcs_read_history (b ∷ bs) ≡ some history = rw written at read in
      rw written read'

  module _ {ℓ} {Tree : Type ℓ} (smt : Smt Tree) where
    unfoldable pub history_in : Tree → Hash → Option (List DirectoryUpdate)
    history_in tree hash = elim (smt.get tree hash) [ none ↦ none | some val ↦ decode_history val ]

    unfoldable pub load_history_from_smt :
        Hash → String → Result DirectoryErr (List DirectoryUpdate)
    load_history_from_smt root key =
        or_fail (history_in (smt.open_tree root) (key_hash key)) retry_later

-- A proof that verifies shows what the tree with that root holds.
abbrev pub ProofsSound {ℓ} : {Tree : Type ℓ} → Smt Tree → Type 0
ProofsSound smt =
    (proof : Bytes) (root key : Hash) (value : Bytes)
    → smt.verify_proof proof root key value ≡ true
    → smt.get (smt.open_tree root) key ≡ some value
