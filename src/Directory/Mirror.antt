-- ===== src/Directory/Mirror.antt =====
-- A directory server that mirrors another: binaries/nullspace-directory/src/mirror.rs. The answers
-- of the origin are arguments, none where a call fails. What was applied before a failure stays, so
-- that a sync returns the state beside its result.
use xirtam_core.Prelude.{
  ℕ, zero, suc, ◌+◌, ◌-◌, Bool, true, false, Option, none, some, List, [], ◌∷◌, leb, ltb, ◌==◌,
  nat_eq, Result, ok, err, guard, or_fail, ◌>>=◌, ◌>>◌, if◌then◌else◌,
}
use xirtam_core.Structs.{
  Hash, zero_hash, DirectoryErr, DirectoryAnchor, DirectoryHeader, DirectoryChunk,
}
use xirtam_core.Env.{Env}
use xirtam_core.Directory.Headers.{header_hash}
use xirtam_core.Directory.Merkle.{Smt}
use xirtam_core.Directory.State.{MirrorState, DirectoryState, load_last_header, insert_chunk}
use xirtam_core.Directory.Serve.{next_place, build_root}
pub mod Follows
pub mod Keeps

pub data MirrorError : Type 0 where
  rpc_failed head_mismatch unexpected_height prev_mismatch root_mismatch : MirrorError
  not_inserted : MirrorError
  rejected : DirectoryErr → MirrorError

abbrev pub or_rejected : Result DirectoryErr Hash → Result MirrorError Hash
or_rejected (err e) = err (rejected e)
or_rejected (ok root) = ok root

abbrev pub set_anchor : DirectoryAnchor → DirectoryState → DirectoryState
set_anchor anchor state = record state { mirror = some (record { anchor = some anchor }) }

module _ (env : Env) where
  -- height and hash of the last header
  unfoldable pub load_local_head : DirectoryState → Option ℕ × Hash
  load_local_head state = elim (load_last_header state) [
    | none ↦ (none, zero_hash)
    | some last ↦ (some last.0, header_hash env last.1)
  ]

  module _ {ℓ} {Tree : Type ℓ} (smt : Smt Tree) where
    unfoldable pub apply_chunk :
        ℕ → DirectoryChunk → DirectoryState → Result MirrorError DirectoryState
    apply_chunk height chunk state = do
      guard (height == (next_place env state).0) unexpected_height
      guard (chunk.header.prev == (next_place env state).1.0) prev_mismatch
      smt_root ← or_rejected (build_root env smt (next_place env state).1.1 chunk.updates)
      guard (smt_root == chunk.header.smt_root) root_mismatch
      or_fail (insert_chunk height chunk.header (header_hash env chunk.header) chunk state)
          not_inserted

    module _ (get_chunk : ℕ → Option DirectoryChunk) (anchor : DirectoryAnchor) where
      -- The `while`, on one turn for each height that is left; with its variable `last_hash`. A
      -- turn that fails leaves what the turns before it applied.
      unfoldable pub follow :
          ℕ
          → ℕ
          → Option ℕ
          → Hash
          → DirectoryState
          → DirectoryState × Result MirrorError (Option ℕ × Hash)
      follow zero next last_height last_hash state = (state, ok (last_height, last_hash))
      follow (suc turns) next last_height last_hash state = elim (get_chunk next) [
        | none ↦ (state, err rpc_failed)
        | some chunk ↦ elim (apply_chunk next chunk state) [
          | err e ↦ (state, err e)
          | ok applied ↦ follow turns (next + 1) (some next) (header_hash env chunk.header) applied
        ]
      ]

      -- `if last_height == Some(anchor.last_header_height) && last_hash == ..`
      abbrev pub reached : Option ℕ → Hash → Bool
      reached none last_hash = false
      reached (some height) last_hash =
          if height == anchor.last_header_height
          then last_hash == anchor.last_header_hash
          else false

      abbrev pub close :
          DirectoryState × Result MirrorError (Option ℕ × Hash)
          → DirectoryState × Result MirrorError (Unit {0})
      close (state, err e) = (state, err e)
      close (state, ok (last_height, last_hash)) =
          (if reached last_height last_hash then set_anchor anchor state else state, ok tt)

      -- the heights from `next` to the anchor's
      abbrev pub heights_left : ℕ → ℕ
      heights_left next = anchor.last_header_height + 1 - next

      abbrev pub sync_from :
          Option ℕ → Hash → DirectoryState → DirectoryState × Result MirrorError (Unit {0})
      sync_from none last_hash state = close (follow (heights_left 0) 0 none last_hash state)
      sync_from (some height) last_hash state =
          if ltb anchor.last_header_height height
          then (state, ok tt)
          else if height == anchor.last_header_height
          then if last_hash == anchor.last_header_hash
            then (set_anchor anchor state, ok tt)
            else (state, err head_mismatch)
          else close (follow (heights_left (height + 1)) (height + 1) (some height) last_hash state)

    unfoldable pub sync_once :
        Option DirectoryAnchor
        → (ℕ → Option DirectoryChunk)
        → DirectoryState
        → DirectoryState × Result MirrorError (Unit {0})
    sync_once none get_chunk state = (state, err rpc_failed)
    sync_once (some anchor) get_chunk state =
        let (last_height, last_hash) = load_local_head state in
        sync_from get_chunk anchor last_height last_hash state
