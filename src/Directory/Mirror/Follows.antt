-- ===== src/Directory/Mirror/Follows.antt =====
-- A mirror that stands where its origin stands takes the origin's next chunk as the origin did.
use xirtam_core.Prelude.{
  ℕ, ◌≡◌, refl, sym, ◌∙◌, ap, subst, Option, some, nat_eq, nat_beq_iff, lookup, insert,
  lookup-insert_self, ◌==◌, ok, guard-true, arith,
}
use xirtam_core.Structs.{Hash, Timestamp, DirectoryChunk}
use xirtam_core.Env.{Env, ReadsHistories}
use xirtam_core.Directory.Headers.{header_hash}
use xirtam_core.Directory.Merkle.{Smt, ActsAsMap}
use xirtam_core.Directory.State.{DirectoryState, load_last_header, load_chunk}
use xirtam_core.Directory.Serve.{next_place, build_root, commit_chunk}
use xirtam_core.Directory.Serve.Committed.{
  Committed, next_place-Place, insert_chunk-free, with_chunk, root_of, new_chunk,
}
use xirtam_core.Directory.Serve.Answers.{commit_chunk-root}
use xirtam_core.Directory.Mirror.{apply_chunk}

module _ {ℓ} {Tree : Type ℓ} (env : Env) (smt : Smt Tree) where
  same_place : (a b : DirectoryState) → a.headers ≡ b.headers → next_place env a ≡ next_place env b
  unfolding next_place load_last_header
  same_place a b e = rw e refl

  apply_chunk_accepts :
      (chunk : DirectoryChunk) (state : DirectoryState)
      → Committed env smt state
      → chunk.header.prev ≡ (next_place env state).1.0
      → build_root env smt (root_of env smt state) chunk.updates ≡ ok chunk.header.smt_root
      → apply_chunk env smt (next_place env state).0 chunk state
        ≡ ok (with_chunk env smt (next_place env state).0 chunk state)
  unfolding apply_chunk
  apply_chunk_accepts chunk state c linked built =
      let place = next_place-Place env state c.chain in
      let free = place.tip.free (next_place env state).0 (omega arith) in
      guard-true ((next_place env state).0 == (next_place env state).0) _ _
        ((nat_beq_iff _ _).1 refl)
      ∙ guard-true (chunk.header.prev == (next_place env state).1.0) _ _
          ((nat_beq_iff _ _).1 linked)
      ∙ rw
          (
            built,
            (nat_beq_iff chunk.header.smt_root chunk.header.smt_root).1 refl,
            insert_chunk-free env smt (next_place env state).0 chunk state free (c.aligned _ free),
          )
          refl

  -- Let a mirror have the tables of its origin, and let the origin commit. Then the origin serves the
  -- chunk, the mirror applies it, finding the same root, and the tables are the same again.
  pub apply_chunk-commit_chunk :
      ActsAsMap smt
      → ReadsHistories env
      → (now : Timestamp) (origin mirror : DirectoryState) → Committed env smt origin
      → Committed env smt mirror
      → mirror.headers ≡ origin.headers
      → mirror.chunks ≡ origin.chunks
      → (commit_chunk env smt now origin).1 ≡ ok tt
      → (chunk : DirectoryChunk) × (after : DirectoryState) × (load_chunk
            (next_place env origin).0
            (commit_chunk env smt now origin).0
          ≡ some chunk)
        × (apply_chunk env smt (next_place env origin).0 chunk mirror ≡ ok after)
        × (after.headers ≡ (commit_chunk env smt now origin).0.headers)
        × (after.chunks ≡ (commit_chunk env smt now origin).0.chunks)
  unfolding load_chunk
  apply_chunk-commit_chunk map_like reads now origin mirror c m same_headers same_chunks done =
      let (smt_root, built, left) = commit_chunk-root env smt map_like reads now origin c done in
      let chunk = new_chunk env smt now origin smt_root in
      let place : next_place env mirror ≡ next_place env origin =
        same_place mirror origin same_headers in
      let accepts =
        apply_chunk_accepts chunk mirror m (ap (λ p. p.1.0) (sym place))
          (ap (λ p. build_root env smt p.1.1 origin.staging) place ∙ built) in
      let after = with_chunk env smt (next_place env origin).0 chunk mirror in
      (
        chunk,
        after,
        ap (λ (s : DirectoryState). lookup (next_place env origin).0 s.chunks) left
            ∙ lookup-insert_self (next_place env origin).0 chunk origin.chunks,
        subst
            (λ (p : ℕ × (Hash × Option Hash)).
              apply_chunk env smt p.0 chunk mirror ≡ ok (with_chunk env smt p.0 chunk mirror))
            place accepts,
        ap (λ h. insert (next_place env origin).0 (chunk.header, header_hash env chunk.header) h)
              same_headers
            ∙ ap (λ (s : DirectoryState). s.headers) (sym left),
        ap (insert (next_place env origin).0 chunk) same_chunks
            ∙ ap (λ (s : DirectoryState). s.chunks) (sym left),
      )
