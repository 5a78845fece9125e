-- ===== src/Directory/Client/Honest.antt =====
-- A directory that serves its own table of headers: a client whose headers are among them catches
-- up with the directory.
use xirtam_core.Prelude.{
  ℕ, zero, suc, ◌+◌, ◌-◌, ◌≤◌, ◌<◌, ◌≡◌, refl, sym, ◌∙◌, ap, subst, inl, inr, true, Option, none,
  some, List, [], ◌∷◌, length, leb, leb→le, leb-false, ◌==◌, nat_eq, nat_beq_iff, lookup-insert,
  Bool-cases, Option-cases, none-ne-some, some-inj, arith, Result, ok, err, err-ne-ok, ok-inj,
  guard-true,
}
use xirtam_core.Prelude.Dict.{lookup, insert}
use xirtam_core.Structs.{Hash, zero_hash, DirectoryAnchor, DirectoryHeader}
use xirtam_core.Env.{Env}
use xirtam_core.Directory.Headers.{
  Headers, SyncError, max_stored_height, load_header, header_hash, stage, commit, batch_end,
  fetch_batch, sync_loop, turns, check_anchor, sync_headers,
}
use xirtam_core.Directory.Headers.Chain.{IsChain, Below, loop_past, loop_goes_on}
use xirtam_core.Directory.Headers.Sync.{
  max_stored_height-EndsAt, sync_headers-empty, sync_headers-top,
}
use xirtam_core.Directory.State.{headers_from}
use xirtam_core.Directory.Serve.Growth.{Extends}

Extends-matching :
    (rows all : Headers) (h : ℕ) (row : DirectoryHeader × Hash)
    → Extends rows all
    → lookup h all ≡ some row
    → Extends (insert h row rows) all
Extends-matching rows all h row ext here = record {
  keeps = λ k r e. elim (Bool-cases (h == k)) [
    | inl same ↦
        let at : h ≡ k = (nat_beq_iff _ _).0 same in
        let is : row ≡ r = ground (arith, lookup-insert h k row rows, e, same) in
        subst (λ n. lookup n all ≡ some r) at (here ∙ ap some is)
    | inr other ↦ ext.keeps k r (ground (arith, lookup-insert h k row rows, e, other))
  ];
}

module _ (env : Env) (all : Headers) (chain : IsChain env all) where
  -- no gap below a row
  present :
      (gap h : ℕ) (row : DirectoryHeader × Hash)
      → lookup (h + gap) all ≡ some row
      → (below : DirectoryHeader × Hash) × (lookup h all ≡ some below)
  present zero h row here = (row, subst (λ n. lookup n all ≡ some row) (omega arith) here)
  present (suc gap) h row here =
      let at : h + suc gap ≡ suc (h + gap) = omega arith in
      let (below, found, e) =
        chain.linked (h + gap) row (subst (λ n. lookup n all ≡ some row) at here) in
      present gap h below found

  Below-links :
      (next : ℕ) (prev : Hash) (row : DirectoryHeader × Hash)
      → Below env next prev all
      → lookup next all ≡ some row
      → row.0.prev ≡ prev
  Below-links zero prev row below here = chain.genesis row here ∙ sym below
  Below-links (suc h) prev row (row', found, is) here =
      let (below, found', links) = chain.linked h row here in
      let same : below ≡ row' = some-inj (sym found' ∙ found) in links ∙ ap (λ r. r.1) same ∙ is

  abbrev Staged : ℕ → Headers → List (ℕ × (DirectoryHeader × Hash)) × Hash → Type 0
  Staged end' rows batch = Below env end' batch.1 all × Extends (commit batch.0 rows) all

  stage_honest :
      (count next : ℕ) (prev : Hash) (rows : Headers)
      → Below env next prev all
      → ((h : ℕ) → h < next + count → (row : DirectoryHeader × Hash) × (lookup h all ≡ some row))
      → Extends rows all
      → (length (headers_from count next all) ≡ count)
        × ((batch : List (ℕ × (DirectoryHeader × Hash)) × Hash) × (stage env next prev
                (headers_from count next all)
              ≡ ok batch)
            × Staged (next + count) rows batch)
  unfolding headers_from stage commit load_header
  stage_honest zero next prev rows below held ext =
      let at : next ≡ next + 0 = omega arith in
      (refl, (([], prev), refl, (subst (λ n. Below env n prev all) at below, ext)))
  stage_honest (suc count) next prev rows below held ext =
      let (row, here) = held next (omega arith) in
      let hashed : row.1 ≡ header_hash env row.0 = chain.hashed next row here in
      let entry : lookup next all ≡ some (row.0, header_hash env row.0) =
        here ∙ ap (λ x. some (row.0, x)) hashed in
      let at : suc next ≡ next + 1 = omega arith in
      let sum : next + 1 + count ≡ next + suc count = omega arith in
      let below' : Below env (next + 1) (header_hash env row.0) all =
        subst (λ n. Below env n (header_hash env row.0) all) at (row, here, hashed) in
      let (long, (batch, staged, (end', ext'))) =
        stage_honest count (next + 1) (header_hash env row.0)
          (insert next (row.0, header_hash env row.0) rows) below'
          (λ h less. held h (omega (arith, less)))
          (Extends-matching rows all next (row.0, header_hash env row.0) ext entry) in
      let links : (row.0.prev == prev) ≡ true =
        (nat_beq_iff _ _).1 (Below-links next prev row below here) in
      rw (here, headers_from, load_header)
        (
          ap suc long,
          (
            ((next, (row.0, header_hash env row.0)) ∷ batch.0, batch.1),
            guard-true (row.0.prev == prev) _ _ links ∙ rw staged refl,
            (subst (λ n. Below env n batch.1 all) sum end', ext'),
          ),
        )

  module _ (anchor : DirectoryAnchor) (top_row : DirectoryHeader × Hash)
      (top : lookup anchor.last_header_height all ≡ some top_row) where
    abbrev pub serve : ℕ → ℕ → Option (List DirectoryHeader)
    serve first last = some (headers_from (last + 1 - first) first all)

    fetch_batch_honest :
        (next : ℕ) (prev : Hash) (rows : Headers)
        → next ≤ anchor.last_header_height
        → Below env next prev all
        → Extends rows all
        → (batch : List (ℕ × (DirectoryHeader × Hash)) × Hash) × (fetch_batch env serve anchor next
              prev
            ≡ ok batch)
          × Staged (batch_end env serve anchor next + 1) rows batch
    unfolding fetch_batch
    fetch_batch_honest next prev rows left below ext =
        let end' = batch_end env serve anchor next in
        let count = end' + 1 - next in
        let sum : next + count ≡ end' + 1 = ground (arith, left) in
        let size : count ≡ end' - next + 1 = ground (arith, left) in
        let held : (h : ℕ)
            → h < next + count
            → (row : DirectoryHeader × Hash) × (lookup h all ≡ some row) =
          λ h less.
            let within : h + (anchor.last_header_height - h) ≡ anchor.last_header_height =
              ground (arith, left, less) in
            present (anchor.last_header_height - h) h top_row
              (subst (λ n. lookup n all ≡ some top_row) (sym within) top) in
        let (long, (batch, staged, (ends, ext'))) =
          stage_honest count next prev rows below held ext in
        (
          batch,
          guard-true (length (headers_from count next all) == end' - next + 1) _ _
                ((nat_beq_iff _ _).1 (long ∙ size))
              ∙ staged,
          (subst (λ n. Below env n batch.1 all) sum ends, ext'),
        )

    abbrev CaughtUp : Headers × Result SyncError Hash → Type 0
    CaughtUp r =
        (last : Hash) × (r.1 ≡ ok last)
        × Below env (anchor.last_header_height + 1) last all
        × Extends r.0 all

    sync_loop_honest :
        (fuel next : ℕ) (prev : Hash) (rows : Headers)
        → next ≤ anchor.last_header_height + 1
        → Below env next prev all
        → Extends rows all
        → turns env serve anchor next ≤ fuel
        → CaughtUp (sync_loop env serve anchor fuel next prev rows)
    sync_loop_honest zero next prev rows reach below ext enough =
        let at : next ≡ anchor.last_header_height + 1 = omega (arith, reach, enough) in
        unfold sync_loop in (prev, refl, subst (λ n. Below env n prev all) at below, ext)
    sync_loop_honest (suc fuel) next prev rows reach below ext enough =
        elim (Bool-cases (leb next anchor.last_header_height)) [
          | inr past ↦
              let at : next ≡ anchor.last_header_height + 1 = ground (arith, reach, past) in
              subst CaughtUp (sym (loop_past env serve anchor fuel next prev rows past))
                (prev, refl, subst (λ n. Below env n prev all) at below, ext)
          | inl left ↦
              let within : next ≤ anchor.last_header_height =
                leb→le next anchor.last_header_height left in
              let (batch, fetched, (ends, ext')) =
                fetch_batch_honest next prev rows within below ext in
              subst CaughtUp
                (sym (loop_goes_on env serve anchor fuel next prev rows batch left fetched))
                (sync_loop_honest fuel (batch_end env serve anchor next + 1) batch.1
                  (commit batch.0 rows) (ground (arith, within)) ends ext'
                  (ground (arith, enough, within)))
        ]

    check_anchor_honest :
        (r : Headers × Result SyncError Hash)
        → CaughtUp r
        → anchor.last_header_hash ≡ top_row.1
        → ((check_anchor env serve anchor r).1 ≡ ok tt)
          × Extends (check_anchor env serve anchor r).0 all
    check_anchor_honest (rows, err e) (last, is, below, ext) agrees = absurd (err-ne-ok is)
    check_anchor_honest (rows, ok hash) (last, is, below, ext) agrees =
        let at : anchor.last_header_height + 1 ≡ suc anchor.last_header_height = omega arith in
        let (row, here, e) : Below env (suc anchor.last_header_height) last all =
          subst (λ n. Below env n last all) at below in
        let same : row ≡ top_row = some-inj (sym here ∙ top) in
        let hash_is : hash ≡ anchor.last_header_hash =
          ok-inj is ∙ sym e ∙ ap (λ r. r.1) same ∙ sym agrees in
        (rw ((nat_beq_iff _ _).1 hash_is) refl, ext)

    -- Let the directory serve a table of headers that is a hash chain, and an anchor at a row of it
    -- with its hash. A client whose headers are all in that table, and end no later than the anchor,
    -- syncs with success, and its headers are all in that table afterwards.
    pub sync_headers_honest :
        (rows : Headers)
        → Extends rows all
        → anchor.last_header_hash ≡ top_row.1
        → ((h : ℕ) → anchor.last_header_height < h → lookup h rows ≡ none)
        → ((sync_headers env serve anchor rows).1 ≡ ok tt)
          × Extends (sync_headers env serve anchor rows).0 all
    sync_headers_honest rows ext agrees ends = elim (Option-cases (max_stored_height rows)) [
      | inl empty ↦
          let (runs, _) = sync_headers-empty env serve anchor rows empty in
          subst (λ r. (r.1 ≡ ok tt) × Extends r.0 all) (sym runs)
            (check_anchor_honest _
              (sync_loop_honest (turns env serve anchor 0) 0 zero_hash rows (omega arith) refl ext
                (omega arith))
              agrees)
      | inr (current, found) ↦
          let (_, (row, here)) = max_stored_height-EndsAt rows current found in
          let (runs, _) = sync_headers-top env serve anchor rows current row found here in
          let at : suc current ≡ current + 1 = omega arith in
          let below : Below env (current + 1) row.1 all =
            subst (λ n. Below env n row.1 all) at (row, ext.keeps current row here, refl) in
          let low : current ≤ anchor.last_header_height =
            elim (Bool-cases (leb current anchor.last_header_height)) [
              | inl le ↦ leb→le current anchor.last_header_height le
              | inr gt ↦ absurd (
                  none-ne-some
                    (sym (ends current (leb-false current anchor.last_header_height gt)) ∙ here))
            ] in
          subst (λ r. (r.1 ≡ ok tt) × Extends r.0 all) (sym runs)
            (check_anchor_honest _
              (sync_loop_honest (turns env serve anchor (current + 1)) (current + 1) row.1 rows
                (omega (arith, low)) below ext (omega arith))
              agrees)
    ]
