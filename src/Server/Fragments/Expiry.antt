-- ===== src/Server/Fragments/Expiry.antt =====
-- How long a fragment lives.
use xirtam_core.Prelude.{
  ℕ, ◌^◌, ◌≡◌, refl, sym, ◌∙◌, subst, inl, inr, true, false, Option, none, some, List, length, ltb,
  ◌==◌, arith, nat_eq, lookup, lookup-insert, lookup-insert_self, Option-cases, some-inj, ok,
  guard-eq-ok, ok-inj,
}
use xirtam_core.Structs.{Hash, AuthToken, NanoTimestamp, Fragment}
use xirtam_core.Env.{Env}
use xirtam_core.Server.Database.{Database, i64_leb, i64_ltb}
use xirtam_core.Server.Mailbox.{auth_token_exists}
use xirtam_core.Server.Fragments.{
  FragmentRow, FragmentStore, expires_at_from_ttl, later_expiry, upsert_fragment_row, download_frag,
  fragment_hash, upload_frag,
}

-- the row expires no sooner than one with this time
abbrev pub Outlives : Option ℕ → Option ℕ → Type 0
Outlives kept asked =
    (now : NanoTimestamp)
    → elim asked [ some t ↦ i64_leb t now | none ↦ false ] ≡ false
    → elim kept [ some t ↦ i64_leb t now | none ↦ false ] ≡ false

later_expiry-Outlives :
    (old new : Option ℕ) → Outlives (later_expiry old new) old × Outlives (later_expiry old new) new
unfolding later_expiry i64_leb i64_ltb
later_expiry-Outlives none new = (λ now h. refl, λ now h. refl)
later_expiry-Outlives (some old) none = (λ now h. refl, λ now h. refl)
later_expiry-Outlives (some old) (some new) =
    (λ now h. ground (arith, h), λ now h. ground (arith, h))

Outlives-refl : (t : Option ℕ) → Outlives t t
Outlives-refl t now h = h

-- the row of an upsert, whether it is new or not
upsert-row :
    (hash : Hash) (row : FragmentRow) (rows : List (Hash × FragmentRow))
    → (kept : FragmentRow) × (lookup hash (upsert_fragment_row hash row rows) ≡ some kept)
      × Outlives kept.expires_at row.expires_at
      × ((old : FragmentRow)
          → lookup hash rows ≡ some old
          → Outlives kept.expires_at old.expires_at)
unfolding upsert_fragment_row
upsert-row hash row rows = elim (Option-cases (lookup hash rows)) [
  | inl fresh ↦ (
    row,
    rw (fresh, upsert_fragment_row) (lookup-insert_self hash row rows),
    Outlives-refl row.expires_at,
    λ old here. absurd (cc (fresh, here)),
  )
  | inr (old, here) ↦
      let merged : FragmentRow = record old {
        expires_at = later_expiry old.expires_at row.expires_at;
        size = row.size;
      } in
      let (of_old, of_new) = later_expiry-Outlives old.expires_at row.expires_at in
      (
        merged,
        rw (here, upsert_fragment_row) (lookup-insert_self hash merged rows),
        of_new,
        λ other at.
            subst (λ r. Outlives merged.expires_at r.expires_at) (some-inj (sym here ∙ at)) of_old,
      )
]

module _ (env : Env) (now : NanoTimestamp) (auth : AuthToken) (frag : Fragment) (ttl : ℕ)
    (db : Database) (store store' : FragmentStore) where
  abbrev hash : Hash
  hash = fragment_hash env frag

  -- After an upload that succeeds, made with the token of a device, the fragment can be downloaded
  -- by its hash, and its row expires no sooner than the upload asks for, and no sooner than the row
  -- that it had before. Other fragments' files stay.
  pub upload_frag_extends :
      upload_frag env now auth frag ttl db store ≡ ok store'
      → (auth_token_exists env db auth ≡ true)
        × (download_frag hash store' ≡ some frag)
        × ((kept : FragmentRow) × (lookup hash store'.fragments ≡ some kept)
            × Outlives kept.expires_at (expires_at_from_ttl now ttl)
            × ((old : FragmentRow)
                → lookup hash store.fragments ≡ some old
                → Outlives kept.expires_at old.expires_at))
        × ((other : Hash)
            → (hash == other) ≡ false
            → download_frag other store' ≡ download_frag other store)
  unfolding upload_frag download_frag
  upload_frag_extends h =
      let (known, k) = guard-eq-ok (auth_token_exists env db auth) _ _ h in
      let (small, e) = guard-eq-ok (ltb (length (env.bcs_fragment frag)) (2 ^ 63)) _ _ k in
      let done = ok-inj e in
      let row : FragmentRow = record {
        created_at = now;
        expires_at = expires_at_from_ttl now ttl;
        size = length (env.bcs_fragment frag);
      } in
      (
        known,
        subst (λ s. lookup hash s.files ≡ some frag) done
            (lookup-insert_self hash frag store.files),
        subst
            (λ s.
              (kept : FragmentRow) × (lookup hash s.fragments ≡ some kept)
              × Outlives kept.expires_at (expires_at_from_ttl now ttl)
              × ((old : FragmentRow)
                  → lookup hash store.fragments ≡ some old
                  → Outlives kept.expires_at old.expires_at))
            done (upsert-row hash row store.fragments),
        λ other away.
            subst (λ s. lookup other s.files ≡ lookup other store.files) done
              (ground (arith, lookup-insert hash other frag store.files)),
      )
