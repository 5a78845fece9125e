-- ===== src/Server/Fragments/Janitor.antt =====
-- What the janitor leaves.
use xirtam_core.Prelude.{
  ℕ, zero, suc, ◌≡◌, ◌≢◌, refl, sym, ◌∙◌, ◌⊎◌, inl, inr, Bool, true, false, List, [], ◌∷◌, In, All,
  All-of-In, All-at, keep, take, length, ◌==◌, arith, nat_eq, nat_beq_iff, lookup, subst,
  lookup-without, Bool-cases, true-ne-false,
}
use xirtam_core.Prelude.Dict.{without}
use xirtam_core.Structs.{Hash, NanoTimestamp}
use xirtam_core.Server.Fragments.{
  FragmentRow, FragmentStore, is_expired, download_frag, delete_all, janitor_loop, janitor_once,
}

In-keep_inv {ℓ} :
    {A : Type ℓ} (p : A → Bool) (a : A) (xs : List A) → In a (keep p xs) → In a xs × (p a ≡ true)
In-keep_inv p a [] m = elim m [ ]
In-keep_inv p a (x ∷ xs) m = elim (Bool-cases (p x)) [
  | inl k ↦ elim (rw k at m) [
    | inl e ↦ (inl e, rw e k)
    | inr n ↦ (let (i, q) = In-keep_inv p a xs n in (inr i, q))
  ]
  | inr k ↦ (let (i, q) = In-keep_inv p a xs (rw k at m) in (inr i, q))
]

In-take {ℓ} : {A : Type ℓ} (n : ℕ) (a : A) (xs : List A) → In a (take n xs) → In a xs
In-take zero a xs m = elim m [ ]
In-take (suc n) a [] m = elim m [ ]
In-take (suc n) a (x ∷ xs) (inl e) = inl e
In-take (suc n) a (x ∷ xs) (inr m) = inr (In-take n a xs m)

List-cases {ℓ} : {A : Type ℓ} (xs : List A) → (xs ≡ []) ⊎ ((x : A) × (ys : List A) × (xs ≡ x ∷ ys))
List-cases [] = inl refl
List-cases (x ∷ ys) = inr (x, ys, refl)

module _ (now : NanoTimestamp) (hash : Hash) where
  -- no row of the fragment has expired
  abbrev pub Lives : List (Hash × FragmentRow) → Type 0
  Lives rows = All (λ row. (row.0 ≢ hash) ⊎ (is_expired now row.1 ≡ false)) rows

  Lives-without :
      (key : Hash) (rows : List (Hash × FragmentRow)) → Lives rows → Lives (without key rows)
  unfolding without
  Lives-without key [] h = tt
  Lives-without key ((k, row) ∷ rows) h = elim (Bool-cases (k == key)) [
    | inl same ↦ rw same (Lives-without key rows h.1)
    | inr other ↦ rw other (h.0, Lives-without key rows h.1)
  ]

  -- what the lookups of the fragment give
  abbrev Same : FragmentStore → FragmentStore → Type 0
  Same a b =
      (lookup hash b.files ≡ lookup hash a.files)
      × (lookup hash b.fragments ≡ lookup hash a.fragments)

  delete_all-Same :
      (rows : List (Hash × FragmentRow)) (store : FragmentStore)
      → All (λ row. row.0 ≢ hash) rows
      → Lives store.fragments
      → Same store (delete_all rows store) × Lives (delete_all rows store).fragments
  unfolding delete_all
  delete_all-Same [] store away h = ((refl, refl), h)
  delete_all-Same ((key, row) ∷ rows) store away h =
      let cut : FragmentStore = record {
        files = without key store.files;
        fragments = without key store.fragments;
      } in
      let ((f, g), k) = delete_all-Same rows cut away.1 (Lives-without key store.fragments h) in
      let other : (key == hash) ≡ false = ground (arith, nat_beq_iff key hash, away.0) in
      (
        (
          f ∙ ground (arith, lookup-without key hash store.files, other),
          g ∙ ground (arith, lookup-without key hash store.fragments, other),
        ),
        k,
      )

  abbrev batch : FragmentStore → List (Hash × FragmentRow)
  batch store = take 500 (keep (λ row. is_expired now row.1) store.fragments)

  -- a batch has no row of the fragment
  batch-away :
      (store : FragmentStore) → Lives store.fragments → All (λ row. row.0 ≢ hash) (batch store)
  batch-away store h =
      All-of-In (λ row. row.0 ≢ hash) _
        (λ row m.
          let (inside, dead) =
            In-keep_inv (λ r. is_expired now r.1) row store.fragments (In-take 500 row _ m) in
          elim (All-at _ row store.fragments h inside) [
            | inl away ↦ away
            | inr alive ↦ absurd (true-ne-false dead alive)
          ])

  loop_ends :
      (fuel : ℕ) (store : FragmentStore)
      → batch store ≡ []
      → janitor_loop (suc fuel) now store ≡ store
  unfolding janitor_loop
  loop_ends fuel store e = rw (e, janitor_loop) refl

  loop_deletes :
      (fuel : ℕ) (store : FragmentStore) (row : Hash × FragmentRow)
      (rows : List (Hash × FragmentRow))
      → batch store ≡ row ∷ rows
      → janitor_loop (suc fuel) now store ≡ janitor_loop fuel now (delete_all (row ∷ rows) store)
  unfolding janitor_loop
  loop_deletes fuel store row rows e = rw (e, janitor_loop) refl

  janitor_loop-Same :
      (fuel : ℕ) (store : FragmentStore)
      → Lives store.fragments
      → Same store (janitor_loop fuel now store)
  janitor_loop-Same zero store h = unfold janitor_loop in (refl, refl)
  janitor_loop-Same (suc fuel) store h = elim (List-cases (batch store)) [
    | inl none' ↦ subst (Same store) (sym (loop_ends fuel store none')) (refl, refl)
    | inr (row, rows, e) ↦
        let away = subst (All (λ r. r.0 ≢ hash)) e (batch-away store h) in
        let ((f, g), k) = delete_all-Same (row ∷ rows) store away h in
        let (f', g') = janitor_loop-Same fuel (delete_all (row ∷ rows) store) k in
        subst (Same store) (sym (loop_deletes fuel store row rows e)) (f' ∙ f, g' ∙ g)
  ]

  -- The janitor keeps the file and the row of a fragment none of whose rows has expired.
  pub janitor_spares :
      (store : FragmentStore)
      → Lives store.fragments
      → (download_frag hash (janitor_once now store) ≡ download_frag hash store)
        × (lookup hash (janitor_once now store).fragments ≡ lookup hash store.fragments)
  unfolding janitor_once download_frag
  janitor_spares store h = janitor_loop-Same (suc (length store.fragments)) store h
