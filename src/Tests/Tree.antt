-- ===== src/Tests/Tree.antt =====
-- A tree that can be evaluated: an association list. The store knows a list of trees, and the root
-- of a tree is its place in that list; a tree that it does not know cannot be committed.
use xirtam_core.Prelude.{
  ℕ, zero, suc, ◌≡◌, ◌↔◌, refl, sym, ◌∙◌, ap, inl, inr, Bool, true, false, ◌&&◌, Option, none, some,
  List, [], ◌∷◌, ◌==◌, nat_eq, pair_eq, lookup-insert, Comparable, Bool-cases, Option-cases,
  some-inj, none-ne-some, arith, if◌then◌else◌,
}
use xirtam_core.Prelude.Dict.{lookup, insert}
use xirtam_core.Structs.{Bytes, Hash}
use xirtam_core.Directory.Merkle.{Smt, ActsAsMap, ProofsSound}

module _ {ℓ} {A : Type ℓ} ⦃e : Comparable A⦄ where
  abbrev pub list_beq : List A → List A → Bool
  list_beq [] [] = true
  list_beq [] (y ∷ ys) = false
  list_beq (x ∷ xs) [] = false
  list_beq (x ∷ xs) (y ∷ ys) = x == y && list_beq xs ys

  pub list_beq_iff : (xs ys : List A) → (list_beq xs ys ≡ true) ↔ (xs ≡ ys)
  list_beq_iff [] [] = (λ h. refl, λ h. refl)
  list_beq_iff [] (y ∷ ys) = (λ h. cc, λ h. cc)
  list_beq_iff (x ∷ xs) [] = (λ h. cc, λ h. cc)
  list_beq_iff (x ∷ xs) (y ∷ ys) = (
    ground (arith, e.same_iff x y, list_beq_iff xs ys),
    ground (arith, e.same_iff x y, list_beq_iff xs ys),
  )

  instance abbrev pub list_eq : Comparable (List A)
  list_eq = record { same = list_beq; same_iff = list_beq_iff }

abbrev pub Tree : Type 0
Tree = List (Hash × Bytes)

abbrev pub value_at : Tree → Hash → Bytes
value_at t k = elim (lookup k t) [ none ↦ [] | some v ↦ v ]

-- the tree at a place, and the place of a tree
abbrev pub nth : ℕ → List Tree → Tree
nth n [] = []
nth zero (t ∷ ts) = t
nth (suc n) (t ∷ ts) = nth n ts

abbrev later : Option ℕ → Option ℕ
later none = none
later (some n) = some (suc n)

abbrev pub place : Tree → List Tree → Option ℕ
place t [] = none
place t (u ∷ ts) = let rest = later (place t ts) in if t == u then some 0 else rest

nth-place : (t : Tree) (ts : List Tree) (n : ℕ) → place t ts ≡ some n → nth n ts ≡ t
nth-place t [] n h = cc
nth-place t (u ∷ ts) zero h = elim (Bool-cases (t == u)) [
  | inl same ↦ sym ((list_beq_iff t u).0 same)
  | inr other ↦ elim (Option-cases (place t ts)) [
    | inl no_place ↦ absurd (none-ne-some (rw no_place at (rw other at h)))
    | inr (m, found) ↦ absurd (suc-ne-zero m (some-inj (rw found at (rw other at h))))
  ]
]
  where
    suc-ne-zero : (m : ℕ) → suc m ≡ 0 → ⊥
    suc-ne-zero m e = omega (arith, e)
nth-place t (u ∷ ts) (suc n) h = elim (Bool-cases (t == u)) [
  | inl same ↦ absurd (zero-ne-suc (some-inj (rw same at h)))
  | inr other ↦ elim (Option-cases (place t ts)) [
    | inl no_place ↦ absurd (none-ne-some (rw no_place at (rw other at h)))
    | inr (m, found) ↦
        let at : m ≡ n = same-suc m (some-inj (rw found at (rw other at h))) in
        nth-place t ts n (found ∙ ap some at)
  ]
]
  where
    zero-ne-suc : 0 ≡ suc n → ⊥
    zero-ne-suc e = omega (arith, e)

    same-suc : (m : ℕ) → suc m ≡ suc n → m ≡ n
    same-suc m e = omega (arith, e)

module _ (known : List Tree) where
  abbrev pub toy_smt : Smt Tree
  toy_smt = record {
    open_tree = λ root. nth root known;
    empty_tree = [];
    get = λ t k. some (value_at t k);
    write = λ t k v. some (insert k v t);
    commit_tree = λ t. place t known;
    get_with_proof = λ t k. some (value_at t k, []);
    verify_proof = λ proof root k v. list_beq (value_at (nth root known) k) v;
  }

  value_at-insert :
      (t : Tree) (k j : Hash) (v : Bytes)
      → some (value_at (insert k v t) j) ≡ (if k == j then some v else some (value_at t j))
  value_at-insert t k j v = ground (arith, lookup-insert k j v t)

  pub toy_smt-ActsAsMap : ActsAsMap toy_smt
  toy_smt-ActsAsMap = record {
    get-empty = λ k. unfold lookup in refl;
    get-write =
        λ t u k j v h. ap (λ w. some (value_at w j)) (sym (some-inj h)) ∙ value_at-insert t k j v;
    get-commit = λ t root k h. ap (λ w. some (value_at w k)) (nth-place t known root h);
    proves = λ root k v h. (
      [],
      ap (λ x. some (x, [])) (some-inj h),
      (list_beq_iff (value_at (nth root known) k) v).1 (some-inj h),
    );
  }

  pub toy_smt-ProofsSound : ProofsSound toy_smt
  toy_smt-ProofsSound proof root k v h =
      ap some ((list_beq_iff (value_at (nth root known) k) v).0 h)
