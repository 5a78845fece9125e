-- ===== src/Directory/History/Tamper.antt =====
-- The last hash of a history fixes all of it.
use text.Mathlib.TextEquality.{eq_iff}
use native.Mathlib.Decide.{ℕ_discrete}
use xirtam_core.Prelude.{
  ◌≡◌, ◌≢◌, refl, sym, ◌∙◌, ap, ◌⊎◌, inl, inr, String, List, [], ◌∷◌, ◌++◌, ◌==◌, string_eq,
  Bool-cases, true-ne-false, ok,
}
use mathlib.Core.List.{append-nil}
use xirtam_core.Structs.{Hash, zero_hash, DirectoryUpdate}
use xirtam_core.Env.{Env}
use xirtam_core.Directory.History.{
  Owners, update_hash, verify_history, prev_update_hash, apply_owners,
}
use xirtam_core.Directory.History.Valid.{Valid, link, verify_history_iff}
use xirtam_core.Directory.History.Append.{hash_after, prev_update_hash-hash_after}

String-discrete : Discrete String
String-discrete a b = elim (Bool-cases (a == b)) [
  | inl e ↦ yes ((eq_iff a b).0 e)
  | inr e ↦ no (λ p. true-ne-false ((eq_iff a b).1 p) e)
]

pub DirectoryUpdate-discrete : Discrete DirectoryUpdate
DirectoryUpdate-discrete = hlevel (ℕ_discrete, String-discrete)

module _ (env : Env) where
  -- A break of the hash function: two updates with one hash, or one that hashes to zeros.
  pub data Collision : Type 0 where
    two : (u v : DirectoryUpdate) → u ≢ v → update_hash env u ≡ update_hash env v → Collision
    zeros : (u : DirectoryUpdate) → update_hash env u ≡ zero_hash → Collision

  -- newest first
  head_hash : List DirectoryUpdate → Hash
  head_hash [] = zero_hash
  head_hash (u ∷ us) = update_hash env u

  abbrev Linked : List DirectoryUpdate → Type 0
  Linked [] = Unit {0}
  Linked (u ∷ us) = (u.prev_update_hash ≡ head_hash us) × Linked us

  Linked-unique :
      (us vs : List DirectoryUpdate)
      → Linked us
      → Linked vs
      → head_hash us ≡ head_hash vs
      → (us ≡ vs) ⊎ Collision
  unfolding head_hash
  Linked-unique [] [] a b e = inl refl
  Linked-unique [] (v ∷ vs) a b e = inr (zeros v (sym e))
  Linked-unique (u ∷ us) [] a b e = inr (zeros u e)
  Linked-unique (u ∷ us) (v ∷ vs) a b e =
      let rest : head_hash us ≡ head_hash vs → (us ≡ vs) ⊎ Collision =
        Linked-unique us vs a.1 b.1 in
      elim (DirectoryUpdate-discrete u v) [
        | no p ↦ inr (two u v p e)
        | yes p ↦ elim (rest (sym a.0 ∙ ap (λ (w : DirectoryUpdate). w.prev_update_hash) p ∙ b.0)) [
          | inl q ↦ inl (cc)
          | inr c ↦ inr c
        ]
      ]

module _ {A : Type 0} where
  turn : List A → List A → List A
  turn [] acc = acc
  turn (x ∷ xs) acc = turn xs (x ∷ acc)

  turn-turn : (xs acc ys : List A) → turn (turn xs acc) ys ≡ turn acc (xs ++ ys)
  unfolding turn
  turn-turn [] acc ys = refl
  turn-turn (x ∷ xs) acc ys = turn-turn xs (x ∷ acc) ys

  turn-back : (xs : List A) → turn (turn xs []) [] ≡ xs
  unfolding turn
  turn-back xs = turn-turn xs [] [] ∙ append-nil xs

  turn-injective : (xs ys : List A) → turn xs [] ≡ turn ys [] → xs ≡ ys
  turn-injective xs ys e = sym (turn-back xs) ∙ ap (λ zs. turn zs []) e ∙ turn-back ys

module _ (env : Env) where
  turn-Linked :
      (owners : Owners) (prev : Hash) (us acc : List DirectoryUpdate)
      → Valid env owners prev us
      → prev ≡ head_hash env acc
      → Linked env acc
      → Linked env (turn us acc) × (head_hash env (turn us acc) ≡ hash_after env prev us)
  unfolding turn hash_after
  turn-Linked owners prev [] acc v e l = (l, sym e)
  turn-Linked owners prev (u ∷ us) acc (link _ _ _ _ linked allowed v) e l =
      turn-Linked (apply_owners u.update_type owners) (update_hash env u) us (u ∷ acc) v
        (unfold head_hash in refl) (linked ∙ e, l)

  -- Two accepted histories with the same last hash are the same history, unless two different
  -- updates hash alike or an update hashes to zeros.
  pub prev_update_hash_unique :
      (us vs : List DirectoryUpdate)
      → verify_history env us ≡ ok tt
      → verify_history env vs ≡ ok tt
      → prev_update_hash env us ≡ prev_update_hash env vs
      → (us ≡ vs) ⊎ Collision env
  prev_update_hash_unique us vs a b e =
      let turned : (ws : List DirectoryUpdate)
          → verify_history env ws ≡ ok tt
          → Linked env (turn ws []) × (head_hash env (turn ws []) ≡ hash_after env zero_hash ws) =
        λ ws h.
          turn-Linked [] zero_hash ws [] ((verify_history_iff env ws).0 h)
            (unfold head_hash in refl) tt in
      let (la, ha) = turned us a in
      let (lb, hb) = turned vs b in
      let same : head_hash env (turn us []) ≡ head_hash env (turn vs []) =
        ha
        ∙ sym (prev_update_hash-hash_after env us)
        ∙ e
        ∙ prev_update_hash-hash_after env vs
        ∙ sym hb in
      elim (Linked-unique env (turn us []) (turn vs []) la lb same) [
        | inl q ↦ inl (turn-injective us vs q)
        | inr c ↦ inr c
      ]
