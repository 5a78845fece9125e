-- ===== src/Server/PubSub/Dropped.antt =====
-- A receiver of pubsub.rs whose mailbox the cache drops.
use xirtam_core.Prelude.{
  ℕ, ◌<◌, ◌≡◌, ◌≢◌, refl, sym, ap, ◌∙◌, inl, inr, some, List, [], ◌∷◌, ltb, ◌==◌, nat_eq,
  nat_beq_iff, lookup-without, Bool-cases, Option-cases, true-ne-false, subst, some-inj, arith,
  false, none-ne-some,
}
use xirtam_core.Prelude.Dict.{lookup}
use xirtam_core.Structs.{MailboxId}
use xirtam_core.Server.PubSub.{
  Arc, PubSub, empty_pubsub, load, get_with, counter, incr, Waiter, wait_gt, goes_on, evict, Op,
  reads, raises, evicts, waits, apply, run,
}
use xirtam_core.Server.PubSub.Arcs.{
  IsSound, lookup-get_with, load-get_with, next-get_with, run-IsSound, load-fetch_add,
  lookup-get_with_self, first_IsSound,
}
use xirtam_core.Server.PubSub.Wakes.{Spares, At, run-keeps_At}

module _ (mailbox : MailboxId) (arc : Arc) where
  -- no mailbox has the `Arc` any more
  record Gone (p : PubSub) : Type 0 where
    old : arc < p.next
    nowhere : (other : MailboxId) → lookup other p.inner ≡ some arc → ⊥

  load-evict : (other : MailboxId) (p : PubSub) → load arc (evict other p) ≡ load arc p
  unfolding load evict
  load-evict other p = refl

  get_with-other : (other : MailboxId) (p : PubSub) → Gone p → (get_with other p).0 ≢ arc
  unfolding get_with
  get_with-other other p h = elim (Option-cases (lookup other p.inner)) [
    | inl e ↦ rw (e, get_with) (λ same. omega (arith, h.old, same))
    | inr (a, e) ↦ rw (e, get_with) (λ same. h.nowhere other (e ∙ ap some same))
  ]

  get_with-Gone : (other : MailboxId) (p : PubSub) → Gone p → Gone (get_with other p).1
  get_with-Gone other p h = record {
    old = next-get_with other arc p h.old;
    nowhere = λ m k. elim (Bool-cases (other == m)) [
      | inl e ↦ get_with-other other p h (
          some-inj (
            sym (lookup-get_with_self other p)
            ∙ subst (λ x. lookup x (get_with other p).1.inner ≡ some arc)
                (sym ((nat_beq_iff other m).0 e)) k))
      | inr e ↦ h.nowhere m (sym (lookup-get_with other m p ∙ rw e refl) ∙ k)
    ];
  }

  incr-Gone :
      (other : MailboxId) (p : PubSub)
      → Gone p
      → Gone (incr other p) × (load arc (incr other p) ≡ load arc p)
  unfolding incr
  incr-Gone other p h =
      let k = get_with-Gone other p h in
      let miss : ((get_with other p).0 == arc) ≡ false =
        elim (Bool-cases ((get_with other p).0 == arc)) [
          | inl x ↦ absurd (get_with-other other p h ((nat_beq_iff _ _).0 x))
          | inr x ↦ x
        ] in
      (
        record { old = k.old; nowhere = k.nowhere },
        load-fetch_add (get_with other p).0 arc (get_with other p).1
            ∙ rw miss (load-get_with other arc p h.old),
      )

  evict-Gone : (other : MailboxId) (p : PubSub) → Gone p → Gone (evict other p)
  unfolding evict
  evict-Gone other p h = record {
    old = h.old;
    nowhere = λ m k. ground (arith, lookup-without other m p.inner, h.nowhere m, k);
  }

  run-Gone : (ops : List Op) (p : PubSub) → Gone p → load arc (run ops p) ≡ load arc p
  unfolding run apply counter wait_gt
  run-Gone [] p h = refl
  run-Gone (reads other ∷ ops) p h =
      run-Gone ops (get_with other p).1 (get_with-Gone other p h) ∙ load-get_with other arc p h.old
  run-Gone (waits other seen ∷ ops) p h =
      run-Gone ops (get_with other p).1 (get_with-Gone other p h) ∙ load-get_with other arc p h.old
  run-Gone (raises other ∷ ops) p h =
      let (k, e) = incr-Gone other p h in run-Gone ops (incr other p) k ∙ e
  run-Gone (evicts other ∷ ops) p h =
      run-Gone ops (evict other p) (evict-Gone other p h) ∙ load-evict other p

  evicted-Gone : (p : PubSub) → IsSound p → At mailbox arc p → Gone (evict mailbox p)
  unfolding evict
  evicted-Gone p sound h = record {
    old = sound.bounded mailbox arc h;
    nowhere = λ m k. elim (Bool-cases (mailbox == m)) [
      | inl e ↦ none-ne-some (sym (lookup-without mailbox m p.inner ∙ rw e refl) ∙ k)
      | inr e ↦
          let held : lookup m p.inner ≡ some arc =
            sym (lookup-without mailbox m p.inner ∙ rw e refl) ∙ k in
          true-ne-false ((nat_beq_iff mailbox m).1 (sound.single mailbox m arc h held)) e
    ];
  }

module _ (mailbox : MailboxId) (before : List Op) where
  -- When the cache drops a mailbox, the condition of a receiver that waits on its counter keeps its
  -- value from then on, whatever happens: one that still waits is not woken, however often the
  -- mailbox is raised.
  pub evicted_waiter_sleeps :
      (seen : ℕ) (meanwhile later : List Op)
      → Spares mailbox meanwhile
      → let waiting : Waiter × PubSub = wait_gt mailbox seen (run before empty_pubsub) in
        let still : PubSub = run meanwhile waiting.1 in
        goes_on waiting.0 (run later (evict mailbox still)) ≡ goes_on waiting.0 still
  unfolding goes_on wait_gt
  evicted_waiter_sleeps seen meanwhile later spares =
      let p : PubSub = run before empty_pubsub in
      let arc : Arc = (get_with mailbox p).0 in
      let q : PubSub = run meanwhile (get_with mailbox p).1 in
      let gone =
        evicted-Gone mailbox arc q (run-IsSound meanwhile _ (first_IsSound mailbox before))
          (run-keeps_At mailbox arc meanwhile _ (lookup-get_with_self mailbox p) spares) in
      ap (ltb seen)
        (run-Gone mailbox arc later (evict mailbox q) gone ∙ load-evict mailbox arc mailbox q)
