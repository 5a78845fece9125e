-- ===== src/Server/PubSub/Wakes.antt =====
-- Which receivers of pubsub.rs a send wakes.
use xirtam_core.Prelude.{
  ◌≡◌, ◌≢◌, sym, ap, ◌∙◌, inl, inr, some, List, [], ◌∷◌, All, ◌==◌, nat_eq, nat_beq_iff,
  lookup-without, Bool-cases, subst, false,
}
use xirtam_core.Prelude.Dict.{lookup}
use xirtam_core.Structs.{MailboxId}
use xirtam_core.Server.PubSub.{
  Arc, PubSub, get_with, counter, incr, wait_gt, evict, Op, reads, raises, evicts, waits, apply,
  run,
}
use xirtam_core.Server.PubSub.Arcs.{lookup-get_with}

-- no eviction of the mailbox
abbrev pub Spares : MailboxId → List Op → Type 0
Spares mailbox ops = All (λ op. op ≢ evicts mailbox) ops

module _ (mailbox : MailboxId) (arc : Arc) where
  abbrev pub At : PubSub → Type 0
  At p = lookup mailbox p.inner ≡ some arc

  get_with-At : (other : MailboxId) (p : PubSub) → At p → At (get_with other p).1
  unfolding get_with
  get_with-At other p h = elim (Bool-cases (other == mailbox)) [
    | inr e ↦ lookup-get_with other mailbox p ∙ rw e h
    | inl e ↦
        let held : lookup other p.inner ≡ some arc =
          subst (λ m. lookup m p.inner ≡ some arc) (sym ((nat_beq_iff other mailbox).0 e)) h in
        rw (held, get_with) h
  ]

  apply-At : (op : Op) (p : PubSub) → op ≢ evicts mailbox → At p → At (apply op p)
  unfolding apply counter incr wait_gt evict
  apply-At (reads other) p ne h = get_with-At other p h
  apply-At (raises other) p ne h = get_with-At other p h
  apply-At (waits other seen) p ne h = get_with-At other p h
  apply-At (evicts other) p ne h =
      let away : (other == mailbox) ≡ false = elim (Bool-cases (other == mailbox)) [
        | inl e ↦ absurd (ne (ap evicts ((nat_beq_iff other mailbox).0 e)))
        | inr e ↦ e
      ] in
      lookup-without other mailbox p.inner ∙ rw away h

  pub run-keeps_At : (ops : List Op) (p : PubSub) → At p → Spares mailbox ops → At (run ops p)
  unfolding run
  run-keeps_At [] p h spares = h
  run-keeps_At (op ∷ ops) p h (ne, spares) =
      run-keeps_At ops (apply op p) (apply-At op p ne h) spares
