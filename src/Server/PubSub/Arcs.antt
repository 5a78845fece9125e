-- ===== src/Server/PubSub/Arcs.antt =====
-- Each `Arc` of pubsub.rs stands under one mailbox at most, and a new one is new.
use xirtam_core.Prelude.{
  ◌<◌, ◌≡◌, refl, inl, inr, some, List, [], ◌∷◌, ◌==◌, nat_eq, nat_beq_iff, lookup-insert,
  lookup-without, Option-cases, arith, if◌then◌else◌, ◌+◌, ◌%◌, ◌^◌, true, ◌∙◌,
}
use xirtam_core.Prelude.Dict.{lookup}
use xirtam_core.Structs.{MailboxId}
use xirtam_core.Server.PubSub.{
  Arc, PubSub, empty_pubsub, load, get_with, counter, fetch_add, incr, wait_gt, evict, Op, reads,
  raises, evicts, waits, apply, run,
}

pub record IsSound (p : PubSub) : Type 0 where
  pub bounded : (mailbox : MailboxId) (arc : Arc) → lookup mailbox p.inner ≡ some arc → arc < p.next
  pub single :
      (mailbox other : MailboxId) (arc : Arc)
      → lookup mailbox p.inner ≡ some arc
      → lookup other p.inner ≡ some arc
      → mailbox ≡ other

empty-IsSound : IsSound empty_pubsub
unfolding lookup
empty-IsSound = record { bounded = λ m a h. cc; single = λ m o a h k. cc }

-- what `get_with` does to the cache and to the counters
pub lookup-get_with :
    (mailbox other : MailboxId) (p : PubSub)
    → lookup other (get_with mailbox p).1.inner
      ≡ (if mailbox == other then some (get_with mailbox p).0 else lookup other p.inner)
unfolding get_with
lookup-get_with mailbox other p = elim (Option-cases (lookup mailbox p.inner)) [
  | inl e ↦ rw (e, get_with) (lookup-insert mailbox other p.next p.inner)
  | inr (arc, e) ↦ rw (e, get_with) (ground (arith, nat_beq_iff mailbox other, e))
]

pub load-get_with :
    (mailbox : MailboxId) (arc : Arc) (p : PubSub)
    → arc < p.next
    → load arc (get_with mailbox p).1 ≡ load arc p
unfolding get_with load
load-get_with mailbox arc p old = elim (Option-cases (lookup mailbox p.inner)) [
  | inl e ↦
      rw (e, get_with) (ground (arith, lookup-insert p.next arc 0 p.cells, nat_beq_iff p.next arc))
  | inr (a, e) ↦ rw (e, get_with) refl
]

pub next-get_with :
    (mailbox : MailboxId) (arc : Arc) (p : PubSub)
    → arc < p.next
    → arc < (get_with mailbox p).1.next
unfolding get_with
next-get_with mailbox arc p old = elim (Option-cases (lookup mailbox p.inner)) [
  | inl e ↦ rw (e, get_with) (omega (arith, old))
  | inr (a, e) ↦ rw (e, get_with) old
]

pub get_with-IsSound :
    (mailbox : MailboxId) (p : PubSub) → IsSound p → IsSound (get_with mailbox p).1
unfolding get_with
get_with-IsSound mailbox p h = elim (Option-cases (lookup mailbox p.inner)) [
  | inr (a, e) ↦ rw (e, get_with) h
  | inl e ↦
      rw (e, get_with)
        (record {
          bounded =
              λ m a k. ground (arith, lookup-insert mailbox m p.next p.inner, h.bounded m a, k);
          single = λ m o a k l. ground (
            arith,
            lookup-insert mailbox m p.next p.inner,
            lookup-insert mailbox o p.next p.inner,
            nat_beq_iff mailbox m,
            nat_beq_iff mailbox o,
            h.bounded m a,
            h.bounded o a,
            h.single m o a,
            k,
            l,
          );
        })
]

pub evict-IsSound : (mailbox : MailboxId) (p : PubSub) → IsSound p → IsSound (evict mailbox p)
unfolding evict
evict-IsSound mailbox p h = record {
  bounded = λ m a k. ground (arith, lookup-without mailbox m p.inner, h.bounded m a, k);
  single = λ m o a k l. ground (
    arith,
    lookup-without mailbox m p.inner,
    lookup-without mailbox o p.inner,
    h.single m o a,
    k,
    l,
  );
}

pub apply-IsSound : (op : Op) (p : PubSub) → IsSound p → IsSound (apply op p)
unfolding apply counter incr wait_gt fetch_add
apply-IsSound (reads mailbox) p h = get_with-IsSound mailbox p h
apply-IsSound (raises mailbox) p h =
    let k = get_with-IsSound mailbox p h in record { bounded = k.bounded; single = k.single }
apply-IsSound (evicts mailbox) p h = evict-IsSound mailbox p h
apply-IsSound (waits mailbox seen) p h = get_with-IsSound mailbox p h

pub run-IsSound : (ops : List Op) (p : PubSub) → IsSound p → IsSound (run ops p)
unfolding run
run-IsSound [] p h = h
run-IsSound (op ∷ ops) p h = run-IsSound ops (apply op p) (apply-IsSound op p h)

pub reachable-IsSound : (ops : List Op) → IsSound (run ops empty_pubsub)
reachable-IsSound ops = run-IsSound ops empty_pubsub empty-IsSound

pub load-fetch_add :
    (arc other : Arc) (p : PubSub)
    → load other (fetch_add arc p)
      ≡ (if arc == other then (load arc p + 1) % 2 ^ 64 else load other p)
unfolding load fetch_add
load-fetch_add arc other p =
    ground (arith, lookup-insert arc other ((load arc p + 1) % 2 ^ 64) p.cells)

pub lookup-get_with_self :
    (mailbox : MailboxId) (p : PubSub)
    → lookup mailbox (get_with mailbox p).1.inner ≡ some (get_with mailbox p).0
lookup-get_with_self mailbox p =
    let self : (mailbox == mailbox) ≡ true = (nat_beq_iff mailbox mailbox).1 refl in
    lookup-get_with mailbox mailbox p ∙ rw self refl

pub first_IsSound :
    (mailbox : MailboxId) (before : List Op)
    → IsSound (get_with mailbox (run before empty_pubsub)).1
first_IsSound mailbox before =
    get_with-IsSound mailbox (run before empty_pubsub) (reachable-IsSound before)
