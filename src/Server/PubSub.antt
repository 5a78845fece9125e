-- ===== src/Server/PubSub.antt =====
-- binaries/nullspace-server/src/mailbox/pubsub.rs: the counters by which a send wakes the receivers.
-- A counter lives behind an `Arc`, which the cache holds under its mailbox until an hour passes in
-- which nobody asks for it, and which a waiter holds for itself. An `Arc` is a number here.
--
-- `incr` is the only writer of a counter, and calls `notify_all` on the counter's own `Event` after
-- it writes. What async-event documents is that `wait_until` then looks at its condition again, and
-- that it looks before it waits: a waiter goes on as soon as its condition holds.
pub mod Arcs
pub mod Wakes
pub mod Dropped
use xirtam_core.Prelude.{
  ℕ, ◌+◌, ◌%◌, ◌^◌, Bool, Option, none, some, List, [], ◌∷◌, ltb, ◌==◌, nat_eq, lookup, insert,
  without, if◌then◌else◌,
}
use xirtam_core.Structs.{MailboxId}

abbrev pub Arc : Type 0
Arc = ℕ

-- the cache, what stands behind each `Arc`, and the next `Arc` that `Default::default` makes
pub record PubSub : Type 0 where
  pub inner : List (MailboxId × Arc)
  pub cells : List (Arc × ℕ)
  pub next : Arc

abbrev pub empty_pubsub : PubSub
empty_pubsub = record { inner = []; cells = []; next = 0 }

-- `val.0.load`
unfoldable pub load : Arc → PubSub → ℕ
load arc p = elim (lookup arc p.cells) [ some n ↦ n | none ↦ 0 ]

-- `self.inner.get_with(mailbox, Default::default)`
unfoldable pub get_with : MailboxId → PubSub → Arc × PubSub
get_with mailbox p = elim (lookup mailbox p.inner) [
  | some arc ↦ (arc, p)
  | none ↦ (
    p.next,
    record {
      inner = insert mailbox p.next p.inner;
      cells = insert p.next 0 p.cells;
      next = p.next + 1;
    },
  )
]

unfoldable pub counter : MailboxId → PubSub → ℕ × PubSub
unfolding get_with load
counter mailbox p = let (arc, p') = get_with mailbox p in (load arc p', p')

-- `fetch_add(1)` on 64 bits
unfoldable pub fetch_add : Arc → PubSub → PubSub
unfolding load
fetch_add arc p = record p { cells = insert arc ((load arc p + 1) % 2 ^ 64) p.cells }

unfoldable pub incr : MailboxId → PubSub → PubSub
unfolding get_with load fetch_add
incr mailbox p = let (arc, p') = get_with mailbox p in fetch_add arc p'

-- what a call of `wait_gt` holds
pub record Waiter : Type 0 where
  pub val : Arc
  pub seen : ℕ

unfoldable pub wait_gt : MailboxId → ℕ → PubSub → Waiter × PubSub
unfolding get_with
wait_gt mailbox seen p =
    let (arc, p') = get_with mailbox p in (record { val = arc; seen = seen }, p')

-- the condition of `wait_until`
unfoldable pub goes_on : Waiter → PubSub → Bool
unfolding load
goes_on waiter p = ltb waiter.seen (load waiter.val p)

-- `time_to_idle`: the cache drops the entry of a mailbox
unfoldable pub evict : MailboxId → PubSub → PubSub
evict mailbox p = record p { inner = without mailbox p.inner }

-- what happens to the cache, by any task
pub data Op : Type 0 where
  reads raises evicts : MailboxId → Op
  waits : MailboxId → ℕ → Op

unfoldable pub apply : Op → PubSub → PubSub
unfolding counter incr evict wait_gt
apply (reads mailbox) p = (counter mailbox p).1
apply (raises mailbox) p = incr mailbox p
apply (evicts mailbox) p = evict mailbox p
apply (waits mailbox seen) p = (wait_gt mailbox seen p).1

unfoldable pub run : List Op → PubSub → PubSub
unfolding apply
run [] p = p
run (op ∷ ops) p = run ops (apply op p)

-- how often a mailbox is raised
abbrev pub raised : MailboxId → Op → ℕ
raised mailbox (raises other) = if other == mailbox then 1 else 0
raised mailbox _ = 0

abbrev pub raises_in : MailboxId → List Op → ℕ
raises_in mailbox [] = 0
raises_in mailbox (op ∷ ops) = raised mailbox op + raises_in mailbox ops
