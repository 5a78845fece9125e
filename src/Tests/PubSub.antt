-- ===== src/Tests/PubSub.antt =====
-- A receiver of mailbox 5, beside one of mailbox 6.
use xirtam_core.Prelude.{◌≡◌, false, List, [], ◌∷◌}
use xirtam_core.Prelude.Dict.{lookup, insert, without}
use xirtam_core.Server.PubSub.{
  empty_pubsub, load, get_with, fetch_add, incr, wait_gt, goes_on, evict, Op, raises, apply, run,
}
use xirtam_core.Server.PubSub.Dropped.{evicted_waiter_sleeps}

abbrev before : List Op
before = raises 6 ∷ raises 5 ∷ []

-- two sends fall behind the hour
evicted_waiter_sleeps_example :
    goes_on (wait_gt 5 1 (run before empty_pubsub)).0 (
      run
        (raises 5 ∷ raises 5 ∷ [])
        (evict 5 (run (raises 6 ∷ []) (wait_gt 5 1 (run before empty_pubsub)).1)))
    ≡ false
unfolding goes_on wait_gt run apply incr get_with load fetch_add lookup insert without
evicted_waiter_sleeps_example =
    evicted_waiter_sleeps 5 before 1 (raises 6 ∷ []) (raises 5 ∷ raises 5 ∷ []) ((λ e. cc), tt)
