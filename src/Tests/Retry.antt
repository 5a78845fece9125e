-- ===== src/Tests/Retry.antt =====
-- A call that fails twice, and the waits after the attempts 6, 7 and 1000.
use xirtam_core.Prelude.{
  ℕ, ◌≤◌, ◌<◌, ◌≡◌, refl, ◌⊎◌, true, false, some, List, [], ◌∷◌, length, ltb, Result, ok, err,
  if◌then◌else◌,
}
use xirtam_core.Server.Database.{saturating_mul}
use xirtam_core.Client.Retry.{
  transient_backoff, failed, retry_from, retry_backoff, retry_backoff_ends,
}

abbrev call : ℕ → Result ℕ ℕ
call n = if ltb n 2 then err n else ok 5

run : retry_backoff call ≡ some (ok 5, 25 ∷ 50 ∷ [])
unfolding retry_backoff retry_from transient_backoff saturating_mul
run = refl

sixth : transient_backoff 6 ≡ 1600
unfolding transient_backoff saturating_mul
sixth = refl

seventh : transient_backoff 7 ≡ 3200
unfolding transient_backoff saturating_mul
seventh = refl

thousandth : transient_backoff 1000 ≡ 20000
unfolding transient_backoff saturating_mul
thousandth = refl

retry_backoff_ends_example :
    (n : ℕ) × (waits : List ℕ) × (retry_backoff call ≡ some (call n, waits))
    × (n ≤ 7)
    × (length waits ≡ n)
    × ((k : ℕ) → k < n → failed (call k) ≡ true)
    × ((failed (call n) ≡ false) ⊎ (n ≡ 7))
retry_backoff_ends_example = retry_backoff_ends call
