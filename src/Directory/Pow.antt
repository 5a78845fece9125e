-- ===== src/Directory/Pow.antt =====
-- Proof of work: binaries/nullspace-directory/src/pow.rs, and the client's search for a solution,
-- libraries/nullspace-dirclient/src/pow.rs. The random seed, the first nonce and the clock are
-- arguments.
use xirtam_core.Prelude.{
  ℕ, zero, suc, ◌+◌, ◌*◌, ◌%◌, ◌^◌, Bool, true, false, Option, none, some, List, [], ◌∷◌, length,
  take, ltb, ◌==◌, nat_eq, Result, ok, err, guard, ◌>>=◌, ◌>>◌, if◌then◌else◌,
}
use Prim.Native.Nat.{◌/◌}
use xirtam_core.Structs.{
  Bytes, Hash, Timestamp, PowSeed, PowSolution, DirectoryErr, update_rejected,
}
use xirtam_core.Env.{Env}
use xirtam_core.Crypto.{digest, keyed_digest}
pub mod Solved

-- The package equix: the length of a solution, its test, and the search for solutions of one
-- challenge, which fails for some challenges.
pub record Equix : Type 0 where
  pub num_bytes : ℕ
  pub verify_bytes : Bytes → Bytes → Bool
  pub solve : Bytes → Option (List Bytes)

abbrev pub pow_effort : ℕ
pow_effort = 1_000

abbrev pub seed_ttl_secs : ℕ
seed_ttl_secs = 120

unfoldable pub new_seed : Timestamp → Hash → PowSeed
new_seed now seed_bytes = record {
  effort = pow_effort;
  seed = seed_bytes;
  use_before = now + seed_ttl_secs;
}

-- `u64::checked_mul`
unfoldable pub checked_mul : ℕ → ℕ → Option ℕ
checked_mul a b = if ltb (a * b) (2 ^ 64) then some (a * b) else none

-- `u64::wrapping_add(1)`
unfoldable pub next_nonce : ℕ → ℕ
next_nonce nonce = (nonce + 1) % 2 ^ 64

-- the digits of a number in base 256, the last first
abbrev little_endian : ℕ → ℕ → Bytes
little_endian zero n = []
little_endian (suc width) n = n % 256 ∷ little_endian width (n / 256)

abbrev reverse_onto : Bytes → Bytes → Bytes
reverse_onto [] acc = acc
reverse_onto (b ∷ bs) acc = reverse_onto bs (b ∷ acc)

-- `u64::to_be_bytes`
unfoldable pub to_be_bytes : ℕ → Bytes
to_be_bytes n = reverse_onto (little_endian 8 n) []

abbrev from_digits : ℕ → Bytes → ℕ
from_digits acc [] = acc
from_digits acc (b ∷ bs) = from_digits (acc * 256 + b) bs

-- `u64::from_be_bytes`
unfoldable pub from_be_bytes : Bytes → ℕ
from_be_bytes bs = from_digits 0 bs

module _ (env : Env) (equix : Equix) where
  unfoldable pub challenge : Hash → ℕ → Bytes
  challenge seed nonce = env.hash_bytes (keyed_digest env (env.hash_bytes seed) (to_be_bytes nonce))

  -- the first eight bytes of the hash of a solution, as a number
  unfoldable pub solution_value : Bytes → ℕ
  solution_value bytes = from_be_bytes (take 8 (env.hash_bytes (digest env bytes)))

  unfoldable pub parse_solution_bytes : Bytes → Result DirectoryErr Bytes
  parse_solution_bytes solution =
      if length solution == equix.num_bytes
      then ok solution
      else err (update_rejected "invalid solution length")

  -- `value.checked_mul(effort)` succeeds
  abbrev pub pays : ℕ → Bytes → Bool
  pays effort bytes = elim (checked_mul (solution_value bytes) effort) [
    | none ↦ false
    | some _ ↦ true
  ]

  unfoldable pub validate_solution : PowSeed → ℕ → PowSolution → Result DirectoryErr (Unit {0})
  validate_solution seed effort solution = do
    guard (seed.seed == solution.seed) (update_rejected "seed mismatch")
    bytes ← parse_solution_bytes solution.solution
    guard (equix.verify_bytes (challenge solution.seed solution.nonce) bytes)
        (update_rejected "invalid equix solution")
    guard (pays effort solution.solution) (update_rejected "insufficient effort")

  -- the inner loop of the client: the first solution that pays for the effort
  unfoldable pub first_paying : ℕ → List Bytes → Option Bytes
  first_paying effort [] = none
  first_paying effort (bytes ∷ solutions) =
      let rest = first_paying effort solutions in if pays effort bytes then some bytes else rest

  -- the solutions of one nonce; where the search fails there are none
  abbrev pub solutions_at : Hash → ℕ → List Bytes
  solutions_at seed nonce = elim (equix.solve (challenge seed nonce)) [
    | none ↦ []
    | some solutions ↦ solutions
  ]

  -- the loop of `solve_equix_pow`, on as many nonces as it has fuel for
  unfoldable pub solve_equix_pow : ℕ → PowSeed → ℕ → ℕ → Option PowSolution
  solve_equix_pow zero seed effort nonce = none
  solve_equix_pow (suc fuel) seed effort nonce =
      let rest = solve_equix_pow fuel seed effort (next_nonce nonce) in
      elim (first_paying effort (solutions_at seed.seed nonce)) [
        | some bytes ↦ some (record { seed = seed.seed; nonce = nonce; solution = bytes })
        | none ↦ rest
      ]
