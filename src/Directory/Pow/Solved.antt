-- ===== src/Directory/Pow/Solved.antt =====
-- What the client finds is what the server accepts, and what acceptance bounds.
use xirtam_core.Prelude.{
  ℕ, zero, suc, ◌*◌, ◌^◌, ◌<◌, ◌≡◌, ◌↔◌, refl, sym, subst, inl, inr, Bool, true, false, none, some,
  List, [], ◌∷◌, length, ltb, ltb→lt, lt→ltb, ◌==◌, nat_eq, nat_beq_iff, In, Bool-cases,
  Option-cases, some-inj, none-ne-some, false-ne-true, true-ne-false, err-ne-ok, ok, guard,
  guard-eq-ok, guard-true, >>=-eq-ok, ok-inj, ◌∙◌,
}
use xirtam_core.Structs.{Bytes, Hash, PowSeed, PowSolution, DirectoryErr}
use xirtam_core.Env.{Env}
use xirtam_core.Directory.Pow.{
  Equix, checked_mul, next_nonce, challenge, solution_value, parse_solution_bytes, pays,
  validate_solution, first_paying, solutions_at, solve_equix_pow,
}

pub checked_mul_iff : (a b : ℕ) → ((c : ℕ) × (checked_mul a b ≡ some c)) ↔ (a * b < 2 ^ 64)
unfolding checked_mul
checked_mul_iff a b = elim (Bool-cases (ltb (a * b) (2 ^ 64))) [
  | inl fits ↦ (λ _. ltb→lt (a * b) (2 ^ 64) fits, λ _. (a * b, rw fits refl))
  | inr over ↦ (
    λ (c, h). absurd (none-ne-some (rw over at h)),
    λ h. absurd (true-ne-false (lt→ltb (a * b) (2 ^ 64) h) over),
  )
]

module _ (env : Env) (equix : Equix) where
  pays_iff :
      (effort : ℕ) (bytes : Bytes)
      → (pays env equix effort bytes ≡ true) ↔ (solution_value env equix bytes * effort < 2 ^ 64)
  unfolding checked_mul
  pays_iff effort bytes =
      elim (Bool-cases (ltb (solution_value env equix bytes * effort) (2 ^ 64))) [
        | inl fits ↦ (λ _. ltb→lt _ _ fits, λ _. rw (fits, pays) refl)
        | inr over ↦ (
          λ h. absurd (false-ne-true (rw (over, pays) at h)),
          λ h. absurd (true-ne-false (lt→ltb _ _ h) over),
        )
      ]

  -- What a solution must be for a seed and an effort.
  pub record Acceptable (seed : PowSeed) (effort : ℕ) (solution : PowSolution) : Type 0 where
    pub for_seed : seed.seed ≡ solution.seed
    pub sized : length solution.solution ≡ equix.num_bytes
    pub solves :
        equix.verify_bytes (challenge env equix solution.seed solution.nonce) solution.solution
        ≡ true
    pub within : solution_value env equix solution.solution * effort < 2 ^ 64

  parse_solution_bytes-ok :
      (solution bytes : Bytes)
      → parse_solution_bytes env equix solution ≡ ok bytes
      → (length solution ≡ equix.num_bytes) × (solution ≡ bytes)
  unfolding parse_solution_bytes
  parse_solution_bytes-ok solution bytes h =
      elim (Bool-cases (length solution == equix.num_bytes)) [
        | inl same ↦ ((nat_beq_iff _ _).0 same, ok-inj (rw same at h))
        | inr other ↦ absurd (err-ne-ok (rw other at h))
      ]

  guard-ok : (b : Bool) (e : DirectoryErr) → guard b e ≡ ok tt → b ≡ true
  guard-ok true e h = refl
  guard-ok false e h = cc

  validate_solution-Acceptable :
      (seed : PowSeed) (effort : ℕ) (solution : PowSolution)
      → validate_solution env equix seed effort solution ≡ ok tt
      → Acceptable seed effort solution
  unfolding validate_solution
  validate_solution-Acceptable seed effort solution h =
      let (same, h1) = guard-eq-ok (seed.seed == solution.seed) _ _ h in
      let (bytes, parsed, h2) = >>=-eq-ok (parse_solution_bytes env equix solution.solution) _ h1 in
      let (sized, is) = parse_solution_bytes-ok solution.solution bytes parsed in
      let (solves, h3) = guard-eq-ok _ _ _ h2 in
      record {
        for_seed = (nat_beq_iff _ _).0 same;
        sized = sized;
        solves = rw is solves;
        within = (pays_iff effort solution.solution).0 (guard-ok _ _ h3);
      }

  Acceptable-validate_solution :
      (seed : PowSeed) (effort : ℕ) (solution : PowSolution)
      → Acceptable seed effort solution
      → validate_solution env equix seed effort solution ≡ ok tt
  unfolding validate_solution parse_solution_bytes
  Acceptable-validate_solution seed effort solution a =
      guard-true (seed.seed == solution.seed) _ _ ((nat_beq_iff _ _).1 a.for_seed)
      ∙ rw ((nat_beq_iff _ _).1 a.sized, a.solves, (pays_iff effort solution.solution).1 a.within)
          refl

  -- The server accepts a solution exactly if it names the seed, has the length of a solution,
  -- solves the challenge of its seed and nonce, and the value of its hash times the effort stays
  -- below 2 ^ 64.
  pub validate_solution_iff :
      (seed : PowSeed) (effort : ℕ) (solution : PowSolution)
      → (validate_solution env equix seed effort solution ≡ ok tt) ↔ Acceptable seed effort solution
  validate_solution_iff seed effort solution = (
    validate_solution-Acceptable seed effort solution,
    Acceptable-validate_solution seed effort solution,
  )

  first_paying-In :
      (effort : ℕ) (solutions : List Bytes) (bytes : Bytes)
      → first_paying env equix effort solutions ≡ some bytes
      → In bytes solutions × (pays env equix effort bytes ≡ true)
  unfolding first_paying
  first_paying-In effort [] bytes h = cc
  first_paying-In effort (s ∷ solutions) bytes h = elim (Bool-cases (pays env equix effort s)) [
    | inl paid ↦
        let same : s ≡ bytes = some-inj (rw paid at h) in
        (inl (sym same), subst (λ b. pays env equix effort b ≡ true) same paid)
    | inr unpaid ↦
        let (m, paid) = first_paying-In effort solutions bytes (rw unpaid at h) in (inr m, paid)
  ]

  first_paying_complete :
      (effort : ℕ) (solutions : List Bytes) (bytes : Bytes)
      → In bytes solutions
      → pays env equix effort bytes ≡ true
      → (found : Bytes) × (first_paying env equix effort solutions ≡ some found)
  unfolding first_paying
  first_paying_complete effort [] bytes m h = elim m [ ]
  first_paying_complete effort (s ∷ solutions) bytes m h =
      elim (Bool-cases (pays env equix effort s)) [
        | inl paid ↦ (s, rw paid refl)
        | inr unpaid ↦ elim m [
          | inl e ↦ absurd (true-ne-false (rw e at h) unpaid)
          | inr m' ↦ rw unpaid (first_paying_complete effort solutions bytes m' h)
        ]
      ]

  -- Every solution that the search gives has the right length and solves the challenge.
  abbrev pub SolvesCorrectly : Type 0
  SolvesCorrectly =
      (c : Bytes) (solutions : List Bytes) (bytes : Bytes)
      → equix.solve c ≡ some solutions
      → In bytes solutions
      → (length bytes ≡ equix.num_bytes) × (equix.verify_bytes c bytes ≡ true)

  solutions_at_correct :
      SolvesCorrectly
      → (seed : Hash) (nonce : ℕ) (bytes : Bytes) → In bytes (solutions_at env equix seed nonce)
      → (length bytes ≡ equix.num_bytes)
        × (equix.verify_bytes (challenge env equix seed nonce) bytes ≡ true)
  solutions_at_correct correct seed nonce bytes m =
      elim (Option-cases (equix.solve (challenge env equix seed nonce))) [
        | inl failed ↦ elim (rw (failed, solutions_at) at m) [ ]
        | inr (solutions, found) ↦
            correct (challenge env equix seed nonce) solutions bytes found
              (rw (found, solutions_at) at m)
      ]

  -- the step of the loop
  solve_found :
      (fuel : ℕ) (seed : PowSeed) (effort nonce : ℕ) (bytes : Bytes)
      → first_paying env equix effort (solutions_at env equix seed.seed nonce) ≡ some bytes
      → solve_equix_pow env equix (suc fuel) seed effort nonce
        ≡ some (record { seed = seed.seed; nonce = nonce; solution = bytes })
  unfolding solve_equix_pow
  solve_found fuel seed effort nonce bytes h = rw (h, solve_equix_pow) refl

  solve_next :
      (fuel : ℕ) (seed : PowSeed) (effort nonce : ℕ)
      → first_paying env equix effort (solutions_at env equix seed.seed nonce) ≡ none
      → solve_equix_pow env equix (suc fuel) seed effort nonce
        ≡ solve_equix_pow env equix fuel seed effort (next_nonce nonce)
  unfolding solve_equix_pow
  solve_next fuel seed effort nonce h = rw (h, solve_equix_pow) refl

  solve-Acceptable :
      SolvesCorrectly
      → (fuel : ℕ) (seed : PowSeed) (effort nonce : ℕ) (solution : PowSolution)
      → solve_equix_pow env equix fuel seed effort nonce ≡ some solution
      → Acceptable seed effort solution
  solve-Acceptable correct zero seed effort nonce solution h =
      absurd (none-ne-some {a = solution} (unfold solve_equix_pow in h))
  solve-Acceptable correct (suc fuel) seed effort nonce solution h =
      elim (Option-cases (first_paying env equix effort (solutions_at env equix seed.seed nonce))) [
        | inl none' ↦
            solve-Acceptable correct fuel seed effort (next_nonce nonce) solution
              (sym (solve_next fuel seed effort nonce none') ∙ h)
        | inr (bytes, found) ↦
            let (m, paid) = first_paying-In effort _ bytes found in
            let (sized, solves) = solutions_at_correct correct seed.seed nonce bytes m in
            subst (Acceptable seed effort)
              (some-inj (sym (solve_found fuel seed effort nonce bytes found) ∙ h))
              (record {
                for_seed = refl;
                sized = sized;
                solves = solves;
                within = (pays_iff effort bytes).0 paid;
              })
      ]

  -- What the client's search returns, the server accepts.
  pub solve-validate_solution :
      SolvesCorrectly
      → (fuel : ℕ) (seed : PowSeed) (effort nonce : ℕ) (solution : PowSolution)
      → solve_equix_pow env equix fuel seed effort nonce ≡ some solution
      → validate_solution env equix seed effort solution ≡ ok tt
  solve-validate_solution correct fuel seed effort nonce solution h =
      Acceptable-validate_solution seed effort solution
        (solve-Acceptable correct fuel seed effort nonce solution h)

  -- the nonce after a number of turns
  unfoldable pub nonce_after : ℕ → ℕ → ℕ
  nonce_after zero nonce = nonce
  nonce_after (suc turns) nonce = nonce_after turns (next_nonce nonce)

  -- The client's loop ends at the first nonce with a solution that pays for the effort, or before.
  pub solve_ends :
      (turns : ℕ) (seed : PowSeed) (effort nonce : ℕ) (bytes : Bytes)
      → In bytes (solutions_at env equix seed.seed (nonce_after turns nonce))
      → solution_value env equix bytes * effort < 2 ^ 64
      → (solution : PowSolution) × (solve_equix_pow env equix (suc turns) seed effort nonce
          ≡ some solution)
  unfolding nonce_after
  solve_ends zero seed effort nonce bytes m fits =
      let (found, h) = first_paying_complete effort _ bytes m ((pays_iff effort bytes).1 fits) in
      (_, solve_found zero seed effort nonce found h)
  solve_ends (suc n) seed effort nonce bytes m fits =
      let (solution, ends) = solve_ends n seed effort (next_nonce nonce) bytes m fits in
      elim (Option-cases (first_paying env equix effort (solutions_at env equix seed.seed nonce))) [
        | inr (found, h) ↦ (_, solve_found (suc n) seed effort nonce found h)
        | inl none' ↦ (solution, solve_next (suc n) seed effort nonce none' ∙ ends)
      ]
