-- ===== src/Workload.antt =====
-- test_workload.c, the user program that measures the schedulers: the loops of do_work. Phases holds
-- spin_delay and main. An `int` is its pattern below 2 ^ 32.
pub mod Division
mod Primes
pub mod Phases
pub mod Delay
pub mod Totals
mod Whole
mod Tests
use os_project_files.Base.{
  ℕ, zero, suc, ◌+◌, ◌%◌, Option, none, some, Bool, true, false, not, ◌==◌, ltb_int, add32, mul32,
  if◌then◌else◌,
}

-- `for (j = 2; j * j <= i; j++)` from j on, with the rounds left: the value of is_prime.
unfoldable pub trial : ℕ → ℕ → ℕ → Option Bool
trial zero i j = none
trial (suc rounds) i j = elim (not (ltb_int i (mul32 j j))) [
  | false ↦ some true
  | true ↦ if i % j == 0 then some false else trial rounds i (add32 j 1)
]

-- `for (i = 2; i < limit; i++)` from i on, with the rounds left: the value of primes.
unfoldable pub count : ℕ → ℕ → ℕ → ℕ → Option ℕ
count zero limit i primes = none
count (suc rounds) limit i primes = elim (ltb_int i limit) [
  | false ↦ some primes
  | true ↦ elim (trial i i 2) [
    | none ↦ none
    | some is_prime ↦
        let counted = if is_prime then add32 primes 1 else primes in
        count rounds limit (add32 i 1) counted
  ]
]

unfoldable pub limit_of : ℕ → ℕ
limit_of is_monster = if is_monster == 0 then 1000 else 1000000

-- do_work(is_monster), to its exit(0): the value of primes.
unfoldable pub do_work : ℕ → Option ℕ
unfolding count limit_of
do_work is_monster = let limit = limit_of is_monster in count limit limit 2 0
