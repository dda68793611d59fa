-- ===== src/Workload/Tests.antt =====
-- The benchmark on a small system.
use os_project_files.Base.{ℕ, ◌+◌, ◌%◌, ◌≡◌, refl, some, u32_mod, arith}
use os_project_files.Workload.{do_work}
use os_project_files.Workload.Division.{prime_count}
use os_project_files.Workload.Delay.{IsClock}
use os_project_files.Workload.Phases.{Os, Metrics, Report, goes_on, main}
use os_project_files.Workload.Totals.{IsParent, Printed}
use os_project_files.Workload.Whole.{main_lem}
use os_project_files.Workload.Primes.{do_work-prime_count}

do_work-prime_count_example : do_work 0 ≡ some (prime_count 1000)
do_work-prime_count_example = do_work-prime_count 0

-- A system whose clock goes on by one tick in each call of uptime(), and that counts the forks.
abbrev System : Type 0
System = ℕ × ℕ

abbrev small : Os System
small = record {
  uptime = λ (t, forks). ((t + 1) % u32_mod, (t + 1, forks));
  fork = λ (t, forks). (forks + 4, (t, forks + 1));
  waitx = λ vars w. (record { wtime = 7; rtime = 2; nswtch = 1 }, w);
}

abbrev ticks : System → ℕ
ticks w = w.0

abbrev forks : System → ℕ
forks w = w.1

small-IsClock : IsClock small ticks 1
small-IsClock = record {
  reads = λ w. refl;
  forward = λ w. omega arith;
  short = λ w. omega arith;
  goes = λ w. omega arith;
}

small-IsParent : IsParent small ticks forks
small-IsParent = record {
  parent = λ w e. omega (arith, e);
  counts = λ w. refl;
  uptime_none = λ w. refl;
  waitx_none = λ m w. refl;
  fork_forward = λ w. omega arith;
  waitx_forward = λ m w. omega arith;
}

abbrev junk : Metrics
junk = record { wtime = 99; rtime = 99; nswtch = 99 }

main_lem_example :
    (r : Report × System) × (u : System) × (main small 50 junk (10, 0) ≡ goes_on r)
    × (forks u ≡ 50)
    × Printed small ticks forks junk (10, 0) u r
main_lem_example =
    main_lem small ticks forks 1 small-IsClock small-IsParent 50 junk (10, 0) (omega arith)
