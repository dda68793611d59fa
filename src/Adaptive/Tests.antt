-- ===== src/Adaptive/Tests.antt =====
-- Runs of the adaptive scheduler on concrete tables.
use os_project_files.Base.{
  ℕ, zero, suc, true, ap, ◌+◌, ◌-◌, ◌*◌, ◌%◌, ◌^◌, ◌<◌, ◌≤◌, ◌≡◌, ◌≢◌, ◌⊎◌, ◌↔◌, refl, none, some,
  List, [], ◌∷◌, map, ◌++◌, arith, u32_mod,
}
use os_project_files.Kernel.{
  sleeping, zombie, done, runnable, running, ticks_addr, Proc, Kernel, proc_at, myproc, Outcome,
  panic, clear_running,
}
use os_project_files.Process.Adoption.{parents, redirect, reparent-parents}
use os_project_files.Process.Exit.{reparent, kexit}
use os_project_files.Process.Exiting.{kexit_lem}
use os_project_files.Process.Sleep.{only_own_lock, sched}
use os_project_files.Samples.{process, kernel_of, services}
use os_project_files.Adaptive.Scan.{
  Sched, curr_pri, visit, select, scan_from, start, priority_max, aging_rate,
}
use os_project_files.Adaptive.Aging.{curr_pri_lem, curr_pri-overflow}
use os_project_files.Adaptive.Choice.{select_iff, FirstBest}
use os_project_files.Adaptive.Locks.{scan_locks, Disciplined, most_held, held, lock_of}
use os_project_files.Adaptive.Overlap.{scan_overlap}
use os_project_files.Adaptive.Starvation.{stops, runs, Calm, urgent, Rounds-aged}
use mathlib.Core.List.{Mem}
use mathlib.Core.Option.{some-injective}
use os_project_files.Adaptive.Ready.{wakeup_lem, wakeup-family, wakeup-running}
use os_project_files.Adaptive.{wakeup, schedule, yield}

abbrev fields : ℕ → ℕ → Sched
fields priority age_start = record {
  estimated_runtime = 5000;
  priority = priority;
  age_start = age_start;
  affinity_cpu = 0;
}

-- At tick 100 the effective priorities are 4000, 4900 and 100.
abbrev table : List (Proc Sched)
table =
    process runnable 1 none (fields 5000 0)
    ∷ process runnable 2 (some 0) (fields 5000 90)
    ∷ process runnable 3 (some 0) (fields 1000 10)
    ∷ []

abbrev sleeper : Proc Sched
sleeper = process sleeping 4 (some 0) (fields 20 60)

abbrev kernel : Kernel Sched Unit ℕ
kernel =
    kernel_of (process running 1 none (fields 0 0) ∷ sleeper ∷ [])
      (record { proc = some 0; queue = tt } ∷ [])

select-table : select 100 table ≡ some 2
unfolding select scan_from start visit curr_pri
select-table = refl

select_iff_example :
    (select 100 table ≡ some 2) ↔ ((c : ℕ) × (c ≤ priority_max) × FirstBest 100 table 2 c)
select_iff_example = select_iff 100 table 2

scan_locks_example :
    Disciplined (scan_from 100 0 table start).locks
    × (most_held (scan_from 100 0 table start).locks ≤ 2)
    × (held (scan_from 100 0 table start).locks ≡ lock_of (select 100 table))
scan_locks_example = scan_locks 100 table

first_chosen : select 100 (sleeper ∷ process runnable 1 none (fields 5000 0) ∷ []) ≢ none
unfolding select scan_from start visit curr_pri
first_chosen e = cc

scan_overlap_example :
    most_held
      (scan_from 100 0
        ((sleeper ∷ process runnable 1 none (fields 5000 0) ∷ []) ++ sleeper ∷ [])
        start).locks
    ≡ 2
scan_overlap_example =
    scan_overlap 100 (sleeper ∷ process runnable 1 none (fields 5000 0) ∷ []) [] sleeper
      first_chosen

wakeup_lem_example :
    ((sleeper.state ≡ sleeping)
      × (sleeper.chan ≡ ticks_addr)
      × (myproc 0 kernel ≢ some 1)
      × (proc_at (wakeup 0 ticks_addr kernel) 1
          ≡ some (record sleeper {
            state = runnable;
            sched = record {
              estimated_runtime = sleeper.sched.estimated_runtime;
              priority = sleeper.sched.estimated_runtime;
              age_start = kernel.ticks;
              affinity_cpu = sleeper.sched.affinity_cpu;
            };
          })))
    ⊎ (¬ ((sleeper.state ≡ sleeping) × (sleeper.chan ≡ ticks_addr) × (myproc 0 kernel ≢ some 1))
        × (proc_at (wakeup 0 ticks_addr kernel) 1 ≡ some sleeper))
wakeup_lem_example = wakeup_lem 0 ticks_addr kernel 1 refl

-- The tick counter has wrapped round since the process became ready.
curr_pri_lem_example :
    curr_pri ((2 ^ 32 + 50) % u32_mod) (fields 5000 (2 ^ 32 - 50))
    ≡ 5000 - (2 ^ 32 + 50 - (2 ^ 32 - 50)) * aging_rate
curr_pri_lem_example =
    curr_pri_lem (2 ^ 32 + 50) (2 ^ 32 - 50) (fields 5000 (2 ^ 32 - 50)) (omega arith) (omega arith)
      (omega arith) (omega arith)

curr_pri-overflow_example : priority_max < curr_pri (300000000 % u32_mod) (fields 5000 7)
curr_pri-overflow_example =
    curr_pri-overflow 300000000 7 (fields 5000 7) (omega arith) (omega arith) (omega arith)
      (omega arith)

-- init sleeps, its child runs, and the child has a child.
abbrev generations : Kernel Sched Unit ℕ
generations =
    kernel_of
      (process sleeping 1 none (fields 0 0)
        ∷ process running 2 (some 0) (fields 0 0)
        ∷ process sleeping 3 (some 1) (fields 0 0)
        ∷ [])
      (record { proc = some 1; queue = tt } ∷ [])

reparent-parents_example :
    parents (reparent (wakeup 0) 1 generations)
    ≡ map (redirect generations.initproc 1) (parents generations)
reparent-parents_example = reparent-parents (wakeup 0) (wakeup-family 0) 1 generations

kexit_lem_example :
    (l : Kernel Sched Unit ℕ) × (z : Proc Sched) × (kexit
        (wakeup 0)
        services
        only_own_lock
        1
        5
        generations
      ≡ done l)
    × (proc_at l 1 ≡ some z)
    × (z.state ≡ zombie)
    × (z.xstate ≡ 5)
    × (z.etime ≡ 100)
    × (z.ofile ≡ 0 ∷ 0 ∷ [])
    × (z.parent ≡ some 0)
    × (parents l ≡ map (redirect generations.initproc 1) (parents generations))
kexit_lem_example =
    kexit_lem (wakeup 0) (wakeup-family 0) (wakeup-running 0) services 1 5 generations
      (process running 2 (some 0) (fields 0 0)) refl refl refl refl

-- Slot 1 has the effective priority 0 at the tick 1200, as slot 0 has; slot 2 has not.
abbrev waiting_kernel : Kernel Sched Unit ℕ
waiting_kernel =
    record (kernel_of
      (process runnable 1 none (fields 5000 0)
        ∷ process runnable 2 (some 0) (fields 5000 90)
        ∷ process runnable 3 (some 0) (fields 1000 1190)
        ∷ [])
      (record { proc = none; queue = tt } ∷ record { proc = none; queue = tt } ∷ [])) {
        ticks = 1200;
      }

-- The CPU 0 switches to the process in slot 0,
abbrev first_switch : Kernel Sched Unit ℕ
first_switch = (schedule 0 waiting_kernel).0

-- which yields within a tick,
abbrev first_turn : Kernel Sched Unit ℕ
first_turn = record (reached first_switch (yield only_own_lock 0 first_switch)) { ticks = 1201 }
  where
    reached : Kernel Sched Unit ℕ → Outcome (Kernel Sched Unit ℕ) → Kernel Sched Unit ℕ
    reached k (done l) = l
    reached k panic = k

-- and then to that in slot 1.
abbrev second_switch : Kernel Sched Unit ℕ
second_switch = (schedule 0 (clear_running 0 first_turn)).0

first_chosen_slot : schedule 0 waiting_kernel ≡ (first_switch, some 0)
unfolding schedule select scan_from start visit curr_pri
first_chosen_slot = refl

second_chosen_slot : schedule 0 (clear_running 0 first_turn) ≡ (second_switch, some 1)
unfolding schedule select scan_from start visit curr_pri yield sched clear_running
second_chosen_slot = refl

first_turn-Calm : Calm 1 first_switch first_turn
unfolding schedule select scan_from start visit curr_pri yield sched
first_turn-Calm = record { waiting = λ p e u. (_, refl, refl); others = others }
  where
    others :
        (x : ℕ) (q : Proc Sched)
        → x < 1
        → proc_at first_turn x ≡ some q
        → urgent first_turn.ticks q ≡ true
        → (p : Proc Sched) × (proc_at first_switch x ≡ some p)
          × (urgent first_switch.ticks p ≡ true)
    others zero q lt e v = absurd (cc (ap (urgent 1201) (some-injective _ _ e), v))
    others (suc x) q lt e v = absurd (omega arith)

second_turn-Calm : Calm 1 second_switch second_switch
second_turn-Calm = record { waiting = λ p e u. (p, e, u); others = λ x q lt e u. (q, e, u) }

Rounds-aged_example : Mem {A = ℕ} 1 (0 ∷ 1 ∷ [])
Rounds-aged_example =
    Rounds-aged 0 1 1200 90
      (runs 0 first_chosen_slot first_turn-Calm (runs 1 second_chosen_slot second_turn-Calm stops))
      refl refl (omega arith) refl refl (omega arith) (omega arith) (omega arith)
