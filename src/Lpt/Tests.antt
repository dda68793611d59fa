-- ===== src/Lpt/Tests.antt =====
-- Rounds of the LPT scheduler on concrete tables.
use os_project_files.Base.{ℕ, ◌≡◌, refl, none, some, List, [], ◌∷◌, arith}
use os_project_files.Kernel.{sleeping, runnable, Proc, Kernel}
use os_project_files.Samples.{process, kernel_of}
use os_project_files.Lpt.Batch.{Sched, sort, group, collect, key}
use os_project_files.Lpt.Sort.{group_lem}
use os_project_files.Lpt.Round.{Planned, plan-Planned, schedule-Planned}
use os_project_files.Lpt.{plan, schedule}

abbrev ran_for : ℕ → Proc Sched → Proc Sched
ran_for n p = record p { rtime = n }

abbrev kernel : Kernel Sched Unit ℕ
kernel =
    kernel_of
      (ran_for 3 (process runnable 1 none (record { est_time = 0 }))
        ∷ ran_for 8 (process runnable 2 (some 0) (record { est_time = 0 }))
        ∷ ran_for 9 (process sleeping 3 (some 0) (record { est_time = 0 }))
        ∷ ran_for 5 (process runnable 4 (some 0) (record { est_time = 0 }))
        ∷ [])
      (record { proc = none; queue = tt } ∷ [])

abbrev batch : List ℕ
batch = 4 ∷ 9 ∷ 2 ∷ 9 ∷ []

plan-order : (plan 2 kernel).1 ≡ 1 ∷ 3 ∷ 0 ∷ []
unfolding plan group sort collect key
plan-order = refl

group_lem_example : group 3 4 batch ≡ batch
group_lem_example = group_lem 3 4 batch (omega arith) (omega arith)

plan-Planned_example : Planned kernel (plan 2 kernel).0.procs (plan 2 kernel).1
plan-Planned_example = plan-Planned kernel 2 (omega arith)

schedule-Planned_example : Planned kernel (plan 2 kernel).0.procs (schedule 0 2 (λ i k. k) kernel).1
schedule-Planned_example = schedule-Planned kernel 0 2 (λ i k. k) (omega arith) (λ i j l ne. refl)
