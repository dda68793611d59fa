-- ===== src/Process/Tests.antt =====
-- Calls of the process functions on concrete tables.
use os_project_files.Base.{
  ℕ, ◌≡◌, ◌≢◌, ◌⊎◌, refl, none, some, [], ◌∷◌, true, false, is_negative, minus_one, FirstAt, not,
  ◌&&◌, ◌==◌, NonePasses, first-some, first-none,
}
use os_project_files.Kernel.{unused, sleeping, running, zombie, Proc, Kernel, proc_at}
use os_project_files.Samples.{process, kernel_of, services}
use os_project_files.Process.Alloc.{allocproc}
use os_project_files.Process.Allocation.{allocproc-SetUp, SetUp}
use os_project_files.Process.Fork.{kfork}
use os_project_files.Process.Forking.{kfork_lem, Forked}
use os_project_files.Process.Kill.{kkill}
use os_project_files.Process.Killing.{kkill_lem, kkill-zero, kill_proc}
use os_project_files.Process.Reaping.{Reaped, kwait_pass-reaps, waitx_pass-reaps}
use os_project_files.Process.Slots.{is_unused, is_zombie_child, has_pid}
use os_project_files.Process.Wait.{returned, kwait_pass, waitx_pass}

abbrev init : Proc Unit
init = process running 1 none tt

abbrev child : Proc Unit
child = process sleeping 2 (some 0) tt

abbrev exited_child : Proc Unit
exited_child = process zombie 3 (some 0) tt

abbrev free_slot : Proc Unit
free_slot = process unused 0 none tt

abbrev kernel : Kernel Unit Unit ℕ
kernel = kernel_of (init ∷ child ∷ exited_child ∷ free_slot ∷ []) []

-- The only child has not exited.
abbrev waiting : Kernel Unit Unit ℕ
waiting = kernel_of (init ∷ child ∷ []) []

abbrev keep_going : ℕ → Kernel Unit Unit ℕ → Kernel Unit Unit ℕ
keep_going i k = k

abbrev no_fields : ℕ → Unit {0} → Unit {0}
no_fields ticks s = s

allocproc-SetUp_example :
    ((allocproc services no_fields kernel ≡ (kernel, none)) × NonePasses is_unused kernel.procs)
    ⊎ ((i : ℕ) × (p : Proc Unit) × FirstAt is_unused kernel.procs i
        × (proc_at kernel i ≡ some p)
        × SetUp services no_fields kernel i p (allocproc services no_fields kernel))
allocproc-SetUp_example = allocproc-SetUp services no_fields kernel

exited-FirstAt : FirstAt (is_zombie_child 0) kernel.procs 2
exited-FirstAt = first-some (is_zombie_child 0) kernel.procs 2 refl

none_exited : NonePasses (is_zombie_child 0) waiting.procs
none_exited = first-none (is_zombie_child 0) waiting.procs refl

kwait_pass-reaps_example :
    let r = kwait_pass services 0 64 kernel in
    let failed =
      not (64 == 0)
      && is_negative (services.copyout init.pagetable 64 exited_child.xstate kernel.world).0 in
    ((failed ≡ false) × Reaped services 0 kernel 2 exited_child r)
    ⊎ ((failed ≡ true) × (r.0.procs ≡ kernel.procs) × (r.1 ≡ returned minus_one))
kwait_pass-reaps_example = kwait_pass-reaps services 0 kernel 2 refl refl exited-FirstAt 64

waitx_pass-reaps_example :
    Reaped services 0 kernel 2 exited_child (waitx_pass services 0 64 72 80 kernel)
waitx_pass-reaps_example = waitx_pass-reaps services 0 kernel 2 refl refl exited-FirstAt 64 72 80

kkill_lem_example :
    let (k', status) = kkill keep_going 2 kernel in
    (status ≡ 0)
    × (proc_at k' 1 ≡ some (kill_proc child))
    × ((j : ℕ) → 1 ≢ j → proc_at k' j ≡ proc_at kernel j)
kkill_lem_example =
    kkill_lem keep_going (λ i k. refl) 2 1 kernel (first-some (has_pid 2) kernel.procs 1 refl) refl

kkill-zero_example :
    let (k1, status) = kkill keep_going 0 kernel in
    let (k2, slot) = allocproc services no_fields k1 in
    (status ≡ 0) × (slot ≡ some 3 → (q : Proc Unit) × (proc_at k2 3 ≡ some q) × (q.killed ≡ 1))
kkill-zero_example =
    kkill-zero keep_going (λ i k. refl) services no_fields 3 kernel
      (first-some (has_pid 0) kernel.procs 3 refl) (first-some is_unused kernel.procs 3 refl)

kfork_lem_example :
    Forked no_fields
      (λ ticks parent child. parent)
      0
      init
      kernel
      (kfork services no_fields (λ ticks parent child. parent) keep_going 0 kernel)
kfork_lem_example =
    kfork_lem services no_fields (λ ticks parent child. parent) keep_going (λ i k. refl) 0 kernel
      refl
