-- ===== src/System/Tests.antt =====
-- A run of the machine on a concrete table, under the adaptive scheduler.
use os_project_files.Adaptive.Scan.{Sched, curr_pri, visit, select, scan_from, start}
use os_project_files.Adaptive.{schedule}
use os_project_files.Adaptive
use os_project_files.Adaptive.Calls
use os_project_files.Base.{
  ◌*◌, ℕ, zero, suc, ◌<◌, ◌≡◌, ◌≢◌, refl, inl, none, some, get_elem?, [], ◌∷◌, false, arith,
  minus_one,
}
use os_project_files.Kernel.{
  Outcome, done, panic, Cpu, unused, used, runnable, sleeping, running, zombie, proc_addr, Proc,
  Kernel, myproc, proc_at, set_running,
}
use os_project_files.Process.Fork.{kfork_begin, fork_adopt, fork_start, userinit, copy_parent}
use os_project_files.Samples.{process, kernel_of, services}
use os_project_files.System.AdaptiveRun.{adaptive}
use os_project_files.System.Exclusion.{Exclusive, Reach-Exclusive}
use os_project_files.Process.Exit.{kexit}
use os_project_files.Process.Wait.{kwait_pass}
use os_project_files.Process.Sleep.{only_own_lock}
use os_project_files.System.Handshake.{Collects, kexit-Collects}
use os_project_files.System.Parked.{Parked}
use os_project_files.System.Life.{Life, Reach-Life}
use os_project_files.System.Pids.{pid_at, Distinct, Reach-Distinct}
use os_project_files.System.Start.{IsZeroed, procinit-Reach}
use os_project_files.Process.Boot.{init_slot, init_from, procinit}
use os_project_files.Process.Alloc.{
  find_unused, allocproc, setup, allocpid, claim, proc_pagetable, first_context,
}
use os_project_files.System.Policy.{Policy}
use os_project_files.System.Step.{
  Step, Reach, boots, dispatches, forks, adopts, starts_child, later,
}
use os_project_files.System.Step
use os_project_files.System.Views.{mark, mark_of, runs}

abbrev fields : Sched
fields = record {
  estimated_runtime = 5000;
  priority = 5000;
  age_start = 90;
  affinity_cpu = minus_one;
}

-- A RUNNABLE process with the pid 1, a free slot, and an idle CPU.
abbrev ready_kernel : Kernel Sched Unit ℕ
ready_kernel =
    kernel_of (process runnable 1 none fields ∷ process unused 0 none fields ∷ [])
      (record { proc = none; queue = tt } ∷ [])

abbrev finished : {A : Type 0} → A → Outcome A → A
finished d (done a) = a
finished d panic = d

abbrev policy : Policy Sched Unit ℕ
policy = adaptive

-- The CPU 0 runs it,
abbrev busy_kernel : Kernel Sched Unit ℕ
busy_kernel = (schedule 0 ready_kernel).0

-- and it forks: the child is USED,
abbrev forked_kernel : Kernel Sched Unit ℕ
forked_kernel = (kfork_begin services policy.init_sched policy.inherit 0 busy_kernel).0

-- has a parent, and is RUNNABLE.
abbrev adopted_kernel : Kernel Sched Unit ℕ
adopted_kernel = fork_adopt 0 1 forked_kernel

abbrev started_kernel : Kernel Sched Unit ℕ
started_kernel = fork_start (policy.publish 0) 1 adopted_kernel

ready-idle : (id : ℕ) → myproc id ready_kernel ≡ none
unfolding myproc
ready-idle zero = refl
ready-idle (suc id) = refl

ready-still : (i : ℕ) → runs (mark ready_kernel i) ≡ false
ready-still zero = refl
ready-still (suc zero) = refl
ready-still (suc (suc i)) = refl

ready-Exclusive : Exclusive ready_kernel
ready-Exclusive = record {
  held = λ id i e. absurd (cc (e, ready-idle id));
  unique = λ a b i e f. absurd (cc (e, ready-idle a));
  covered = λ i e. absurd (cc (e, ready-still i));
}

ready-Distinct : Distinct ready_kernel
ready-Distinct = record { below = below; apart = apart }
  where
    below : (j : ℕ) → pid_at ready_kernel j < 9
    below zero = omega arith
    below (suc zero) = omega arith
    below (suc (suc j)) = omega arith

    apart :
        (i j : ℕ)
        → i ≢ j
        → pid_at ready_kernel i ≡ pid_at ready_kernel j
        → pid_at ready_kernel i ≡ 0
    apart zero zero ne e = absurd (ne refl)
    apart zero (suc zero) ne e = omega arith
    apart zero (suc (suc j)) ne e = omega arith
    apart (suc zero) j ne e = refl
    apart (suc (suc i)) j ne e = refl

busy-chosen : schedule 0 ready_kernel ≡ (busy_kernel, some 0)
unfolding schedule select scan_from start visit curr_pri
busy-chosen = refl

busy-held : myproc 0 busy_kernel ≡ some 0
unfolding schedule select scan_from start visit curr_pri myproc set_running
busy-held = refl

one_step : Reach policy services ready_kernel 1 busy_kernel
unfolding adaptive
one_step = later Step.start (dispatches 0 0 (_, refl, refl, busy-chosen))

forked-held : myproc 0 forked_kernel ≡ some 0
unfolding schedule select scan_from start visit curr_pri myproc set_running adaptive kfork_begin
    allocproc find_unused setup allocpid claim proc_pagetable first_context
forked-held = refl

adopted-held : myproc 0 adopted_kernel ≡ some 0
unfolding schedule select scan_from start visit curr_pri myproc set_running adaptive kfork_begin
    allocproc find_unused setup allocpid claim proc_pagetable first_context fork_adopt
adopted-held = refl

-- The free slot, and the child that the fork leaves in it.
abbrev child_before : Proc Sched
child_before = process unused 0 none fields

child-before : proc_at busy_kernel 1 ≡ some child_before
unfolding schedule select scan_from start visit curr_pri set_running
child-before = refl

child-forked :
    (q : Proc Sched) × (proc_at forked_kernel 1 ≡ some q) × (q.state ≡ used) × (q.pid ≡ 9)
unfolding schedule select scan_from start visit curr_pri set_running adaptive kfork_begin
    copy_parent allocproc find_unused setup allocpid claim proc_pagetable first_context
    Adaptive.init_sched Adaptive.inherit_sched
child-forked = (_, refl, refl, refl)

child-adopted :
    (q : Proc Sched) × (proc_at adopted_kernel 1 ≡ some q) × (q.state ≡ used) × (q.parent ≡ some 0)
unfolding schedule select scan_from start visit curr_pri set_running adaptive kfork_begin
    copy_parent allocproc find_unused setup allocpid claim proc_pagetable first_context
    Adaptive.init_sched Adaptive.inherit_sched fork_adopt
child-adopted = (_, refl, refl, refl)

three_steps : Reach policy services ready_kernel 3 adopted_kernel
three_steps =
    let (_, at_i, is, _) = child-forked in
    later (later one_step (forks 0 0 busy-held)) (adopts 0 0 1 forked-held at_i is)

four_steps : Reach policy services ready_kernel 4 started_kernel
four_steps =
    let (_, at_i, is, mine) = child-adopted in
    later three_steps (starts_child 0 0 1 adopted-held at_i is mine)

Reach-Exclusive_example : Exclusive started_kernel
Reach-Exclusive_example = Reach-Exclusive policy services ready-Exclusive four_steps

Reach-Distinct_example : Distinct started_kernel
Reach-Distinct_example = Reach-Distinct policy services ready-Distinct (omega arith) four_steps

Reach-Life_example : Life (mark_of child_before) (mark_of child-forked.0)
Reach-Life_example =
    Reach-Life policy services ready-Exclusive one_step (forks 0 0 busy-held) 1 child-before
      child-forked.1

-- A zeroed table, on which init is made and then runs.
abbrev zeroed : Kernel Sched Unit ℕ
zeroed =
    record (kernel_of (process unused 0 none fields ∷ process unused 0 none fields ∷ [])
      (record { proc = none; queue = tt } ∷ [])) { nextpid = 1 }

abbrev kstack : ℕ → ℕ
kstack i = i * 8192

abbrev first_user : Kernel Sched Unit ℕ
first_user =
    finished zeroed
      (userinit services policy.init_sched policy.start (policy.publish 0) (procinit kstack zeroed))

abbrev init_runs : Kernel Sched Unit ℕ
init_runs = (schedule 0 first_user).0

zeroed-IsZeroed : IsZeroed zeroed
unfolding myproc
zeroed-IsZeroed = record { pids = pids; idle = idle; next = refl }
  where
    pids : (j : ℕ) → pid_at zeroed j ≡ 0
    pids zero = refl
    pids (suc zero) = refl
    pids (suc (suc j)) = refl

    idle : (id : ℕ) → myproc id zeroed ≡ none
    idle zero = refl
    idle (suc id) = refl

first_user-made :
    userinit services policy.init_sched policy.start (policy.publish 0) (procinit kstack zeroed)
    ≡ done first_user
unfolding adaptive userinit procinit init_from init_slot allocproc find_unused setup allocpid claim
    proc_pagetable first_context Adaptive.init_sched Calls.start_sched Calls.publish
first_user-made = refl

first_user-chosen : schedule 0 first_user ≡ (init_runs, some 0)
unfolding adaptive userinit procinit init_from init_slot allocproc find_unused setup allocpid claim
    proc_pagetable first_context Adaptive.init_sched Calls.start_sched Calls.publish schedule select
    scan_from start visit curr_pri
first_user-chosen = refl

-- The CPU 0 of it.
first_user-idle : (c : Cpu Unit) × (get_elem? first_user.cpus 0 ≡ some c) × (c.proc ≡ none)
unfolding adaptive userinit procinit init_from init_slot allocproc find_unused setup allocpid claim
    proc_pagetable first_context Adaptive.init_sched Calls.start_sched Calls.publish
first_user-idle = (record { proc = none; queue = tt }, refl, refl)

boot_steps : Reach policy services (procinit kstack zeroed) 2 init_runs
unfolding adaptive
boot_steps =
    let (c, at_id, free) = first_user-idle in
    later (later Step.start (boots 0 first_user-made))
      (dispatches 0 0 (c, at_id, free, first_user-chosen))

procinit-Reach_example : Exclusive init_runs × Distinct init_runs
procinit-Reach_example =
    procinit-Reach policy services kstack zeroed zeroed-IsZeroed (omega arith) boot_steps

-- Init sleeps in wait(), and its child runs on the CPU 0.
abbrev asleep_in_wait : Proc Sched
asleep_in_wait = record (process sleeping 1 none fields) { chan = proc_addr 0 }

abbrev family_kernel : Kernel Sched Unit ℕ
family_kernel =
    kernel_of (asleep_in_wait ∷ process running 2 (some 0) fields ∷ [])
      (record { proc = some 1; queue = tt } ∷ [])

family-Parked : Parked 0 1 0 family_kernel
unfolding myproc
family-Parked = (refl, asleep_in_wait, refl, inl (refl, refl))

kexit-Collects_example :
    (l : Kernel Sched Unit ℕ) × (q : Proc Sched) × (z : Proc Sched) × (kexit
        (Adaptive.wakeup 0)
        services
        only_own_lock
        1
        3
        family_kernel
      ≡ done l)
    × (proc_at l 0 ≡ some q)
    × (q.state ≡ runnable)
    × (proc_at l 1 ≡ some z)
    × (z.state ≡ zombie)
    × (z.xstate ≡ 3)
    × ((m : Kernel Sched Unit ℕ) (x : Proc Sched) (addr : ℕ)
        → proc_at m 0 ≡ some x
        → proc_at m 1 ≡ proc_at l 1
        → Collects services 0 addr x m (kwait_pass services 0 addr m))
kexit-Collects_example =
    kexit-Collects services 0 1 0 3 family_kernel (λ e. omega (arith, e)) refl refl refl refl
      family-Parked
