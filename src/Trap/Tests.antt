-- ===== src/Trap/Tests.antt =====
-- A timer interrupt on a concrete kernel.
use os_project_files.Base.{ℕ, ◌≡◌, ◌≢◌, ◌⊎◌, refl, none, some, [], ◌∷◌, false, add32, add64}
use os_project_files.Kernel.{unused, running, runnable, Proc, Kernel, done, proc_at}
use os_project_files.Samples.{process, kernel_of, frame_of, services}
use os_project_files.Process.Fork.{kfork}
use os_project_files.Syscall.Handlers.{sys_fork}
use os_project_files.Syscall.Calls.{sys_uptime}
use os_project_files.Syscall.Table.{Sys, number, syscall}
use os_project_files.Trap.Ecall.{ecall, Only, Answer, Left, usertrap-ecall}
use os_project_files.Trap.ForkCall.{ForkFailed, ForkedTwice, usertrap-fork}
use os_project_files.Process.Sleep.{only_own_lock}
use os_project_files.Adaptive.Scan.{Sched}
use os_project_files.Adaptive.{init_sched, inherit_sched, wakeup, yield}
use os_project_files.Trap.{Devices, ReturnPath, timer_cause, usertrap, switched, switch, resumed}
use os_project_files.Trap.Timer.{usertrap_timer, next_ticks}

abbrev no_devices : Devices ℕ
no_devices = record {
  uart0_irq = 10;
  virtio0_irq = 1;
  plic_claim = λ w. (0, w);
  plic_complete = λ irq w. w;
  uartintr = λ w. w;
  virtio_disk_intr = λ w. w;
  vmfault = λ pagetable va read w. (0, w);
}

abbrev return_path : ReturnPath
return_path = record { satp = 1; page_size = 4096; usertrap_addr = 700; tp = 0 }

abbrev caller : Proc Sched
caller =
    process running 1 none
      (record { estimated_runtime = 5000; priority = 300; age_start = 20; affinity_cpu = 0 })

abbrev kernel : Kernel Sched Unit ℕ
kernel = kernel_of (caller ∷ []) (record { proc = some 0; queue = tt } ∷ [])

usertrap_timer_example :
    (l : Kernel Sched Unit ℕ) × (q : Proc Sched) × (usertrap no_devices
        (wakeup 0)
        (λ status k. done k)
        (yield only_own_lock)
        (λ k. k)
        return_path
        0
        0
        (record { scause = timer_cause; sepc = 64; stval = 0; from_supervisor = false })
        kernel
      ≡ switched l)
    × (proc_at l 0 ≡ some q)
    × (q.state ≡ runnable)
    × (q.rtime ≡ add32 caller.rtime 1)
    × (q.nswtch ≡ add32 caller.nswtch 1)
    × (q.sched.priority ≡ caller.sched.estimated_runtime)
    × (q.sched.age_start ≡ next_ticks 0 kernel.ticks)
    × (q.frame.epc ≡ 64)
    × (l.ticks ≡ next_ticks 0 kernel.ticks)
usertrap_timer_example =
    usertrap_timer no_devices (λ status k. done k) return_path 0 0 (λ k. k) 64 0 kernel refl refl
      refl

-- A process that makes the system call with the number, beside a free slot.
abbrev calls : ℕ → Proc Sched
calls a7 = record caller { frame = frame_of a7 }

abbrev calling : ℕ → Kernel Sched Unit ℕ
calling a7 =
    kernel_of (calls a7 ∷ process unused 0 none caller.sched ∷ [])
      (record { proc = some 0; queue = tt } ∷ [])

-- A table in which every call is fork.
abbrev only_fork : Sys → Kernel Sched Unit ℕ → Kernel Sched Unit ℕ × ℕ
only_fork s k = sys_fork (kfork services init_sched inherit_sched (λ i k. k) 0) k

-- A table in which every call is uptime.
abbrev only_uptime : Sys → Kernel Sched Unit ℕ → Kernel Sched Unit ℕ × ℕ
only_uptime s k = (k, sys_uptime k)

only_uptime-stays :
    (s : Sys) (c : Kernel Sched Unit ℕ) (x : Proc Sched)
    → proc_at c 0 ≡ some x
    → (q : Proc Sched) × (proc_at (only_uptime s c).0 0 ≡ some q)
only_uptime-stays s c x e = (x, e)

usertrap-ecall_example :
    let r =
      usertrap no_devices
        (wakeup 0)
        (λ status k. done k)
        (yield only_own_lock)
        (syscall only_uptime 0)
        return_path
        0
        0
        (ecall 64 0)
        (calling 14) in
    (((calls 14).killed ≢ 0)
      × (c : Kernel Sched Unit ℕ) × Only 0 (calling 14) c
      × (proc_at c 0 ≡ some (record (calls 14) { frame = record ((calls 14).frame) { epc = 64 } }))
      × (r ≡ switch (done c)))
    ⊎ (((calls 14).killed ≡ 0)
        × (c : Kernel Sched Unit ℕ) × Only 0 (calling 14) c
        × (proc_at c 0
            ≡ some (record (calls 14) { frame = record ((calls 14).frame) { epc = add64 64 4 } }))
        × (l : Kernel Sched Unit ℕ) × (v : ℕ) × (q : Proc Sched) × Answer only_uptime 14 c l v
        × (proc_at l 0 ≡ some q)
        × Left (λ status k. done k) return_path 0 v q l r)
usertrap-ecall_example =
    usertrap-ecall no_devices (wakeup 0) (λ status k. done k) (yield only_own_lock) return_path 0 0
      only_uptime 64 0 (calling 14) only_uptime-stays refl

usertrap-fork_example :
    (l : Kernel Sched Unit ℕ) × (usertrap no_devices
        (wakeup 0)
        (λ status k. done k)
        (yield only_own_lock)
        (syscall only_fork 0)
        return_path
        0
        0
        (ecall 64 0)
        (calling 1)
      ≡ resumed l)
    × (ForkFailed 0 64 (calling 1) l ⊎ ((i : ℕ) × ForkedTwice 0 64 i (calls 1) (calling 1) l))
unfolding number
usertrap-fork_example =
    usertrap-fork no_devices (wakeup 0) (λ status k. done k) (yield only_own_lock) return_path 0 0
      only_fork services init_sched inherit_sched (λ i k. k) (λ i k. refl) (λ k. refl) 64 0
      (calling 1) refl refl refl refl
