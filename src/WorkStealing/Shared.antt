-- ===== src/WorkStealing/Shared.antt =====
-- work stealing/proc.c: the functions that are word for word those of adaptive/proc.c, on this scheduler's
-- processes, and procinit.
use os_project_files.Base.{ℕ, Bool, List, Option, map}
use os_project_files.Kernel.{ProcState, TrapFrame, Context, Cpu, Proc, Kernel, Ext, Outcome}
use os_project_files.Kernel
use os_project_files.Process.Alloc
use os_project_files.Process.Boot
use os_project_files.Process.Dump
use os_project_files.Process.Dump.{Line}
use os_project_files.Process.Memory
use os_project_files.Process.Sleep
use os_project_files.Trap.{ReturnPath}
use os_project_files.Trap.Forkret
use os_project_files.Process.Sleep.{SwitchEnv}
use os_project_files.WorkStealing.Deque.{Deque}
use os_project_files.WorkStealing.{Sched}

-- struct context, struct trapframe and enum procstate of this directory.
abbrev pub StructContext : Type 0
StructContext = Context

abbrev pub StructTrapframe : Type 0
StructTrapframe = TrapFrame

abbrev pub EnumProcstate : Type 0
EnumProcstate = ProcState

-- struct proc of this directory.
abbrev pub StructProc : Type 0
StructProc = Proc Sched

-- struct cpu of this directory.
abbrev pub StructCpu : Type 0
StructCpu = Cpu Deque

-- The stores of procinit() into a CPU's ring.
unfoldable pub clear_ring : StructCpu → StructCpu
clear_ring c = record c { queue = record q { front = 0; rear = 0 } }
  where
    open c use {queue as q}

module _ {W : Type 0} where
  -- myproc()
  unfoldable pub myproc : ℕ → Kernel Sched Deque W → Option ℕ
  myproc id k = Kernel.myproc id k

  unfoldable pub allocpid : Kernel Sched Deque W → ℕ × Kernel Sched Deque W
  allocpid k = Alloc.allocpid k

  unfoldable pub sched : SwitchEnv → ℕ → Kernel Sched Deque W → Outcome (Kernel Sched Deque W)
  sched env me k = Sleep.sched env me k

  unfoldable pub procdump : Kernel Sched Deque W → List Line
  procdump k = Dump.procdump k

  unfoldable pub setkilled : ℕ → Kernel Sched Deque W → Kernel Sched Deque W
  setkilled i k = Sleep.setkilled i k

  unfoldable pub killed : Kernel Sched Deque W → ℕ → ℕ
  killed k i = Sleep.killed k i

  unfoldable pub update_process_times : ℕ → Kernel Sched Deque W → Kernel Sched Deque W
  unfolding myproc
  update_process_times id k = Sleep.update_process_times (myproc id k) k

  -- procinit(), with the loop over cpus[] that empties the rings.
  unfoldable pub procinit : (ℕ → ℕ) → Kernel Sched Deque W → Kernel Sched Deque W
  procinit kstack k = let k1 = Boot.procinit kstack k in record k1 { cpus = map clear_ring k1.cpus }

module _ {W : Type 0} (ext : Ext W) where
  unfoldable pub proc_pagetable : StructProc → W → ℕ × W
  proc_pagetable p w = Alloc.proc_pagetable ext p.trapframe w

  unfoldable pub proc_freepagetable : ℕ → ℕ → W → W
  proc_freepagetable pagetable sz w = Alloc.proc_freepagetable ext pagetable sz w

  unfoldable pub growproc : ℕ → ℕ → Kernel Sched Deque W → Kernel Sched Deque W × ℕ
  growproc me n k = Memory.growproc ext me n k

  -- proc_mapstacks(kpgtbl), for a table of n processes.
  unfoldable pub proc_mapstacks : (ℕ → ℕ) → (ℕ → ℕ → ℕ → W → W) → ℕ → ℕ → W → Outcome W
  proc_mapstacks kstack kvmmap kpgtbl n w = Boot.proc_mapstacks ext kstack kvmmap kpgtbl n w

module _ {B : Type 0} {W : Type 0} where
  unfoldable pub either_copyout :
      (ℕ → ℕ → B → W → ℕ × W)
      → (ℕ → B → W → W)
      → ℕ
      → ℕ
      → ℕ
      → B
      → Kernel Sched Deque W
      → Outcome (Kernel Sched Deque W × ℕ)
  either_copyout copyout memmove me user_dst dst src k =
      Boot.either_copyout copyout memmove me user_dst dst src k

  unfoldable pub either_copyin :
      (ℕ → ℕ → ℕ → W → ℕ × B)
      → (ℕ → ℕ → W → B)
      → ℕ
      → ℕ
      → ℕ
      → ℕ
      → Kernel Sched Deque W
      → Outcome (ℕ × B)
  either_copyin copyin memmove me user_src src len k =
      Boot.either_copyin copyin memmove me user_src src len k

-- forkret() of the process `me`, to the jump to user space.
unfoldable pub forkret :
    {W : Type 0}
    → (W → W)
    → (ℕ → Kernel Sched Deque W → Kernel Sched Deque W × ℕ)
    → ReturnPath
    → Bool
    → ℕ
    → Kernel Sched Deque W
    → Outcome (Kernel Sched Deque W × Bool)
forkret fsinit kexec env first me k = Forkret.forkret fsinit kexec env first me k
