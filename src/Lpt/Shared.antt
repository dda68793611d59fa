-- ===== src/Lpt/Shared.antt =====
-- lpt/proc.c: the functions that are word for word those of adaptive/proc.c, on this scheduler's
-- processes, and procinit.
use os_project_files.Base.{ℕ, Bool, List, Option}
use os_project_files.Kernel.{ProcState, TrapFrame, Context, Cpu, Proc, Kernel, Ext, Outcome}
use os_project_files.Kernel
use os_project_files.Process.Alloc
use os_project_files.Process.Boot
use os_project_files.Process.Dump
use os_project_files.Process.Dump.{Line}
use os_project_files.Process.Memory
use os_project_files.Process.Sleep
use os_project_files.Trap.{ReturnPath}
use os_project_files.Trap.Forkret
use os_project_files.Process.Sleep.{SwitchEnv}
use os_project_files.Lpt.Batch.{Sched}

-- struct context, struct trapframe and enum procstate of this directory.
abbrev pub StructContext : Type 0
StructContext = Context

abbrev pub StructTrapframe : Type 0
StructTrapframe = TrapFrame

abbrev pub EnumProcstate : Type 0
EnumProcstate = ProcState

-- struct cpu of this directory, which has no fields of its own.
abbrev pub StructCpu : Type 0
StructCpu = Cpu Unit

-- struct proc of this directory.
abbrev pub StructProc : Type 0
StructProc = Proc Sched

module _ {Q W : Type 0} where
  -- myproc()
  unfoldable pub myproc : ℕ → Kernel Sched Q W → Option ℕ
  myproc id k = Kernel.myproc id k

  unfoldable pub allocpid : Kernel Sched Q W → ℕ × Kernel Sched Q W
  allocpid k = Alloc.allocpid k

  unfoldable pub sched : SwitchEnv → ℕ → Kernel Sched Q W → Outcome (Kernel Sched Q W)
  sched env me k = Sleep.sched env me k

  unfoldable pub procdump : Kernel Sched Q W → List Line
  procdump k = Dump.procdump k

  unfoldable pub setkilled : ℕ → Kernel Sched Q W → Kernel Sched Q W
  setkilled i k = Sleep.setkilled i k

  unfoldable pub killed : Kernel Sched Q W → ℕ → ℕ
  killed k i = Sleep.killed k i

  unfoldable pub update_process_times : ℕ → Kernel Sched Q W → Kernel Sched Q W
  unfolding myproc
  update_process_times id k = Sleep.update_process_times (myproc id k) k

  unfoldable pub procinit : (ℕ → ℕ) → Kernel Sched Q W → Kernel Sched Q W
  procinit kstack k = Boot.procinit kstack k

module _ {W : Type 0} (ext : Ext W) where
  unfoldable pub proc_pagetable : StructProc → W → ℕ × W
  proc_pagetable p w = Alloc.proc_pagetable ext p.trapframe w

  unfoldable pub proc_freepagetable : ℕ → ℕ → W → W
  proc_freepagetable pagetable sz w = Alloc.proc_freepagetable ext pagetable sz w

  unfoldable pub growproc : {Q : Type 0} → ℕ → ℕ → Kernel Sched Q W → Kernel Sched Q W × ℕ
  growproc me n k = Memory.growproc ext me n k

  -- proc_mapstacks(kpgtbl), for a table of n processes.
  unfoldable pub proc_mapstacks : (ℕ → ℕ) → (ℕ → ℕ → ℕ → W → W) → ℕ → ℕ → W → Outcome W
  proc_mapstacks kstack kvmmap kpgtbl n w = Boot.proc_mapstacks ext kstack kvmmap kpgtbl n w

module _ {B : Type 0} {Q W : Type 0} where
  unfoldable pub either_copyout :
      (ℕ → ℕ → B → W → ℕ × W)
      → (ℕ → B → W → W)
      → ℕ
      → ℕ
      → ℕ
      → B
      → Kernel Sched Q W
      → Outcome (Kernel Sched Q W × ℕ)
  either_copyout copyout memmove me user_dst dst src k =
      Boot.either_copyout copyout memmove me user_dst dst src k

  unfoldable pub either_copyin :
      (ℕ → ℕ → ℕ → W → ℕ × B) → (ℕ → ℕ → W → B) → ℕ → ℕ → ℕ → ℕ → Kernel Sched Q W → Outcome (ℕ × B)
  either_copyin copyin memmove me user_src src len k =
      Boot.either_copyin copyin memmove me user_src src len k

-- forkret() of the process `me`, to the jump to user space.
unfoldable pub forkret :
    {Q W : Type 0}
    → (W → W)
    → (ℕ → Kernel Sched Q W → Kernel Sched Q W × ℕ)
    → ReturnPath
    → Bool
    → ℕ
    → Kernel Sched Q W
    → Outcome (Kernel Sched Q W × Bool)
forkret fsinit kexec env first me k = Forkret.forkret fsinit kexec env first me k
