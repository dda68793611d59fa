-- ===== src/Kernel.antt =====
-- The data of the kernel: proc.h (struct trapframe, context, cpu, proc) and the globals of proc.c
-- and trap.c, over the fields `F` and the run queue `Q` by which the three schedulers differ, and
-- the state `W` of the code that is not part of this repository (memory, files).
-- Pointers into proc[NPROC] are indices; a null pointer is `none`, or 0 where the code tests for 0.
mod Services
pub use Services.*
use os_project_files.Base.{
  ℕ, ◌+◌, ◌≡◌, Bool, true, false, ◌&&◌, Option, none, some, List, [], ◌∷◌, ◌==◌, get_elem?, modify,
  if◌then◌else◌,
}

-- enum procstate
pub data ProcState : Type 0 where
  unused used sleeping runnable running zombie : ProcState

abbrev pub state_eq : ProcState → ProcState → Bool
state_eq unused unused = true
state_eq used used = true
state_eq sleeping sleeping = true
state_eq runnable runnable = true
state_eq running running = true
state_eq zombie zombie = true
state_eq _ _ = false

-- A `void *chan`: null, &ticks, &proc[i], or an address of another part of the kernel.
pub data Chan : Type 0 where
  null : Chan
  ticks_addr : Chan
  proc_addr : ℕ → Chan
  other_addr : ℕ → Chan

abbrev pub chan_eq : Chan → Chan → Bool
chan_eq null null = true
chan_eq ticks_addr ticks_addr = true
chan_eq (proc_addr i) (proc_addr j) = i == j
chan_eq (other_addr i) (other_addr j) = i == j
chan_eq _ _ = false

-- Two `struct proc *`, compared.
abbrev pub ptr_eq : Option ℕ → Option ℕ → Bool
ptr_eq none none = true
ptr_eq (some i) (some j) = i == j
ptr_eq _ _ = false

-- struct trapframe: what trampoline.S saves and the kernel reads; `saved` is the registers that
-- the modelled code only copies (ra to t2, s0, s1, a6, s2 to t6).
pub record TrapFrame : Type 0 where
  pub kernel_satp : ℕ
  pub kernel_sp : ℕ
  pub kernel_trap : ℕ
  pub epc : ℕ
  pub kernel_hartid : ℕ
  pub a0 : ℕ
  pub a1 : ℕ
  pub a2 : ℕ
  pub a3 : ℕ
  pub a4 : ℕ
  pub a5 : ℕ
  pub a7 : ℕ
  pub saved : List ℕ

-- struct context; `callee_saved` is s0 to s11.
pub record Context : Type 0 where
  pub ra : ℕ
  pub sp : ℕ
  pub callee_saved : List ℕ

-- struct cpu, without context, noff and intena: swtch() ends a definition, and what sched() tests of
-- noff and intena is its argument. `proc` is c->proc, `queue` what only the work-stealing scheduler
-- has.
pub record Cpu (Q : Type 0) : Type 0 where
  pub proc : Option ℕ
  pub queue : Q

-- struct proc, without its lock. `trapframe` is the page's address, `frame` what the page holds.
pub record Proc (F : Type 0) : Type 0 where
  pub state : ProcState
  pub chan : Chan
  pub killed : ℕ
  pub xstate : ℕ
  pub pid : ℕ
  pub parent : Option ℕ
  pub kstack : ℕ
  pub sz : ℕ
  pub pagetable : ℕ
  pub trapframe : ℕ
  pub frame : TrapFrame
  pub context : Context
  pub ofile : List ℕ
  pub cwd : ℕ
  pub name : List ℕ
  pub ctime : ℕ
  pub rtime : ℕ
  pub etime : ℕ
  pub nswtch : ℕ
  pub sched : F

-- The globals cpus, proc, nextpid, ticks, initproc, and the state of the rest of the kernel.
pub record Kernel (F Q W : Type 0) : Type 0 where
  pub procs : List (Proc F)
  pub cpus : List (Cpu Q)
  pub nextpid : ℕ
  pub ticks : ℕ
  pub initproc : Option ℕ
  pub world : W

-- A kernel function that may call panic().
pub data Outcome (A : Type 0) : Type 0 where
  done : A → Outcome A
  panic : Outcome A

module _ {F Q W : Type 0} where
  -- A store through the pointer &proc[i].
  abbrev pub at : ℕ → (Proc F → Proc F) → Kernel F Q W → Kernel F Q W
  at i f k = record k { procs = modify k.procs i f }

  abbrev pub proc_at : Kernel F Q W → ℕ → Option (Proc F)
  proc_at k i = get_elem? k.procs i

  abbrev pub set_world : Kernel F Q W → W → Kernel F Q W
  set_world k w = record k { world = w }

  -- myproc() on the CPU with the given id.
  unfoldable pub myproc : ℕ → Kernel F Q W → Option ℕ
  myproc id k = elim (get_elem? k.cpus id) [ none ↦ none | some c ↦ c.proc ]

  -- c->proc = &proc[i], and c->proc = 0, on the CPU with the given id.
  unfoldable pub set_running : ℕ → ℕ → Kernel F Q W → Kernel F Q W
  set_running id i k = record k { cpus = modify k.cpus id (λ c. record c { proc = some i }) }

  unfoldable pub clear_running : ℕ → Kernel F Q W → Kernel F Q W
  clear_running id k = record k { cpus = modify k.cpus id (λ c. record c { proc = none }) }
