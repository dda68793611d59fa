-- ===== src/Samples.antt =====
-- Concrete kernels for the tests: a small table of processes, and services over a counter. The
-- allocator hands out the numbers from the counter up, and no service fails.
use os_project_files.Base.{ℕ, ◌+◌, min, Option, some, List, [], ◌∷◌}
use os_project_files.Kernel.{ProcState, ticks_addr, TrapFrame, Cpu, Proc, Kernel, Ext}

abbrev pub frame_of : ℕ → TrapFrame
frame_of a7 = record {
  kernel_satp = 0;
  kernel_sp = 0;
  kernel_trap = 0;
  epc = 0;
  kernel_hartid = 0;
  a0 = 0;
  a1 = 0;
  a2 = 0;
  a3 = 0;
  a4 = 0;
  a5 = 0;
  a7 = a7;
  saved = [];
}

-- A process that, if it sleeps, waits for the clock.
abbrev pub process : {F : Type 0} → ProcState → ℕ → Option ℕ → F → Proc F
process state pid parent sched = record {
  state = state;
  chan = ticks_addr;
  killed = 0;
  xstate = 7;
  pid = pid;
  parent = parent;
  kstack = 8192;
  sz = 4096;
  pagetable = 2;
  trapframe = 3;
  frame = frame_of 0;
  context = record { ra = 0; sp = 0; callee_saved = [] };
  ofile = 5 ∷ 0 ∷ [];
  cwd = 1;
  name = 115 ∷ 104 ∷ [];
  ctime = 10;
  rtime = 4;
  etime = 20;
  nswtch = 2;
  sched = sched;
}

abbrev pub kernel_of : {F Q : Type 0} → List (Proc F) → List (Cpu Q) → Kernel F Q ℕ
kernel_of procs cpus = record {
  procs = procs;
  cpus = cpus;
  nextpid = 9;
  ticks = 100;
  initproc = some 0;
  world = 40;
}

abbrev pub services : Ext ℕ
services = record {
  kalloc = λ w. (w, w + 1);
  kfree = λ page w. w;
  uvmcreate = λ w. (w, w + 1);
  mappages = λ pagetable va size pa perm w. (0, w);
  uvmunmap = λ pagetable va npages do_free w. w;
  uvmfree = λ pagetable sz w. w;
  uvmcopy = λ old new sz w. (0, w);
  uvmalloc = λ pagetable old_size new_size perm w. (new_size, w);
  uvmdealloc = λ pagetable old_size new_size w. (min old_size new_size, w);
  copyout = λ pagetable va v w. (0, w);
  copyin = λ pagetable va w. (0, va + 1);
  filedup = λ f w. (f, w);
  fileclose = λ f w. w;
  idup = λ i w. (i, w);
  begin_op = λ w. w;
  end_op = λ w. w;
  iput = λ i w. w;
  namei_root = λ w. (1, w);
  trampoline_va = 1048576;
  trapframe_va = 1044480;
  trampoline_code = 500;
  page_size = 4096;
  perm_rx = 10;
  perm_rw = 6;
  perm_w = 4;
  forkret = 600;
}
