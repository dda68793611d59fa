-- ===== src/Process/Alloc.antt =====
-- allocpid, allocproc, freeproc, proc_pagetable and proc_freepagetable of proc.c. `init_sched` is
-- what a scheduler's allocproc stores into its own fields, with the ticks at that time.
use os_project_files.Base.{
  add32, ℕ, ◌+◌, Option, none, some, List, [], ◌∷◌, ◌==◌, replicate, if◌then◌else◌, is_negative,
}
use os_project_files.Kernel.{
  unused, used, state_eq, null, Context, Proc, Kernel, Ext, at, proc_at, set_world,
}

module _ {F Q W : Type 0} where
  -- allocpid()
  unfoldable pub allocpid : Kernel F Q W → ℕ × Kernel F Q W
  allocpid k = (k.nextpid, record k { nextpid = add32 k.nextpid 1 })

module _ {F : Type 0} where
  -- The scan of allocproc for a slot that is UNUSED.
  unfoldable pub find_unused : List (Proc F) → ℕ → Option ℕ
  find_unused [] i = none
  find_unused (p ∷ ps) i = if state_eq p.state unused then some i else find_unused ps (i + 1)

  -- The stores of allocproc that name the new process and set its counters.
  unfoldable pub claim : ℕ → ℕ → (ℕ → F → F) → Proc F → Proc F
  claim pid ticks init_sched p = record p {
    pid = pid;
    state = used;
    ctime = ticks;
    rtime = 0;
    etime = 0;
    nswtch = 0;
    sched = init_sched ticks p.sched;
  }

module _ {W : Type 0} (ext : Ext W) where
  -- proc_pagetable(p), from p->trapframe.
  unfoldable pub proc_pagetable : ℕ → W → ℕ × W
  proc_pagetable trapframe w =
      let (pagetable, w1) = ext.uvmcreate w in
      if pagetable == 0
      then (0, w1)
      else let (e1, w2) =
          ext.mappages pagetable ext.trampoline_va ext.page_size ext.trampoline_code ext.perm_rx
            w1 in
        if is_negative e1
        then (0, ext.uvmfree pagetable 0 w2)
        else let (e2, w3) =
            ext.mappages pagetable ext.trapframe_va ext.page_size trapframe ext.perm_rw w2 in
          if is_negative e2
          then (0, ext.uvmfree pagetable 0 (ext.uvmunmap pagetable ext.trampoline_va 1 0 w3))
          else (pagetable, w3)

  -- proc_freepagetable(pagetable, sz)
  unfoldable pub proc_freepagetable : ℕ → ℕ → W → W
  proc_freepagetable pagetable sz w =
      ext.uvmfree pagetable sz (
        ext.uvmunmap pagetable ext.trapframe_va 1 0
          (ext.uvmunmap pagetable ext.trampoline_va 1 0 w))

  -- What freeproc(p) gives back to the allocator.
  unfoldable pub free_memory : {F : Type 0} → Proc F → W → W
  unfolding proc_freepagetable
  free_memory p w =
      let w1 = if p.trapframe == 0 then w else ext.kfree p.trapframe w in
      if p.pagetable == 0 then w1 else proc_freepagetable p.pagetable p.sz w1

  -- The context that starts the new process at forkret, on its kernel stack.
  unfoldable pub first_context : {F : Type 0} → Proc F → Context
  first_context p = record {
    ra = ext.forkret;
    sp = p.kstack + ext.page_size;
    callee_saved = replicate 12 0;
  }

-- The stores of freeproc(p). `p->name[0] = 0` empties the name.
unfoldable pub clear_proc : {F : Type 0} → Proc F → Proc F
clear_proc p = record p {
  trapframe = 0;
  pagetable = 0;
  sz = 0;
  pid = 0;
  parent = none;
  name = [];
  chan = null;
  killed = 0;
  xstate = 0;
  state = unused;
}

module _ {F Q W : Type 0} (ext : Ext W) where
  -- freeproc(&proc[i])
  unfoldable pub freeproc : ℕ → Kernel F Q W → Kernel F Q W
  freeproc i k = elim (proc_at k i) [
    | none ↦ k
    | some p ↦ at i clear_proc (set_world k (free_memory ext p k.world))
  ]

  -- allocproc() behind `found:`, for the slot `i`.
  unfoldable pub setup : (ℕ → F → F) → ℕ → Kernel F Q W → Kernel F Q W × Option ℕ
  unfolding allocpid
  setup init_sched i k =
      let (pid, k1) = allocpid k in
      let k2 = at i (claim pid k1.ticks init_sched) k1 in
      let (page, w1) = ext.kalloc k2.world in
      let k3 = at i (λ p. record p { trapframe = page }) (set_world k2 w1) in
      if page == 0
      then (freeproc i k3, none)
      else let (pagetable, w2) = proc_pagetable ext page k3.world in
        let k4 = at i (λ p. record p { pagetable = pagetable }) (set_world k3 w2) in
        if pagetable == 0
        then (freeproc i k4, none)
        else (at i (λ p. record p { context = first_context ext p }) k4, some i)

  -- allocproc(): the slot of the new process, or `none`.
  unfoldable pub allocproc : (ℕ → F → F) → Kernel F Q W → Kernel F Q W × Option ℕ
  allocproc init_sched k = elim (find_unused k.procs 0) [
    | none ↦ (k, none)
    | some i ↦ setup init_sched i k
  ]
