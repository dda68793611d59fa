-- ===== src/Kernel/Services.antt =====
-- What the process code calls and this repository does not hold: the page allocator and the page
-- tables (kalloc.c, vm.c), open files and inodes (file.c, fs.c), and the constants of the headers
-- memlayout.h, riscv.h and param.h. A client is given a value of `Ext`; nothing is assumed of it
-- but what a theorem names as a hypothesis.
use os_project_files.Base.{ℕ}

pub record Ext (W : Type 0) : Type 0 where
  -- kalloc() is 0 when no page is free.
  pub kalloc : W → ℕ × W
  pub kfree : ℕ → W → W
  -- uvmcreate() is 0 when no page is free.
  pub uvmcreate : W → ℕ × W
  -- mappages(pagetable, va, size, pa, perm) is negative on failure.
  pub mappages : ℕ → ℕ → ℕ → ℕ → ℕ → W → ℕ × W
  -- uvmunmap(pagetable, va, npages, do_free)
  pub uvmunmap : ℕ → ℕ → ℕ → ℕ → W → W
  pub uvmfree : ℕ → ℕ → W → W
  -- uvmcopy(old, new, sz) is negative on failure.
  pub uvmcopy : ℕ → ℕ → ℕ → W → ℕ × W
  -- uvmalloc(pagetable, oldsz, newsz, xperm) is 0 on failure.
  pub uvmalloc : ℕ → ℕ → ℕ → ℕ → W → ℕ × W
  -- uvmdealloc(pagetable, oldsz, newsz) is the new size.
  pub uvmdealloc : ℕ → ℕ → ℕ → W → ℕ × W
  -- copyout(pagetable, dstva, the `int` copied) is negative on failure.
  pub copyout : ℕ → ℕ → ℕ → W → ℕ × W
  -- copyin(pagetable, srcva) of a `uint64`, with its status: not 0 on failure.
  pub copyin : ℕ → ℕ → W → ℕ × ℕ
  pub filedup : ℕ → W → ℕ × W
  pub fileclose : ℕ → W → W
  pub idup : ℕ → W → ℕ × W
  pub begin_op : W → W
  pub end_op : W → W
  pub iput : ℕ → W → W
  pub namei_root : W → ℕ × W
  pub trampoline_va : ℕ
  pub trapframe_va : ℕ
  pub trampoline_code : ℕ
  pub page_size : ℕ
  pub perm_rx : ℕ
  pub perm_rw : ℕ
  pub perm_w : ℕ
  pub forkret : ℕ
