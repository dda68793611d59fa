-- ===== src/Process/Fork.antt =====
-- kfork and userinit of proc.c. The schedulers differ in three places, which are arguments:
-- `init_sched` is allocproc's, `inherit` what kfork stores into the child's scheduling fields, and
-- `publish` what follows the store of RUNNABLE.
use os_project_files.Base.{
  ℕ, Option, none, some, Bool, true, false, List, [], ◌∷◌, ◌==◌, take, if◌then◌else◌, is_negative,
  minus_one,
}
use os_project_files.Kernel.{
  runnable, Proc, Kernel, Ext, Outcome, done, panic, at, proc_at, set_world,
}
use os_project_files.Process.Alloc.{freeproc, allocproc}

-- The loop that duplicates the parent's open files: the child's table and the file layer's state.
unfoldable pub dup_files : {W : Type 0} → Ext W → List ℕ → List ℕ → W → List ℕ × W
dup_files ext [] gs w = (gs, w)
dup_files ext (f ∷ fs) [] w = ([], w)
dup_files ext (f ∷ fs) (g ∷ gs) w =
    let (h, w1) = if f == 0 then (g, w) else ext.filedup f w in
    let (hs, w2) = dup_files ext fs gs w1 in (h ∷ hs, w2)

-- What kfork stores into the child from the parent: size, registers with a0 = 0, files, directory
-- and name.
unfoldable pub copy_parent : {F : Type 0} → Proc F → List ℕ → ℕ → Proc F → Proc F
copy_parent p files cwd np = record np {
  sz = p.sz;
  frame = record f { a0 = 0 };
  ofile = files;
  cwd = cwd;
  name = take 15 p.name;
}
  where
    open p use {frame as f}

module _ {F Q W : Type 0} (ext : Ext W) (init_sched : ℕ → F → F) (inherit : ℕ → F → F → F) where
  -- The stores of kfork() into the new slot i, of which np is what allocproc left; false if the
  -- parent's memory cannot be copied, when the slot is given back.
  unfoldable pub fork_copy : Proc F → ℕ → Proc F → Kernel F Q W → Kernel F Q W × Bool
  unfolding copy_parent
  fork_copy p i np k =
      let (status, w) = ext.uvmcopy p.pagetable np.pagetable p.sz k.world in
      if is_negative status
      then (freeproc ext i (set_world k w), false)
      else let (files, w1) = dup_files ext p.ofile np.ofile w in
        let (cwd, w2) = ext.idup p.cwd w1 in
        let k1 = at i (copy_parent p files cwd) (set_world k w2) in
        (at i (λ c. record c { sched = inherit k1.ticks p.sched c.sched }) k1, true)

  -- kfork() of the process `me` to its first release(&np->lock): the child, which is USED, and its
  -- pid, or none if kfork() returns -1 there.
  unfoldable pub kfork_begin : ℕ → Kernel F Q W → Kernel F Q W × Option (ℕ × ℕ)
  unfolding fork_copy
  kfork_begin me k = elim (proc_at k me) [
    | none ↦ (k, none)
    | some p ↦
        let (k1, slot) = allocproc ext init_sched k in
        elim slot [
          | none ↦ (k1, none)
          | some i ↦ elim (proc_at k1 i) [
            | none ↦ (k1, none)
            | some np ↦
                let (k2, copied) = fork_copy p i np k1 in
                (k2, if copied then some (i, np.pid) else none)
          ]
        ]
  ]

module _ {F Q W : Type 0} where
  -- np->parent = p, under wait_lock.
  unfoldable pub fork_adopt : ℕ → ℕ → Kernel F Q W → Kernel F Q W
  fork_adopt me i k = at i (λ c. record c { parent = some me }) k

  -- The end of kfork(), under np->lock.
  unfoldable pub fork_start : (ℕ → Kernel F Q W → Kernel F Q W) → ℕ → Kernel F Q W → Kernel F Q W
  fork_start publish i k = publish i (at i (λ c. record c { state = runnable }) k)

-- kfork() of the process `me`, with no other CPU between its parts: the child's pid, or -1.
unfoldable pub kfork :
    {F Q W : Type 0}
    → Ext W
    → (ℕ → F → F)
    → (ℕ → F → F → F)
    → (ℕ → Kernel F Q W → Kernel F Q W)
    → ℕ
    → Kernel F Q W
    → Kernel F Q W × ℕ
unfolding kfork_begin fork_adopt fork_start
kfork ext init_sched inherit publish me k =
    let (k1, child) = kfork_begin ext init_sched inherit me k in
    elim child [
      | none ↦ (k1, minus_one)
      | some (i, pid) ↦ (fork_start publish i (fork_adopt me i k1), pid)
    ]

-- userinit(). `start` is what this scheduler stores into its fields; without a slot the kernel
-- would write through a null pointer.
unfoldable pub userinit :
    {F Q W : Type 0}
    → Ext W
    → (ℕ → F → F)
    → (ℕ → F → F)
    → (ℕ → Kernel F Q W → Kernel F Q W)
    → Kernel F Q W
    → Outcome (Kernel F Q W)
userinit ext init_sched start publish k =
    let (k1, slot) = allocproc ext init_sched k in
    elim slot [
      | none ↦ panic
      | some i ↦
          let (cwd, w) = ext.namei_root k1.world in
          let k2 = set_world (record k1 { initproc = some i }) w in
          let k3 =
            at i (λ p. record p { cwd = cwd; sched = start k2.ticks p.sched; state = runnable })
              k2 in
          done (publish i k3)
    ]
