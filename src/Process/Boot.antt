-- ===== src/Process/Boot.antt =====
-- procinit, proc_mapstacks, either_copyout and either_copyin of proc.c. KSTACK(), kvmmap(),
-- copyout(), copyin() and memmove() are arguments; `B` is the bytes that are copied.
use os_project_files.Base.{ℕ, zero, suc, ◌+◌, none, some, List, [], ◌∷◌, ◌==◌, if◌then◌else◌}
use os_project_files.Kernel.{unused, Proc, Kernel, Ext, Outcome, done, panic, proc_at, set_world}

-- The body of procinit's loop, for the slot of the given index.
unfoldable pub init_slot : {F : Type 0} → (ℕ → ℕ) → ℕ → Proc F → Proc F
init_slot kstack i p = record p { state = unused; kstack = kstack i }

-- The loop, over the slots from proc[i] on.
unfoldable pub init_from : {F : Type 0} → (ℕ → ℕ) → ℕ → List (Proc F) → List (Proc F)
unfolding init_slot
init_from kstack i [] = []
init_from kstack i (p ∷ ps) = init_slot kstack i p ∷ init_from kstack (i + 1) ps

module _ {F Q W : Type 0} where
  -- procinit(), without the locks.
  unfoldable pub procinit : (ℕ → ℕ) → Kernel F Q W → Kernel F Q W
  unfolding init_from
  procinit kstack k = record k { procs = init_from kstack 0 k.procs }

module _ {W : Type 0} (ext : Ext W) (kstack : ℕ → ℕ) (kvmmap : ℕ → ℕ → ℕ → W → W) (kpgtbl : ℕ) where
  -- The loop of proc_mapstacks, from the slot i with n slots left. A page has PGSIZE bytes and is
  -- mapped for reading and writing.
  unfoldable pub map_from : ℕ → ℕ → W → Outcome W
  map_from zero i w = done w
  map_from (suc n) i w =
      let (pa, w1) = ext.kalloc w in
      let rest = map_from n (i + 1) (kvmmap kpgtbl (kstack i) pa w1) in
      if pa == 0 then panic else rest

  -- proc_mapstacks(kpgtbl), for a table of n processes.
  unfoldable pub proc_mapstacks : ℕ → W → Outcome W
  unfolding map_from
  proc_mapstacks n w = map_from n 0 w

module _ {B F Q W : Type 0} where
  -- either_copyout(user_dst, dst, src, len) of the process `me`: the status.
  unfoldable pub either_copyout :
      (ℕ → ℕ → B → W → ℕ × W)
      → (ℕ → B → W → W)
      → ℕ
      → ℕ
      → ℕ
      → B
      → Kernel F Q W
      → Outcome (Kernel F Q W × ℕ)
  either_copyout copyout memmove me user_dst dst src k =
      if user_dst == 0
      then done (set_world k (memmove dst src k.world), 0)
      else elim (proc_at k me) [
        | none ↦ panic
        | some p ↦
            let (status, w) = copyout p.pagetable dst src k.world in done (set_world k w, status)
      ]

  -- either_copyin(dst, user_src, src, len) of the process `me`: the status and what dst holds.
  unfoldable pub either_copyin :
      (ℕ → ℕ → ℕ → W → ℕ × B) → (ℕ → ℕ → W → B) → ℕ → ℕ → ℕ → ℕ → Kernel F Q W → Outcome (ℕ × B)
  either_copyin copyin memmove me user_src src len k =
      if user_src == 0
      then done (0, memmove src len k.world)
      else elim (proc_at k me) [ none ↦ panic | some p ↦ done (copyin p.pagetable src len k.world) ]
