-- ===== src/Syscall/Resize.antt =====
-- What sys_sbrk of sysproc.c and growproc of proc.c do to the size of a process, on all branches.
use os_project_files.Base.{
  ℕ, ◌+◌, ◌-◌, ◌^◌, ◌≤◌, ◌<◌, ◌≡◌, ◌≢◌, ◌⊎◌, refl, ap, ◌∙◌, inl, inr, some, Bool, Bool-cases, true,
  false, ◌||◌, ◌==◌, ltb, add64, u32_mod, u64_mod, is_negative, minus_one, minus_one64,
  get_elem?-modify_self, get_elem?-modify_ne, arith,
}
use os_project_files.Kernel.{Proc, Kernel, Ext, at, proc_at, set_world}
use os_project_files.Process.Memory.{growproc}
use os_project_files.Syscall.Calls.{sys_sbrk}

-- The sizes that the page-table code returns: uvmalloc() the new size, or 0 when it fails, and
-- uvmdealloc() a size that is no more than the old one; and TRAPFRAME leaves room for an `int` below
-- 2 ^ 64.
pub record VmSizes {W : Type 0} (ext : Ext W) : Type 0 where
  pub alloc :
      (pagetable old_size new_size perm : ℕ) (w : W)
      → ((ext.uvmalloc pagetable old_size new_size perm w).0 ≡ 0)
        ⊎ ((ext.uvmalloc pagetable old_size new_size perm w).0 ≡ new_size)
  pub dealloc :
      (pagetable old_size new_size : ℕ) (w : W)
      → (ext.uvmdealloc pagetable old_size new_size w).0 ≤ old_size
  pub top : ext.trapframe_va + 2 ^ 31 < u64_mod

up_sum : (sz n : ℕ) → is_negative n ≡ false → sz + 2 ^ 31 < u64_mod → add64 sz n ≡ sz + n
up_sum sz n up room = ground arith

at_most : (top size m : ℕ) → size ≡ m → ltb top m ≡ false → size ≤ top
at_most top size m e near = ground arith

zero_of : (m : ℕ) → (m == 0) ≡ true → m ≡ 0
zero_of m e = ground arith

not_none :
    (size new_size : ℕ) → (size == 0) ≡ false → (size ≡ 0) ⊎ (size ≡ new_size) → size ≡ new_size
not_none size new_size e h = ground arith

module _ {F W : Type 0} (ext : Ext W) where
  -- A new size is within TRAPFRAME, the sum for a growth, and no more than before for a shrinkage.
  pub record Right (n size : ℕ) (p : Proc F) : Type 0 where
    pub within : size ≤ ext.trapframe_va
    pub grown : is_negative n ≡ false → size ≡ p.sz + n
    pub shrunk : is_negative n ≡ true → size ≤ p.sz

module _ {F Q W : Type 0} (ext : Ext W) where
  -- The process `me` has the size, and nothing else in the table has changed.
  pub record Resized (me size : ℕ) (p : Proc F) (k l : Kernel F Q W) : Type 0 where
    pub own : proc_at l me ≡ some (record p { sz = size })
    pub others : (j : ℕ) → me ≢ j → proc_at l j ≡ proc_at k j

  store-Resized :
      (me size : ℕ) (f : Proc F → Proc F) (k : Kernel F Q W) (w : W) {p : Proc F}
      → proc_at k me ≡ some p
      → f p ≡ record p { sz = size }
      → Resized me size p k (at me f (set_world k w))
  store-Resized me size f k w self e = record {
    own = get_elem?-modify_self k.procs me f self ∙ ap some e;
    others = λ j ne. get_elem?-modify_ne k.procs me j f ne;
  }

  -- The call has changed nothing in the table and failed, or has resized the process.
  abbrev pub Outcomes : ℕ → ℕ → Proc F → Kernel F Q W → ℕ → ℕ → Kernel F Q W × ℕ → Type 0
  Outcomes me n p k failure success r =
      ((r.1 ≡ failure) × ((j : ℕ) → proc_at r.0 j ≡ proc_at k j))
      ⊎ ((r.1 ≡ success) × (size : ℕ) × Right ext n size p × Resized me size p k r.0)

  module _ (vm : VmSizes ext) (me n : ℕ) (k : Kernel F Q W) {p : Proc F}
      (self : proc_at k me ≡ some p) (fits : p.sz ≤ ext.trapframe_va) where
    stays : is_negative n ≡ false → (n == 0) ≡ true → Right ext n p.sz p
    stays up zero = record {
      within = fits;
      grown = λ u. omega (arith, zero_of n zero);
      shrunk = λ d. cc;
    }

    -- A growth that stays within TRAPFRAME.
    bigger :
        (size : ℕ)
        → is_negative n ≡ false
        → ltb ext.trapframe_va (add64 p.sz n) ≡ false
        → size ≡ add64 p.sz n
        → Right ext n size p
    bigger size up near exact = record {
      within = at_most _ size _ exact near;
      grown = λ u. exact ∙ up_sum p.sz n up (omega (arith, fits, vm.top));
      shrunk = λ d. cc;
    }

    pub growproc-Outcomes : Outcomes me n p k minus_one 0 (growproc ext me n k)
    unfolding growproc
    growproc-Outcomes = elim (Bool-cases (is_negative n)) [
      | inl down ↦
          let size =
            (ext.uvmdealloc p.pagetable p.sz (add64 p.sz (n + (u64_mod - u32_mod))) k.world).0 in
          let le = vm.dealloc p.pagetable p.sz (add64 p.sz (n + (u64_mod - u32_mod))) k.world in
          rw (self, growproc)
            (rw down (
              inr (
                refl,
                size,
                record { within = omega (arith, fits, le); grown = λ up. cc; shrunk = λ d. le },
                store-Resized me size _ k _ self refl,
              )))
      | inr up ↦ elim (Bool-cases (n == 0)) [
        | inl zero ↦
            rw (self, growproc)
              (rw (up, zero)
                (inr (refl, p.sz, stays up zero, store-Resized me p.sz _ k k.world self refl)))
        | inr some_bytes ↦ elim (Bool-cases (ltb ext.trapframe_va (add64 p.sz n))) [
          | inl far ↦ rw (self, growproc) (rw (up, some_bytes) (rw far (inl (refl, λ j. refl))))
          | inr near ↦
              let size = (ext.uvmalloc p.pagetable p.sz (add64 p.sz n) ext.perm_w k.world).0 in
              elim (Bool-cases (size == 0)) [
                | inl full ↦
                    rw (self, growproc)
                      (rw (up, some_bytes) (rw near (rw full (inl (refl, λ j. refl)))))
                | inr room ↦
                    let exact = not_none size _ room (vm.alloc p.pagetable p.sz _ _ k.world) in
                    rw (self, growproc)
                      (rw (up, some_bytes)
                        (rw near (
                          rw room (
                            inr (
                              refl,
                              size,
                              bigger size up near exact,
                              store-Resized me size _ k _ self refl,
                            )))))
              ]
        ]
      ]
    ]

    -- A lazy growth.
    lazy-Outcomes :
        (eager t : ℕ)
        → (t == eager) ≡ false
        → is_negative n ≡ false
        → Outcomes me n p k minus_one64 p.sz (sys_sbrk ext eager me n t k)
    unfolding sys_sbrk
    lazy-Outcomes eager t lazy up =
        let sum = up_sum p.sz n up (omega (arith, fits, vm.top)) in
        elim (Bool-cases (ltb (add64 p.sz n) p.sz)) [
          | inl wraps ↦ rw (self, sys_sbrk) (rw (lazy, up) (rw wraps (inl (refl, λ j. refl))))
          | inr more ↦ elim (Bool-cases (ltb ext.trapframe_va (add64 p.sz n))) [
            | inl far ↦
                rw (self, sys_sbrk) (rw (lazy, up) (rw more (rw far (inl (refl, λ j. refl)))))
            | inr near ↦
                rw (self, sys_sbrk)
                  (rw (lazy, up)
                    (rw more (
                      rw near (
                        inr (
                          refl,
                          add64 p.sz n,
                          bigger _ up near refl,
                          store-Resized me _ _ k k.world self refl,
                        )))))
          ]
        ]

    -- An eager call, or a shrinkage.
    eager-Outcomes :
        (eager t : ℕ)
        → (t == eager || is_negative n) ≡ true
        → Outcomes me n p k minus_one64 p.sz (sys_sbrk ext eager me n t k)
    unfolding sys_sbrk
    eager-Outcomes eager t now = elim growproc-Outcomes [
      | inl (failed, same) ↦ rw (self, sys_sbrk) (rw now (rw failed (inl (refl, same))))
      | inr (good, size, right, resized) ↦
          rw (self, sys_sbrk) (rw now (rw good (inr (refl, size, right, resized))))
    ]

    -- With sizes that the page-table code returns as documented, and a process whose size is within
    -- TRAPFRAME, sys_sbrk of an `int` n, eager or lazy, either returns -1 and leaves the table as it
    -- was; or it returns the old size, and the process has a size within TRAPFRAME, which is the sum
    -- of the old one and n if n is not negative, and no more than the old one if n is negative, and
    -- nothing else in the table has changed.
    pub sys_sbrk-Outcomes :
        (eager t : ℕ) → Outcomes me n p k minus_one64 p.sz (sys_sbrk ext eager me n t k)
    sys_sbrk-Outcomes eager t = elim (Bool-cases (t == eager || is_negative n)) [
      | inl now ↦ eager-Outcomes eager t now
      | inr later ↦ let (lazy, up) = both _ _ later in lazy-Outcomes eager t lazy up
    ]
      where
        both : (a b : Bool) → (a || b) ≡ false → (a ≡ false) × (b ≡ false)
        both a b e = ground arith
