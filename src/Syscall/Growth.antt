-- ===== src/Syscall/Growth.antt =====
-- What the lazy growth of sys_sbrk in sysproc.c allows.
use os_project_files.Base.{
  ℕ, ◌+◌, ◌^◌, ◌≤◌, ◌<◌, ◌≡◌, ◌⊎◌, inl, inr, some, Bool-cases, true, false, ◌==◌, ltb, add64,
  u64_mod, is_negative, minus_one64, arith, if◌then◌else◌, ◌∙◌,
}
use os_project_files.Kernel.{Proc, Kernel, Ext, at, proc_at}
use os_project_files.Syscall.Calls.{sys_sbrk}

grows_in_range :
    (sz n top : ℕ)
    → ltb (add64 sz n) sz ≡ false
    → ltb top (add64 sz n) ≡ false
    → sz < u64_mod
    → n < 2 ^ 31
    → (add64 sz n ≡ sz + n) × (sz + n ≤ top)
grows_in_range sz n top a b c d = ground arith

wraps : (sz n top : ℕ) → ltb (add64 sz n) sz ≡ true → sz < u64_mod → top < u64_mod → top < sz + n
wraps sz n top a b c = ground arith

too_far : (sz n top : ℕ) → ltb top (add64 sz n) ≡ true → top < sz + n
too_far sz n top a = ground arith

module _ {F Q W : Type 0} (ext : Ext W) where
  sys_sbrk-eq :
      (eager me n t : ℕ) (k : Kernel F Q W) {p : Proc F}
      → proc_at k me ≡ some p
      → (t == eager) ≡ false
      → is_negative n ≡ false
      → sys_sbrk ext eager me n t k ≡ (
          if ltb (add64 p.sz n) p.sz
          then (k, minus_one64)
          else if ltb ext.trapframe_va (add64 p.sz n)
          then (k, minus_one64)
          else (at me (λ q. record q { sz = add64 q.sz n }) k, p.sz))
  unfolding sys_sbrk
  sys_sbrk-eq eager me n t k self lazy up = rw (self, sys_sbrk) (rw (lazy, up))

  -- A lazy sys_sbrk of n bytes, n not negative, on 64-bit sizes: if the grown size stays within
  -- TRAPFRAME, the process has it and the call returns the old size; otherwise, a wrap-around
  -- included, nothing changes and the call returns -1.
  sys_sbrk_lem :
      (eager me n t : ℕ) (k : Kernel F Q W) {p : Proc F}
      → proc_at k me ≡ some p
      → (t == eager) ≡ false
      → n < 2 ^ 31
      → p.sz < u64_mod
      → ext.trapframe_va < u64_mod
      → ((p.sz + n ≤ ext.trapframe_va)
          × (add64 p.sz n ≡ p.sz + n)
          × (sys_sbrk ext eager me n t k ≡ (at me (λ q. record q { sz = add64 q.sz n }) k, p.sz)))
        ⊎ ((ext.trapframe_va < p.sz + n) × (sys_sbrk ext eager me n t k ≡ (k, minus_one64)))
  sys_sbrk_lem eager me n t k {p} self lazy small s v =
      let eq = sys_sbrk-eq eager me n t k self lazy (ground arith) in
      elim (Bool-cases (ltb (add64 p.sz n) p.sz)) [
        | inl a ↦ inr (wraps p.sz n ext.trapframe_va a s v, eq ∙ rw a)
        | inr a ↦ elim (Bool-cases (ltb ext.trapframe_va (add64 p.sz n))) [
          | inl b ↦ inr (too_far p.sz n ext.trapframe_va b, eq ∙ rw (a, b))
          | inr b ↦
              let (whole, fits) = grows_in_range p.sz n ext.trapframe_va a b s small in
              inl (fits, whole, eq ∙ rw (a, b))
        ]
      ]
