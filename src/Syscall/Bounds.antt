-- ===== src/Syscall/Bounds.antt =====
-- Which words fetchaddr of syscall.c reads, and what the system calls that move the break allow.
use os_project_files.Base.{
  ℕ, ◌+◌, ◌≤◌, ◌<◌, ◌≡◌, ◌⊎◌, inl, inr, none, some, Bool-cases, true, false, ◌||◌, ◌==◌, leb, ltb,
  add64, u64_mod, if◌then◌else◌, minus_one, arith,
}
use os_project_files.Kernel.{Proc, Ext}
use os_project_files.Syscall.Args.{fetchaddr}

out_of_range :
    (sz addr : ℕ)
    → (leb sz addr || ltb sz (add64 addr 8)) ≡ true
    → addr < u64_mod
    → sz + 8 ≤ u64_mod
    → sz < addr + 8
out_of_range sz addr e a s = ground arith

in_range :
    (sz addr : ℕ)
    → (leb sz addr || ltb sz (add64 addr 8)) ≡ false
    → addr < u64_mod
    → sz + 8 ≤ u64_mod
    → addr + 8 ≤ sz
in_range sz addr e a s = ground arith

-- While the size leaves 8 bytes below 2 ^ 64, fetchaddr reads user memory only for a word that lies
-- wholly below the process's size, for any 64-bit address; a word that does is read, and the
-- result is that of copyin.
pub fetchaddr_lem :
    {F W : Type 0} (ext : Ext W) (p : Proc F) (addr : ℕ) (w : W)
    → addr < u64_mod
    → p.sz + 8 ≤ u64_mod
    → ((addr + 8 ≤ p.sz)
        × (fetchaddr ext p addr w ≡ (
            if (ext.copyin p.pagetable addr w).0 == 0
            then (0, some (ext.copyin p.pagetable addr w).1)
            else (minus_one, none))))
      ⊎ ((p.sz < addr + 8) × (fetchaddr ext p addr w ≡ (minus_one, none)))
unfolding fetchaddr
fetchaddr_lem ext p addr w a s = elim (Bool-cases (leb p.sz addr || ltb p.sz (add64 addr 8))) [
  | inl out ↦ inr (out_of_range p.sz addr out a s, rw out)
  | inr fits ↦ inl (in_range p.sz addr fits a s, rw fits)
]
