-- ===== src/Syscall/Args.antt =====
-- syscall.c: argraw, argint, argaddr and fetchaddr, for the process whose fields are given.
use os_project_files.Base.{
  ℕ, Option, none, some, ◌||◌, ◌==◌, leb, ltb, to_u32, add64, if◌then◌else◌, minus_one,
}
use os_project_files.Kernel.{TrapFrame, Proc, Ext, Outcome, done, panic}

-- argraw(n)
unfoldable pub argraw : TrapFrame → ℕ → Outcome ℕ
argraw f n =
    if n == 0
    then done f.a0
    else if n == 1
    then done f.a1
    else if n == 2
    then done f.a2
    else if n == 3
    then done f.a3
    else if n == 4
    then done f.a4
    else if n == 5
    then done f.a5
    else panic

-- argint(n, ip): the `int` that is stored.
unfoldable pub argint : TrapFrame → ℕ → Outcome ℕ
unfolding argraw
argint f n = elim (argraw f n) [ panic ↦ panic | done v ↦ done (to_u32 v) ]

-- argaddr(n, ip)
unfoldable pub argaddr : TrapFrame → ℕ → Outcome ℕ
unfolding argraw
argaddr f n = argraw f n

-- fetchaddr(addr, ip): the status, and the word that is stored through ip on success.
unfoldable pub fetchaddr : {F W : Type 0} → Ext W → Proc F → ℕ → W → ℕ × Option ℕ
fetchaddr ext p addr w =
    if leb p.sz addr || ltb p.sz (add64 addr 8)
    then (minus_one, none)
    else let (status, v) = ext.copyin p.pagetable addr w in
      if status == 0 then (0, some v) else (minus_one, none)
