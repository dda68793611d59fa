-- ===== src/Syscall/Calls.antt =====
-- sysproc.c
use os_project_files.Base.{
  ℕ, none, some, not, ◌||◌, ◌==◌, ltb, add64, sub32, if◌then◌else◌, is_negative, sign_extend,
  minus_one, minus_one64,
}
use os_project_files.Kernel.{Kernel, Ext, at, proc_at}
use os_project_files.Process.Memory.{growproc}
use os_project_files.Process.Sleep.{killed}
use os_project_files.Process.Wait.{Waited, returned, must_sleep}

module _ {F Q W : Type 0} (ext : Ext W) where
  -- sys_sbrk() of the process `me` with its two arguments; `eager` is SBRK_EAGER of vm.h.
  unfoldable pub sys_sbrk : ℕ → ℕ → ℕ → ℕ → Kernel F Q W → Kernel F Q W × ℕ
  sys_sbrk eager me n t k = elim (proc_at k me) [
    | none ↦ (k, minus_one64)
    | some p ↦
        let addr = p.sz in
        let to = add64 addr (sign_extend n) in
        if t == eager || is_negative n
        then (let (k1, status) = growproc ext me n k in
            if is_negative status then (k1, minus_one64) else (k1, addr))
        else if ltb to addr
        then (k, minus_one64)
        else if ltb ext.trapframe_va to
        then (k, minus_one64)
        else (at me (λ q. record q { sz = add64 q.sz (sign_extend n) }) k, addr)
  ]

-- The argument of sys_pause(), a negative one taken as 0.
unfoldable pub pause_ticks : ℕ → ℕ
pause_ticks n = if is_negative n then 0 else n

module _ {F Q W : Type 0} where
  -- One pass of the loop of sys_pause().
  unfoldable pub pause_pass : ℕ → ℕ → ℕ → Kernel F Q W → Kernel F Q W × Waited
  pause_pass me n ticks0 k =
      if ltb (sub32 k.ticks ticks0) n
      then (if not (killed k me == 0) then (k, returned minus_one) else (k, must_sleep))
      else (k, returned 0)

  -- sys_uptime()
  unfoldable pub sys_uptime : Kernel F Q W → ℕ
  sys_uptime k = k.ticks
