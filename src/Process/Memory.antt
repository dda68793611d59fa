-- ===== src/Process/Memory.antt =====
-- growproc of proc.c.
use os_project_files.Base.{
  ℕ, none, some, not, ◌&&◌, ltb, ◌==◌, add64, if◌then◌else◌, is_negative, sign_extend, minus_one,
}
use os_project_files.Kernel.{Kernel, Ext, at, proc_at, set_world}

module _ {F Q W : Type 0} (ext : Ext W) where
  -- growproc(n) of the process `me`, n an `int`: 0, or -1.
  unfoldable pub growproc : ℕ → ℕ → Kernel F Q W → Kernel F Q W × ℕ
  growproc me n k = elim (proc_at k me) [
    | none ↦ (k, minus_one)
    | some p ↦
        let to = add64 p.sz (sign_extend n) in
        if not (is_negative n) && not (n == 0)
        then (if ltb ext.trapframe_va to
            then (k, minus_one)
            else let (sz, w) = ext.uvmalloc p.pagetable p.sz to ext.perm_w k.world in
              if sz == 0
              then (set_world k w, minus_one)
              else (at me (λ q. record q { sz = sz }) (set_world k w), 0))
        else if is_negative n
        then (let (sz, w) = ext.uvmdealloc p.pagetable p.sz to k.world in
            (at me (λ q. record q { sz = sz }) (set_world k w), 0))
        else (at me (λ q. record q { sz = p.sz }) k, 0)
  ]
