-- ===== src/Syscall/Tests.antt =====
-- System calls on concrete arguments.
use os_project_files.Base.{
  ℕ, ◌+◌, ◌<◌, ◌≤◌, ◌≡◌, ◌⊎◌, inr, ◌↔◌, ◌^◌, refl, none, some, [], ◌∷◌, ◌==◌, minus_one64, to_u32,
  minus_one, arith, if◌then◌else◌,
}
use os_project_files.Kernel.{running, Proc, Kernel}
use os_project_files.Samples.{process, kernel_of, services}
use os_project_files.Syscall.Args.{fetchaddr}
use os_project_files.Syscall.Bounds.{fetchaddr_lem}
use os_project_files.Syscall.Dispatch.{find_handler_iff}
use os_project_files.Syscall.Calls.{sys_sbrk}
use os_project_files.Syscall.Resize.{VmSizes, Outcomes, sys_sbrk-Outcomes}
use os_project_files.Syscall.Table.{find_handler, number, waitx}

abbrev caller : Proc Unit
caller = process running 1 none tt

-- The last word of a process of 4096 bytes.
fetchaddr_lem_example :
    ((4088 + 8 ≤ caller.sz)
      × (fetchaddr services caller 4088 40 ≡ (
          if (services.copyin caller.pagetable 4088 40).0 == 0
          then (0, some (services.copyin caller.pagetable 4088 40).1)
          else (minus_one, none))))
    ⊎ ((caller.sz < 4088 + 8) × (fetchaddr services caller 4088 40 ≡ (minus_one, none)))
fetchaddr_lem_example = fetchaddr_lem services caller 4088 40 (omega arith) (omega arith)

-- Bits above the low 32 are ignored.
find_handler_iff_example :
    (find_handler (2 ^ 32 + 22) ≡ some waitx) ↔ (to_u32 (2 ^ 32 + 22) ≡ number waitx)
find_handler_iff_example = find_handler_iff (2 ^ 32 + 22) waitx

abbrev kernel : Kernel Unit Unit ℕ
kernel = kernel_of (caller ∷ []) []

services-VmSizes : VmSizes services
services-VmSizes = record {
  alloc = λ pagetable old_size new_size perm w. inr refl;
  dealloc = λ pagetable old_size new_size w. omega arith;
  top = omega arith;
}

-- 100 bytes more, lazily (the eager kind is 1).
sys_sbrk-Outcomes_example :
    Outcomes services 0 100 caller kernel minus_one64 4096 (sys_sbrk services 1 0 100 2 kernel)
sys_sbrk-Outcomes_example =
    sys_sbrk-Outcomes services services-VmSizes 0 100 kernel refl (omega arith) 1 2
