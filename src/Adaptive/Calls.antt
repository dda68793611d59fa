-- ===== src/Adaptive/Calls.antt =====
-- The functions of adaptive/proc.c that use allocproc or wakeup of this scheduler. `id` is cpuid().
use os_project_files.Base.{ℕ, Option}
use os_project_files.Kernel.{Kernel, Ext, Outcome}
use os_project_files.Process.Alloc
use os_project_files.Process.Exit
use os_project_files.Process.Fork
use os_project_files.Process.Kill
use os_project_files.Process.Sleep.{SwitchEnv}
use os_project_files.Adaptive.Scan.{Sched}
use os_project_files.Adaptive.{init_sched, inherit_sched, wakeup}

-- What userinit stores into the scheduling fields.
unfoldable pub start_sched : ℕ → Sched → Sched
start_sched ticks s = record s { age_start = ticks }

module _ {Q W : Type 0} where
  -- Nothing follows the store of RUNNABLE.
  unfoldable pub publish : ℕ → Kernel Sched Q W → Kernel Sched Q W
  publish i k = k

module _ {Q W : Type 0} (ext : Ext W) where
  unfoldable pub allocproc : Kernel Sched Q W → Kernel Sched Q W × Option ℕ
  unfolding init_sched
  allocproc k = Alloc.allocproc ext init_sched k

  unfoldable pub userinit : Kernel Sched Q W → Outcome (Kernel Sched Q W)
  unfolding init_sched start_sched publish
  userinit k = Fork.userinit ext init_sched start_sched publish k

  unfoldable pub kfork : ℕ → Kernel Sched Q W → Kernel Sched Q W × ℕ
  unfolding init_sched inherit_sched publish
  kfork me k = Fork.kfork ext init_sched inherit_sched publish me k

module _ {Q W : Type 0} where
  unfoldable pub reparent : ℕ → ℕ → Kernel Sched Q W → Kernel Sched Q W
  unfolding wakeup
  reparent id me k = Exit.reparent (wakeup id) me k

  unfoldable pub kexit :
      Ext W → SwitchEnv → ℕ → ℕ → ℕ → Kernel Sched Q W → Outcome (Kernel Sched Q W)
  unfolding wakeup
  kexit ext env id me status k = Exit.kexit (wakeup id) ext env me status k

  unfoldable pub kkill : ℕ → Kernel Sched Q W → Kernel Sched Q W × ℕ
  unfolding publish
  kkill pid k = Kill.kkill publish pid k
