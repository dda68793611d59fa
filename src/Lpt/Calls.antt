-- ===== src/Lpt/Calls.antt =====
-- The functions of lpt/proc.c that use allocproc, wakeup or freeproc. `id` is cpuid().
use os_project_files.Base.{ℕ, Option}
use os_project_files.Kernel.{Chan, Kernel, Ext, Outcome}
use os_project_files.Process.Alloc
use os_project_files.Process.Exit
use os_project_files.Process.Fork
use os_project_files.Process.Kill
use os_project_files.Process.Sleep.{SwitchEnv}
use os_project_files.Process.Sleep
use os_project_files.Process.Wait.{Waited}
use os_project_files.Process.Wait
use os_project_files.Lpt.Batch.{Sched}
use os_project_files.Lpt.{init_sched, wakeup}

-- kfork and userinit store nothing into est_time.
unfoldable pub inherit_sched : ℕ → Sched → Sched → Sched
inherit_sched ticks parent child = child

unfoldable pub start_sched : ℕ → Sched → Sched
start_sched ticks s = s

module _ {Q W : Type 0} where
  -- Nothing follows the store of RUNNABLE.
  unfoldable pub publish : ℕ → Kernel Sched Q W → Kernel Sched Q W
  publish i k = k

module _ {Q W : Type 0} (ext : Ext W) where
  unfoldable pub allocproc : Kernel Sched Q W → Kernel Sched Q W × Option ℕ
  unfolding init_sched
  allocproc k = Alloc.allocproc ext init_sched k

  unfoldable pub userinit : Kernel Sched Q W → Outcome (Kernel Sched Q W)
  unfolding init_sched start_sched publish
  userinit k = Fork.userinit ext init_sched start_sched publish k

  unfoldable pub kfork : ℕ → Kernel Sched Q W → Kernel Sched Q W × ℕ
  unfolding init_sched inherit_sched publish
  kfork me k = Fork.kfork ext init_sched inherit_sched publish me k

  unfoldable pub freeproc : ℕ → Kernel Sched Q W → Kernel Sched Q W
  freeproc i k = Alloc.freeproc ext i k

  unfoldable pub kwait_pass : ℕ → ℕ → Kernel Sched Q W → Kernel Sched Q W × Waited
  kwait_pass me addr k = Wait.kwait_pass ext me addr k

  unfoldable pub waitx_pass : ℕ → ℕ → ℕ → ℕ → Kernel Sched Q W → Kernel Sched Q W × Waited
  waitx_pass me addr_wtime addr_rtime addr_nswtch k =
      Wait.waitx_pass ext me addr_wtime addr_rtime addr_nswtch k

module _ {Q W : Type 0} where
  unfoldable pub reparent : ℕ → ℕ → Kernel Sched Q W → Kernel Sched Q W
  unfolding wakeup
  reparent id me k = Exit.reparent (wakeup id) me k

  unfoldable pub kexit :
      Ext W → SwitchEnv → ℕ → ℕ → ℕ → Kernel Sched Q W → Outcome (Kernel Sched Q W)
  unfolding wakeup
  kexit ext env id me status k = Exit.kexit (wakeup id) ext env me status k

  unfoldable pub sleep : SwitchEnv → ℕ → Chan → Kernel Sched Q W → Outcome (Kernel Sched Q W)
  sleep env me chan k = Sleep.sleep env me chan k

  unfoldable pub kkill : ℕ → Kernel Sched Q W → Kernel Sched Q W × ℕ
  unfolding publish
  kkill pid k = Kill.kkill publish pid k
