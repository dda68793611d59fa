-- ===== src/WorkStealing/Calls.antt =====
-- The functions of work stealing/proc.c that use allocproc, wakeup, push_back or freeproc. `id` is cpuid().
use os_project_files.Base.{ℕ, Option}
use os_project_files.Kernel.{Chan, Kernel, Ext, Outcome}
use os_project_files.Process.Alloc
use os_project_files.Process.Exit
use os_project_files.Process.Fork
use os_project_files.Process.Kill
use os_project_files.Process.Sleep.{SwitchEnv}
use os_project_files.Process.Sleep
use os_project_files.Process.Wait.{Waited}
use os_project_files.Process.Wait
use os_project_files.WorkStealing.Deque.{Deque}
use os_project_files.WorkStealing.{Sched, init_sched, enqueue, wakeup}

-- kfork and userinit store nothing into last_cpu.
unfoldable pub inherit_sched : ℕ → Sched → Sched → Sched
inherit_sched ticks parent child = child

unfoldable pub start_sched : ℕ → Sched → Sched
start_sched ticks s = s

module _ {W : Type 0} where
  -- push_back(&cpus[cpuid()], p) follows the store of RUNNABLE.
  unfoldable pub publish : ℕ → ℕ → Kernel Sched Deque W → Kernel Sched Deque W
  unfolding enqueue
  publish id i k = enqueue id i k

module _ {W : Type 0} (ext : Ext W) where
  unfoldable pub allocproc : Kernel Sched Deque W → Kernel Sched Deque W × Option ℕ
  unfolding init_sched
  allocproc k = Alloc.allocproc ext init_sched k

  unfoldable pub userinit : ℕ → Kernel Sched Deque W → Outcome (Kernel Sched Deque W)
  unfolding init_sched start_sched publish
  userinit id k = Fork.userinit ext init_sched start_sched (publish id) k

  unfoldable pub kfork : ℕ → ℕ → Kernel Sched Deque W → Kernel Sched Deque W × ℕ
  unfolding init_sched inherit_sched publish
  kfork id me k = Fork.kfork ext init_sched inherit_sched (publish id) me k

  unfoldable pub freeproc : ℕ → Kernel Sched Deque W → Kernel Sched Deque W
  freeproc i k = Alloc.freeproc ext i k

  unfoldable pub kwait_pass : ℕ → ℕ → Kernel Sched Deque W → Kernel Sched Deque W × Waited
  kwait_pass me addr k = Wait.kwait_pass ext me addr k

  unfoldable pub waitx_pass : ℕ → ℕ → ℕ → ℕ → Kernel Sched Deque W → Kernel Sched Deque W × Waited
  waitx_pass me addr_wtime addr_rtime addr_nswtch k =
      Wait.waitx_pass ext me addr_wtime addr_rtime addr_nswtch k

module _ {W : Type 0} where
  unfoldable pub reparent : ℕ → ℕ → Kernel Sched Deque W → Kernel Sched Deque W
  unfolding wakeup
  reparent id me k = Exit.reparent (wakeup id) me k

  unfoldable pub kexit :
      Ext W → SwitchEnv → ℕ → ℕ → ℕ → Kernel Sched Deque W → Outcome (Kernel Sched Deque W)
  unfolding wakeup
  kexit ext env id me status k = Exit.kexit (wakeup id) ext env me status k

  unfoldable pub sleep :
      SwitchEnv → ℕ → Chan → Kernel Sched Deque W → Outcome (Kernel Sched Deque W)
  sleep env me chan k = Sleep.sleep env me chan k

  unfoldable pub kkill : ℕ → ℕ → Kernel Sched Deque W → Kernel Sched Deque W × ℕ
  unfolding publish
  kkill id pid k = Kill.kkill (publish id) pid k
