-- ===== src/System/Step.antt =====
-- The machine: any number of CPUs that run proc.c over a common process table, with a scheduler that
-- is given as a `Policy`. The steps of the CPUs come in any order. A step is what one CPU does from
-- one release or switch to the next, with the lock of a process or wait_lock held; a loop that takes
-- the lock of one slot after the other (in allocproc, wakeup, kkill, wait and scheduler) is one step,
-- and so is kexit() to its switch.
use os_project_files.Base.{ℕ, suc, ◌≡◌, some}
use os_project_files.Kernel.{
  used, TrapFrame, Chan, Proc, Kernel, Ext, done, at, proc_at, myproc, set_world,
}
use os_project_files.Process.Exit.{kexit}
use os_project_files.Process.Fork.{kfork_begin, fork_adopt, fork_start, userinit}
use os_project_files.Process.Kill.{kkill}
use os_project_files.Process.Memory.{growproc}
use os_project_files.Process.Sleep.{
  only_own_lock, sched, sleep, wake_from_sleep, setkilled, update_process_times,
}
use os_project_files.Process.Wait.{kwait_pass, waitx_pass}
use os_project_files.System.Policy.{Policy}
use os_project_files.Trap.{clockintr}

module _ {F Q W : Type 0} where
  -- `id` is the CPU that acts, `me` the process that it runs. A process that gives up its CPU goes
  -- through sched() to scheduler() and the stores there. kfork() is three steps: to the release of the
  -- lock of the child, which is USED; the store of its parent; and that of RUNNABLE.
  pub data Step (P : Policy F Q W) (ext : Ext W) (k : Kernel F Q W) : Kernel F Q W → Type 0 where
    boots :
        (id : ℕ) {l : Kernel F Q W}
        → userinit ext P.init_sched P.start (P.publish id) k ≡ done l
        → Step P ext k l
    prepares : (id : ℕ) {l : Kernel F Q W} → P.Prepares id k l → Step P ext k l
    dispatches : (id i : ℕ) {l : Kernel F Q W} → P.Chooses id k i l → Step P ext k l
    yields :
        (id me : ℕ) {l : Kernel F Q W}
        → myproc id k ≡ some me
        → sched only_own_lock me (P.ready id me k) ≡ done l
        → Step P ext k (P.leave id me l)
    sleeps :
        (id me : ℕ) (chan : Chan) {l : Kernel F Q W}
        → myproc id k ≡ some me
        → sleep only_own_lock me chan k ≡ done l
        → Step P ext k (P.leave id me l)
    exits :
        (id me status : ℕ) {l : Kernel F Q W}
        → myproc id k ≡ some me
        → kexit (P.wakeup id) ext only_own_lock me status k ≡ done l
        → Step P ext k (P.leave id me l)
    resumes : (id me : ℕ) → myproc id k ≡ some me → Step P ext k (wake_from_sleep me k)
    wakes : (id : ℕ) (chan : Chan) → Step P ext k (P.wakeup id chan k)
    forks :
        (id me : ℕ)
        → myproc id k ≡ some me
        → Step P ext k (kfork_begin ext P.init_sched P.inherit me k).0
    adopts :
        (id me i : ℕ) {c : Proc F}
        → myproc id k ≡ some me
        → proc_at k i ≡ some c
        → c.state ≡ used
        → Step P ext k (fork_adopt me i k)
    starts_child :
        (id me i : ℕ) {c : Proc F}
        → myproc id k ≡ some me
        → proc_at k i ≡ some c
        → c.state ≡ used
        → c.parent ≡ some me
        → Step P ext k (fork_start (P.publish id) i k)
    waits : (id me addr : ℕ) → myproc id k ≡ some me → Step P ext k (kwait_pass ext me addr k).0
    waitxs : (id me a b c : ℕ) → myproc id k ≡ some me → Step P ext k (waitx_pass ext me a b c k).0
    kills : (id pid : ℕ) → Step P ext k (kkill (P.publish id) pid k).0
    sets_killed : (i : ℕ) → Step P ext k (setkilled i k)
    grows : (id me n : ℕ) → myproc id k ≡ some me → Step P ext k (growproc ext me n k).0
    charges : (id : ℕ) → Step P ext k (update_process_times (myproc id k) k)
    interrupts : (id : ℕ) → Step P ext k (clockintr (P.wakeup id) id k)
    stores :
        (id me : ℕ) (f : TrapFrame → TrapFrame)
        → myproc id k ≡ some me
        → Step P ext k (at me (λ p. record p { frame = f p.frame }) k)
    acts : (w : W) → Step P ext k (set_world k w)

  -- The kernels that n steps lead to from k.
  pub data Reach (P : Policy F Q W) (ext : Ext W) (k : Kernel F Q W)
      : ℕ → Kernel F Q W → Type 0 where
    start : Reach P ext k 0 k
    later :
        {n : ℕ} {l m : Kernel F Q W} → Reach P ext k n l → Step P ext l m → Reach P ext k (suc n) m
