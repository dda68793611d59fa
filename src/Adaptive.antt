-- ===== src/Adaptive.antt =====
-- adaptive/proc.c and adaptive/proc.h: the fields that this scheduler adds to struct proc, and
-- the functions of proc.c that use them.
pub mod Scan
pub mod Aging
pub mod Choice
pub mod Locks
pub mod Overlap
pub mod Ready
pub mod Starvation
pub mod Calls
mod Tests
use os_project_files.Base.{
  ℕ, zero, suc, ◌+◌, Option, none, some, List, Bool, true, false, not, ◌&&◌, ◌==◌, length,
  minus_one, if◌then◌else◌,
}
use os_project_files.Kernel.{
  sleeping, runnable, running, state_eq, Chan, chan_eq, ptr_eq, Proc, Kernel, Outcome, at, proc_at,
  myproc, set_running,
}
use os_project_files.Process.Loop.{for_each}
use os_project_files.Process.Sleep.{SwitchEnv, sched}
use Scan.{Sched, priority_default, select}

-- What allocproc stores into the scheduling fields; `minus_one` is affinity_cpu = -1.
unfoldable pub init_sched : ℕ → Sched → Sched
init_sched ticks s = record {
  estimated_runtime = priority_default;
  priority = priority_default;
  age_start = ticks;
  affinity_cpu = minus_one;
}

-- What kfork stores into the child's scheduling fields.
unfoldable pub inherit_sched : ℕ → Sched → Sched → Sched
inherit_sched ticks parent child = record {
  estimated_runtime = parent.estimated_runtime;
  priority = parent.estimated_runtime;
  age_start = ticks;
  affinity_cpu = minus_one;
}

-- The stores by which wakeup and yield make a process RUNNABLE at a tick.
unfoldable pub make_ready : ℕ → Proc Sched → Proc Sched
make_ready ticks p = record p {
  sched = record s { priority = s.estimated_runtime; age_start = ticks };
  state = runnable;
}
  where
    open p use {sched as s}

module _ {Q W : Type 0} where
  -- The body of wakeup's loop, for proc[i].
  unfoldable pub wake_one : Option ℕ → Chan → ℕ → Kernel Sched Q W → Kernel Sched Q W
  unfolding make_ready
  wake_one self chan i k = elim (proc_at k i) [
    | none ↦ k
    | some p ↦
        if not (ptr_eq (some i) self) && (state_eq p.state sleeping && chan_eq p.chan chan)
        then at i (make_ready k.ticks) k
        else k
  ]

  -- wakeup(chan) on the CPU `id`.
  unfoldable pub wakeup : ℕ → Chan → Kernel Sched Q W → Kernel Sched Q W
  unfolding wake_one for_each
  wakeup id chan k = for_each (wake_one (myproc id k) chan) k

  -- yield(), to the switch.
  unfoldable pub yield : SwitchEnv → ℕ → Kernel Sched Q W → Outcome (Kernel Sched Q W)
  unfolding make_ready
  yield env me k = sched env me (at me (make_ready k.ticks) k)

-- The stores of scheduler() into the process that it has chosen.
unfoldable pub dispatch_proc : Proc Sched → Proc Sched
dispatch_proc p = record p { sched = record s { priority = s.estimated_runtime }; state = running }
  where
    open p use {sched as s}

module _ {Q W : Type 0} where
  -- One round of scheduler() on the CPU `id`, to the switch; `none` is a wait for an interrupt.
  unfoldable pub schedule : ℕ → Kernel Sched Q W → Kernel Sched Q W × Option ℕ
  unfolding dispatch_proc set_running
  schedule id k = elim (select k.ticks k.procs) [
    | none ↦ (k, none)
    | some i ↦ (set_running id i (at i dispatch_proc k), some i)
  ]
