-- ===== src/Process/Sleep.antt =====
-- sched, sleep, killed, setkilled and update_process_times of proc.c. A call of swtch() ends a
-- function's first part; what the function does when it is resumed is a definition of its own.
use os_project_files.Base.{
  ℕ, Option, none, some, Bool, true, false, not, add32, ◌==◌, if◌then◌else◌,
}
use os_project_files.Kernel.{
  sleeping, running, state_eq, Chan, null, Proc, Kernel, Outcome, done, panic, at, proc_at,
}

-- What sched() checks of the CPU: holding(&p->lock), mycpu()->noff and intr_get().
pub record SwitchEnv : Type 0 where
  pub holding : Bool
  pub noff : ℕ
  pub intr : Bool

-- p->lock is the only lock held, so interrupts are off.
abbrev pub only_own_lock : SwitchEnv
only_own_lock = record { holding = true; noff = 1; intr = false }

module _ {F Q W : Type 0} where
  -- sched(), to the call of swtch().
  unfoldable pub sched : SwitchEnv → ℕ → Kernel F Q W → Outcome (Kernel F Q W)
  sched env me k = elim (proc_at k me) [
    | none ↦ panic
    | some p ↦
        if not env.holding
        then panic
        else if not (env.noff == 1)
        then panic
        else if state_eq p.state running
        then panic
        else if env.intr
        then panic
        else done (at me (λ q. record q { nswtch = add32 q.nswtch 1 }) k)
  ]

  -- sleep(chan, lk), to the switch.
  unfoldable pub sleep : SwitchEnv → ℕ → Chan → Kernel F Q W → Outcome (Kernel F Q W)
  unfolding sched
  sleep env me chan k = sched env me (at me (λ p. record p { chan = chan; state = sleeping }) k)

  -- sleep(chan, lk), behind the switch.
  unfoldable pub wake_from_sleep : ℕ → Kernel F Q W → Kernel F Q W
  wake_from_sleep me k = at me (λ p. record p { chan = null }) k

  -- killed(&proc[i])
  unfoldable pub killed : Kernel F Q W → ℕ → ℕ
  killed k i = elim (proc_at k i) [ none ↦ 0 | some p ↦ p.killed ]

  -- setkilled(&proc[i])
  unfoldable pub setkilled : ℕ → Kernel F Q W → Kernel F Q W
  setkilled i k = at i (λ p. record p { killed = 1 }) k

-- update_process_times() for the process that myproc() returned.
unfoldable pub charge_tick : {F : Type 0} → Proc F → Proc F
charge_tick p = if state_eq p.state running then record p { rtime = add32 p.rtime 1 } else p

unfoldable pub update_process_times : {F Q W : Type 0} → Option ℕ → Kernel F Q W → Kernel F Q W
unfolding charge_tick
update_process_times none k = k
update_process_times (some i) k = at i charge_tick k
