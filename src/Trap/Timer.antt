-- ===== src/Trap/Timer.antt =====
-- What a timer interrupt from user space does to the running process: usertrap of trap.c with
-- yield and wakeup of adaptive/proc.c.
use os_project_files.Base.{
  ℕ, ◌≡◌, refl, ap, ◌∙◌, inl, inr, some, Bool-cases, false, ◌==◌, add32, get_elem?-modify_self,
  if◌then◌else◌,
}
use os_project_files.Kernel.{
  running, runnable, Chan, ticks_addr, Proc, Kernel, Outcome, done, at, proc_at, myproc,
}
use os_project_files.Process.Loop.{for_each-keep}
use os_project_files.Process.Sleep.{only_own_lock, sched, killed, charge_tick, update_process_times}
use os_project_files.Adaptive.Scan.{Sched}
use os_project_files.Adaptive.Ready.{wakeup-running, wake_one-IsLocal}
use os_project_files.Adaptive.{make_ready, wakeup, yield}
use os_project_files.Trap.{
  Devices, ReturnPath, switched, timer_cause, set_epc, clockintr, devintr, finish_trap, usertrap,
  switch,
}

-- The tick counter after a timer interrupt on the CPU.
abbrev pub next_ticks : ℕ → ℕ → ℕ
next_ticks id ticks = if id == 0 then add32 ticks 1 else ticks

abbrev count_switch : Proc Sched → Proc Sched
count_switch p = record p { nswtch = add32 p.nswtch 1 }

-- The process behind update_process_times() and yield().
abbrev yielded : ℕ → Proc Sched → Proc Sched
yielded ticks p = count_switch (make_ready ticks (charge_tick p))

module _ {Q W : Type 0} where
  wakeup-ticks : (id : ℕ) (chan : Chan) (k : Kernel Sched Q W) → (wakeup id chan k).ticks ≡ k.ticks
  unfolding wakeup
  wakeup-ticks id chan k = for_each-keep _ _ _ (wake_one-IsLocal (myproc id k) chan) k

  clockintr-ticks :
      (id : ℕ) (k : Kernel Sched Q W) → (clockintr (wakeup id) id k).ticks ≡ next_ticks id k.ticks
  unfolding clockintr
  clockintr-ticks id k = elim (Bool-cases (id == 0)) [
    | inl e ↦ rw e (wakeup-ticks id ticks_addr (record k { ticks = add32 k.ticks 1 }))
    | inr e ↦ rw e
  ]

  clockintr-running :
      (id me : ℕ) (k : Kernel Sched Q W) {p : Proc Sched}
      → proc_at k me ≡ some p
      → p.state ≡ running
      → proc_at (clockintr (wakeup id) id k) me ≡ some p
  unfolding clockintr
  clockintr-running id me k {p} e r = elim (Bool-cases (id == 0)) [
    | inl z ↦ rw z (wakeup-running id ticks_addr (record k { ticks = add32 k.ticks 1 }) me p e r)
    | inr z ↦ rw z e
  ]

  sched-done :
      (me : ℕ) (k : Kernel Sched Q W) {p : Proc Sched}
      → proc_at k me ≡ some p
      → p.state ≡ runnable
      → sched only_own_lock me k ≡ done (at me count_switch k)
  unfolding sched
  sched-done me k e r = rw (e, sched) (rw r)

  killed-at :
      (me : ℕ) (k : Kernel Sched Q W) {p : Proc Sched}
      → proc_at k me ≡ some p
      → killed k me ≡ p.killed
  unfolding killed
  killed-at me k e = rw (e, killed)

  -- The kernel behind update_process_times() and yield().
  abbrev after_yield : ℕ → Kernel Sched Q W → Kernel Sched Q W
  after_yield me k = at me count_switch (at me (make_ready k.ticks) (at me charge_tick k))

  after_yield-at :
      (me : ℕ) (k : Kernel Sched Q W) {p : Proc Sched}
      → proc_at k me ≡ some p
      → proc_at (after_yield me k) me ≡ some (yielded k.ticks p)
  after_yield-at me k e =
      get_elem?-modify_self _ me _
        (get_elem?-modify_self _ me _ (get_elem?-modify_self k.procs me charge_tick e))

  module _ (dev : Devices W) (kexit : ℕ → Kernel Sched Q W → Outcome (Kernel Sched Q W))
      (env : ReturnPath) (id me : ℕ) where
    finish_timer :
        (k : Kernel Sched Q W) {p : Proc Sched}
        → proc_at k me ≡ some p
        → p.killed ≡ 0
        → finish_trap dev (wakeup id) kexit (yield only_own_lock) env me 2 k
          ≡ switched (after_yield me k)
    unfolding finish_trap yield update_process_times make_ready
    finish_timer k e alive = rw (killed-at me k e ∙ alive) (
        ap switch (
          sched-done me _
            (get_elem?-modify_self _ me (make_ready k.ticks)
              (get_elem?-modify_self k.procs me charge_tick e))
            refl))

    usertrap-timer_eq :
        (syscall : Kernel Sched Q W → Kernel Sched Q W) (sepc stval : ℕ) (k : Kernel Sched Q W)
        → usertrap dev
            (wakeup id)
            kexit
            (yield only_own_lock)
            syscall
            env
            id
            me
            (record { scause = timer_cause; sepc = sepc; stval = stval; from_supervisor = false })
            k
          ≡ finish_trap dev
              (wakeup id)
              kexit
              (yield only_own_lock)
              env
              me
              2
              (clockintr (wakeup id) id (at me (set_epc sepc) k))
    unfolding usertrap devintr
    usertrap-timer_eq syscall sepc stval k = refl

    -- A timer interrupt that finds the process RUNNING in user space, and not killed, ends in a
    -- switch: the process is RUNNABLE, is charged one tick and one switch, competes again with its
    -- base priority from the present tick on, and resumes at the interrupted instruction. The CPU 0,
    -- and no other, counts the tick.
    pub usertrap_timer :
        (syscall : Kernel Sched Q W → Kernel Sched Q W) (sepc stval : ℕ) (k : Kernel Sched Q W)
        {p : Proc Sched}
        → proc_at k me ≡ some p
        → p.state ≡ running
        → p.killed ≡ 0
        → (l : Kernel Sched Q W) × (q : Proc Sched) × (usertrap dev
              (wakeup id)
              kexit
              (yield only_own_lock)
              syscall
              env
              id
              me
              (record { scause = timer_cause; sepc = sepc; stval = stval; from_supervisor = false })
              k
            ≡ switched l)
          × (proc_at l me ≡ some q)
          × (q.state ≡ runnable)
          × (q.rtime ≡ add32 p.rtime 1)
          × (q.nswtch ≡ add32 p.nswtch 1)
          × (q.sched.priority ≡ p.sched.estimated_runtime)
          × (q.sched.age_start ≡ next_ticks id k.ticks)
          × (q.frame.epc ≡ sepc)
          × (l.ticks ≡ next_ticks id k.ticks)
    unfolding make_ready charge_tick
    usertrap_timer syscall sepc stval k {p} e run alive =
        let k1 = at me (set_epc sepc) k in
        let k2 = clockintr (wakeup id) id k1 in
        let e2 =
          clockintr-running id me k1 (get_elem?-modify_self k.procs me (set_epc sepc) e) run in
        let t = clockintr-ticks id k1 in
        (
          after_yield me k2,
          yielded k2.ticks (set_epc sepc p),
          usertrap-timer_eq syscall sepc stval k ∙ finish_timer k2 e2 alive,
          after_yield-at me k2 e2,
          refl,
          rw run,
          rw run,
          rw run,
          t,
          rw run,
          t,
        )
