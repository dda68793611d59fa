-- ===== src/Trap.antt =====
-- trap.c: traps from user space, interrupts and the clock. The control and status registers that
-- the code reads are arguments, the devices are a record of external operations, and what the
-- handlers call in syscall.c and in a scheduler's proc.c is a section parameter.
mod Timer
mod Ecall
mod ForkCall
pub mod Forkret
mod Tests
use os_project_files.Base.{
  ℕ, ◌+◌, Option, none, some, Bool, not, ◌&&◌, ◌||◌, ◌==◌, add32, add64, is_negative, minus_one,
  if◌then◌else◌,
}
use os_project_files.Kernel.{
  running, state_eq, Chan, ticks_addr, TrapFrame, Proc, Kernel, Outcome, done, panic, at, proc_at,
  set_world, myproc,
}
use os_project_files.Process.Sleep.{killed, setkilled, update_process_times}

-- The interrupt controller, the two devices and the page-fault handler. plic_claim() is 0 when no
-- interrupt waits; vmfault(pagetable, va, read) is 0 when it maps no page.
pub record Devices (W : Type 0) : Type 0 where
  pub uart0_irq : ℕ
  pub virtio0_irq : ℕ
  pub plic_claim : W → ℕ × W
  pub plic_complete : ℕ → W → W
  pub uartintr : W → W
  pub virtio_disk_intr : W → W
  pub vmfault : ℕ → ℕ → ℕ → W → ℕ × W

-- scause, sepc, stval, and the previous privilege in sstatus.
pub record Csrs : Type 0 where
  pub scause : ℕ
  pub sepc : ℕ
  pub stval : ℕ
  pub from_supervisor : Bool

-- How a trap ends: back in the interrupted code, in a switch to scheduler(), or in panic().
pub data Trapped (A : Type 0) : Type 0 where
  resumed : A → Trapped A
  switched : A → Trapped A
  panicked : Trapped A

abbrev pub external_cause : ℕ
external_cause = 9223372036854775817

abbrev pub timer_cause : ℕ
timer_cause = 9223372036854775813

-- A call that ends in swtch().
abbrev pub switch : {A : Type 0} → Outcome A → Trapped A
switch (done k) = switched k
switch panic = panicked

-- p->trapframe->epc = pc
abbrev pub set_epc : {F : Type 0} → ℕ → Proc F → Proc F
set_epc pc p = record p { frame = record f { epc = pc } }
  where
    open p use {frame as f}

-- p->trapframe->epc += 4
abbrev pub skip_ecall : {F : Type 0} → Proc F → Proc F
skip_ecall p = record p { frame = record f { epc = add64 f.epc 4 } }
  where
    open p use {frame as f}

-- What prepare_return() reads: satp, PGSIZE, the address of usertrap and tp.
pub record ReturnPath : Type 0 where
  pub satp : ℕ
  pub page_size : ℕ
  pub usertrap_addr : ℕ
  pub tp : ℕ

-- The stores of prepare_return() into the trap frame; those into stvec, sstatus and sepc, which are
-- registers, are left out.
unfoldable pub prepare_return : {F : Type 0} → ReturnPath → Proc F → Proc F
prepare_return env p = record p {
  frame = record f {
    kernel_satp = env.satp;
    kernel_sp = p.kstack + env.page_size;
    kernel_trap = env.usertrap_addr;
    kernel_hartid = env.tp;
  };
}
  where
    open p use {frame as f}

module _ {F Q W : Type 0} (wakeup : Chan → Kernel F Q W → Kernel F Q W) where
  -- clockintr() on the CPU `id`, without the next timer request.
  unfoldable pub clockintr : ℕ → Kernel F Q W → Kernel F Q W
  clockintr id k = if id == 0 then wakeup ticks_addr (record k { ticks = add32 k.ticks 1 }) else k

-- The external interrupt of devintr().
unfoldable pub external_interrupt : {W : Type 0} → Devices W → W → W
external_interrupt dev w =
    let (irq, w1) = dev.plic_claim w in
    let w2 =
      if irq == dev.uart0_irq
      then dev.uartintr w1
      else if irq == dev.virtio0_irq
      then dev.virtio_disk_intr w1
      else w1 in
    if irq == 0 then w2 else dev.plic_complete irq w2

module _ {F Q W : Type 0} (dev : Devices W) (wakeup : Chan → Kernel F Q W → Kernel F Q W) where
  -- devintr(): 2 for the timer, 1 for another device, 0 for anything else.
  unfoldable pub devintr : ℕ → ℕ → Kernel F Q W → ℕ × Kernel F Q W
  unfolding clockintr external_interrupt
  devintr id scause k =
      if scause == external_cause
      then (1, set_world k (external_interrupt dev k.world))
      else if scause == timer_cause
      then (2, clockintr wakeup id k)
      else (0, k)

  module _ (kexit : ℕ → Kernel F Q W → Outcome (Kernel F Q W))
      (yield : ℕ → Kernel F Q W → Outcome (Kernel F Q W)) where
    -- usertrap() behind the dispatch on the cause. A process that yields goes on to prepare_return()
    -- when it runs again.
    unfoldable pub finish_trap : ReturnPath → ℕ → ℕ → Kernel F Q W → Trapped (Kernel F Q W)
    unfolding prepare_return
    finish_trap env me which_dev k =
        if not (killed k me == 0)
        then switch (kexit minus_one k)
        else if which_dev == 2
        then switch (yield me (update_process_times (some me) k))
        else resumed (at me (prepare_return env) k)

    -- The page fault of usertrap(), or an unexpected cause.
    unfoldable pub page_fault : ℕ → Csrs → Kernel F Q W → Kernel F Q W
    page_fault me r k = elim (proc_at k me) [
      | none ↦ k
      | some p ↦
          let (mapped, w) =
            dev.vmfault p.pagetable r.stval (if r.scause == 13 then 1 else 0) k.world in
          if r.scause == 15 || r.scause == 13
          then (if mapped == 0 then setkilled me (set_world k w) else set_world k w)
          else setkilled me k
    ]

    -- usertrap() of the process `me` on the CPU `id`; `syscall` is syscall() of syscall.c.
    unfoldable pub usertrap :
        (Kernel F Q W → Kernel F Q W)
        → ReturnPath
        → ℕ
        → ℕ
        → Csrs
        → Kernel F Q W
        → Trapped (Kernel F Q W)
    unfolding devintr finish_trap
    usertrap syscall env id me r k =
        if r.from_supervisor
        then panicked
        else let k1 = at me (set_epc r.sepc) k in
          if r.scause == 8
          then (if not (killed k1 me == 0)
              then switch (kexit minus_one k1)
              else finish_trap env me 0 (syscall (at me skip_ecall k1)))
          else let (which_dev, k2) = devintr id r.scause k1 in
            if not (which_dev == 0)
            then finish_trap env me which_dev k2
            else finish_trap env me 0 (page_fault me r k2)

    -- kerneltrap() on the CPU `id`; `intr` is intr_get().
    unfoldable pub kerneltrap : ℕ → Bool → Csrs → Kernel F Q W → Trapped (Kernel F Q W)
    unfolding devintr
    kerneltrap id intr r k =
        if not r.from_supervisor
        then panicked
        else if intr
        then panicked
        else let (which_dev, k1) = devintr id r.scause k in
          if which_dev == 0
          then panicked
          else if not (which_dev == 2)
          then resumed k1
          else elim (myproc id k1) [
            | none ↦ resumed k1
            | some me ↦ elim (proc_at k1 me) [
              | none ↦ resumed k1
              | some p ↦
                  if state_eq p.state running
                  then switch (yield me (update_process_times (some me) k1))
                  else resumed k1
            ]
          ]
