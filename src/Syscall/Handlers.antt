-- ===== src/Syscall/Handlers.antt =====
-- sysproc.c: the handlers that read their arguments from the trap frame and call proc.c. An `int`
-- result becomes a `uint64` by its sign. fetchstr and argstr of syscall.c, over copyinstr() and
-- strlen(), whose `B` is the bytes of the string.
use os_project_files.Base.{
  ℕ, Option, List, none, some, if◌then◌else◌, is_negative, sign_extend, minus_one,
}
use os_project_files.Kernel.{ticks_addr, TrapFrame, Proc, Kernel, Outcome, done, panic, proc_at}
use os_project_files.Process.Wait.{Waited, returned, must_sleep, wait_loop}
use os_project_files.Process.Sleep.{SwitchEnv}
use os_project_files.Syscall.Calls.{pause_ticks, pause_pass}
use os_project_files.Syscall.Args.{argint, argaddr}

-- A call on the arguments, which panics where reading them does.
abbrev pub with_arg : {A B : Type 0} → Outcome A → (A → Outcome B) → Outcome B
with_arg panic f = panic
with_arg (done a) f = f a

-- The `uint64` of a kernel function's `int`.
abbrev pub to_result : {K : Type 0} → K × ℕ → K × ℕ
to_result (k, v) = (k, sign_extend v)

abbrev pub waited_result : Waited → Waited
waited_result (returned v) = returned (sign_extend v)
waited_result must_sleep = must_sleep

module _ {F Q W : Type 0} where
  -- The trap frame of the process `me`.
  abbrev pub frame_at : ℕ → Kernel F Q W → Outcome TrapFrame
  frame_at me k = elim (proc_at k me) [ none ↦ panic | some p ↦ done p.frame ]

  -- sys_exit(), to the switch in kexit.
  unfoldable pub sys_exit :
      (ℕ → Kernel F Q W → Outcome (Kernel F Q W)) → ℕ → Kernel F Q W → Outcome (Kernel F Q W)
  sys_exit kexit me k = with_arg (frame_at me k) λ f. with_arg (argint f 0) λ n. kexit n k

  -- sys_getpid()
  unfoldable pub sys_getpid : ℕ → Kernel F Q W → Outcome ℕ
  sys_getpid me k = elim (proc_at k me) [ none ↦ panic | some p ↦ done (sign_extend p.pid) ]

  -- sys_fork()
  unfoldable pub sys_fork : (Kernel F Q W → Kernel F Q W × ℕ) → Kernel F Q W → Kernel F Q W × ℕ
  sys_fork kfork k = to_result (kfork k)

  -- sys_wait(), to the end of the first pass of kwait.
  unfoldable pub sys_wait :
      (ℕ → Kernel F Q W → Kernel F Q W × Waited)
      → ℕ
      → Kernel F Q W
      → Outcome (Kernel F Q W × Waited)
  sys_wait kwait me k =
      with_arg (frame_at me k)
        λ f. with_arg (argaddr f 0) λ p. let (k1, r) = kwait p k in done (k1, waited_result r)

  -- sys_kill()
  unfoldable pub sys_kill :
      (ℕ → Kernel F Q W → Kernel F Q W × ℕ) → ℕ → Kernel F Q W → Outcome (Kernel F Q W × ℕ)
  sys_kill kkill me k =
      with_arg (frame_at me k) λ f. with_arg (argint f 0) λ pid. done (to_result (kkill pid k))

  -- sys_waitx(), to the end of the first pass of waitx.
  unfoldable pub sys_waitx :
      (ℕ → ℕ → ℕ → Kernel F Q W → Kernel F Q W × Waited)
      → ℕ
      → Kernel F Q W
      → Outcome (Kernel F Q W × Waited)
  sys_waitx waitx me k = with_arg (frame_at me k) λ f. with_arg (argaddr f 0) λ wtime_addr.
      with_arg (argaddr f 1) λ rtime_addr. with_arg (argaddr f 2) λ nswtch_addr.
        let (k1, r) = waitx wtime_addr rtime_addr nswtch_addr k in done (k1, waited_result r)

-- sys_pause(), with what the others do during each sleep: the result, unless the process still sleeps
-- when the list is used up.
unfoldable pub sys_pause :
    {F Q W : Type 0}
    → SwitchEnv
    → ℕ
    → List (Kernel F Q W → Kernel F Q W)
    → Kernel F Q W
    → Outcome (Kernel F Q W × Option ℕ)
unfolding pause_pass pause_ticks
sys_pause env me others k = with_arg (frame_at me k) λ f. with_arg (argint f 0) λ n.
    let ticks0 = k.ticks in
    wait_loop (pause_pass me (pause_ticks n) ticks0) env me ticks_addr others k

module _ {B F W : Type 0} (copyinstr : ℕ → ℕ → ℕ → W → ℕ × B) (strlen : B → ℕ) where
  -- fetchstr(addr, buf, max): the result, and what buf holds.
  unfoldable pub fetchstr : Proc F → ℕ → ℕ → W → ℕ × B
  fetchstr p addr max w =
      let (status, buf) = copyinstr p.pagetable addr max w in
      if is_negative status then (minus_one, buf) else (strlen buf, buf)

  -- argstr(n, buf, max)
  unfoldable pub argstr : Proc F → ℕ → ℕ → W → Outcome (ℕ × B)
  unfolding fetchstr
  argstr p n max w = with_arg (argaddr p.frame n) λ addr. done (fetchstr p addr max w)
