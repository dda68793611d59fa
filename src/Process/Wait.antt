-- ===== src/Process/Wait.antt =====
-- kwait and waitx of proc.c. One pass of the `for(;;)` loop is a definition; between two passes
-- the process sleeps and the other processes run.
use os_project_files.Base.{
  ℕ, ◌+◌, Option, none, some, List, [], ◌∷◌, Bool, true, false, not, ◌&&◌, ◌||◌, ◌==◌, sub32,
  if◌then◌else◌, is_negative, minus_one,
}
use os_project_files.Kernel.{
  zombie, state_eq, ptr_eq, Chan, Proc, Kernel, Ext, Outcome, done, panic, proc_at, set_world,
}
use os_project_files.Process.Alloc.{freeproc}
use os_project_files.Process.Sleep.{SwitchEnv, sleep, wake_from_sleep, killed}

module _ {F : Type 0} where
  -- The scan of the table: the first ZOMBIE child, and `havekids`.
  unfoldable pub scan_children : ℕ → List (Proc F) → ℕ → Bool → Option ℕ × Bool
  scan_children me [] i havekids = (none, havekids)
  scan_children me (pp ∷ ps) i havekids =
      let child = ptr_eq pp.parent (some me) in
      let rest = scan_children me ps (i + 1) (child || havekids) in
      if child && state_eq pp.state zombie then (some i, true) else rest

-- How a pass ends.
pub data Waited : Type 0 where
  returned : ℕ → Waited
  must_sleep : Waited

module _ {W : Type 0} (ext : Ext W) where
  -- A copyout() of an `int` to an address, skipped for the null address, with its status.
  unfoldable pub copy_int : ℕ → ℕ → ℕ → W → ℕ × W
  copy_int pagetable addr v w = if addr == 0 then (0, w) else ext.copyout pagetable addr v w

-- turnaround_time - run_time of waitx, on `int`.
unfoldable pub wait_time : {F : Type 0} → Proc F → ℕ
wait_time np =
    let turnaround_time = sub32 np.etime np.ctime in
    let run_time = np.rtime in sub32 turnaround_time run_time

module _ {F W : Type 0} (ext : Ext W) where
  -- The three copies of waitx, their statuses dropped.
  unfoldable pub copy_metrics : ℕ → ℕ → ℕ → ℕ → Proc F → W → W
  unfolding copy_int
  copy_metrics pagetable addr_wtime addr_rtime addr_nswtch np w =
      let (s1, w1) = copy_int ext pagetable addr_wtime (wait_time np) w in
      let (s2, w2) = copy_int ext pagetable addr_rtime np.rtime w1 in
      let (s3, w3) = copy_int ext pagetable addr_nswtch np.nswtch w2 in w3

module _ {F Q W : Type 0} (ext : Ext W) where
  -- kwait with the exited child `i` found.
  unfoldable pub reap : ℕ → ℕ → ℕ → Kernel F Q W → Kernel F Q W × Waited
  unfolding copy_int
  reap me addr i k = elim (proc_at k me) [
    | none ↦ (k, returned minus_one)
    | some p ↦ elim (proc_at k i) [
      | none ↦ (k, returned minus_one)
      | some pp ↦
          let (status, w) = copy_int ext p.pagetable addr pp.xstate k.world in
          if is_negative status
          then (set_world k w, returned minus_one)
          else (freeproc ext i (set_world k w), returned pp.pid)
    ]
  ]

  -- One pass of kwait(addr).
  unfoldable pub kwait_pass : ℕ → ℕ → Kernel F Q W → Kernel F Q W × Waited
  kwait_pass me addr k =
      let (found, havekids) = scan_children me k.procs 0 false in
      elim found [
        | some i ↦ reap me addr i k
        | none ↦
            if not havekids || not (killed k me == 0)
            then (k, returned minus_one)
            else (k, must_sleep)
      ]

  -- waitx with the exited child `i` found: the three numbers go out, whatever copyout() returns.
  unfoldable pub reap_metrics : ℕ → ℕ → ℕ → ℕ → ℕ → Kernel F Q W → Kernel F Q W × Waited
  unfolding copy_metrics
  reap_metrics me addr_wtime addr_rtime addr_nswtch i k = elim (proc_at k me) [
    | none ↦ (k, returned minus_one)
    | some p ↦ elim (proc_at k i) [
      | none ↦ (k, returned minus_one)
      | some np ↦
          let w = copy_metrics ext p.pagetable addr_wtime addr_rtime addr_nswtch np k.world in
          (freeproc ext i (set_world k w), returned np.pid)
    ]
  ]

  -- One pass of waitx(addr_wtime, addr_rtime, addr_nswtch).
  unfoldable pub waitx_pass : ℕ → ℕ → ℕ → ℕ → Kernel F Q W → Kernel F Q W × Waited
  waitx_pass me addr_wtime addr_rtime addr_nswtch k =
      let (found, havekids) = scan_children me k.procs 0 false in
      elim found [
        | some i ↦ reap_metrics me addr_wtime addr_rtime addr_nswtch i k
        | none ↦
            if not havekids || not (killed k me == 0)
            then (k, returned minus_one)
            else (k, must_sleep)
      ]

-- The loop over a pass, with sleep(chan, lock) between two passes. `others` is what the rest of the system does to the kernel
-- during each sleep; the loop is still waiting, `none`, when the list is used up.
unfoldable pub wait_loop :
    {F Q W : Type 0}
    → (Kernel F Q W → Kernel F Q W × Waited)
    → SwitchEnv
    → ℕ
    → Chan
    → List (Kernel F Q W → Kernel F Q W)
    → Kernel F Q W
    → Outcome (Kernel F Q W × Option ℕ)
unfolding sleep wake_from_sleep
wait_loop pass env me chan [] k =
    let (k1, r) = pass k in
    elim r [
      | returned v ↦ done (k1, some v)
      | must_sleep ↦ elim (sleep env me chan k1) [ panic ↦ panic | done k2 ↦ done (k2, none) ]
    ]
wait_loop pass env me chan (o ∷ os) k =
    let (k1, r) = pass k in
    elim r [
      | returned v ↦ done (k1, some v)
      | must_sleep ↦ elim (sleep env me chan k1) [
        | panic ↦ panic
        | done k2 ↦ wait_loop pass env me chan os (wake_from_sleep me (o k2))
      ]
    ]
