-- ===== src/Lpt.antt =====
-- lpt/proc.c and lpt/proc.h: the field that this scheduler adds to struct proc, and the functions
-- of proc.c that differ from the other schedulers'.
pub mod Batch
pub mod Collect
pub mod Sort
pub mod Round
pub mod Calls
pub mod Shared
mod Tests
use os_project_files.Base.{
  ℕ, zero, suc, ◌+◌, Option, none, some, List, [], ◌∷◌, Bool, true, false, not, ◌&&◌, ◌==◌, length,
  if◌then◌else◌,
}
use os_project_files.Kernel.{
  sleeping, runnable, running, state_eq, Chan, chan_eq, ptr_eq, Proc, Kernel, Outcome, at, proc_at,
  myproc, set_running, clear_running,
}
use os_project_files.Process.Loop.{for_each}
use os_project_files.Process.Sleep.{SwitchEnv, sched}
use Batch.{Sched, runnable_slot, collect, key, sort, group}

-- allocproc and kfork leave est_time as it was.
unfoldable pub init_sched : ℕ → Sched → Sched
init_sched ticks s = s

unfoldable pub make_ready : Proc Sched → Proc Sched
make_ready p = record p { state = runnable }

module _ {Q W : Type 0} where
  -- The body of wakeup's loop, for proc[i].
  unfoldable pub wake_one : Option ℕ → Chan → ℕ → Kernel Sched Q W → Kernel Sched Q W
  unfolding make_ready
  wake_one self chan i k = elim (proc_at k i) [
    | none ↦ k
    | some p ↦
        if not (ptr_eq (some i) self) && (state_eq p.state sleeping && chan_eq p.chan chan)
        then at i make_ready k
        else k
  ]

  -- wakeup(chan) on the CPU `id`.
  unfoldable pub wakeup : ℕ → Chan → Kernel Sched Q W → Kernel Sched Q W
  unfolding wake_one for_each
  wakeup id chan k = for_each (wake_one (myproc id k) chan) k

  -- yield(), to the switch.
  unfoldable pub yield : SwitchEnv → ℕ → Kernel Sched Q W → Outcome (Kernel Sched Q W)
  unfolding make_ready
  yield env me k = sched env me (at me make_ready k)

  -- STEP 1 to STEP 3 of scheduler(): the table with its new estimates, and final_list.
  unfoldable pub plan : ℕ → Kernel Sched Q W → Kernel Sched Q W × List ℕ
  plan ncpu k =
      let (procs, batch) = collect k.procs 0 in
      let sorted = sort (key procs) (length batch) batch in
      (record k { procs = procs }, group ncpu (length sorted) sorted)

  -- `p->state == RUNNABLE`, under p->lock.
  unfoldable pub is_runnable : Kernel Sched Q W → ℕ → Bool
  is_runnable k i = runnable_slot k.procs i

  -- RUNNING, c->proc = p, the switches and c->proc = 0, for proc[i]. `turn i` is all that happens in
  -- the system from the switch to proc[i] to the switch back.
  unfoldable pub run_turn :
      ℕ → (ℕ → Kernel Sched Q W → Kernel Sched Q W) → ℕ → Kernel Sched Q W → Kernel Sched Q W
  unfolding set_running clear_running
  run_turn id turn i k =
      clear_running id (turn i (set_running id i (at i (λ p. record p { state = running }) k)))

  -- STEP 4 of scheduler(), on the CPU `id`. The result lists the processes that were run.
  unfoldable pub run_list :
      ℕ
      → (ℕ → Kernel Sched Q W → Kernel Sched Q W)
      → List ℕ
      → Kernel Sched Q W
      → Kernel Sched Q W × List ℕ
  run_list id turn [] k = (k, [])
  run_list id turn (i ∷ is) k =
      let go = is_runnable k i in
      let k1 = if go then run_turn id turn i k else k in
      let (k2, ran) = run_list id turn is k1 in (k2, if go then i ∷ ran else ran)

  -- A round of scheduler() on the CPU `id`: the processes that it
  -- ran, of which there are none when the CPU goes on to wait for an interrupt.
  unfoldable pub schedule :
      ℕ
      → ℕ
      → (ℕ → Kernel Sched Q W → Kernel Sched Q W)
      → Kernel Sched Q W
      → Kernel Sched Q W × List ℕ
  unfolding plan run_list
  schedule id ncpu turn k = let (k1, final_list) = plan ncpu k in run_list id turn final_list k1
