-- ===== src/WorkStealing.antt =====
-- work stealing/proc.c and work stealing/proc.h: the field that this scheduler adds to struct
-- proc, the run queue of each CPU, and the functions of proc.c that use them. Each round of
-- scheduler() runs by itself, from one switch to the next; other CPUs act between rounds.
pub mod Deque
pub mod Ring
pub mod Queue
pub mod Victim
pub mod Search
pub mod Yield
pub mod Waiting
pub mod Pushing
pub mod Choice
pub mod Kept
pub mod Round
pub mod Calls
pub mod Shared
mod Tests
use os_project_files.Base.{
  ℕ, zero, suc, ◌+◌, ◌-◌, ◌*◌, ◌%◌, Option, none, some, List, Bool, true, false, not, ◌&&◌, ◌==◌,
  length, get_elem?, modify, minus_one, u32_mod, if◌then◌else◌,
}
use os_project_files.Kernel.{
  sleeping, runnable, running, state_eq, Chan, chan_eq, ptr_eq, Cpu, Proc, Kernel, Outcome, at,
  proc_at, myproc, set_running, clear_running,
}
use os_project_files.Process.Loop.{for_each}
use os_project_files.Process.Sleep.{SwitchEnv, sched}
use Deque.{max_tasks, push_back, pop_front, pop_back}
use Deque

-- The field of struct proc that this scheduler adds.
pub record Sched : Type 0 where
  pub last_cpu : ℕ

-- What allocproc stores into it: -1.
unfoldable pub init_sched : ℕ → Sched → Sched
init_sched ticks s = record { last_cpu = minus_one }

-- rand(): the new seed is the result.
unfoldable pub rand : ℕ → ℕ
rand seed = (seed * 1103515245 + 12345) % u32_mod

-- select_victim(id): the victim and the new seed. The fuel bounds the rounds of the do loop.
unfoldable pub select_victim : ℕ → ℕ → ℕ → ℕ → Option (ℕ × ℕ)
unfolding rand
select_victim ncpu id zero seed = none
select_victim ncpu id (suc fuel) seed =
    let seed1 = rand seed in
    let victim = seed1 % ncpu in
    let again = select_victim ncpu id fuel seed1 in
    if victim == id then again else some (victim, seed1)

unfoldable pub make_ready : Proc Sched → Proc Sched
make_ready p = record p { state = runnable }

-- The two loops of scheduler() that take entries off a queue until one is RUNNABLE, with the
-- rounds left: the entry, and what is left of the queue.
unfoldable pub find_in :
    (Deque.Deque → Option ℕ × Deque.Deque) → (ℕ → Bool) → ℕ → Deque.Deque → Option ℕ × Deque.Deque
find_in pop run zero c = (none, c)
find_in pop run (suc n) c =
    let (task, c1) = pop c in
    let rest = find_in pop run n c1 in
    elim task [ none ↦ (none, c1) | some i ↦ if run i then (some i, c1) else rest ]

module _ {W : Type 0} where
  -- push_back(&cpus[id], &proc[i])
  unfoldable pub enqueue : ℕ → ℕ → Kernel Sched Deque.Deque W → Kernel Sched Deque.Deque W
  enqueue id i k = record k {
    cpus = modify k.cpus id (λ c. record c { queue = push_back c.queue i });
  }

  unfoldable pub is_runnable : Kernel Sched Deque.Deque W → ℕ → Bool
  is_runnable k i = elim (proc_at k i) [ none ↦ false | some p ↦ state_eq p.state runnable ]

  -- One of the two loops on the queue of the CPU `id`.
  unfoldable pub find_task :
      (Deque.Deque → Option ℕ × Deque.Deque)
      → ℕ
      → Kernel Sched Deque.Deque W
      → Option ℕ × Kernel Sched Deque.Deque W
  find_task pop id k = elim (get_elem? k.cpus id) [
    | none ↦ (none, k)
    | some c ↦
        let (task, q) = find_in pop (is_runnable k) max_tasks c.queue in
        (task, record k { cpus = modify k.cpus id (λ d. record d { queue = q }) })
  ]

  -- The stealing loop, with the attempts left: the task, the kernel and the new seed.
  unfoldable pub steal :
      ℕ
      → ℕ
      → ℕ
      → ℕ
      → ℕ
      → Kernel Sched Deque.Deque W
      → Option (Option ℕ × Kernel Sched Deque.Deque W × ℕ)
  steal ncpu fuel id zero seed k = some (none, k, seed)
  steal ncpu fuel id (suc n) seed k = elim (select_victim ncpu id fuel seed) [
    | none ↦ none
    | some (victim, seed1) ↦
        let (task, k1) = find_task pop_front victim k in
        elim task [ none ↦ steal ncpu fuel id n seed1 k1 | some i ↦ some (some i, k1, seed1) ]
  ]

  -- The choice of one round of scheduler(): the own queue from its back, then the others' fronts.
  unfoldable pub select :
      ℕ
      → ℕ
      → ℕ
      → ℕ
      → Kernel Sched Deque.Deque W
      → Option (Option ℕ × Kernel Sched Deque.Deque W × ℕ)
  select ncpu fuel id seed k =
      let (task, k1) = find_task pop_back id k in
      elim task [ some i ↦ some (some i, k1, seed) | none ↦ steal ncpu fuel id (ncpu - 1) seed k1 ]

  -- scheduler() with a process chosen, to the switch.
  unfoldable pub dispatch : ℕ → ℕ → Kernel Sched Deque.Deque W → Kernel Sched Deque.Deque W
  unfolding set_running
  dispatch id i k =
      set_running id i
        (at i (λ p. record p { state = running; sched = record { last_cpu = id } }) k)

  -- What follows the choice: the process that was found runs, or the CPU waits for an interrupt.
  unfoldable pub run_found : ℕ → Option ℕ → Kernel Sched Deque.Deque W → Kernel Sched Deque.Deque W
  unfolding dispatch
  run_found id none k = k
  run_found id (some i) k = dispatch id i k

  -- A round of scheduler() on the CPU `id`, to the switch: the process that runs, the kernel and the
  -- new seed.
  unfoldable pub schedule :
      ℕ
      → ℕ
      → ℕ
      → ℕ
      → Kernel Sched Deque.Deque W
      → Option (Option ℕ × Kernel Sched Deque.Deque W × ℕ)
  unfolding select run_found
  schedule ncpu fuel id seed k = elim (select ncpu fuel id seed k) [
    | none ↦ none
    | some (task, k1, seed1) ↦ some (task, run_found id task k1, seed1)
  ]

  -- scheduler(), behind the switch: a process that comes back RUNNABLE is pushed.
  unfoldable pub resume : ℕ → ℕ → Kernel Sched Deque.Deque W → Kernel Sched Deque.Deque W
  unfolding clear_running enqueue
  resume id i k = let k1 = clear_running id k in if is_runnable k1 i then enqueue id i k1 else k1

  -- A process made RUNNABLE and pushed onto the queue of the CPU `id`.
  unfoldable pub ready : ℕ → ℕ → Kernel Sched Deque.Deque W → Kernel Sched Deque.Deque W
  unfolding make_ready enqueue
  ready id i k = enqueue id i (at i make_ready k)

  -- yield() on the CPU `id`, to the switch.
  unfoldable pub yield :
      SwitchEnv → ℕ → ℕ → Kernel Sched Deque.Deque W → Outcome (Kernel Sched Deque.Deque W)
  unfolding ready
  yield env id me k = sched env me (ready id me k)

  -- The body of wakeup's loop, for proc[i].
  unfoldable pub wake_one :
      ℕ → Option ℕ → Chan → ℕ → Kernel Sched Deque.Deque W → Kernel Sched Deque.Deque W
  unfolding ready
  wake_one id self chan i k = elim (proc_at k i) [
    | none ↦ k
    | some p ↦
        if not (ptr_eq (some i) self) && (state_eq p.state sleeping && chan_eq p.chan chan)
        then ready id i k
        else k
  ]

  -- wakeup(chan) on the CPU `id`.
  unfoldable pub wakeup : ℕ → Chan → Kernel Sched Deque.Deque W → Kernel Sched Deque.Deque W
  unfolding wake_one for_each
  wakeup id chan k = for_each (wake_one id (myproc id k) chan) k
