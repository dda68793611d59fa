-- ===== src/Adaptive/Scan.antt =====
-- adaptive/proc.c, scheduler(): the scan of the table for the most urgent process, with the
-- calls of acquire() and release() that it makes.
use os_project_files.Base.{
  ℕ, ◌+◌, Option, none, some, List, [], ◌∷◌, to_u32, sub64, mul32, sub32, if◌then◌else◌,
  is_negative, ltb_int,
}
use os_project_files.Kernel.{runnable, state_eq, Proc}

-- The fields of struct proc that this scheduler adds.
pub record Sched : Type 0 where
  pub estimated_runtime : ℕ
  pub priority : ℕ
  pub age_start : ℕ
  pub affinity_cpu : ℕ

abbrev pub priority_default : ℕ
priority_default = 5000

abbrev pub priority_max : ℕ
priority_max = 10000

abbrev pub priority_min : ℕ
priority_min = 0

abbrev pub aging_rate : ℕ
aging_rate = 10

-- curr_pri. `ticks` is a `uint` and age_start a `uint64`; the difference is cut to 32 bits.
unfoldable pub curr_pri : ℕ → Sched → ℕ
curr_pri ticks s =
    let wait = sub64 ticks s.age_start in
    let pri = sub32 s.priority (mul32 (to_u32 wait) aging_rate) in
    if is_negative pri then priority_min else pri

-- A call of acquire() or release() on the lock of proc[i].
pub data LockOp : Type 0 where
  acquire : ℕ → LockOp
  release : ℕ → LockOp

-- The locals of the scan, and the lock operations so far, the newest first.
pub record Scan : Type 0 where
  pub chosen : Option ℕ
  pub best_pri : ℕ
  pub locks : List LockOp

unfoldable pub start : Scan
start = record { chosen = none; best_pri = priority_max + 1; locks = [] }

-- release(&chosen->lock), if there is a choice.
unfoldable pub release_chosen : Option ℕ → List LockOp → List LockOp
release_chosen none l = l
release_chosen (some i) l = release i ∷ l

-- The body of the loop, for the process p at proc[i].
unfoldable pub visit : ℕ → ℕ → Proc Sched → Scan → Scan
unfolding release_chosen
visit ticks i p s =
    let locks = acquire i ∷ s.locks in
    let curr = curr_pri ticks p.sched in
    if state_eq p.state runnable
    then (if ltb_int curr s.best_pri
        then record { chosen = some i; best_pri = curr; locks = release_chosen s.chosen locks }
        else record s { locks = release i ∷ locks })
    else record s { locks = release i ∷ locks }

-- The loop, over the slots from proc[i] on.
unfoldable pub scan_from : ℕ → ℕ → List (Proc Sched) → Scan → Scan
scan_from ticks i [] s = s
scan_from ticks i (p ∷ ps) s = scan_from ticks (i + 1) ps (visit ticks i p s)

-- The choice of one round of scheduler().
unfoldable pub select : ℕ → List (Proc Sched) → Option ℕ
unfolding scan_from start
select ticks procs = (scan_from ticks 0 procs start).chosen
