-- ===== src/Adaptive/Aging.antt =====
-- The effective priority of adaptive/proc.c as arithmetic on true times.
use os_project_files.Base.{ℕ, ◌+◌, ◌-◌, ◌*◌, ◌%◌, ◌^◌, ◌≤◌, ◌<◌, ◌≡◌, arith, u32_mod}
use os_project_files.Adaptive.Scan.{Sched, curr_pri, priority_max, aging_rate}

-- A process that became ready at the true tick `since` competes at the true tick `now` with its
-- priority less ten for each tick of waiting, cut off at 0. It holds across a wrap-around of the
-- 32-bit tick counter, while ten times the wait is below 2 ^ 31.
pub curr_pri_lem :
    (now since : ℕ) (s : Sched)
    → s.age_start ≡ since % u32_mod
    → s.priority < 2 ^ 31
    → since ≤ now
    → (now - since) * aging_rate < 2 ^ 31
    → curr_pri (now % u32_mod) s ≡ s.priority - (now - since) * aging_rate
unfolding curr_pri
curr_pri_lem now since s e hp hs hw = ground arith

pub curr_pri-lt : (ticks : ℕ) (s : Sched) → curr_pri ticks s < 2 ^ 31
unfolding curr_pri
curr_pri-lt ticks s = ground arith

-- Past that bound the product is a negative `int`, and the priority leaves its range: a process
-- in the range that waits for 214749365 to 429495000 ticks is never below the scan's sentinel 10001.
pub curr_pri-overflow :
    (now since : ℕ) (s : Sched)
    → s.age_start ≡ since % u32_mod
    → s.priority ≤ priority_max
    → since + 214749365 ≤ now
    → now ≤ since + 429495000
    → priority_max < curr_pri (now % u32_mod) s
unfolding curr_pri
curr_pri-overflow now since s e hp hs hw = ground arith
