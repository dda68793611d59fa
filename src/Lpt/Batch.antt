-- ===== src/Lpt/Batch.antt =====
-- lpt/proc.c, scheduler(): the batch of RUNNABLE processes, its order and its tuples. A batch is
-- a list of indices into proc[].
use os_project_files.Base.{
  ℕ, zero, suc, ◌+◌, none, some, List, [], ◌∷◌, ◌++◌, Bool, false, add32, ltb_int, get_elem?, take,
  drop, if◌then◌else◌,
}
use os_project_files.Kernel.{runnable, state_eq, Proc}

-- The field of struct proc that this scheduler adds.
pub record Sched : Type 0 where
  pub est_time : ℕ

-- The store of STEP 1 into a RUNNABLE process.
unfoldable pub estimate : Proc Sched → Proc Sched
estimate p = record p { sched = record { est_time = add32 p.rtime 1 } }

-- `p->state == RUNNABLE` for proc[n].
abbrev pub runnable_slot : List (Proc Sched) → ℕ → Bool
runnable_slot [] n = false
runnable_slot (p ∷ ps) zero = state_eq p.state runnable
runnable_slot (p ∷ ps) (suc n) = runnable_slot ps n

-- STEP 1, over the slots from proc[i] on: the new table and the batch.
unfoldable pub collect : List (Proc Sched) → ℕ → List (Proc Sched) × List ℕ
unfolding estimate
collect [] i = ([], [])
collect (p ∷ ps) i =
    let (rest, batch) = collect ps (i + 1) in
    if state_eq p.state runnable then (estimate p ∷ rest, i ∷ batch) else (p ∷ rest, batch)

-- batch[j]->est_time, by the index that the batch holds.
unfoldable pub key : List (Proc Sched) → ℕ → ℕ
key procs i = elim (get_elem? procs i) [ none ↦ 0 | some p ↦ p.sched.est_time ]

module _ (est : ℕ → ℕ) where
  -- The inner loop of STEP 2: x is batch[i] and the list batch[i + 1] to the end. A later entry
  -- that is larger changes places with batch[i].
  unfoldable pub sweep : ℕ → List ℕ → ℕ × List ℕ
  sweep x [] = (x, [])
  sweep x (y ∷ ys) =
      let swap = ltb_int (est x) (est y) in
      let (m, r) = sweep (if swap then y else x) ys in (m, (if swap then x else y) ∷ r)

  -- STEP 2: the outer loop, with the rounds left, over the entries from batch[i] on.
  unfoldable pub sort : ℕ → List ℕ → List ℕ
  unfolding sweep
  sort zero l = l
  sort (suc n) [] = []
  sort (suc n) (x ∷ xs) = let (m, r) = sweep x xs in m ∷ sort n r

-- STEP 3: tuples of NCPU entries are copied one after the other. The first argument is NCPU, the
-- second bounds the number of tuples.
unfoldable pub group : ℕ → ℕ → List ℕ → List ℕ
group ncpu zero batch = []
group ncpu (suc n) [] = []
group ncpu (suc n) (x ∷ xs) = take ncpu (x ∷ xs) ++ group ncpu n (drop ncpu (x ∷ xs))
