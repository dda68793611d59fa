-- ===== src/Lpt/Round.antt =====
-- A round of scheduler() of lpt/proc.c: which processes it plans to run, and which it runs.
use mathlib.Core.List.{Mem, Nodup, Nodup-cons, mem-cons_self, mem-cons_of_mem}
use mathlib.Core.List.Perm
use os_project_files.Base.{
  ℕ, zero, suc, ◌<◌, ◌≡◌, ◌≢◌, ◌↔◌, refl, sym, ap, ◌∙◌, subst, some, List, [], ◌∷◌, true, add32,
  length, get_elem?, get_elem?-modify_ne, arith,
}
use os_project_files.Kernel.{runnable, running, Proc, Kernel, proc_at}
use os_project_files.Lpt.Collect.{
  collect_sound, collect_complete, collect-Nodup, collect-slot, collect-key,
}
use os_project_files.Lpt.Batch.{Sched, runnable_slot, collect, key, sort}
use os_project_files.Lpt.Sort.{Descending, sort-perm, sort-Descending_of_le, group_lem}
use os_project_files.Lpt.{plan, run_turn, run_list, is_runnable, schedule}

runnable_slot_cong :
    (ps qs : List (Proc Sched)) (j : ℕ)
    → get_elem? ps j ≡ get_elem? qs j
    → runnable_slot ps j ≡ runnable_slot qs j
runnable_slot_cong [] [] j e = refl
runnable_slot_cong [] (q ∷ qs) zero e = cc
runnable_slot_cong [] (q ∷ qs) (suc j) e = runnable_slot_cong [] qs j e
runnable_slot_cong (p ∷ ps) [] zero e = cc
runnable_slot_cong (p ∷ ps) [] (suc j) e = runnable_slot_cong ps [] j e
runnable_slot_cong (p ∷ ps) (q ∷ qs) zero e = ground arith
runnable_slot_cong (p ∷ ps) (q ∷ qs) (suc j) e = runnable_slot_cong ps qs j e

is_runnable_cong :
    {Q W : Type 0} (k l : Kernel Sched Q W) (j : ℕ)
    → proc_at k j ≡ proc_at l j
    → is_runnable k j ≡ is_runnable l j
unfolding is_runnable
is_runnable_cong k l j e = runnable_slot_cong k.procs l.procs j e

module _ {Q W : Type 0} (id : ℕ) (turn : ℕ → Kernel Sched Q W → Kernel Sched Q W) where
  run_turn-frame :
      ((i j : ℕ) (k : Kernel Sched Q W) → i ≢ j → proc_at (turn i k) j ≡ proc_at k j)
      → (i j : ℕ) (k : Kernel Sched Q W) → i ≢ j
      → is_runnable (run_turn id turn i k) j ≡ is_runnable k j
  unfolding run_turn
  run_turn-frame own i j k ne =
      is_runnable_cong (run_turn id turn i k) k j
        (own i j _ ne ∙ get_elem?-modify_ne k.procs i j (λ p. record p { state = running }) ne)

  -- STEP 4 runs every process of final_list once, in its order, if each is RUNNABLE at first and no
  -- turn touches another process.
  run_list-all :
      ((i j : ℕ) (k : Kernel Sched Q W) → i ≢ j → proc_at (turn i k) j ≡ proc_at k j)
      → (l : List ℕ) (k : Kernel Sched Q W) → Nodup l
      → ((j : ℕ) → Mem j l → is_runnable k j ≡ true)
      → (run_list id turn l k).1 ≡ l
  unfolding run_list
  run_list-all own [] k n h = refl
  run_list-all own (i ∷ is) k n h = rw (h i mem-cons_self) (
      ap (◌∷◌ i) (
        run_list-all own is (run_turn id turn i k) (Nodup-cons.0 n).1 λ j m.
          run_turn-frame own i j k (λ e. (Nodup-cons.0 n).0 (subst (λ x. Mem x is) (sym e) m))
          ∙ h j (mem-cons_of_mem i m)))

module _ {Q W : Type 0} (k : Kernel Sched Q W) where
  -- What a round plans, from the table that STEP 1 leaves.
  abbrev pub Planned : List (Proc Sched) → List ℕ → Type 0
  Planned procs final =
      Descending (key procs) final
      × Nodup final
      × ((j : ℕ) → Mem j final ↔ (is_runnable k j ≡ true))
      × ((j : ℕ) (p : Proc Sched)
          → proc_at k j ≡ some p
          → p.state ≡ runnable
          → key procs j ≡ add32 p.rtime 1)

  sorted-Planned :
      let (procs, batch) = collect k.procs 0 in
      Planned procs (sort (key procs) (length batch) batch)
  unfolding is_runnable
  sorted-Planned =
      let procs = (collect k.procs 0).0 in
      let batch = (collect k.procs 0).1 in
      let perm = sort-perm (key procs) (length batch) batch in
      (
        sort-Descending_of_le (key procs) (length batch) batch (omega arith),
        Perm.nodup (Perm.symm perm) (collect-Nodup k.procs 0),
        (λ j. (
          (λ m.
              let (le, r) = collect_sound k.procs 0 j ((Perm.mem_iff perm).0 m) in
              subst (λ x. runnable_slot k.procs x ≡ true) (omega arith) r),
          λ r.
              (Perm.mem_iff perm).1
                (subst (λ x. Mem x batch) (omega arith) (collect_complete k.procs 0 j r)),
        )),
        λ j p e r. collect-key k.procs 0 j e r,
      )

  plan-is_runnable : (j ncpu : ℕ) → is_runnable (plan ncpu k).0 j ≡ is_runnable k j
  unfolding plan is_runnable
  plan-is_runnable j ncpu = collect-slot k.procs 0 j

  -- With NCPU above 0, final_list holds each process that is RUNNABLE at the start of the round,
  -- once, and no other. In it the estimates, which are rtime + 1, never rise.
  pub plan-Planned : (ncpu : ℕ) → 0 < ncpu → Planned (plan ncpu k).0.procs (plan ncpu k).1
  unfolding plan
  plan-Planned ncpu h =
      let procs = (collect k.procs 0).0 in
      let batch = (collect k.procs 0).1 in
      let sorted = sort (key procs) (length batch) batch in
      subst (Planned procs) (sym (group_lem ncpu (length sorted) sorted h (omega arith)))
        sorted-Planned

  -- If NCPU is above 0 and no turn touches another process, a round of scheduler() runs each process
  -- that is RUNNABLE at its start once, the longest estimate first.
  pub schedule-Planned :
      (id ncpu : ℕ) (turn : ℕ → Kernel Sched Q W → Kernel Sched Q W)
      → 0 < ncpu
      → ((i j : ℕ) (l : Kernel Sched Q W) → i ≢ j → proc_at (turn i l) j ≡ proc_at l j)
      → Planned (plan ncpu k).0.procs (schedule id ncpu turn k).1
  unfolding schedule
  schedule-Planned id ncpu turn h own =
      let (_, nodup, mem, _) = plan-Planned ncpu h in
      subst (Planned (plan ncpu k).0.procs)
        (sym (
          run_list-all id turn own (plan ncpu k).1 (plan ncpu k).0 nodup
            (λ j m. plan-is_runnable j ncpu ∙ (mem j).0 m)))
        (plan-Planned ncpu h)
