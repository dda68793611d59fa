-- ===== src/WorkStealing/Choice.antt =====
-- What a round of scheduler() in work stealing/proc.c chooses.
use os_project_files.Base.{
  ℕ, zero, suc, ◌*◌, ◌-◌, ◌<◌, ◌≡◌, refl, sym, ap, ◌∙◌, inl, inr, Option, Option-cases, none, some,
  List, Bool, Bool-cases, true, false, get_elem?,
}
use os_project_files.Kernel.{Proc, Kernel, state_eq, runnable}
use os_project_files.WorkStealing.Deque.{Deque, pop_front, pop_back, max_tasks}
use os_project_files.WorkStealing.Search.{find_in-step_hit, find_in-step_stale}
use os_project_files.WorkStealing.Victim.{select_victim-total}
use os_project_files.WorkStealing.{Sched, find_in, find_task, is_runnable, steal, select}

find_in-runs :
    (pop : Deque → Option ℕ × Deque) (run : ℕ → Bool) (n i : ℕ) (c : Deque)
    → (find_in pop run n c).0 ≡ some i
    → run i ≡ true
unfolding find_in
find_in-runs pop run zero i c h = cc
find_in-runs pop run (suc n) i c h = elim (Option-cases (pop c).0) [
  | inl e ↦ absurd (cc (rw (e, find_in) at h))
  | inr (j, e) ↦ elim (Bool-cases (run j)) [
    | inl r ↦
        let same : some j ≡ some i =
          sym (ap (λ (t : Option ℕ × Deque). t.0) (find_in-step_hit run pop n j c e r)) ∙ h in
        cc
    | inr r ↦
        find_in-runs pop run n i (pop c).1
          (sym (ap (λ (t : Option ℕ × Deque). t.0) (find_in-step_stale run pop n j c e r)) ∙ h)
  ]
]

module _ {W : Type 0} where
  -- The result of a search is RUNNABLE, and the table is as it was.
  abbrev pub Sound : Kernel Sched Deque W → Option ℕ → Kernel Sched Deque W → Type 0
  Sound k task l = (l.procs ≡ k.procs) × ((i : ℕ) → task ≡ some i → is_runnable k i ≡ true)

  pub is_runnable_cong :
      (k l : Kernel Sched Deque W) (i : ℕ) → l.procs ≡ k.procs → is_runnable l i ≡ is_runnable k i
  unfolding is_runnable
  is_runnable_cong k l i e =
      ap
        (λ (ps : List (Proc Sched)). elim (get_elem? ps i) [
          | none ↦ false
          | some p ↦ state_eq p.state runnable
        ])
        e

  pub find_task-Sound :
      (pop : Deque → Option ℕ × Deque) (id : ℕ) (k : Kernel Sched Deque W)
      → Sound k (find_task pop id k).0 (find_task pop id k).1
  unfolding find_task
  find_task-Sound pop id k = elim (Option-cases (get_elem? k.cpus id)) [
    | inl e ↦ rw (e, find_task) (refl, λ i h. cc)
    | inr (c, e) ↦
        rw (e, find_task) (refl, λ i h. find_in-runs pop (is_runnable k) max_tasks i c.queue h)
  ]

  -- A search that ends: with its task, the kernel and the seed.
  abbrev pub Ends : Kernel Sched Deque W → Option (Option ℕ × Kernel Sched Deque W × ℕ) → Type 0
  Ends k r =
      (task : Option ℕ) × (l : Kernel Sched Deque W) × (seed : ℕ) × (r ≡ some (task, l, seed))
      × Sound k task l

  Ends-procs :
      (k l : Kernel Sched Deque W) (r : Option (Option ℕ × Kernel Sched Deque W × ℕ))
      → l.procs ≡ k.procs
      → Ends l r
      → Ends k r
  Ends-procs k l r e (task, m, seed, q, (same, sound)) =
      (task, m, seed, q, (same ∙ e, λ i h. sym (is_runnable_cong k l i e) ∙ sound i h))

  module _ (half id fuel : ℕ) (h : 0 < half) where
    steal-Ends :
        (n seed : ℕ) (k : Kernel Sched Deque W)
        → Ends k (steal (2 * half) (suc (suc fuel)) id n seed k)
    unfolding steal
    steal-Ends zero seed k = (none, k, seed, refl, (refl, λ i e. cc))
    steal-Ends (suc n) seed k =
        let (victim, seed1, e, _, _) = select_victim-total half id seed fuel h in
        let sound = find_task-Sound pop_front victim k in
        let l = (find_task pop_front victim k).1 in
        elim (Option-cases (find_task pop_front victim k).0) [
          | inl t ↦ rw (e, steal) (rw (t, steal) (Ends-procs k l _ sound.0 (steal-Ends n seed1 l)))
          | inr (i, t) ↦
              rw (e, steal)
                (rw (t, steal) (some i, l, seed1, refl, (sound.0, λ j q. sound.1 j (t ∙ q))))
        ]

    -- With an even number of CPUs above 0 a round of scheduler() comes to its choice: neither the
    -- own queue nor the stealing loop goes on for ever, a process that is chosen is RUNNABLE, and
    -- the table is as it was.
    pub select-Ends :
        (seed : ℕ) (k : Kernel Sched Deque W)
        → Ends k (select (2 * half) (suc (suc fuel)) id seed k)
    unfolding select
    select-Ends seed k =
        let sound = find_task-Sound pop_back id k in
        let l = (find_task pop_back id k).1 in
        elim (Option-cases (find_task pop_back id k).0) [
          | inl t ↦ rw (t, select) (Ends-procs k l _ sound.0 (steal-Ends (2 * half - 1) seed l))
          | inr (i, t) ↦ rw (t, select) (some i, l, seed, refl, (sound.0, λ j q. sound.1 j (t ∙ q)))
        ]
