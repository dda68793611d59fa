-- ===== src/System/StealingRun.antt =====
-- The scheduler of work stealing/proc.c as a scheduler of the machine.
use os_project_files.Base.{
  ℕ, zero, suc, ◌-◌, ◌≡◌, refl, sym, ◌∙◌, subst, inl, inr, Option, Option-cases, none, some,
  Bool-cases, true, not, ◌&&◌, get_elem?, arith,
}
use os_project_files.Kernel.{
  sleeping, runnable, running, state_eq, Chan, chan_eq, ptr_eq, Cpu, Proc, Kernel, at, proc_at,
  myproc, clear_running,
}
use os_project_files.System.Effects.{at-Settles}
use os_project_files.System.Policy.{
  Policy, Starts, Settles, Leaves, Settles-Still, Leaves-Still, Still-Starts,
}
use os_project_files.System.Switch.{clear_running-Leaves, dispatch-Starts, cpu-Still}
use os_project_files.System.Views.{Still, Still-refl, Still-trans}
use os_project_files.System.Wakes.{
  Wakes, Still-Wakes, Wakes-trans, at-Wakes, for_each-Wakes, asleep,
}
use os_project_files.WorkStealing.Calls.{inherit_sched, start_sched, publish}
use os_project_files.WorkStealing.Choice.{find_task-Sound, is_runnable_cong}
use os_project_files.WorkStealing.Deque.{Deque, pop_front, pop_back}
use os_project_files.WorkStealing.{
  Sched, init_sched, make_ready, enqueue, is_runnable, find_task, select_victim, steal, select,
  dispatch, resume, ready, wake_one, wakeup,
}

module _ {W : Type 0} where
  enqueue-Still : (id i : ℕ) (k : Kernel Sched Deque W) → Still k (enqueue id i k)
  unfolding enqueue
  enqueue-Still id i k = cpu-Still id _ k (λ c. refl)

  pub ready-Settles : (id i : ℕ) (k : Kernel Sched Deque W) → Settles i runnable k (ready id i k)
  unfolding ready make_ready
  ready-Settles id i k =
      Settles-Still (at-Settles i runnable make_ready k (λ p. refl))
        (enqueue-Still id i (at i make_ready k))

  wake_one-Wakes :
      (id : ℕ) (self : Option ℕ) (chan : Chan) (i : ℕ) (k : Kernel Sched Deque W)
      → Wakes k (wake_one id self chan i k)
  unfolding wake_one ready make_ready
  wake_one-Wakes id self chan i k = elim (Option-cases (proc_at k i)) [
    | inl e ↦ rw (e, wake_one) (Still-Wakes (Still-refl k))
    | inr (p, e) ↦
        elim (Bool-cases
          (not (ptr_eq (some i) self) && (state_eq p.state sleeping && chan_eq p.chan chan))) [
            | inl t ↦
                rw (e, wake_one)
                  (rw t (
                    Wakes-trans (at-Wakes i make_ready k e (asleep p _ _ t) refl)
                      (Still-Wakes (enqueue-Still id i (at i make_ready k)))))
            | inr t ↦ rw (e, wake_one) (rw t (Still-Wakes (Still-refl k)))
          ]
  ]

  pub wakeup-Wakes : (id : ℕ) (chan : Chan) (k : Kernel Sched Deque W) → Wakes k (wakeup id chan k)
  unfolding wakeup
  wakeup-Wakes id chan k =
      for_each-Wakes (wake_one id (myproc id k) chan) (wake_one-Wakes id (myproc id k) chan) k

  pub resume-Leaves : (id i : ℕ) (k : Kernel Sched Deque W) → Leaves id k (resume id i k)
  unfolding resume
  resume-Leaves id i k = elim (Bool-cases (is_runnable (clear_running id k) i)) [
    | inl e ↦
        rw e (Leaves-Still (clear_running-Leaves id k) (enqueue-Still id i (clear_running id k)))
    | inr e ↦ rw e (clear_running-Leaves id k)
  ]

  -- What a search for a task leaves: a RUNNABLE task, and the marks as they were.
  abbrev pub Searched : Kernel Sched Deque W → Option ℕ → Kernel Sched Deque W → Type 0
  Searched k task l =
      Still k l × (l.procs ≡ k.procs) × ((i : ℕ) → task ≡ some i → is_runnable k i ≡ true)

  Searched-trans :
      {k l m : Kernel Sched Deque W} {task : Option ℕ}
      → Still k l
      → l.procs ≡ k.procs
      → Searched l task m
      → Searched k task m
  Searched-trans {k} {l} q e (r, f, runs) =
      (Still-trans q r, f ∙ e, λ i t. sym (is_runnable_cong k l i e) ∙ runs i t)

  find_task-Still :
      (pop : Deque → Option ℕ × Deque) (id : ℕ) (k : Kernel Sched Deque W)
      → Still k (find_task pop id k).1
  unfolding find_task
  find_task-Still pop id k = elim (Option-cases (get_elem? k.cpus id)) [
    | inl e ↦ rw (e, find_task) (Still-refl k)
    | inr (c, e) ↦ rw (e, find_task) (cpu-Still id _ k (λ d. refl))
  ]

  find_task-Searched :
      (pop : Deque → Option ℕ × Deque) (id : ℕ) (k : Kernel Sched Deque W)
      → Searched k (find_task pop id k).0 (find_task pop id k).1
  find_task-Searched pop id k =
      let (same, runs) = find_task-Sound pop id k in (find_task-Still pop id k, same, runs)

  -- The value of a search that ends.
  abbrev Returns : Kernel Sched Deque W → Option (Option ℕ × Kernel Sched Deque W × ℕ) → Type 0
  Returns k none = Unit
  Returns k (some (task, l, seed)) = Searched k task l

  Returns-trans :
      {k l : Kernel Sched Deque W} (r : Option (Option ℕ × Kernel Sched Deque W × ℕ))
      → Still k l
      → l.procs ≡ k.procs
      → Returns l r
      → Returns k r
  Returns-trans none q e t = tt
  Returns-trans (some (task, l, seed)) q e s = Searched-trans q e s

  steal-Returns :
      (ncpu fuel id n seed : ℕ) (k : Kernel Sched Deque W) → Returns k (steal ncpu fuel id n seed k)
  unfolding steal
  steal-Returns ncpu fuel id zero seed k = (Still-refl k, refl, λ i e. cc)
  steal-Returns ncpu fuel id (suc n) seed k =
      elim (Option-cases (select_victim ncpu id fuel seed)) [
        | inl e ↦ rw (e, steal) tt
        | inr ((victim, seed1), e) ↦
            let (q, same, runs) = find_task-Searched pop_front victim k in
            elim (Option-cases (find_task pop_front victim k).0) [
              | inl t ↦
                  rw (e, steal)
                    (rw (t, steal)
                      (Returns-trans (steal ncpu fuel id n seed1 (find_task pop_front victim k).1) q
                        same (steal-Returns ncpu fuel id n seed1 _)))
              | inr (i, t) ↦ rw (e, steal) (rw (t, steal) (q, same, λ j f. runs j (t ∙ f)))
            ]
      ]

  select-Returns :
      (ncpu fuel id seed : ℕ) (k : Kernel Sched Deque W) → Returns k (select ncpu fuel id seed k)
  unfolding select
  select-Returns ncpu fuel id seed k =
      let (q, same, runs) = find_task-Searched pop_back id k in
      elim (Option-cases (find_task pop_back id k).0) [
        | inl t ↦
            rw (t, select)
              (Returns-trans (steal ncpu fuel id (ncpu - 1) seed (find_task pop_back id k).1) q same
                (steal-Returns ncpu fuel id (ncpu - 1) seed _))
        | inr (i, t) ↦ rw (t, select) (q, same, λ j f. runs j (t ∙ f))
      ]

  -- A search of scheduler() that ends with the task, or with none.
  abbrev pub Finds : ℕ → Kernel Sched Deque W → Option ℕ → Kernel Sched Deque W → Type 0
  Finds id k task l =
      (ncpu : ℕ) × (fuel : ℕ) × (seed : ℕ) × (seed1 : ℕ) × (select ncpu fuel id seed k
        ≡ some (task, l, seed1))

  pub Finds-Searched :
      (id : ℕ) (task : Option ℕ) (k l : Kernel Sched Deque W)
      → Finds id k task l
      → Searched k task l
  Finds-Searched id task k l (ncpu, fuel, seed, seed1, e) =
      subst (Returns k) e (select-Returns ncpu fuel id seed k)

  -- A round of scheduler() on an idle CPU that runs slot i.
  abbrev pub Chooses : ℕ → Kernel Sched Deque W → ℕ → Kernel Sched Deque W → Type 0
  Chooses id k i l =
      (m : Kernel Sched Deque W) × (c : Cpu Deque) × Finds id k (some i) m
      × (get_elem? m.cpus id ≡ some c)
      × (c.proc ≡ none)
      × (l ≡ dispatch id i m)

  is_runnable-some :
      (k : Kernel Sched Deque W) (i : ℕ)
      → is_runnable k i ≡ true
      → (p : Proc Sched) × (proc_at k i ≡ some p) × (p.state ≡ runnable)
  unfolding is_runnable
  is_runnable-some k i h = elim (Option-cases (proc_at k i)) [
    | inl e ↦ absurd (cc (rw (e, is_runnable) at h))
    | inr (p, e) ↦ (p, e, is_ready p (rw (e, is_runnable) at h))
  ]
    where
      is_ready : (p : Proc Sched) → state_eq p.state runnable ≡ true → p.state ≡ runnable
      is_ready p h = ground arith

  dispatch-Starts_of :
      (id i : ℕ) (m : Kernel Sched Deque W) {c : Cpu Deque} {p : Proc Sched}
      → get_elem? m.cpus id ≡ some c
      → c.proc ≡ none
      → proc_at m i ≡ some p
      → p.state ≡ runnable
      → Starts id i m (dispatch id i m)
  unfolding dispatch
  dispatch-Starts_of id i m at_id free at_i run =
      dispatch-Starts id i (λ p. record p { state = running; sched = record { last_cpu = id } }) m
        at_id free at_i run refl

  pub Chooses-Starts : (id i : ℕ) (k l : Kernel Sched Deque W) → Chooses id k i l → Starts id i k l
  Chooses-Starts id i k l (m, c, found, at_id, free, eq) =
      let (q, same, runs) = Finds-Searched id (some i) k m found in
      let (p, at_i, run) = is_runnable-some m i (is_runnable_cong k m i same ∙ runs i refl) in
      subst (Starts id i k) (sym eq)
        (Still-Starts q (dispatch-Starts_of id i m at_id free at_i run))

  pub publish-procs : (id i : ℕ) (k : Kernel Sched Deque W) → (publish id i k).procs ≡ k.procs
  unfolding publish enqueue
  publish-procs id i k = refl

  pub publish-Still : (id i : ℕ) (k : Kernel Sched Deque W) → Still k (publish id i k)
  unfolding publish
  publish-Still id i k = enqueue-Still id i k

  unfoldable pub work_stealing : Policy Sched Deque W
  unfolding publish
  work_stealing = record {
    init_sched = init_sched;
    start = start_sched;
    inherit = inherit_sched;
    publish = publish;
    wakeup = wakeup;
    ready = ready;
    leave = resume;
    Prepares = λ id k l. Finds id k none l;
    Chooses = Chooses;
    publish-procs = publish-procs;
    publish-Still = publish-Still;
    wakeup-Wakes = wakeup-Wakes;
    ready-Settles = ready-Settles;
    leave-Leaves = resume-Leaves;
    Prepares-Still = λ id k l h. (Finds-Searched id none k l h).0;
    Chooses-Starts = Chooses-Starts;
  }
