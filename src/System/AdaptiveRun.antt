-- ===== src/System/AdaptiveRun.antt =====
-- The scheduler of adaptive/proc.c as a scheduler of the machine.
use mathlib.Core.Option.{some-injective}
use os_project_files.Adaptive.Calls.{start_sched, publish}
use os_project_files.Adaptive.Choice.{FirstBest, select_iff}
use os_project_files.Adaptive.Scan.{Sched, select}
use os_project_files.Adaptive.{
  init_sched, inherit_sched, make_ready, wake_one, wakeup, dispatch_proc, schedule,
}
use os_project_files.Base.{
  ℕ, zero, suc, ◌≡◌, refl, sym, ap, ◌∙◌, subst, inl, inr, Option, Option-cases, none, some, List,
  [], ◌∷◌, Bool-cases, not, ◌&&◌, get_elem?,
}
use os_project_files.Kernel.{
  sleeping, runnable, state_eq, Chan, chan_eq, ptr_eq, Cpu, Proc, Kernel, at, proc_at, myproc,
  clear_running, set_running,
}
use os_project_files.System.Effects.{at-Settles}
use os_project_files.System.Policy.{Policy, Starts}
use os_project_files.System.Switch.{clear_running-Leaves, dispatch-Starts}
use os_project_files.System.Views.{Still, Still-refl}
use os_project_files.System.Wakes.{Wakes, Still-Wakes, at-Wakes, for_each-Wakes, asleep}

-- The slot that scheduler() chooses is RUNNABLE.
FirstBest-runnable :
    (ticks : ℕ) (ps : List (Proc Sched)) (i c : ℕ)
    → FirstBest ticks ps i c
    → (p : Proc Sched) × (get_elem? ps i ≡ some p) × (p.state ≡ runnable)
FirstBest-runnable ticks [] i c f = absurd f
FirstBest-runnable ticks (p ∷ ps) zero c f = (p, refl, f.0.0)
FirstBest-runnable ticks (p ∷ ps) (suc i) c f = FirstBest-runnable ticks ps i c f.1

module _ {Q W : Type 0} where
  wake_one-Wakes :
      (self : Option ℕ) (chan : Chan) (i : ℕ) (k : Kernel Sched Q W)
      → Wakes k (wake_one self chan i k)
  unfolding wake_one make_ready
  wake_one-Wakes self chan i k = elim (Option-cases (proc_at k i)) [
    | inl e ↦ rw (e, wake_one) (Still-Wakes (Still-refl k))
    | inr (p, e) ↦
        elim (Bool-cases
          (not (ptr_eq (some i) self) && (state_eq p.state sleeping && chan_eq p.chan chan))) [
            | inl t ↦
                rw (e, wake_one) (rw t (at-Wakes i (make_ready k.ticks) k e (asleep p _ _ t) refl))
            | inr t ↦ rw (e, wake_one) (rw t (Still-Wakes (Still-refl k)))
          ]
  ]

  pub wakeup-Wakes : (id : ℕ) (chan : Chan) (k : Kernel Sched Q W) → Wakes k (wakeup id chan k)
  unfolding wakeup
  wakeup-Wakes id chan k =
      for_each-Wakes (wake_one (myproc id k) chan) (wake_one-Wakes (myproc id k) chan) k

  -- A round of scheduler() on an idle CPU that runs slot i.
  abbrev pub Chooses : ℕ → Kernel Sched Q W → ℕ → Kernel Sched Q W → Type 0
  Chooses id k i l =
      (c : Cpu Q) × (get_elem? k.cpus id ≡ some c) × (c.proc ≡ none) × (schedule id k ≡ (l, some i))

  schedule-some :
      (id i : ℕ) (k l : Kernel Sched Q W)
      → schedule id k ≡ (l, some i)
      → (select k.ticks k.procs ≡ some i) × (set_running id i (at i dispatch_proc k) ≡ l)
  unfolding schedule
  schedule-some id i k l h = elim (Option-cases (select k.ticks k.procs)) [
    | inl e ↦ absurd (cc (ap (λ (r : Kernel Sched Q W × Option ℕ). r.1) (rw (e, schedule) at h)))
    | inr (j, e) ↦
        let r = rw (e, schedule) at h in
        let same : j ≡ i = some-injective _ _ (ap (λ (r : Kernel Sched Q W × Option ℕ). r.1) r) in
        (
          e ∙ ap some same,
          ap (λ (n : ℕ). set_running id n (at n dispatch_proc k)) (sym same)
              ∙ ap (λ (r : Kernel Sched Q W × Option ℕ). r.0) r,
        )
  ]

  pub schedule-none : (id : ℕ) (k l : Kernel Sched Q W) → schedule id k ≡ (l, none) → k ≡ l
  unfolding schedule
  schedule-none id k l h = elim (Option-cases (select k.ticks k.procs)) [
    | inl e ↦ ap (λ (r : Kernel Sched Q W × Option ℕ). r.0) (rw (e, schedule) at h)
    | inr (j, e) ↦
        absurd (cc (ap (λ (r : Kernel Sched Q W × Option ℕ). r.1) (rw (e, schedule) at h)))
  ]

  pub Chooses-Starts : (id i : ℕ) (k l : Kernel Sched Q W) → Chooses id k i l → Starts id i k l
  unfolding dispatch_proc
  Chooses-Starts id i k l (c, at_id, free, h) =
      let (chosen, eq) = schedule-some id i k l h in
      let (n, _, best) = (select_iff k.ticks k.procs i).0 chosen in
      let (p, at_i, ready) = FirstBest-runnable k.ticks k.procs i n best in
      subst (Starts id i k) eq (dispatch-Starts id i dispatch_proc k at_id free at_i ready refl)

  unfoldable pub adaptive : Policy Sched Q W
  unfolding make_ready publish
  adaptive = record {
    init_sched = init_sched;
    start = start_sched;
    inherit = inherit_sched;
    publish = λ id i k. publish i k;
    wakeup = wakeup;
    ready = λ id i k. at i (make_ready k.ticks) k;
    leave = λ id i k. clear_running id k;
    Prepares = λ id k l. schedule id k ≡ (l, none);
    Chooses = Chooses;
    publish-procs = λ id i k. refl;
    publish-Still = λ id i k. Still-refl k;
    wakeup-Wakes = wakeup-Wakes;
    ready-Settles = λ id i k. at-Settles i runnable (make_ready k.ticks) k (λ p. refl);
    leave-Leaves = λ id i k. clear_running-Leaves id k;
    Prepares-Still = λ id k l h. subst (Still k) (schedule-none id k l h) (Still-refl k);
    Chooses-Starts = Chooses-Starts;
  }
