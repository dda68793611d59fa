-- ===== src/System/LptRun.antt =====
-- The scheduler of lpt/proc.c as a scheduler of the machine. A round plans, and then runs each
-- process of its list that is still RUNNABLE.
use os_project_files.Base.{
  ℕ, zero, suc, ◌+◌, ◌≡◌, refl, sym, subst, inl, inr, Option, Option-cases, none, some, List, [],
  ◌∷◌, Bool-cases, true, not, ◌&&◌, get_elem?, arith,
}
use os_project_files.Kernel.{
  sleeping, runnable, running, state_eq, Chan, chan_eq, ptr_eq, Cpu, Proc, Kernel, at, proc_at,
  myproc, clear_running, set_running,
}
use os_project_files.Lpt.Batch.{Sched, collect, estimate, runnable_slot}
use os_project_files.Lpt.Calls.{inherit_sched, start_sched, publish}
use os_project_files.Lpt.{init_sched, make_ready, wake_one, wakeup, plan, is_runnable}
use os_project_files.System.Effects.{at-Settles}
use os_project_files.System.Policy.{Policy, Starts}
use os_project_files.System.Switch.{clear_running-Leaves, dispatch-Starts}
use os_project_files.System.Views.{Still, Still-refl, Mark, mark_of}
use os_project_files.System.Wakes.{Wakes, Still-Wakes, at-Wakes, for_each-Wakes, asleep}

runnable_slot-some :
    (ps : List (Proc Sched)) (i : ℕ)
    → runnable_slot ps i ≡ true
    → (p : Proc Sched) × (get_elem? ps i ≡ some p) × (p.state ≡ runnable)
runnable_slot-some [] i h = cc
runnable_slot-some (p ∷ ps) zero h = (p, refl, is_ready p h)
  where
    is_ready : (p : Proc Sched) → state_eq p.state runnable ≡ true → p.state ≡ runnable
    is_ready p h = ground arith
runnable_slot-some (p ∷ ps) (suc i) h = runnable_slot-some ps i h

abbrev mark_in : List (Proc Sched) → ℕ → Option Mark
mark_in ps j = elim (get_elem? ps j) [ none ↦ none | some p ↦ some (mark_of p) ]

-- STEP 1 stores into est_time only.
collect-marks : (ps : List (Proc Sched)) (i j : ℕ) → mark_in (collect ps i).0 j ≡ mark_in ps j
unfolding collect estimate
collect-marks [] i j = refl
collect-marks (p ∷ ps) i zero = elim (Bool-cases (state_eq p.state runnable)) [
  | inl e ↦ rw e
  | inr e ↦ rw e
]
collect-marks (p ∷ ps) i (suc j) = elim (Bool-cases (state_eq p.state runnable)) [
  | inl e ↦ rw e (collect-marks ps (i + 1) j)
  | inr e ↦ rw e (collect-marks ps (i + 1) j)
]

module _ {Q W : Type 0} where
  wake_one-Wakes :
      (self : Option ℕ) (chan : Chan) (i : ℕ) (k : Kernel Sched Q W)
      → Wakes k (wake_one self chan i k)
  unfolding wake_one make_ready
  wake_one-Wakes self chan i k = elim (Option-cases (proc_at k i)) [
    | inl e ↦ rw (e, wake_one) (Still-Wakes (Still-refl k))
    | inr (p, e) ↦
        elim (Bool-cases
          (not (ptr_eq (some i) self) && (state_eq p.state sleeping && chan_eq p.chan chan))) [
            | inl t ↦ rw (e, wake_one) (rw t (at-Wakes i make_ready k e (asleep p _ _ t) refl))
            | inr t ↦ rw (e, wake_one) (rw t (Still-Wakes (Still-refl k)))
          ]
  ]

  pub wakeup-Wakes : (id : ℕ) (chan : Chan) (k : Kernel Sched Q W) → Wakes k (wakeup id chan k)
  unfolding wakeup
  wakeup-Wakes id chan k =
      for_each-Wakes (wake_one (myproc id k) chan) (wake_one-Wakes (myproc id k) chan) k

  pub plan-Still : (ncpu : ℕ) (k : Kernel Sched Q W) → Still k (plan ncpu k).0
  unfolding plan myproc
  plan-Still ncpu k = record {
    marks = λ j. collect-marks k.procs 0 j;
    cpus = λ id. refl;
    next = refl;
  }

  -- A turn of STEP 4 on an idle CPU that runs slot i.
  abbrev pub Chooses : ℕ → Kernel Sched Q W → ℕ → Kernel Sched Q W → Type 0
  Chooses id k i l =
      (c : Cpu Q) × (get_elem? k.cpus id ≡ some c)
      × (c.proc ≡ none)
      × (is_runnable k i ≡ true)
      × (l ≡ set_running id i (at i (λ p. record p { state = running }) k))

  pub Chooses-Starts : (id i : ℕ) (k l : Kernel Sched Q W) → Chooses id k i l → Starts id i k l
  unfolding is_runnable
  Chooses-Starts id i k l (c, at_id, free, r, eq) =
      let (p, at_i, ready) = runnable_slot-some k.procs i r in
      subst (Starts id i k) (sym eq)
        (dispatch-Starts id i (λ p. record p { state = running }) k at_id free at_i ready refl)

  unfoldable pub lpt : Policy Sched Q W
  unfolding make_ready publish
  lpt = record {
    init_sched = init_sched;
    start = start_sched;
    inherit = inherit_sched;
    publish = λ id i k. publish i k;
    wakeup = wakeup;
    ready = λ id i k. at i make_ready k;
    leave = λ id i k. clear_running id k;
    Prepares = λ id k l. (ncpu : ℕ) × (l ≡ (plan ncpu k).0);
    Chooses = Chooses;
    publish-procs = λ id i k. refl;
    publish-Still = λ id i k. Still-refl k;
    wakeup-Wakes = wakeup-Wakes;
    ready-Settles = λ id i k. at-Settles i runnable make_ready k (λ p. refl);
    leave-Leaves = λ id i k. clear_running-Leaves id k;
    Prepares-Still = λ id k l (ncpu, e). subst (Still k) (sym e) (plan-Still ncpu k);
    Chooses-Starts = Chooses-Starts;
  }
