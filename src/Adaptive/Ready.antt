-- ===== src/Adaptive/Ready.antt =====
-- wakeup, yield and kkill of adaptive/proc.c: who becomes RUNNABLE, and with which priority.
use os_project_files.Base.{
  ℕ, ◌≡◌, ◌∙◌, ◌≢◌, ◌⊎◌, inl, ap, refl, inr, Option, Option-cases, List, some, Bool, true, false,
  Bool-cases, not, ◌&&◌, get_elem?-modify_self, get_elem?-modify_ne, if◌then◌else◌, arith,
}
use os_project_files.Kernel.{
  sleeping, runnable, running, state_eq, Chan, chan_eq, ptr_eq, Proc, Kernel, proc_at, myproc,
}
use os_project_files.Process.Loop.{IsLocal, for_each-own, for_each-same}
use os_project_files.Process.Adoption.{family, map-modify_same}
use os_project_files.Adaptive.Scan.{Sched}
use os_project_files.Adaptive.{make_ready, wake_one, wakeup}

-- Proc[i] sleeps on the channel, and is not the caller.
abbrev pub is_woken : Option ℕ → Chan → ℕ → Proc Sched → Bool
is_woken self chan i p =
    not (ptr_eq (some i) self) && (state_eq p.state sleeping && chan_eq p.chan chan)

chan_eq-true : (a b : Chan) → chan_eq a b ≡ true → a ≡ b
chan_eq-true a b e = ground arith

chan_eq_self : (a : Chan) → chan_eq a a ≡ true
chan_eq_self a = ground arith

is_woken-true :
    (self : Option ℕ) (chan : Chan) (i : ℕ) (p : Proc Sched)
    → is_woken self chan i p ≡ true
    → (p.state ≡ sleeping) × (p.chan ≡ chan) × (self ≢ some i)
is_woken-true self chan i p t =
    (ground arith, chan_eq-true p.chan chan (ground arith), λ e. ground arith)

is_woken-false :
    (self : Option ℕ) (chan : Chan) (i : ℕ) (p : Proc Sched)
    → is_woken self chan i p ≡ false
    → p.state ≡ sleeping
    → p.chan ≡ chan
    → self ≡ some i
is_woken-false self chan i p f s c = own (rw s at (rw (c) at f))
  where
    own : (not (ptr_eq (some i) self) && chan_eq chan chan) ≡ false → self ≡ some i
    own h = ground (arith, chan_eq_self chan)

abbrev pub woken : Option ℕ → Chan → ℕ → ℕ → Proc Sched → Proc Sched
woken self chan ticks i p = if is_woken self chan i p then make_ready ticks p else p

woken_running :
    (self : Option ℕ) (chan : Chan) (ticks i : ℕ) (p : Proc Sched)
    → p.state ≡ running
    → woken self chan ticks i p ≡ p
woken_running self chan ticks i p r = rw r (ground arith)

module _ {Q W : Type 0} where
  wake_one-own :
      (self : Option ℕ) (chan : Chan) (i : ℕ) (k : Kernel Sched Q W) (p : Proc Sched)
      → proc_at k i ≡ some p
      → proc_at (wake_one self chan i k) i ≡ some (woken self chan k.ticks i p)
  unfolding wake_one
  wake_one-own self chan i k p e = elim (Bool-cases (is_woken self chan i p)) [
    | inl t ↦ rw (e, wake_one) (rw t (get_elem?-modify_self k.procs i (make_ready k.ticks) e))
    | inr f ↦ rw (e, wake_one) (rw f e)
  ]

  wake_one-other :
      (self : Option ℕ) (chan : Chan) (i j : ℕ) (k : Kernel Sched Q W)
      → i ≢ j
      → proc_at (wake_one self chan i k) j ≡ proc_at k j
  unfolding wake_one
  wake_one-other self chan i j k ne = elim (Option-cases (proc_at k i)) [
    | inl e ↦ rw (e, wake_one)
    | inr (p, e) ↦ elim (Bool-cases (is_woken self chan i p)) [
      | inl t ↦ rw (e, wake_one) (rw t (get_elem?-modify_ne k.procs i j (make_ready k.ticks) ne))
      | inr f ↦ rw (e, wake_one) (rw f)
    ]
  ]

  wake_one-ticks :
      (self : Option ℕ) (chan : Chan) (i : ℕ) (k : Kernel Sched Q W)
      → (wake_one self chan i k).ticks ≡ k.ticks
  unfolding wake_one
  wake_one-ticks self chan i k = ground arith

  pub wake_one-IsLocal :
      (self : Option ℕ) (chan : Chan)
      → IsLocal {Q = Q} {W = W} (λ k. k.ticks) (woken self chan) (wake_one self chan)
  wake_one-IsLocal self chan = record {
    others = wake_one-other self chan;
    kept = wake_one-ticks self chan;
    own = wake_one-own self chan;
  }

  pub wakeup-own :
      (id : ℕ) (chan : Chan) (k : Kernel Sched Q W) (j : ℕ) (p : Proc Sched)
      → proc_at k j ≡ some p
      → proc_at (wakeup id chan k) j ≡ some (woken (myproc id k) chan k.ticks j p)
  unfolding wakeup
  wakeup-own id chan k j p e = for_each-own _ _ _ (wake_one-IsLocal (myproc id k) chan) j k p e

  -- Wakeup(chan) on a CPU takes every process that sleeps on the channel, but for the process that
  -- the CPU runs, to RUNNABLE, with its estimated run time as its priority and the present tick as
  -- the start of its wait, and changes nothing else of it; it leaves every other process as it is.
  pub wakeup_lem :
      (id : ℕ) (chan : Chan) (k : Kernel Sched Q W) (j : ℕ) {p : Proc Sched}
      → proc_at k j ≡ some p
      → ((p.state ≡ sleeping)
          × (p.chan ≡ chan)
          × (myproc id k ≢ some j)
          × (proc_at (wakeup id chan k) j
              ≡ some (record p {
                state = runnable;
                sched = record {
                  estimated_runtime = p.sched.estimated_runtime;
                  priority = p.sched.estimated_runtime;
                  age_start = k.ticks;
                  affinity_cpu = p.sched.affinity_cpu;
                };
              })))
        ⊎ (¬ ((p.state ≡ sleeping) × (p.chan ≡ chan) × (myproc id k ≢ some j))
            × (proc_at (wakeup id chan k) j ≡ some p))
  unfolding make_ready
  wakeup_lem id chan k j {p} e =
      let own = wakeup-own id chan k j p e in
      elim (Bool-cases (is_woken (myproc id k) chan j p)) [
        | inl t ↦
            let (asleep, on, other) = is_woken-true (myproc id k) chan j p t in
            inl (asleep, on, other, rw t at own)
        | inr f ↦
            inr ((λ (s, c, ne). ne (is_woken-false (myproc id k) chan j p f s c)), rw f at own)
      ]

  wake_one-family :
      (self : Option ℕ) (chan : Chan) (i : ℕ) (k : Kernel Sched Q W)
      → family (wake_one self chan i k) ≡ family k
  unfolding wake_one make_ready
  wake_one-family self chan i k = elim (Option-cases (proc_at k i)) [
    | inl e ↦ rw (e, wake_one)
    | inr (p, e) ↦ elim (Bool-cases (is_woken self chan i p)) [
      | inl t ↦
          rw (e, wake_one)
            (rw t (
              ap (λ (l : List (Option ℕ)). (l, k.initproc))
                (map-modify_same _ k.procs i (make_ready k.ticks) (λ q. refl))))
      | inr f ↦ rw (e, wake_one) (rw f)
    ]
  ]

  -- wakeup changes neither a parent nor initproc.
  pub wakeup-family :
      (id : ℕ) (chan : Chan) (k : Kernel Sched Q W) → family (wakeup id chan k) ≡ family k
  unfolding wakeup
  wakeup-family id chan k = for_each-same family _ (wake_one-family (myproc id k) chan) k

  -- wakeup leaves a RUNNING process alone.
  pub wakeup-running :
      (id : ℕ) (chan : Chan) (k : Kernel Sched Q W) (j : ℕ) (p : Proc Sched)
      → proc_at k j ≡ some p
      → p.state ≡ running
      → proc_at (wakeup id chan k) j ≡ some p
  wakeup-running id chan k j p e r =
      wakeup-own id chan k j p e ∙ ap some (woken_running _ chan _ j p r)
