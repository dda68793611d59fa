-- ===== src/System/Parked.antt =====
-- A process that sleeps in the wait() of adaptive/proc.c, while others wake and exit.
use os_project_files.Adaptive.Ready.{is_woken, woken, wakeup-own}
use os_project_files.Adaptive.Scan.{Sched}
use os_project_files.Adaptive.{make_ready, wakeup}
use os_project_files.Base.{
  ℕ, zero, suc, ◌+◌, ◌≡◌, ◌≢◌, ◌⊎◌, refl, sym, ◌∙◌, subst, inl, inr, Option, Option-cases, some,
  Bool-cases, true, false, ◌==◌, ==_iff, length, get_elem?-modify_self, get_elem?-modify_ne, arith,
}
use os_project_files.Kernel.{
  sleeping, runnable, Chan, proc_addr, ptr_eq, Proc, Kernel, at, proc_at, myproc,
}
use os_project_files.Process.Exit.{chan_of, adopt, reparent}
use os_project_files.Process.Loop.{for_from, for_each}
use os_project_files.System.AdaptiveRun.{wakeup-Wakes}

pub ne_test : (a b : ℕ) → a ≢ b → (a == b) ≡ false
ne_test a b ne = ground arith

-- The parent sleeps in wait(), or has been woken.
abbrev pub Waits : ℕ → Proc Sched → Type 0
Waits par q = ((q.state ≡ sleeping) × (q.chan ≡ proc_addr par)) ⊎ (q.state ≡ runnable)

woken-Waits :
    (par : ℕ) (self : Option ℕ) (chan : Chan) (ticks i : ℕ) (q : Proc Sched)
    → Waits par q
    → Waits par (woken self chan ticks i q)
unfolding make_ready
woken-Waits par self chan ticks i q w = elim (Bool-cases (is_woken self chan i q)) [
  | inl t ↦ rw t (inr refl)
  | inr t ↦ rw t w
]

module _ {Q W : Type 0} (id me par : ℕ) where
  -- The CPU runs the child, and the parent waits.
  abbrev pub Parked : Kernel Sched Q W → Type 0
  Parked k = (myproc id k ≡ some me) × (q : Proc Sched) × (proc_at k par ≡ some q) × Waits par q

module _ {Q W : Type 0} (id me par : ℕ) (apart : par ≢ me) where
  wakeup-Parked :
      (chan : Chan) (k : Kernel Sched Q W)
      → Parked id me par k
      → Parked id me par (wakeup id chan k)
  wakeup-Parked chan k (on, q, e, w) = (
    (wakeup-Wakes id chan k).cpus id ∙ on,
    woken (myproc id k) chan k.ticks par q,
    wakeup-own id chan k par q e,
    woken-Waits par (myproc id k) chan k.ticks par q w,
  )

  -- A store that keeps the state and the channel.
  pub at-Parked :
      (i : ℕ) (f : Proc Sched → Proc Sched) (k : Kernel Sched Q W)
      → ((q : Proc Sched) → Waits par q → Waits par (f q))
      → Parked id me par k
      → Parked id me par (at i f k)
  unfolding myproc
  at-Parked i f k keeps (on, q, e, w) = elim (Bool-cases (i == par)) [
    | inl t ↦
        let same : i ≡ par = (==_iff i par).0 t in
        (
          on,
          f q,
          subst (λ x. proc_at (at x f k) par ≡ some (f q)) (sym same)
              (get_elem?-modify_self k.procs par f e),
          keeps q w,
        )
    | inr t ↦ (on, q, get_elem?-modify_ne k.procs i par f (λ s. cc ((==_iff i par).1 s)) ∙ e, w)
  ]

  adopt-Parked :
      (i : ℕ) (k : Kernel Sched Q W)
      → Parked id me par k
      → Parked id me par (adopt (wakeup id) me i k)
  unfolding adopt
  adopt-Parked i k w = elim (Option-cases (proc_at k i)) [
    | inl e ↦ rw (e, adopt) w
    | inr (pp, e) ↦ elim (Bool-cases (ptr_eq pp.parent (some me))) [
      | inl t ↦
          rw (e, adopt)
            (rw t (
              wakeup-Parked (chan_of k.initproc) _
                (at-Parked i (λ q. record q { parent = k.initproc }) k (λ q h. h) w)))
      | inr t ↦ rw (e, adopt) (rw t w)
    ]
  ]

  loop-Parked :
      (n i : ℕ) (k : Kernel Sched Q W)
      → Parked id me par k
      → Parked id me par (for_from (adopt (wakeup id) me) n i k)
  unfolding for_from
  loop-Parked zero i k w = w
  loop-Parked (suc n) i k w = loop-Parked n (i + 1) (adopt (wakeup id) me i k) (adopt-Parked i k w)

  pub reparent-Parked :
      (k : Kernel Sched Q W) → Parked id me par k → Parked id me par (reparent (wakeup id) me k)
  unfolding reparent for_each
  reparent-Parked k w = loop-Parked (length k.procs) 0 k w

  -- The wakeup of the parent's channel makes it RUNNABLE.
  pub parent-woken :
      (k : Kernel Sched Q W)
      → Parked id me par k
      → (q : Proc Sched) × (proc_at (wakeup id (proc_addr par) k) par ≡ some q)
        × (q.state ≡ runnable)
  unfolding make_ready
  parent-woken k (on, q, e, w) = (
    woken (myproc id k) (proc_addr par) k.ticks par q,
    wakeup-own id (proc_addr par) k par q e,
    elim w [
      | inl (asleep, chan) ↦ rw (on, asleep, chan, other, same) refl
      | inr ready ↦ rw (on, ready) (ground arith)
    ],
  )
    where
      other : ptr_eq (some par) (some me) ≡ false
      other = ne_test par me apart

      same : (par == par) ≡ true
      same = (==_iff par par).1 refl
