-- ===== src/System/Exits.antt =====
-- What yield, sleep and kexit of proc.c do to the marks, from the call to the switch and the stores
-- of scheduler() behind it.
use os_project_files.Base.{ℕ, ◌≡◌, refl, inl, inr, Option-cases, some, Bool-cases, map}
use os_project_files.Kernel.{sleeping, zombie, Chan, ptr_eq, Kernel, Ext, done, proc_at, myproc}
use os_project_files.Process.Exit.{adopt, reparent, kexit}
use os_project_files.Process.Sleep.{only_own_lock, sched, sleep}
use os_project_files.System.Effects.{Settles-Stops, Wakes-Settles, at-Settles}
use os_project_files.System.Wakes.{Wakes, Still-Wakes, Wakes-trans, for_each-Wakes}
use os_project_files.System.Policy.{to_sleep, to_death, Stops, Leaves, Settles}
use os_project_files.System.Views.{Still-refl, Still-trans, at-Still, set_world-Still}

module _ {F Q W : Type 0} where
  pub sleep-Stops :
      {id me : ℕ} {k l m : Kernel F Q W} (chan : Chan)
      → myproc id k ≡ some me
      → sleep only_own_lock me chan k ≡ done l
      → Leaves id l m
      → Stops id me k m
  unfolding sleep
  sleep-Stops {me} {k} chan held s v =
      Settles-Stops to_sleep held
        (at-Settles me sleeping (λ p. record p { chan = chan; state = sleeping }) k (λ p. refl)) s v

  module _ (wakeup : Chan → Kernel F Q W → Kernel F Q W)
      (wakes : (chan : Chan) (k : Kernel F Q W) → Wakes k (wakeup chan k)) where
    adopt-Wakes : (me i : ℕ) (k : Kernel F Q W) → Wakes k (adopt wakeup me i k)
    unfolding adopt
    adopt-Wakes me i k = elim (Option-cases (proc_at k i)) [
      | inl e ↦ rw (e, adopt) (Still-Wakes (Still-refl k))
      | inr (pp, e) ↦ elim (Bool-cases (ptr_eq pp.parent (some me))) [
        | inl t ↦
            rw (e, adopt)
              (rw t (Wakes-trans (Still-Wakes (at-Still i _ k (λ q at_q. refl))) (wakes _ _)))
        | inr t ↦ rw (e, adopt) (rw t (Still-Wakes (Still-refl k)))
      ]
    ]

    reparent-Wakes : (me : ℕ) (k : Kernel F Q W) → Wakes k (reparent wakeup me k)
    unfolding reparent
    reparent-Wakes me k = for_each-Wakes (adopt wakeup me) (adopt-Wakes me) k

    -- A kexit that reaches the switch has buried its process.
    kexit-sched :
        (ext : Ext W) (me status : ℕ) (k l : Kernel F Q W)
        → kexit wakeup ext only_own_lock me status k ≡ done l
        → (m : Kernel F Q W) × Settles me zombie k m × (sched only_own_lock me m ≡ done l)
    unfolding kexit
    kexit-sched ext me status k l h = elim (Option-cases (proc_at k me)) [
      | inl e ↦ absurd (cc (rw (e, kexit) at h))
      | inr (p, e) ↦ elim (Bool-cases (ptr_eq (some me) k.initproc)) [
        | inl t ↦ absurd (cc (rw t at (rw (e, kexit) at h)))
        | inr t ↦ (
          _,
          Wakes-Settles
              (Wakes-trans
                (Still-Wakes (
                  Still-trans (at-Still me (λ q. record q { etime = k.ticks }) k (λ q at_q. refl)) (
                    Still-trans (set_world-Still _ _) (
                      at-Still me (λ q. record q { ofile = map (λ _. 0) q.ofile; cwd = 0 }) _
                        (λ q at_q. refl)))))
                (Wakes-trans (reparent-Wakes me _) (wakes _ _)))
              (at-Settles me zombie (λ q. record q { xstate = status; state = zombie }) _
                (λ q. refl)),
          rw t at (rw (e, kexit) at h),
        )
      ]
    ]

    pub kexit-Stops :
        {id me : ℕ} {k l m : Kernel F Q W} (ext : Ext W) (status : ℕ)
        → myproc id k ≡ some me
        → kexit wakeup ext only_own_lock me status k ≡ done l
        → Leaves id l m
        → Stops id me k m
    kexit-Stops {me} {k} {l} ext status held s v =
        let (_, r, switched) = kexit-sched ext me status k l s in
        Settles-Stops to_death held r switched v
