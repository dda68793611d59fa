-- ===== src/System/Boot.antt =====
-- What userinit of proc.c does to the marks.
use os_project_files.Base.{ℕ, ◌≡◌, refl, ap, subst, ◌≢◌, inl, inr, Option, none, some}
use os_project_files.Kernel.{unused, runnable, Kernel, Ext, done, at, myproc}
use os_project_files.Process.Alloc.{allocproc}
use os_project_files.Process.Allocation.{allocproc-SetUp}
use os_project_files.Process.Fork.{userinit}
use os_project_files.System.Effects.{
  done-injective, Allots, Allots-Settles, Allots-Still, at-Settles,
}
use os_project_files.System.Forks.{allocproc-claims}
use os_project_files.System.Views.{Still, Still-trans, set_world-Still}

module _ {F Q W : Type 0} (ext : Ext W) (init_sched start : ℕ → F → F)
    (publish : ℕ → Kernel F Q W → Kernel F Q W)
    (quiet : (i : ℕ) (k : Kernel F Q W) → Still k (publish i k)) where
  userinit-none :
      (k l : Kernel F Q W)
      → (allocproc ext init_sched k).1 ≡ none
      → userinit ext init_sched start publish k ≢ done l
  unfolding userinit
  userinit-none k l e h = absurd (cc (rw (e, userinit) at h))

  initproc-Still : (k : Kernel F Q W) (o : Option ℕ) → Still k (record k { initproc = o })
  unfolding myproc
  initproc-Still k o = record { marks = λ j. refl; cpus = λ id. refl; next = refl }

  userinit-some :
      (k l : Kernel F Q W) (i : ℕ)
      → (allocproc ext init_sched k).1 ≡ some i
      → userinit ext init_sched start publish k ≡ done l
      → (m : Kernel F Q W) × Still (allocproc ext init_sched k).0 m
        × (publish i (
              at i
                (λ p. record p {
                  cwd = (ext.namei_root (allocproc ext init_sched k).0.world).0;
                  sched = start m.ticks p.sched;
                  state = runnable;
                })
                m)
            ≡ l)
  unfolding userinit
  userinit-some k l i e h = (
    _,
    Still-trans (initproc-Still _ (some i)) (set_world-Still _ _),
    done-injective _ _ (rw (e, userinit) at h),
  )

  -- A userinit that returns has made a process in one slot.
  pub userinit-Allots :
      (k l : Kernel F Q W)
      → userinit ext init_sched start publish k ≡ done l
      → (i : ℕ) × Allots i unused runnable k l
  userinit-Allots k l h = elim (allocproc-SetUp ext init_sched k) [
    | inl (same, _) ↦ absurd (userinit-none k l (ap (λ (r : Kernel F Q W × Option ℕ). r.1) same) h)
    | inr (i, old, first, at_i, (inr (none_left, cleared), others, next, t)) ↦
        absurd (userinit-none k l none_left h)
    | inr (i, old, first, at_i, (inl (slot, (np, at_np, fresh)), others, next, t)) ↦
        let (m, q, same) = userinit-some k l i slot h in
        (
          i,
          subst (Allots i unused runnable k) same (
              Allots-Still
                (Allots-Settles
                  (Allots-Still
                    (allocproc-claims ext init_sched k i old np first at_np fresh others next) q)
                  (at-Settles i runnable _ m (λ p. refl)))
                (quiet i _)),
        )
  ]
