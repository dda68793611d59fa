-- ===== src/Process/Exiting.antt =====
-- What kexit of proc.c leaves in the table.
use mathlib.Core.Option.{some-injective}
use os_project_files.Base.{
  ℕ, zero, suc, ◌+◌, ◌≡◌, ◌≢◌, refl, sym, ap, ◌∙◌, inl, inr, Option, Option-cases, some, List,
  Bool-cases, true, false, map, length, add32, get_elem?-modify_self, get_elem?-modify_ne,
}
use os_project_files.Kernel.{
  zombie, running, Chan, ptr_eq, Proc, Kernel, Ext, done, at, proc_at, set_world,
}
use os_project_files.Process.Adoption.{parents, family, redirect, map-modify_same, reparent-parents}
use os_project_files.Process.Exit.{chan_of, parent_of, close_files, adopt, reparent, kexit}
use os_project_files.Process.Loop.{for_from, for_each}
use os_project_files.Process.Sleep.{only_own_lock, sched}

module _ {F Q W : Type 0} (wakeup : Chan → Kernel F Q W → Kernel F Q W)
    (keeps : (c : Chan) (k : Kernel F Q W) → family (wakeup c k) ≡ family k)
    (keeps_running : (c : Chan) (k : Kernel F Q W) (i : ℕ) (p : Proc F)
      → proc_at k i ≡ some p
      → p.state ≡ running
      → proc_at (wakeup c k) i ≡ some p) where
  adopt_self :
      (me i : ℕ) (k : Kernel F Q W) (p : Proc F)
      → proc_at k me ≡ some p
      → p.state ≡ running
      → ptr_eq p.parent (some me) ≡ false
      → proc_at (adopt wakeup me i k) me ≡ some p
  unfolding adopt
  adopt_self me i k p e run own = elim (Option-cases (proc_at k i)) [
    | inl q ↦ rw (q, adopt) e
    | inr (pp, q) ↦ elim (Bool-cases (ptr_eq pp.parent (some me))) [
      | inr t ↦ rw (q, adopt) (rw t e)
      | inl t ↦
          rw (q, adopt)
            (rw t (
              keeps_running _ _ me p (get_elem?-modify_ne k.procs i me _ (apart i pp q t) ∙ e) run))
    ]
  ]
    where
      apart :
          (i : ℕ) (pp : Proc F) → proc_at k i ≡ some pp → ptr_eq pp.parent (some me) ≡ true → i ≢ me
      apart i pp q t same =
          let eq : pp ≡ p = some-injective _ _ (sym q ∙ ap (λ (x : ℕ). proc_at k x) same ∙ e) in
          cc (ap (λ (x : Proc F). ptr_eq x.parent (some me)) eq)

  loop_self :
      (me n i : ℕ) (k : Kernel F Q W) (p : Proc F)
      → proc_at k me ≡ some p
      → p.state ≡ running
      → ptr_eq p.parent (some me) ≡ false
      → proc_at (for_from (adopt wakeup me) n i k) me ≡ some p
  unfolding for_from
  loop_self me zero i k p e run own = e
  loop_self me (suc n) i k p e run own =
      loop_self me n (i + 1) (adopt wakeup me i k) p (adopt_self me i k p e run own) run own

  pub reparent_self :
      (me : ℕ) (k : Kernel F Q W) (p : Proc F)
      → proc_at k me ≡ some p
      → p.state ≡ running
      → ptr_eq p.parent (some me) ≡ false
      → proc_at (reparent wakeup me k) me ≡ some p
  unfolding reparent for_each
  reparent_self me k p e run own = loop_self me (length k.procs) 0 k p e run own

  -- The caller as it stands when it gives up its children.
  abbrev pub closed : ℕ → Proc F → Proc F
  closed ticks p = record p { etime = ticks; ofile = map (λ _. 0) p.ofile; cwd = 0 }

  abbrev pub buried : ℕ → Proc F → Proc F
  buried status p = record p { xstate = status; state = zombie; nswtch = add32 p.nswtch 1 }

  module _ (ext : Ext W) (me status : ℕ) (k : Kernel F Q W) (p : Proc F)
      (self : proc_at k me ≡ some p) where
    abbrev pub closing : Kernel F Q W
    closing =
        at me (λ q. record q { ofile = map (λ _. 0) q.ofile; cwd = 0 })
          (set_world (at me (λ q. record q { etime = k.ticks }) k)
            (ext.end_op (ext.iput p.cwd (ext.begin_op (close_files ext p.ofile k.world)))))

    pub closing_self : proc_at closing me ≡ some (closed k.ticks p)
    closing_self = get_elem?-modify_self _ me _ (get_elem?-modify_self k.procs me _ self)

    closing-parents : parents closing ≡ parents k
    closing-parents =
        map-modify_same _ _ me _ (λ q. refl) ∙ map-modify_same _ k.procs me _ (λ q. refl)

    abbrev pub notified : Kernel F Q W
    notified = let l = reparent wakeup me closing in wakeup (chan_of (parent_of l me)) l

    pub kexit-eq :
        ptr_eq (some me) k.initproc ≡ false
        → kexit wakeup ext only_own_lock me status k
          ≡ sched only_own_lock me
              (at me (λ q. record q { xstate = status; state = zombie }) notified)
    unfolding kexit
    kexit-eq e = rw (self, kexit) (rw e)

    notified-parents : parents notified ≡ map (redirect k.initproc me) (parents k)
    notified-parents =
        ap (λ (r : List (Option ℕ) × Option ℕ). r.0) (keeps _ _)
        ∙ reparent-parents wakeup keeps me closing
        ∙ ap (map (redirect k.initproc me)) closing-parents

    module _ (run : p.state ≡ running) (own : ptr_eq p.parent (some me) ≡ false) where
      pub notified_self : proc_at notified me ≡ some (closed k.ticks p)
      notified_self =
          keeps_running _ _ me _ (reparent_self me closing (closed k.ticks p) closing_self run own)
            run

      pub sched-zombie :
          (l : Kernel F Q W) {z : Proc F}
          → proc_at l me ≡ some z
          → z.state ≡ zombie
          → sched only_own_lock me l ≡ done (at me (λ q. record q { nswtch = add32 q.nswtch 1 }) l)
      unfolding sched
      sched-zombie l e r = rw (e, sched) (rw r)

      -- A RUNNING process other than init, which is not its own parent, exits if wakeup() changes no
      -- parent, no initproc and no RUNNING process: the call reaches the switch, the process is a
      -- ZOMBIE with the given status, the present tick as its end, no open file and its parent as
      -- before; its children are init's, and every other parent is as it was.
      pub kexit_lem :
          ptr_eq (some me) k.initproc ≡ false
          → (l : Kernel F Q W) × (z : Proc F) × (kexit wakeup ext only_own_lock me status k
              ≡ done l)
            × (proc_at l me ≡ some z)
            × (z.state ≡ zombie)
            × (z.xstate ≡ status)
            × (z.etime ≡ k.ticks)
            × (z.ofile ≡ map (λ _. 0) p.ofile)
            × (z.parent ≡ p.parent)
            × (parents l ≡ map (redirect k.initproc me) (parents k))
      kexit_lem e =
          let dead = at me (λ q. record q { xstate = status; state = zombie }) notified in
          let at_dead = get_elem?-modify_self notified.procs me _ notified_self in
          (
            at me (λ q. record q { nswtch = add32 q.nswtch 1 }) dead,
            buried status (closed k.ticks p),
            kexit-eq e ∙ sched-zombie dead at_dead refl,
            get_elem?-modify_self dead.procs me _ at_dead,
            refl,
            refl,
            refl,
            refl,
            refl,
            map-modify_same _ dead.procs me _ (λ q. refl)
                ∙ map-modify_same _ notified.procs me _ (λ q. refl)
                ∙ notified-parents,
          )
