-- ===== src/System/Handshake.antt =====
-- Kexit of adaptive/proc.c with the wait of the parent: the parent that sleeps is woken, and finds a
-- child that has exited.
use os_project_files.Adaptive.Ready.{wakeup-family, wakeup-running}
use os_project_files.Adaptive.Scan.{Sched}
use os_project_files.Adaptive.{wakeup}
use os_project_files.Base.{
  ℕ, ◌≡◌, ◌≢◌, ◌⊎◌, refl, sym, ap, ◌∙◌, subst, inl, inr, Option, none, some, map, Bool, true, false,
  not, ◌&&◌, ◌==◌, is_negative, arith, ==_iff, first_cases, FirstAt, add32, minus_one,
  get_elem?-modify_self, get_elem?-modify_ne,
}
use os_project_files.Kernel.{
  runnable, running, zombie, proc_addr, ptr_eq, Proc, Kernel, Ext, done, at, proc_at, myproc,
}
use os_project_files.Process.Exit.{chan_of, parent_of, reparent, kexit}
use os_project_files.Process.Exiting.{
  closing, closing_self, notified, notified_self, kexit-eq, sched-zombie, reparent_self,
}
use os_project_files.Process.Reaping.{Reaped, kwait_pass-reaps}
use os_project_files.Process.Sleep.{only_own_lock}
use os_project_files.Process.Slots.{is_zombie_child}
use os_project_files.Process.Wait.{Waited, returned, kwait_pass}
use os_project_files.System.Parked.{ne_test, Parked, at-Parked, reparent-Parked, parent-woken}

parent_chan :
    {W : Type 0} {Q : Type 0} (me par : ℕ) (l : Kernel Sched Q W) {z : Proc Sched}
    → proc_at l me ≡ some z
    → z.parent ≡ some par
    → chan_of (parent_of l me) ≡ proc_addr par
parent_chan me par l e own =
    ap
      (λ (o : Option (Proc Sched)).
        chan_of (elim o as (λ _. Option ℕ) [ none ↦ none | some p ↦ p.parent ]))
      e
    ∙ ap chan_of own

stored : (addr : ℕ) {b : Bool} → (not (addr == 0) && b) ≡ false → (addr ≡ 0) ⊎ (b ≡ false)
stored addr {b = true} e = inl (ground arith)
stored addr {b = false} e = inr refl

refused : (addr : ℕ) {b : Bool} → (not (addr == 0) && b) ≡ true → (addr ≢ 0) × (b ≡ true)
refused addr {b = true} e = (ground arith, refl)
refused addr {b = false} e = ground arith

-- An exited child of `par` that stands in some slot is found.
exited-found :
    {W : Type 0} {Q : Type 0} (par me : ℕ) (l : Kernel Sched Q W) {z : Proc Sched}
    → proc_at l me ≡ some z
    → z.state ≡ zombie
    → z.parent ≡ some par
    → (i : ℕ) × FirstAt (is_zombie_child par) l.procs i
exited-found par me l {z} e dead own = elim (first_cases (is_zombie_child par) l.procs 0) [
  | inl (_, no_child) ↦ absurd (cc (no_child me z e, is_found z dead own))
  | inr (i, _, found) ↦ (i, found)
]
  where
    same : (par == par) ≡ true
    same = (==_iff par par).1 refl

    is_found :
        (z : Proc Sched) → z.state ≡ zombie → z.parent ≡ some par → is_zombie_child par z ≡ true
    is_found z dead own = rw (dead, own, same)

module _ {Q W : Type 0} (ext : Ext W) (par : ℕ) where
  -- A pass r of wait(addr) in `par`, whose process is q, over the kernel m: the first exited child of
  -- `par` is reaped if the address is null or copyout() stores the child's status there; if
  -- copyout() fails at an address that is not null, -1 is returned and the table is as it was.
  abbrev pub Collects : ℕ → Proc Sched → Kernel Sched Q W → Kernel Sched Q W × Waited → Type 0
  Collects addr q m r =
      (i : ℕ) × (pp : Proc Sched) × FirstAt (is_zombie_child par) m.procs i
      × (proc_at m i ≡ some pp)
      × ((((addr ≡ 0) ⊎ (is_negative (ext.copyout q.pagetable addr pp.xstate m.world).0 ≡ false))
            × Reaped ext par m i pp r)
          ⊎ ((addr ≢ 0)
              × (is_negative (ext.copyout q.pagetable addr pp.xstate m.world).0 ≡ true)
              × (r.0.procs ≡ m.procs)
              × (r.1 ≡ returned minus_one)))

  collected :
      (me : ℕ) (l : Kernel Sched Q W) {q z : Proc Sched}
      → proc_at l par ≡ some q
      → proc_at l me ≡ some z
      → z.state ≡ zombie
      → z.parent ≡ some par
      → (addr : ℕ) → Collects addr q l (kwait_pass ext par addr l)
  collected me l at_par at_me dead own addr =
      let (i, found) = exited-found par me l at_me dead own in
      let (pp, at_i, _, _) = found in
      (
        i,
        pp,
        found,
        at_i,
        elim (kwait_pass-reaps ext par l i at_par at_i found addr) [
          | inl (good, reaped) ↦ inl (stored addr good, reaped)
          | inr (bad, same, failed) ↦
              let (used, negative) = refused addr bad in inr (used, negative, same, failed)
        ],
      )

module _ {Q W : Type 0} (ext : Ext W) (id me par status : ℕ) (k : Kernel Sched Q W) where
  module _ {p : Proc Sched} (apart : par ≢ me) (self : proc_at k me ≡ some p)
      (run : p.state ≡ running) (parent : p.parent ≡ some par) where
    not_own : ptr_eq p.parent (some me) ≡ false
    not_own = rw parent (ne_test par me apart)

    -- The kernel behind the wakeup of the parent.
    abbrev behind : Kernel Sched Q W
    behind = notified (wakeup id) (wakeup-family id) (wakeup-running id) ext me status k p self

    behind_self : (z : Proc Sched) × (proc_at behind me ≡ some z) × (z.parent ≡ some par)
    behind_self = (
      _,
      notified_self (wakeup id) (wakeup-family id) (wakeup-running id) ext me status k p self run
          not_own,
      parent,
    )

    closing-Parked :
        Parked id me par k
        → Parked id me par
            (closing (wakeup id) (wakeup-family id) (wakeup-running id) ext me status k p self)
    unfolding myproc
    closing-Parked parked =
        at-Parked id me par apart me (λ q. record q { ofile = map (λ _. 0) q.ofile; cwd = 0 })
          (at me (λ q. record q { etime = k.ticks }) k) (λ q w. w)
          (at-Parked id me par apart me (λ q. record q { etime = k.ticks }) k (λ q w. w) parked)

    -- The channel on which kexit() wakes is the parent's.
    behind-woken :
        Parked id me par k → (q : Proc Sched) × (proc_at behind par ≡ some q) × (q.state ≡ runnable)
    behind-woken parked =
        let start =
          closing (wakeup id) (wakeup-family id) (wakeup-running id) ext me status k p self in
        let l = reparent (wakeup id) me start in
        let at_l =
          reparent_self (wakeup id) (wakeup-family id) (wakeup-running id) me start _
            (closing_self (wakeup id) (wakeup-family id) (wakeup-running id) ext me status k p self)
            run not_own in
        let chan : chan_of (parent_of l me) ≡ proc_addr par = parent_chan me par l at_l parent in
        subst
          (λ c. (q : Proc Sched) × (proc_at (wakeup id c l) par ≡ some q) × (q.state ≡ runnable))
          (sym chan)
          (parent-woken id me par apart l
            (reparent-Parked id me par apart start (closing-Parked parked)))

    -- Under adaptive's scheduler, when a RUNNING process other than init exits on its CPU whose parent
    -- sleeps in wait(), or has been woken from it, the call reaches the switch, with the parent
    -- RUNNABLE and the process ZOMBIE. In whatever kernel the parent then makes its next pass of
    -- wait(addr), if the slot of the process is as it was at the switch and the parent's slot is not
    -- empty, the pass does not sleep: it reaps the first exited child if addr is null or copyout()
    -- stores that child's status at addr, and otherwise returns -1 and leaves the table alone.
    pub kexit-Collects :
        ptr_eq (some me) k.initproc ≡ false
        → Parked id me par k
        → (l : Kernel Sched Q W) × (q : Proc Sched) × (z : Proc Sched) × (kexit
              (wakeup id)
              ext
              only_own_lock
              me
              status
              k
            ≡ done l)
          × (proc_at l par ≡ some q)
          × (q.state ≡ runnable)
          × (proc_at l me ≡ some z)
          × (z.state ≡ zombie)
          × (z.xstate ≡ status)
          × ((m : Kernel Sched Q W) (x : Proc Sched) (addr : ℕ)
              → proc_at m par ≡ some x
              → proc_at m me ≡ proc_at l me
              → Collects ext par addr x m (kwait_pass ext par addr m))
    kexit-Collects other parked =
        let (z, at_m, own) = behind_self in
        let dead = at me (λ q. record q { xstate = status; state = zombie }) behind in
        let at_dead = get_elem?-modify_self behind.procs me _ at_m in
        let l = at me (λ q. record q { nswtch = add32 q.nswtch 1 }) dead in
        let at_l = get_elem?-modify_self dead.procs me _ at_dead in
        let (q, at_par, ready) = behind-woken parked in
        let here : proc_at l par ≡ some q =
          get_elem?-modify_ne dead.procs me par _ (λ e. apart (sym e))
          ∙ get_elem?-modify_ne behind.procs me par _ (λ e. apart (sym e))
          ∙ at_par in
        (
          l,
          q,
          _,
          kexit-eq (wakeup id) (wakeup-family id) (wakeup-running id) ext me status k p self other
              ∙ sched-zombie (wakeup id) (wakeup-family id) (wakeup-running id) ext me status k p
                  self run not_own dead at_dead refl,
          here,
          ready,
          at_l,
          refl,
          refl,
          λ m x addr at_x same. collected ext par me m at_x (same ∙ at_l) refl own addr,
        )
