-- ===== src/Process/Reaping.antt =====
-- What kwait and waitx of proc.c do with the children that they find.
use os_project_files.Base.{
  ℕ, ◌+◌, ◌-◌, ◌≤◌, ◌<◌, ◌%◌, ◌≡◌, ◌≢◌, ◌⊎◌, refl, sym, ap, ◌∙◌, inl, inr, some, true, false, not,
  ◌&&◌, ◌||◌, ◌==◌, is_negative, first-eq-none, first-eq-some, FirstAt, NonePasses, minus_one,
  u32_mod, Bool-cases, arith, if◌then◌else◌,
}
use os_project_files.Kernel.{Proc, Kernel, Ext, proc_at, set_world}
use os_project_files.Process.Alloc.{clear_proc, freeproc}
use os_project_files.Process.Allocation.{freeproc_self, freeproc_other}
use os_project_files.Process.Sleep.{killed}
use os_project_files.Process.Slots.{
  is_zombie_child, any_child, scan_children-first, scan_children-havekids,
}
use os_project_files.Process.Wait.{
  Waited, returned, must_sleep, scan_children, copy_int, copy_metrics, wait_time, reap, kwait_pass,
  reap_metrics, waitx_pass,
}

zero_plus : (i : ℕ) → 0 + i ≡ i
zero_plus i = omega arith

module _ {F Q W : Type 0} (ext : Ext W) (me : ℕ) (k : Kernel F Q W) where
  -- The child in slot i has been reaped: its slot is cleared, the others are as they were, and its
  -- pid is returned.
  pub record Reaped (i : ℕ) (pp : Proc F) (r : Kernel F Q W × Waited) : Type 0 where
    pub cleared : proc_at r.0 i ≡ some (clear_proc pp)
    pub others : (j : ℕ) → i ≢ j → proc_at r.0 j ≡ proc_at k j
    pub result : r.1 ≡ returned pp.pid

  freed-Reaped :
      (i : ℕ) (pp : Proc F) (w : W)
      → proc_at k i ≡ some pp
      → Reaped i pp (freeproc ext i (set_world k w), returned pp.pid)
  freed-Reaped i pp w e = record {
    cleared = freeproc_self ext i (set_world k w) e;
    others = λ j ne. freeproc_other ext i j (set_world k w) ne;
    result = refl;
  }

  -- With no exited child a pass of kwait changes nothing: it returns -1 if there is no child or
  -- the caller is killed, and else has to sleep.
  kwait_pass-idle :
      (addr : ℕ)
      → NonePasses (is_zombie_child me) k.procs
      → kwait_pass ext me addr k ≡ (
        k,
        if not (any_child me k.procs) || not (killed k me == 0)
            then returned minus_one
            else must_sleep,
      )
  unfolding kwait_pass
  kwait_pass-idle addr none_exited =
      let found = scan_children-first me k.procs 0 false ∙ first-eq-none _ k.procs 0 none_exited in
      let kids = scan_children-havekids me k.procs 0 false found in
      rw (found, kids, kwait_pass) (ground arith)

  -- With no exited child a pass of waitx changes nothing: it returns -1 if there is no child or
  -- the caller is killed, and else has to sleep.
  waitx_pass-idle :
      (addr_wtime addr_rtime addr_nswtch : ℕ)
      → NonePasses (is_zombie_child me) k.procs
      → waitx_pass ext me addr_wtime addr_rtime addr_nswtch k ≡ (
        k,
        if not (any_child me k.procs) || not (killed k me == 0)
            then returned minus_one
            else must_sleep,
      )
  unfolding waitx_pass
  waitx_pass-idle addr_wtime addr_rtime addr_nswtch none_exited =
      let found = scan_children-first me k.procs 0 false ∙ first-eq-none _ k.procs 0 none_exited in
      let kids = scan_children-havekids me k.procs 0 false found in
      rw (found, kids, waitx_pass) (ground arith)

  found_child :
      (i : ℕ)
      → FirstAt (is_zombie_child me) k.procs i
      → (scan_children me k.procs 0 false).0 ≡ some i
  found_child i h =
      scan_children-first me k.procs 0 false ∙ first-eq-some _ k.procs 0 i h ∙ ap some (zero_plus i)

  module _ {p pp : Proc F} (i : ℕ) (self : proc_at k me ≡ some p) (child : proc_at k i ≡ some pp)
      (exited : FirstAt (is_zombie_child me) k.procs i) where
    kwait_pass-found : (addr : ℕ) → kwait_pass ext me addr k ≡ reap ext me addr i k
    unfolding kwait_pass
    kwait_pass-found addr = rw (found_child i exited, kwait_pass)

    reap-eq :
        (addr : ℕ)
        → reap ext me addr i k ≡ (
            let (status, w) = copy_int ext p.pagetable addr pp.xstate k.world in
            if is_negative status
            then (set_world k w, returned minus_one)
            else (freeproc ext i (set_world k w), returned pp.pid))
    unfolding reap
    reap-eq addr = rw (self, reap) (rw (child, reap))

    waitx_pass-found : (a b c : ℕ) → waitx_pass ext me a b c k ≡ reap_metrics ext me a b c i k
    unfolding waitx_pass
    waitx_pass-found a b c = rw (found_child i exited, waitx_pass)

    reap_metrics-eq :
        (a b c : ℕ)
        → reap_metrics ext me a b c i k ≡ (
          freeproc ext i (set_world k (copy_metrics ext p.pagetable a b c pp k.world)),
          returned pp.pid,
        )
    unfolding reap_metrics
    reap_metrics-eq a b c = rw (self, reap_metrics) (rw (child, reap_metrics))

    -- The test of the status that the code makes.
    copy_int-failed :
        (addr : ℕ)
        → is_negative (copy_int ext p.pagetable addr pp.xstate k.world).0
          ≡ (not (addr == 0) && is_negative (ext.copyout p.pagetable addr pp.xstate k.world).0)
    unfolding copy_int
    copy_int-failed addr = elim (Bool-cases (addr == 0)) [ inl e ↦ rw e | inr e ↦ rw e ]

    failed :
        (addr : ℕ)
        → is_negative (copy_int ext p.pagetable addr pp.xstate k.world).0 ≡ true
        → kwait_pass ext me addr k
          ≡ (set_world k (copy_int ext p.pagetable addr pp.xstate k.world).1, returned minus_one)
    failed addr bad = kwait_pass-found addr ∙ reap-eq addr ∙ rw bad

    -- With the caller in its slot and an exited child, kwait reaps the first such child if the
    -- address is null or copyout() stores the status there; if copyout() fails at an address that is
    -- not null, kwait returns -1 and leaves the table alone.
    pub kwait_pass-reaps :
        (addr : ℕ)
        → let r = kwait_pass ext me addr k in
          let failed =
            not (addr == 0) && is_negative (ext.copyout p.pagetable addr pp.xstate k.world).0 in
          ((failed ≡ false) × Reaped i pp r)
          ⊎ ((failed ≡ true) × (r.0.procs ≡ k.procs) × (r.1 ≡ returned minus_one))
    kwait_pass-reaps addr =
        let copied = copy_int ext p.pagetable addr pp.xstate k.world in
        elim (Bool-cases (is_negative copied.0)) [
          | inl bad ↦ inr (
            sym (copy_int-failed addr) ∙ bad,
            rw (ap (λ (r : Kernel F Q W × Waited). r.0.procs) (failed addr bad)) refl,
            ap (λ (r : Kernel F Q W × Waited). r.1) (failed addr bad),
          )
          | inr good ↦ inl (
            sym (copy_int-failed addr) ∙ good,
            rw (kwait_pass-found addr ∙ reap-eq addr, good) (freed-Reaped i pp copied.1 child),
          )
        ]

    -- With the caller in its slot and an exited child, waitx reaps the first such child whatever the
    -- three copies return.
    pub waitx_pass-reaps :
        (addr_wtime addr_rtime addr_nswtch : ℕ)
        → Reaped i pp (waitx_pass ext me addr_wtime addr_rtime addr_nswtch k)
    waitx_pass-reaps addr_wtime addr_rtime addr_nswtch =
        rw
          (waitx_pass-found addr_wtime addr_rtime addr_nswtch
            ∙ reap_metrics-eq addr_wtime addr_rtime addr_nswtch)
          (freed-Reaped i pp
            (copy_metrics ext p.pagetable addr_wtime addr_rtime addr_nswtch pp k.world) child)

-- The wait that waitx reports and the run time make up the life of the process, from the true tick
-- of its creation to that of its exit, if it lived less than 2 ^ 32 ticks and ran no longer than it
-- lived. Both ticks may lie beyond a wrap-around of the 32-bit counter.
wait_time_lem :
    {F : Type 0} (p : Proc F) (created exited : ℕ)
    → p.ctime ≡ created % u32_mod
    → p.etime ≡ exited % u32_mod
    → created ≤ exited
    → exited - created < u32_mod
    → p.rtime ≤ exited - created
    → wait_time p + p.rtime ≡ exited - created
unfolding wait_time
wait_time_lem p created exited c e le lt r = omega arith
