-- ===== src/System/Calls.antt =====
-- What the calls of proc.c that do not switch do to the marks: fork, wait, kill and the others.
use os_project_files.Base.{
  ℕ, ◌≡◌, refl, sym, ap, ◌∙◌, inl, inr, Option, Option-cases, none, some, Bool, Bool-cases, true,
  false, not, ◌&&◌, ◌==◌, is_negative, first-some, get_elem?-modify_self, ltb, add64, sign_extend,
  if◌then◌else◌, arith,
}
use os_project_files.Kernel.{
  ProcState, unused, zombie, runnable, sleeping, state_eq, Proc, Kernel, Ext, at, proc_at,
  set_world,
}
use os_project_files.Process.Alloc.{freeproc}
use os_project_files.Process.Kill.{find_pid, kill_slot, kkill}
use os_project_files.Process.Memory.{growproc}
use os_project_files.Process.Sleep.{charge_tick, update_process_times, wake_from_sleep, setkilled}
use os_project_files.Process.Slots.{is_zombie_child, scan_children-first}
use os_project_files.Process.Wait.{
  scan_children, copy_int, reap, kwait_pass, reap_metrics, waitx_pass, Waited,
}
use os_project_files.System.Effects.{Calls, reaped, freeproc-Allots, Still-Allots}
use os_project_files.System.Views.{
  mark, mark-some, Still, Still-refl, Still-trans, at-Still, set_world-Still,
}
use os_project_files.System.Wakes.{Wakes, Still-Wakes, Wakes-trans, at-Wakes}

module _ {F Q W : Type 0} where
  pub charge-Still : (o : Option ℕ) (k : Kernel F Q W) → Still k (update_process_times o k)
  unfolding update_process_times charge_tick
  charge-Still none k = Still-refl k
  charge-Still (some i) k = at-Still i charge_tick k (λ p e. ground arith)

  pub wake_from_sleep-Still : (i : ℕ) (k : Kernel F Q W) → Still k (wake_from_sleep i k)
  unfolding wake_from_sleep
  wake_from_sleep-Still i k = at-Still i _ k (λ p e. refl)

  pub setkilled-Still : (i : ℕ) (k : Kernel F Q W) → Still k (setkilled i k)
  unfolding setkilled
  setkilled-Still i k = at-Still i _ k (λ p e. refl)

  resized :
      (me size : ℕ) (k : Kernel F Q W) (w : W)
      → Still k (at me (λ q. record q { sz = size }) (set_world k w))
  resized me size k w =
      Still-trans (set_world-Still k w) (at-Still me _ (set_world k w) (λ q at_q. refl))

  stays :
      (b : Bool) (k : Kernel F Q W) (x y : Waited)
      → let r : Kernel F Q W × Waited = if b then (k, x) else (k, y) in Calls k r.0
  stays true k x y = inl (Still-refl k)
  stays false k x y = inl (Still-refl k)

  module _ (ext : Ext W) where
    pub growproc-Still : (me n : ℕ) (k : Kernel F Q W) → Still k (growproc ext me n k).0
    unfolding growproc
    growproc-Still me n k = elim (Option-cases (proc_at k me)) [
      | inl e ↦ rw (e, growproc) (Still-refl k)
      | inr (p, e) ↦ elim (Bool-cases (not (is_negative n) && not (n == 0))) [
        | inl up ↦ elim (Bool-cases (ltb ext.trapframe_va (add64 p.sz (sign_extend n)))) [
          | inl far ↦ rw (e, growproc) (rw up (rw far (Still-refl k)))
          | inr near ↦
              elim (Bool-cases (
                (ext.uvmalloc p.pagetable p.sz (add64 p.sz (sign_extend n)) ext.perm_w k.world).0
                == 0)) [
                  | inl full ↦ rw (e, growproc) (rw up (rw near (rw full (set_world-Still k _))))
                  | inr room ↦ rw (e, growproc) (rw up (rw near (rw room (resized me _ k _))))
                ]
        ]
        | inr up ↦ elim (Bool-cases (is_negative n)) [
          | inl down ↦ rw (e, growproc) (rw up (rw down (resized me _ k _)))
          | inr zero ↦ rw (e, growproc) (rw up (rw zero (at-Still me _ k (λ q at_q. refl))))
        ]
      ]
    ]

    -- A child that has exited is a ZOMBIE.
    exited :
        (me i : ℕ) (k : Kernel F Q W)
        → (scan_children me k.procs 0 false).0 ≡ some i
        → (pid : ℕ) × (mark k i ≡ some (zombie, pid))
    exited me i k e =
        let (p, at_i, t, _) =
          first-some (is_zombie_child me) k.procs i
            (sym (scan_children-first me k.procs 0 false) ∙ e) in
        (p.pid, mark-some k i at_i ∙ ap (λ (s : ProcState). some (s, p.pid)) (dead p t))
      where
        dead : (p : Proc F) → is_zombie_child me p ≡ true → p.state ≡ zombie
        dead p t = ground arith

    freed :
        (i pid : ℕ) (k : Kernel F Q W) (w : W)
        → mark k i ≡ some (zombie, pid)
        → Calls k (freeproc ext i (set_world k w))
    freed i pid k w from = inr (
      i,
      zombie,
      unused,
      reaped,
      Still-Allots (set_world-Still k w) (freeproc-Allots ext i pid zombie (set_world k w) from),
    )

    reap-Calls :
        (me addr i pid : ℕ) (k : Kernel F Q W)
        → mark k i ≡ some (zombie, pid)
        → Calls k (reap ext me addr i k).0
    unfolding reap
    reap-Calls me addr i pid k dead = elim (Option-cases (proc_at k me)) [
      | inl e ↦ rw (e, reap) (inl (Still-refl k))
      | inr (p, e) ↦ elim (Option-cases (proc_at k i)) [
        | inl f ↦ rw (e, reap) (rw (f, reap) (inl (Still-refl k)))
        | inr (pp, f) ↦
            elim (Bool-cases (is_negative (copy_int ext p.pagetable addr pp.xstate k.world).0)) [
              | inl bad ↦ rw (e, reap) (rw (f, reap) (rw bad (inl (set_world-Still k _))))
              | inr good ↦ rw (e, reap) (rw (f, reap) (rw good (freed i pid k _ dead)))
            ]
      ]
    ]

    pub kwait_pass-Calls : (me addr : ℕ) (k : Kernel F Q W) → Calls k (kwait_pass ext me addr k).0
    unfolding kwait_pass
    kwait_pass-Calls me addr k = elim (Option-cases (scan_children me k.procs 0 false).0) [
      | inl e ↦ rw (e, kwait_pass) (stays _ k _ _)
      | inr (i, e) ↦
          let (pid, dead) = exited me i k e in rw (e, kwait_pass) (reap-Calls me addr i pid k dead)
    ]

    reap_metrics-Calls :
        (me a b c i pid : ℕ) (k : Kernel F Q W)
        → mark k i ≡ some (zombie, pid)
        → Calls k (reap_metrics ext me a b c i k).0
    unfolding reap_metrics
    reap_metrics-Calls me a b c i pid k dead = elim (Option-cases (proc_at k me)) [
      | inl e ↦ rw (e, reap_metrics) (inl (Still-refl k))
      | inr (p, e) ↦ elim (Option-cases (proc_at k i)) [
        | inl f ↦ rw (e, reap_metrics) (rw (f, reap_metrics) (inl (Still-refl k)))
        | inr (pp, f) ↦ rw (e, reap_metrics) (rw (f, reap_metrics) (freed i pid k _ dead))
      ]
    ]

    pub waitx_pass-Calls : (me a b c : ℕ) (k : Kernel F Q W) → Calls k (waitx_pass ext me a b c k).0
    unfolding waitx_pass
    waitx_pass-Calls me a b c k = elim (Option-cases (scan_children me k.procs 0 false).0) [
      | inl e ↦ rw (e, waitx_pass) (stays _ k _ _)
      | inr (i, e) ↦
          let (pid, dead) = exited me i k e in
          rw (e, waitx_pass) (reap_metrics-Calls me a b c i pid k dead)
    ]

  module _ (publish : ℕ → Kernel F Q W → Kernel F Q W)
      (quiet : (i : ℕ) (k : Kernel F Q W) → Still k (publish i k)) where
    kill_slot-Wakes : (i : ℕ) (k : Kernel F Q W) → Wakes k (kill_slot publish i k)
    unfolding kill_slot
    kill_slot-Wakes i k = elim (Option-cases (proc_at k i)) [
      | inl e ↦ rw (e, kill_slot) (Still-Wakes (Still-refl k))
      | inr (p, e) ↦
          let marked = at-Still i (λ q. record q { killed = 1 }) k (λ q at_q. refl) in
          elim (Bool-cases (state_eq p.state sleeping)) [
            | inl s ↦
                rw (e, kill_slot)
                  (rw s (
                    Wakes-trans (Still-Wakes marked) (
                      Wakes-trans
                        (at-Wakes i (λ q. record q { state = runnable }) _
                          (get_elem?-modify_self k.procs i _ e) (sleeps p s) refl)
                        (Still-Wakes (quiet i _)))))
            | inr s ↦ rw (e, kill_slot) (rw s (Still-Wakes marked))
          ]
    ]
      where
        sleeps : (p : Proc F) → state_eq p.state sleeping ≡ true → p.state ≡ sleeping
        sleeps p s = ground arith

    pub kkill-Wakes : (pid : ℕ) (k : Kernel F Q W) → Wakes k (kkill publish pid k).0
    unfolding kkill
    kkill-Wakes pid k = elim (Option-cases (find_pid pid k.procs 0)) [
      | inl e ↦ rw (e, kkill) (Still-Wakes (Still-refl k))
      | inr (i, e) ↦ rw (e, kkill) (kill_slot-Wakes i k)
    ]
