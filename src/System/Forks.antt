-- ===== src/System/Forks.antt =====
-- What allocproc and kfork of proc.c do to the marks.
use os_project_files.Base.{
  ℕ, ◌≡◌, ◌≢◌, refl, ap, ap₂, ◌∙◌, inl, inr, Option, Option-cases, some, Bool-cases, true, ◌==◌,
  is_negative, add32, FirstAt, arith,
}
use os_project_files.Kernel.{ProcState, unused, used, runnable, Proc, Kernel, Ext, proc_at, myproc}
use os_project_files.Process.Alloc.{find_unused, allocproc, setup, proc_pagetable}
use os_project_files.Process.Allocation.{allocproc-SetUp, IsFresh, IsCleared}
use os_project_files.Process.Fork.{copy_parent, fork_copy, kfork_begin, fork_adopt, fork_start}
use os_project_files.Process.Forking.{kfork_begin-nobody, kfork_begin-none, kfork_begin-some}
use os_project_files.Process.Slots.{is_unused}
use os_project_files.System.Effects.{
  Allots, Calls, claimed, refused, freeproc-myproc, Allots-freeproc, Allots-Still, Given,
  at-Settles,
}
use os_project_files.System.Policy.{Settles, Settles-Still}
use os_project_files.System.Views.{
  mark, mark_cong, mark-some, Still, Still-refl, Still-trans, at-Still, set_world-Still,
}

unpaid : (before after pid : ℕ) → Given before after pid → Given before after 0
unpaid before after pid (inl (_, next)) = inl (refl, next)
unpaid before after pid (inr (_, next)) = inl (refl, inr next)

module _ {F Q W : Type 0} (ext : Ext W) (init_sched : ℕ → F → F) where
  setup-myproc :
      (id i : ℕ) (k : Kernel F Q W) → myproc id (setup ext init_sched i k).0 ≡ myproc id k
  unfolding setup myproc
  setup-myproc id i k = elim (Bool-cases ((ext.kalloc k.world).0 == 0)) [
    | inl z ↦ rw z (freeproc-myproc ext id i _)
    | inr z ↦
        elim (Bool-cases
          ((proc_pagetable ext (ext.kalloc k.world).0 (ext.kalloc k.world).1).0 == 0)) [
            | inl y ↦ rw z (rw y (freeproc-myproc ext id i _))
            | inr y ↦ rw z (rw y)
          ]
  ]

  allocproc-myproc :
      (id : ℕ) (k : Kernel F Q W) → myproc id (allocproc ext init_sched k).0 ≡ myproc id k
  unfolding allocproc
  allocproc-myproc id k = elim (Option-cases (find_unused k.procs 0)) [
    | inl e ↦ rw (e, allocproc)
    | inr (i, e) ↦ rw (e, allocproc) (setup-myproc id i k)
  ]

  -- The mark of the first UNUSED slot.
  unused_mark :
      (k : Kernel F Q W) (i : ℕ)
      → FirstAt is_unused k.procs i
      → (pid : ℕ) × (mark k i ≡ some (unused, pid))
  unused_mark k i (x, at_x, t, _) =
      (x.pid, mark-some k i at_x ∙ ap (λ (s : ProcState). some (s, x.pid)) (free x t))
    where
      free : (x : Proc F) → is_unused x ≡ true → x.state ≡ unused
      free x t = ground arith

  -- What the first UNUSED slot holds behind allocproc.
  left_in :
      (k l : Kernel F Q W) (i pid : ℕ) (s : ProcState) (q : Proc F)
      → proc_at l i ≡ some q
      → q.state ≡ s
      → q.pid ≡ pid
      → mark l i ≡ some (s, pid)
  left_in k l i pid s q at_q a b =
      mark-some l i at_q ∙ ap₂ (λ (x : ProcState) (n : ℕ). some (x, n)) a b

  -- An allocproc that succeeds has claimed the first UNUSED slot,
  pub allocproc-claims :
      (k : Kernel F Q W) (i : ℕ) (p q : Proc F)
      → FirstAt is_unused k.procs i
      → proc_at (allocproc ext init_sched k).0 i ≡ some q
      → IsFresh k.nextpid k.ticks (init_sched k.ticks p.sched) p q
      → ((j : ℕ) → i ≢ j → proc_at (allocproc ext init_sched k).0 j ≡ proc_at k j)
      → (allocproc ext init_sched k).0.nextpid ≡ add32 k.nextpid 1
      → Allots i unused used k (allocproc ext init_sched k).0
  allocproc-claims k i p q first at_q fresh others next =
      let (pid, from) = unused_mark k i first in
      record {
        before = pid;
        from = from;
        after = k.nextpid;
        to = left_in k (allocproc ext init_sched k).0 i k.nextpid used q at_q fresh.state fresh.pid;
        others = λ j ne. inl (mark_cong k (allocproc ext init_sched k).0 j (others j ne));
        cpus = λ id. allocproc-myproc id k;
        pid = inr (refl, next);
      }

  -- and one that is short of memory has left it UNUSED.
  pub allocproc-refuses :
      (k : Kernel F Q W) (i : ℕ) (q : Proc F)
      → FirstAt is_unused k.procs i
      → proc_at (allocproc ext init_sched k).0 i ≡ some q
      → IsCleared q
      → ((j : ℕ) → i ≢ j → proc_at (allocproc ext init_sched k).0 j ≡ proc_at k j)
      → (allocproc ext init_sched k).0.nextpid ≡ add32 k.nextpid 1
      → Allots i unused unused k (allocproc ext init_sched k).0
  allocproc-refuses k i q first at_q cleared others next =
      let (pid, from) = unused_mark k i first in
      record {
        before = pid;
        from = from;
        after = 0;
        to = left_in k (allocproc ext init_sched k).0 i 0 unused q at_q cleared.state cleared.pid;
        others = λ j ne. inl (mark_cong k (allocproc ext init_sched k).0 j (others j ne));
        cpus = λ id. allocproc-myproc id k;
        pid = inl (refl, inr next);
      }

  module _ (inherit : ℕ → F → F → F) where
    fork_copy-Calls :
        (i : ℕ) (p np : Proc F) (k l : Kernel F Q W)
        → Allots i unused used k l
        → Calls k (fork_copy ext init_sched inherit p i np l).0
    unfolding fork_copy copy_parent
    fork_copy-Calls i p np k l a =
        elim (Bool-cases (is_negative (ext.uvmcopy p.pagetable np.pagetable p.sz l.world).0)) [
          | inl bad ↦ rw bad (
              inr (
                i,
                unused,
                unused,
                refused,
                Allots-freeproc ext i unused used k _ (Allots-Still a (set_world-Still l _))
                    (unpaid _ _ _ a.pid),
              ))
          | inr good ↦ rw good (
              inr (
                i,
                unused,
                used,
                claimed,
                Allots-Still a (
                    Still-trans (set_world-Still l _)
                      (Still-trans (at-Still i _ _ (λ q e. refl)) (at-Still i _ _ (λ q e. refl)))),
              ))
        ]

    -- kfork to the release of the child's lock claims one slot, or changes nothing.
    pub kfork_begin-Calls :
        (me : ℕ) (k : Kernel F Q W) → Calls k (kfork_begin ext init_sched inherit me k).0
    kfork_begin-Calls me k = elim (Option-cases (proc_at k me)) [
      | inl e ↦ rw (kfork_begin-nobody ext init_sched inherit me k e) (inl (Still-refl k))
      | inr (p, self) ↦ elim (allocproc-SetUp ext init_sched k) [
        | inl (same, _) ↦
            let none_left = ap (λ (r : Kernel F Q W × Option ℕ). r.1) same in
            rw (kfork_begin-none ext init_sched inherit me k self none_left)
              (rw (ap (λ (r : Kernel F Q W × Option ℕ). r.0) same) (inl (Still-refl k)))
        | inr (i, old, first, at_i, (inr (none_left, (q, at_q, cleared)), others, next, _)) ↦
            rw (kfork_begin-none ext init_sched inherit me k self none_left) (
              inr (
                i,
                unused,
                unused,
                refused,
                allocproc-refuses k i q first at_q cleared others next,
              ))
        | inr (i, old, first, at_i, (inl (slot, (np, at_np, fresh)), others, next, _)) ↦
            rw (kfork_begin-some ext init_sched inherit me i k self slot at_np) (
              fork_copy-Calls i p np k _
                (allocproc-claims k i old np first at_np fresh others next))
      ]
    ]

module _ {F Q W : Type 0} where
  pub fork_adopt-Still : (me i : ℕ) (k : Kernel F Q W) → Still k (fork_adopt me i k)
  unfolding fork_adopt
  fork_adopt-Still me i k = at-Still i _ k (λ q e. refl)

  -- The end of kfork makes the child RUNNABLE.
  pub fork_start-Settles :
      (publish : ℕ → Kernel F Q W → Kernel F Q W)
      → ((i : ℕ) (k : Kernel F Q W) → Still k (publish i k))
      → (i : ℕ) (k : Kernel F Q W) → Settles i runnable k (fork_start publish i k)
  unfolding fork_start
  fork_start-Settles publish quiet i k =
      Settles-Still (at-Settles i runnable (λ c. record c { state = runnable }) k (λ q. refl))
        (quiet i _)
