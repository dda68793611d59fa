-- ===== src/Process/Allocation.antt =====
-- What allocproc of proc.c does to the table, on success and on failure.
use os_project_files.Base.{
  add32, ℕ, ◌≡◌, ◌≢◌, ◌⊎◌, refl, ap, ◌∙◌, inl, inr, Option, Option-cases, none, some, Bool-cases,
  false, ◌==◌, first_cases, FirstAt, NonePasses, get_elem?-modify_self, get_elem?-modify_ne, arith,
}
use os_project_files.Kernel.{used, unused, Proc, Kernel, Ext, at, proc_at}
use os_project_files.Process.Alloc.{
  find_unused, proc_pagetable, clear_proc, freeproc, claim, setup, allocproc,
}
use os_project_files.Process.Slots.{is_unused, find_unused-first}

module _ {F Q W : Type 0} where
  pub at_self :
      (i : ℕ) (f : Proc F → Proc F) (k : Kernel F Q W) {p : Proc F}
      → proc_at k i ≡ some p
      → proc_at (at i f k) i ≡ some (f p)
  at_self i f k e = get_elem?-modify_self k.procs i f e

  pub at_other :
      (i j : ℕ) (f : Proc F → Proc F) (k : Kernel F Q W)
      → i ≢ j
      → proc_at (at i f k) j ≡ proc_at k j
  at_other i j f k ne = get_elem?-modify_ne k.procs i j f ne

module _ {F Q W : Type 0} (ext : Ext W) where
  pub freeproc_self :
      (i : ℕ) (k : Kernel F Q W) {p : Proc F}
      → proc_at k i ≡ some p
      → proc_at (freeproc ext i k) i ≡ some (clear_proc p)
  unfolding freeproc
  freeproc_self i k {p} e = rw (e, freeproc) (at_self i clear_proc k e)

  pub freeproc_other :
      (i j : ℕ) (k : Kernel F Q W) → i ≢ j → proc_at (freeproc ext i k) j ≡ proc_at k j
  unfolding freeproc
  freeproc_other i j k ne = elim (Option-cases (proc_at k i)) [
    | inl e ↦ rw (e, freeproc)
    | inr (p, e) ↦ rw (e, freeproc) (at_other i j clear_proc k ne)
  ]

ne_of_beq : (n : ℕ) → (n == 0) ≡ false → n ≢ 0
ne_of_beq n h = ground arith

-- A slot as allocproc leaves it when it succeeds; p is what the slot held before.
pub record IsFresh {F : Type 0} (new_pid now : ℕ) (start : F) (p q : Proc F) : Type 0 where
  pub state : q.state ≡ used
  pub pid : q.pid ≡ new_pid
  pub ctime : q.ctime ≡ now
  pub rtime : q.rtime ≡ 0
  pub etime : q.etime ≡ 0
  pub nswtch : q.nswtch ≡ 0
  pub sched : q.sched ≡ start
  pub trapframe : q.trapframe ≢ 0
  pub pagetable : q.pagetable ≢ 0
  pub killed : q.killed ≡ p.killed

-- A slot as freeproc leaves it.
pub record IsCleared {F : Type 0} (q : Proc F) : Type 0 where
  pub state : q.state ≡ unused
  pub pid : q.pid ≡ 0
  pub parent : q.parent ≡ none
  pub killed : q.killed ≡ 0
  pub trapframe : q.trapframe ≡ 0
  pub pagetable : q.pagetable ≡ 0

pub clear_proc-IsCleared : {F : Type 0} (p : Proc F) → IsCleared (clear_proc p)
unfolding clear_proc
clear_proc-IsCleared p = record {
  state = refl;
  pid = refl;
  parent = refl;
  killed = refl;
  trapframe = refl;
  pagetable = refl;
}

module _ {F Q W : Type 0} (ext : Ext W) (init_sched : ℕ → F → F) (k : Kernel F Q W) where
  -- The slot i has been set up, or freed again; the others are as before.
  abbrev pub SetUp : ℕ → Proc F → Kernel F Q W × Option ℕ → Type 0
  SetUp i p r =
      (((r.1 ≡ some i)
          × ((q : Proc F) × (proc_at r.0 i ≡ some q)
              × IsFresh k.nextpid k.ticks (init_sched k.ticks p.sched) p q))
        ⊎ ((r.1 ≡ none) × ((q : Proc F) × (proc_at r.0 i ≡ some q) × IsCleared q)))
      × ((j : ℕ) → i ≢ j → proc_at r.0 j ≡ proc_at k j)
      × (r.0.nextpid ≡ add32 k.nextpid 1)
      × (r.0.ticks ≡ k.ticks)

  freeproc-nextpid : (i : ℕ) (l : Kernel F Q W) → (freeproc ext i l).nextpid ≡ l.nextpid
  unfolding freeproc
  freeproc-nextpid i l = ground arith

  freeproc-ticks : (i : ℕ) (l : Kernel F Q W) → (freeproc ext i l).ticks ≡ l.ticks
  unfolding freeproc
  freeproc-ticks i l = ground arith

  -- allocproc's failure paths from a kernel l that differs from k in slot i only.
  freed :
      (i : ℕ) (p p1 : Proc F) (l : Kernel F Q W)
      → proc_at l i ≡ some p1
      → ((j : ℕ) → i ≢ j → proc_at l j ≡ proc_at k j)
      → l.nextpid ≡ add32 k.nextpid 1
      → l.ticks ≡ k.ticks
      → SetUp i p (freeproc ext i l, none)
  freed i p p1 l e same np t = (
    inr (refl, (clear_proc p1, freeproc_self ext i l e, clear_proc-IsCleared p1)),
    (λ j ne. freeproc_other ext i j l ne ∙ same j ne),
    freeproc-nextpid i l ∙ np,
    freeproc-ticks i l ∙ t,
  )

  setup-SetUp : (i : ℕ) (p : Proc F) → proc_at k i ≡ some p → SetUp i p (setup ext init_sched i k)
  unfolding setup claim
  setup-SetUp i p e = elim (Bool-cases ((ext.kalloc k.world).0 == 0)) [
    | inl z ↦ rw z (
        freed i p _ _ (get_elem?-modify_self _ i _ (get_elem?-modify_self _ i _ e))
          (λ j ne. get_elem?-modify_ne _ i j _ ne ∙ get_elem?-modify_ne k.procs i j _ ne) refl refl)
    | inr z ↦
        rw z
          (elim (Bool-cases
            ((proc_pagetable ext (ext.kalloc k.world).0 (ext.kalloc k.world).1).0 == 0)) [
              | inl y ↦ rw y (
                  freed i p _ _
                    (get_elem?-modify_self _ i _
                      (get_elem?-modify_self _ i _ (get_elem?-modify_self _ i _ e)))
                    (λ j ne.
                      get_elem?-modify_ne _ i j _ ne
                      ∙ get_elem?-modify_ne _ i j _ ne
                      ∙ get_elem?-modify_ne k.procs i j _ ne)
                    refl refl)
              | inr y ↦ rw y (
                inl (
                  refl,
                  (
                    _,
                    get_elem?-modify_self _ i _ (
                        get_elem?-modify_self _ i _
                          (get_elem?-modify_self _ i _ (get_elem?-modify_self _ i _ e))),
                    record {
                      state = refl;
                      pid = refl;
                      ctime = refl;
                      rtime = refl;
                      etime = refl;
                      nswtch = refl;
                      sched = refl;
                      trapframe = ne_of_beq _ z;
                      pagetable = ne_of_beq _ y;
                      killed = refl;
                    },
                  ),
                ),
                (λ j ne.
                    get_elem?-modify_ne _ i j _ ne
                    ∙ get_elem?-modify_ne _ i j _ ne
                    ∙ get_elem?-modify_ne _ i j _ ne
                    ∙ get_elem?-modify_ne k.procs i j _ ne),
                refl,
                refl,
              )
            ])
  ]

  -- allocproc() fails without a change when no slot is UNUSED. Otherwise it takes the first UNUSED
  -- slot and one pid, touches no other slot, and either sets the slot up with that pid, the tick of
  -- creation, counters at 0 and memory that is not null, or leaves it freed.
  pub allocproc-SetUp :
      ((allocproc ext init_sched k ≡ (k, none)) × NonePasses is_unused k.procs)
      ⊎ ((i : ℕ) × (p : Proc F) × FirstAt is_unused k.procs i
          × (proc_at k i ≡ some p)
          × SetUp i p (allocproc ext init_sched k))
  unfolding allocproc
  allocproc-SetUp = elim (first_cases is_unused k.procs 0) [
    | inl (e, h) ↦ inl (rw (find_unused-first k.procs 0 ∙ e, allocproc), h)
    | inr (n, e, (p, at_n, t, before)) ↦
        let found : find_unused k.procs 0 ≡ some n =
          find_unused-first k.procs 0 ∙ e ∙ ap some (omega arith) in
        inr (n, p, (p, at_n, t, before), at_n, rw (found, allocproc) (setup-SetUp n p at_n))
  ]
