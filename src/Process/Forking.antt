-- ===== src/Process/Forking.antt =====
-- What kfork of proc.c does to the table, on success and on failure.
use mathlib.Core.Option.{some-injective}
use os_project_files.Base.{
  ℕ, ◌≡◌, ◌≢◌, ◌⊎◌, refl, sym, ap, ◌∙◌, inl, inr, Option, none, some, List, Bool, Bool-cases, true,
  false, FirstAt, get_elem?, take, get_elem?-modify_self, get_elem?-modify_ne, is_negative,
  minus_one, if◌then◌else◌,
}
use os_project_files.Kernel.{runnable, TrapFrame, Proc, Kernel, Ext, proc_at, set_world}
use os_project_files.Process.Alloc.{allocproc, freeproc}
use os_project_files.Process.Allocation.{allocproc-SetUp, IsFresh, freeproc_other}
use os_project_files.Process.Fork.{
  copy_parent, fork_copy, kfork_begin, fork_adopt, fork_start, kfork,
}
use os_project_files.Process.Slots.{is_unused}

-- The registers of the parent, with 0 as the result of fork().
abbrev pub return_zero : TrapFrame → TrapFrame
return_zero f = record f { a0 = 0 }

-- The child c of the process p in slot `me`: RUNNABLE, with the given pid, p's size and registers
-- but for a0, which is 0, the first 15 characters of p's name, and no metrics of its own yet.
pub record IsForked {F : Type 0} (me new_pid now : ℕ) (fields : F) (p c : Proc F) : Type 0 where
  pub state : c.state ≡ runnable
  pub pid : c.pid ≡ new_pid
  pub parent : c.parent ≡ some me
  pub sz : c.sz ≡ p.sz
  pub frame : c.frame ≡ return_zero p.frame
  pub name : c.name ≡ take 15 p.name
  pub ctime : c.ctime ≡ now
  pub rtime : c.rtime ≡ 0
  pub sched : c.sched ≡ fields

module _ {F Q W : Type 0} (init_sched : ℕ → F → F) (inherit : ℕ → F → F → F) where
  -- kfork's result r from the kernel k: a child in the first UNUSED slot and its pid, or -1 with
  -- every slot in use as it was.
  abbrev pub Forked : ℕ → Proc F → Kernel F Q W → Kernel F Q W × ℕ → Type 0
  Forked me p k r =
      ((r.1 ≡ minus_one)
        × ((j : ℕ) (q : Proc F)
            → proc_at k j ≡ some q
            → is_unused q ≡ false
            → proc_at r.0 j ≡ some q))
      ⊎ ((i : ℕ) × (old : Proc F) × (c : Proc F) × FirstAt is_unused k.procs i
          × (proc_at k i ≡ some old)
          × (proc_at r.0 i ≡ some c)
          × IsForked me k.nextpid k.ticks (inherit k.ticks p.sched (init_sched k.ticks old.sched)) p
              c
          × (r.1 ≡ k.nextpid)
          × ((j : ℕ) → i ≢ j → proc_at r.0 j ≡ proc_at k j))

module _ {F Q W : Type 0} (ext : Ext W) (init_sched : ℕ → F → F) (inherit : ℕ → F → F → F) where
  pub kfork_begin-nobody :
      (me : ℕ) (k : Kernel F Q W)
      → proc_at k me ≡ none
      → kfork_begin ext init_sched inherit me k ≡ (k, none)
  unfolding kfork_begin
  kfork_begin-nobody me k e = rw (e, kfork_begin)

  pub kfork_begin-none :
      (me : ℕ) (k : Kernel F Q W) {p : Proc F}
      → proc_at k me ≡ some p
      → (allocproc ext init_sched k).1 ≡ none
      → kfork_begin ext init_sched inherit me k ≡ ((allocproc ext init_sched k).0, none)
  unfolding kfork_begin
  kfork_begin-none me k self e = rw (self, kfork_begin) (rw (e, kfork_begin))

  pub kfork_begin-some :
      (me i : ℕ) (k : Kernel F Q W) {p np : Proc F}
      → proc_at k me ≡ some p
      → (allocproc ext init_sched k).1 ≡ some i
      → proc_at (allocproc ext init_sched k).0 i ≡ some np
      → kfork_begin ext init_sched inherit me k ≡ (
        (fork_copy ext init_sched inherit p i np (allocproc ext init_sched k).0).0,
        if (fork_copy ext init_sched inherit p i np (allocproc ext init_sched k).0).1
            then some (i, np.pid)
            else none,
      )
  unfolding kfork_begin
  kfork_begin-some me i k self e at_i =
      rw (self, kfork_begin) (rw (e, kfork_begin) (rw (at_i, kfork_begin)))

module _ {F Q W : Type 0} (ext : Ext W) (init_sched : ℕ → F → F) (inherit : ℕ → F → F → F)
    (publish : ℕ → Kernel F Q W → Kernel F Q W)
    (keeps : (i : ℕ) (k : Kernel F Q W) → (publish i k).procs ≡ k.procs) where
  -- A slot in use is not the first UNUSED one.
  pub used_ne :
      (k : Kernel F Q W) (i j : ℕ) (q : Proc F)
      → FirstAt is_unused k.procs i
      → proc_at k j ≡ some q
      → is_unused q ≡ false
      → i ≢ j
  used_ne k i j q (x, e, t, _) at_j f same =
      let eq : x ≡ q = some-injective _ _ (sym e ∙ ap (get_elem? k.procs) same ∙ at_j) in
      absurd (cc (ap is_unused eq))

  -- kfork() with the slot i allocated.
  abbrev pub into_slot : ℕ → Proc F → ℕ → Proc F → Kernel F Q W → Kernel F Q W × ℕ
  into_slot me p i np k =
      let (l, copied) = fork_copy ext init_sched inherit p i np k in
      if copied then (fork_start publish i (fork_adopt me i l), np.pid) else (l, minus_one)

  -- What kfork() goes on to do.
  abbrev finished : ℕ → Kernel F Q W × Option (ℕ × ℕ) → Kernel F Q W × ℕ
  finished me r = elim r.1 [
    | none ↦ (r.0, minus_one)
    | some (i, pid) ↦ (fork_start publish i (fork_adopt me i r.0), pid)
  ]

  kfork-finished :
      (me : ℕ) (k : Kernel F Q W)
      → kfork ext init_sched inherit publish me k
        ≡ finished me (kfork_begin ext init_sched inherit me k)
  unfolding kfork
  kfork-finished me k = refl

  pub kfork-none :
      (me : ℕ) (k : Kernel F Q W) {p : Proc F}
      → proc_at k me ≡ some p
      → (allocproc ext init_sched k).1 ≡ none
      → kfork ext init_sched inherit publish me k ≡ ((allocproc ext init_sched k).0, minus_one)
  kfork-none me k self e =
      kfork-finished me k ∙ ap (finished me) (kfork_begin-none ext init_sched inherit me k self e)

  pub kfork-some :
      (me i : ℕ) (k : Kernel F Q W) {p np : Proc F}
      → proc_at k me ≡ some p
      → (allocproc ext init_sched k).1 ≡ some i
      → proc_at (allocproc ext init_sched k).0 i ≡ some np
      → kfork ext init_sched inherit publish me k
        ≡ into_slot me p i np (allocproc ext init_sched k).0
  kfork-some me i k {p} {np} self e at_i =
      kfork-finished me k
      ∙ ap (finished me) (kfork_begin-some ext init_sched inherit me i k self e at_i)
      ∙ joined (fork_copy ext init_sched inherit p i np (allocproc ext init_sched k).0)
    where
      joined :
          (r : Kernel F Q W × Bool)
          → finished me (r.0, if r.1 then some (i, np.pid) else none) ≡ (
              if r.1
              then (fork_start publish i (fork_adopt me i r.0), np.pid)
              else (r.0, minus_one))
      joined (l, true) = refl
      joined (l, false) = refl

  module _ (me i : ℕ) (p np : Proc F) (k : Kernel F Q W) where
    pub into_slot-failed :
        is_negative (ext.uvmcopy p.pagetable np.pagetable p.sz k.world).0 ≡ true
        → into_slot me p i np k ≡ (
          freeproc ext i (set_world k (ext.uvmcopy p.pagetable np.pagetable p.sz k.world).1),
          minus_one,
        )
    unfolding fork_copy
    into_slot-failed e = rw e

    -- The child that into_slot makes of the fresh slot.
    abbrev child_of : List ℕ → ℕ → Proc F
    child_of files cwd = record (copy_parent p files cwd np) {
      sched = inherit k.ticks p.sched np.sched;
      parent = some me;
      state = runnable;
    }

    into_slot-child :
        is_negative (ext.uvmcopy p.pagetable np.pagetable p.sz k.world).0 ≡ false
        → proc_at k i ≡ some np
        → let r = into_slot me p i np k in
          (files : List ℕ) × (cwd : ℕ) × (proc_at r.0 i ≡ some (child_of files cwd))
          × (r.1 ≡ np.pid)
          × ((j : ℕ) → i ≢ j → proc_at r.0 j ≡ proc_at k j)
    unfolding fork_copy fork_adopt fork_start copy_parent
    into_slot-child e at_i = rw e (
      _,
      _,
      ap (λ (l : List (Proc F)). get_elem? l i) (keeps i _)
          ∙ get_elem?-modify_self _ i _ (
              get_elem?-modify_self _ i _
                (get_elem?-modify_self _ i _ (get_elem?-modify_self _ i _ at_i))),
      refl,
      λ j ne.
          ap (λ (l : List (Proc F)). get_elem? l j) (keeps i _)
          ∙ get_elem?-modify_ne _ i j _ ne
          ∙ get_elem?-modify_ne _ i j _ ne
          ∙ get_elem?-modify_ne _ i j _ ne
          ∙ get_elem?-modify_ne k.procs i j _ ne,
    )

  child_of-IsForked :
      (me i : ℕ) (p old np : Proc F) (k l : Kernel F Q W) (files : List ℕ) (cwd : ℕ)
      → l.ticks ≡ k.ticks
      → IsFresh k.nextpid k.ticks (init_sched k.ticks old.sched) old np
      → IsForked me k.nextpid k.ticks
          (inherit k.ticks p.sched (init_sched k.ticks old.sched))
          p
          (child_of me i p np l files cwd)
  unfolding copy_parent
  child_of-IsForked me i p old np k l files cwd t fresh = record {
    state = refl;
    pid = fresh.pid;
    parent = refl;
    sz = refl;
    frame = refl;
    name = refl;
    ctime = fresh.ctime;
    rtime = fresh.rtime;
    sched = ap (λ (n : ℕ). inherit n p.sched np.sched) t ∙ ap (inherit k.ticks p.sched) fresh.sched;
  }

  -- If what follows the store of RUNNABLE leaves the table alone, kfork() either returns -1 with
  -- every slot that was in use as it was; or it returns the value of nextpid, and the first
  -- UNUSED slot holds a RUNNABLE child of the caller with that pid, the caller's size, name and
  -- registers with a0 = 0, no run time, and the scheduling fields that it inherits, while all other
  -- slots are as they were.
  pub kfork_lem :
      (me : ℕ) (k : Kernel F Q W) {p : Proc F}
      → proc_at k me ≡ some p
      → Forked init_sched inherit me p k (kfork ext init_sched inherit publish me k)
  kfork_lem me k {p} self = elim (allocproc-SetUp ext init_sched k) [
    | inl (same, _) ↦ rw (kfork-none me k self (ap (λ (r : Kernel F Q W × Option ℕ). r.1) same)) (
        inl
          (refl, λ j q at_j used. ap (λ (r : Kernel F Q W × Option ℕ). proc_at r.0 j) same ∙ at_j))
    | inr (i, old, first, at_i, (inr (none_left, _), others, _, _)) ↦
        rw (kfork-none me k self none_left)
          (inl (refl, λ j q at_j used. others j (used_ne k i j q first at_j used) ∙ at_j))
    | inr (i, old, first, at_i, (inl (slot, (np, at_np, fresh)), others, _, t)) ↦
        rw (kfork-some me i k self slot at_np) (forks i old np first at_i at_np fresh others t)
  ]
    where
      l : Kernel F Q W
      l = (allocproc ext init_sched k).0

      forks :
          (i : ℕ) (old np : Proc F)
          → FirstAt is_unused k.procs i
          → proc_at k i ≡ some old
          → proc_at l i ≡ some np
          → IsFresh k.nextpid k.ticks (init_sched k.ticks old.sched) old np
          → ((j : ℕ) → i ≢ j → proc_at l j ≡ proc_at k j)
          → l.ticks ≡ k.ticks
          → Forked init_sched inherit me p k (into_slot me p i np l)
      forks i old np first at_i at_np fresh others t =
          elim (Bool-cases (is_negative (ext.uvmcopy p.pagetable np.pagetable p.sz l.world).0)) [
            | inl bad ↦ rw (into_slot-failed me i p np l bad) (
                inl (
                  refl,
                  λ j q at_j used.
                      let ne = used_ne k i j q first at_j used in
                      freeproc_other ext i j _ ne ∙ others j ne ∙ at_j,
                ))
            | inr good ↦
                let (files, cwd, child, pid, rest) = into_slot-child me i p np l good at_np in
                inr (
                  i,
                  old,
                  child_of me i p np l files cwd,
                  first,
                  at_i,
                  child,
                  child_of-IsForked me i p old np k l files cwd t fresh,
                  pid ∙ fresh.pid,
                  λ j ne. rest j ne ∙ others j ne,
                )
          ]
