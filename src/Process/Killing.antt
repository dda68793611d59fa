-- ===== src/Process/Killing.antt =====
-- What kkill of proc.c does to the table.
use mathlib.Core.Option.{some-injective}
use os_project_files.Base.{
  ℕ, ◌+◌, ◌≡◌, ◌≢◌, refl, sym, ap, ◌∙◌, subst, inl, inr, Option, none, some, List, Bool-cases,
  first-eq-none, first-eq-some, FirstAt, NonePasses, get_elem?, modify, get_elem?-modify_self,
  get_elem?-modify_ne, minus_one, if◌then◌else◌, arith,
}
use os_project_files.Kernel.{runnable, sleeping, state_eq, Proc, Kernel, Ext, proc_at}
use os_project_files.Process.Alloc.{allocproc}
use os_project_files.Process.Allocation.{allocproc-SetUp}
use os_project_files.Process.Kill.{find_pid, kill_slot, kkill}
use os_project_files.Process.Slots.{has_pid, is_unused, find_pid-first}

some_not_none : (i : ℕ) → some i ≢ none
some_not_none i e = cc

module _ {F Q W : Type 0} (ext : Ext W) (init_sched : ℕ → F → F) where
  -- allocproc does not reset `killed`.
  born_killed :
      (k : Kernel F Q W) (i : ℕ) {p : Proc F}
      → proc_at k i ≡ some p
      → p.killed ≡ 1
      → (allocproc ext init_sched k).1 ≡ some i
      → (q : Proc F) × (proc_at (allocproc ext init_sched k).0 i ≡ some q) × (q.killed ≡ 1)
  born_killed k i {p} e killed got = elim (allocproc-SetUp ext init_sched k) [
    | inl (same, _) ↦
        absurd (some_not_none i (sym got ∙ ap (λ (r : Kernel F Q W × Option ℕ). r.1) same))
    | inr (n, p1, _, at_n, done) ↦ elim done.0 [
      | inl (slot, (q, at_q, fresh)) ↦
          let n_eq : n ≡ i = ground arith in
          let same : p1.killed ≡ p.killed =
            ap (λ (x : Proc F). x.killed)
              (some-injective _ _ (sym at_n ∙ ap (λ (x : ℕ). proc_at k x) n_eq ∙ e)) in
          (
            q,
            subst (λ x. proc_at (allocproc ext init_sched k).0 x ≡ some q) n_eq at_q,
            fresh.killed ∙ same ∙ killed,
          )
      | inr (slot, _) ↦ absurd (some_not_none i (sym got ∙ slot))
    ]
  ]

-- A process after the stores of kkill.
abbrev pub kill_proc : {F : Type 0} → Proc F → Proc F
kill_proc p =
    if state_eq p.state sleeping
    then record p { killed = 1; state = runnable }
    else record p { killed = 1 }

zero_plus : (i : ℕ) → 0 + i ≡ i
zero_plus i = omega arith

kill_proc-killed : {F : Type 0} (p : Proc F) → (kill_proc p).killed ≡ 1
kill_proc-killed p = ground arith

module _ {F Q W : Type 0} (publish : ℕ → Kernel F Q W → Kernel F Q W) where
  -- kkill(pid) returns -1 and changes nothing if no slot has the pid.
  kkill-missing :
      (pid : ℕ) (k : Kernel F Q W)
      → NonePasses (has_pid pid) k.procs
      → kkill publish pid k ≡ (k, minus_one)
  unfolding kkill
  kkill-missing pid k h =
      rw (find_pid-first pid k.procs 0 ∙ first-eq-none (has_pid pid) k.procs 0 h, kkill)

module _ {F Q W : Type 0} (publish : ℕ → Kernel F Q W → Kernel F Q W)
    (keeps : (i : ℕ) (k : Kernel F Q W) → (publish i k).procs ≡ k.procs) where
  -- Two stores into one slot.
  modify_twice :
      (xs : List (Proc F)) (i : ℕ) (f g : Proc F → Proc F) {p : Proc F}
      → get_elem? xs i ≡ some p
      → get_elem? (modify (modify xs i f) i g) i ≡ some (g (f p))
  modify_twice xs i f g e =
      get_elem?-modify_self (modify xs i f) i g (get_elem?-modify_self xs i f e)

  kill_slot_self :
      (i : ℕ) (k : Kernel F Q W) {p : Proc F}
      → proc_at k i ≡ some p
      → proc_at (kill_slot publish i k) i ≡ some (kill_proc p)
  unfolding kill_slot
  kill_slot_self i k {p} e = elim (Bool-cases (state_eq p.state sleeping)) [
    | inl s ↦
        rw (e, kill_slot)
          (rw s
            (ap (λ (l : List (Proc F)). get_elem? l i) (keeps i _) ∙ modify_twice k.procs i _ _ e))
    | inr s ↦ rw (e, kill_slot) (rw s (get_elem?-modify_self k.procs i _ e))
  ]

  kill_slot_other :
      (i j : ℕ) (k : Kernel F Q W) {p : Proc F}
      → proc_at k i ≡ some p
      → i ≢ j
      → proc_at (kill_slot publish i k) j ≡ proc_at k j
  unfolding kill_slot
  kill_slot_other i j k {p} e ne = elim (Bool-cases (state_eq p.state sleeping)) [
    | inl s ↦
        rw (e, kill_slot)
          (rw s (
            ap (λ (l : List (Proc F)). get_elem? l j) (keeps i _)
            ∙ get_elem?-modify_ne _ i j _ ne
            ∙ get_elem?-modify_ne k.procs i j _ ne))
    | inr s ↦ rw (e, kill_slot) (rw s (get_elem?-modify_ne k.procs i j _ ne))
  ]

  found_pid :
      (k : Kernel F Q W) (pid i : ℕ)
      → FirstAt (has_pid pid) k.procs i
      → find_pid pid k.procs 0 ≡ some i
  found_pid k pid i h =
      find_pid-first pid k.procs 0
      ∙ first-eq-some (has_pid pid) k.procs 0 i h
      ∙ ap some (zero_plus i)

  kkill-eq :
      (pid i : ℕ) (k : Kernel F Q W)
      → find_pid pid k.procs 0 ≡ some i
      → kkill publish pid k ≡ (kill_slot publish i k, 0)
  unfolding kkill
  kkill-eq pid i k e = rw (e, kkill)

  -- If a slot has the pid, and what follows the store of RUNNABLE leaves the table alone, kkill(pid)
  -- returns 0, marks the first such slot killed, makes it RUNNABLE if it was SLEEPING, and leaves
  -- the other slots as they were.
  pub kkill_lem :
      (pid i : ℕ) (k : Kernel F Q W) {p : Proc F}
      → FirstAt (has_pid pid) k.procs i
      → proc_at k i ≡ some p
      → let (k', status) = kkill publish pid k in
        (status ≡ 0)
        × (proc_at k' i ≡ some (kill_proc p))
        × ((j : ℕ) → i ≢ j → proc_at k' j ≡ proc_at k j)
  kkill_lem pid i k h e =
      rw (kkill-eq pid i k (found_pid k pid i h))
        (refl, kill_slot_self i k e, λ j ne. kill_slot_other i j k e ne)

  -- If the first slot with pid 0 is the first UNUSED one, and what follows the store of RUNNABLE
  -- leaves the table alone, kkill(0) reports success, and a process that allocproc then sets up in
  -- the slot is killed from its start.
  pub kkill-zero :
      (ext : Ext W) (init_sched : ℕ → F → F) (i : ℕ) (k : Kernel F Q W)
      → FirstAt (has_pid 0) k.procs i
      → FirstAt is_unused k.procs i
      → let (k1, status) = kkill publish 0 k in
        let (k2, slot) = allocproc ext init_sched k1 in
        (status ≡ 0) × (slot ≡ some i → (q : Proc F) × (proc_at k2 i ≡ some q) × (q.killed ≡ 1))
  kkill-zero ext init_sched i k h (p, e, u, before) =
      let (ok, here, _) = kkill_lem 0 i k h e in
      (ok, λ got. born_killed ext init_sched _ i here (kill_proc-killed p) got)
