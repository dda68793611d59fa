-- ===== src/System/Effects.antt =====
-- What the stores that every operation is made of do to the marks: sched, freeproc and the changes
-- of one slot.
use os_project_files.Base.{
  ℕ, ◌≡◌, ◌≢◌, ◌⊎◌, refl, sym, ap, subst, ◌∙◌, inl, inr, Option-cases, some, Bool-cases, add32,
}
use os_project_files.Kernel.{
  ProcState, unused, used, runnable, running, zombie, state_eq, Proc, Kernel, Ext, Outcome, done,
  panic, at, proc_at, myproc,
}
use os_project_files.Process.Alloc.{clear_proc, freeproc}
use os_project_files.Process.Allocation.{freeproc_self, freeproc_other}
use os_project_files.Process.Sleep.{only_own_lock, sched}
use os_project_files.System.Policy.{Rests, Settles, Stops, Leaves}
use os_project_files.System.Views.{
  Mark, mark, mark_of, mark_cong, mark-some, mark-none, moved, Still, at-Still, at-mark_self,
  at-mark_other,
}
use os_project_files.System.Wakes.{Woken, Woken-trans, Woken-moved, Wakes}

abbrev from_done : {A : Type 0} → A → Outcome A → A
from_done d (done a) = a
from_done d panic = d

pub done-injective : {A : Type 0} (a b : A) → done a ≡ done b → a ≡ b
done-injective a b e = ap (from_done a) e

-- A pid is taken from nextpid, or is 0; `after` is nextpid behind the call.
abbrev pub Given : ℕ → ℕ → ℕ → Type 0
Given before after pid =
    ((pid ≡ 0) × ((after ≡ before) ⊎ (after ≡ add32 before 1)))
    ⊎ ((pid ≡ before) × (after ≡ add32 before 1))

-- What becomes of the slot of a call that does not switch: init is born in it, kfork() claims it for a
-- child, or refuses for want of memory, or an exited child is reaped.
pub data Lot : ProcState → ProcState → Type 0 where
  born : Lot unused runnable
  claimed : Lot unused used
  refused : Lot unused unused
  reaped : Lot zombie unused

module _ {F Q W : Type 0} where
  pub sched-Still : (me : ℕ) (k l : Kernel F Q W) → sched only_own_lock me k ≡ done l → Still k l
  unfolding sched
  sched-Still me k l h = elim (Option-cases (proc_at k me)) [
    | inl e ↦ absurd (cc (rw (e, sched) at h))
    | inr (p, e) ↦ elim (Bool-cases (state_eq p.state running)) [
      | inl r ↦ absurd (cc (rw (r) at (rw (e, sched) at h)))
      | inr r ↦
          let same = done-injective _ _ (rw (r) at (rw (e, sched) at h)) in
          subst (Still k) same (at-Still me _ k (λ q at_q. refl))
    ]
  ]

  -- The process is made ready, or put to sleep, or buried; and the CPU switches to scheduler().
  pub Settles-Stops :
      {id me : ℕ} {s : ProcState} {k k1 l m : Kernel F Q W}
      → Rests s
      → myproc id k ≡ some me
      → Settles me s k k1
      → sched only_own_lock me k1 ≡ done l
      → Leaves id l m
      → Stops id me k m
  Settles-Stops {id} {me} {s} {k} {k1} {l} {m} rests held r switch v =
      let q = sched-Still me k1 l switch in
      record {
        held = held;
        to = s;
        rests = rests;
        stopped = v.marks me ∙ q.marks me ∙ r.settled;
        others = λ j ne. subst (Woken (mark k j)) (sym (v.marks j ∙ q.marks j)) (r.others j ne);
        idle = v.idle;
        elsewhere = λ a ne. v.elsewhere a ne ∙ q.cpus a ∙ r.cpus a;
        next = v.next ∙ q.next ∙ r.next;
      }

  pub Wakes-Settles :
      {i : ℕ} {s : ProcState} {k l m : Kernel F Q W} → Wakes k l → Settles i s l m → Settles i s k m
  Wakes-Settles {i} {s} {k} {l} {m} q r = record {
    settled = r.settled ∙ Woken-moved s (mark k i) (mark l i) (q.marks i);
    others = λ j ne. Woken-trans (mark k j) (mark l j) (mark m j) (q.marks j) (r.others j ne);
    cpus = λ id. r.cpus id ∙ q.cpus id;
    next = r.next ∙ q.next;
  }

  pub at-Settles :
      (i : ℕ) (s : ProcState) (f : Proc F → Proc F) (k : Kernel F Q W)
      → ((p : Proc F) → mark_of (f p) ≡ (s, p.pid))
      → Settles i s k (at i f k)
  unfolding myproc
  at-Settles i s f k to = record {
    settled = at-mark_self i s f k to;
    others = λ j ne. inl (at-mark_other i j f k ne);
    cpus = λ id. refl;
    next = refl;
  }

  -- Slot i goes from the state s to the state t and is given a pid: the next one, or 0.
  pub record Allots (i : ℕ) (s t : ProcState) (k l : Kernel F Q W) : Type 0 where
    pub before : ℕ
    pub from : mark k i ≡ some (s, before)
    pub after : ℕ
    pub to : mark l i ≡ some (t, after)
    pub others : (j : ℕ) → i ≢ j → Woken (mark k j) (mark l j)
    pub cpus : (id : ℕ) → myproc id l ≡ myproc id k
    pub pid : Given k.nextpid l.nextpid after

  -- What a call that does not switch does: nothing of this, or one slot allotted.
  abbrev pub Calls : Kernel F Q W → Kernel F Q W → Type 0
  Calls k l = Still k l ⊎ ((i : ℕ) × (s : ProcState) × (t : ProcState) × Lot s t × Allots i s t k l)

  module _ (ext : Ext W) where
    pub freeproc-myproc : (id i : ℕ) (k : Kernel F Q W) → myproc id (freeproc ext i k) ≡ myproc id k
    unfolding freeproc myproc
    freeproc-myproc id i k = elim (Option-cases (proc_at k i)) [
      | inl e ↦ rw (e, freeproc)
      | inr (p, e) ↦ rw (e, freeproc)
    ]

    pub freeproc-next : (i : ℕ) (k : Kernel F Q W) → (freeproc ext i k).nextpid ≡ k.nextpid
    unfolding freeproc
    freeproc-next i k = elim (Option-cases (proc_at k i)) [
      | inl e ↦ rw (e, freeproc)
      | inr (p, e) ↦ rw (e, freeproc)
    ]

    freeproc-mark :
        (i : ℕ) (k : Kernel F Q W) {m : Mark}
        → mark k i ≡ some m
        → mark (freeproc ext i k) i ≡ some (unused, 0)
    unfolding clear_proc
    freeproc-mark i k {m} is = elim (Option-cases (proc_at k i)) [
      | inl e ↦ absurd (cc (mark-none k i e, is))
      | inr (p, e) ↦ mark-some (freeproc ext i k) i (freeproc_self ext i k e)
    ]

    -- A slot that is freed behind its allotment, or without one.
    pub Allots-freeproc :
        (i : ℕ) (s t : ProcState) (k l : Kernel F Q W)
        → Allots i s t k l
        → Given k.nextpid l.nextpid 0
        → Allots i s unused k (freeproc ext i l)
    Allots-freeproc i s t k l a given = record {
      before = a.before;
      from = a.from;
      after = 0;
      to = freeproc-mark i l a.to;
      others = λ j ne.
          subst (Woken (mark k j))
            (sym (mark_cong l (freeproc ext i l) j (freeproc_other ext i j l ne))) (a.others j ne);
      cpus = λ id. freeproc-myproc id i l ∙ a.cpus id;
      pid = subst (λ n. Given k.nextpid n 0) (sym (freeproc-next i l)) given;
    }

    pub freeproc-Allots :
        (i pid : ℕ) (s : ProcState) (k : Kernel F Q W)
        → mark k i ≡ some (s, pid)
        → Allots i s unused k (freeproc ext i k)
    freeproc-Allots i pid s k from = record {
      before = pid;
      from = from;
      after = 0;
      to = freeproc-mark i k from;
      others = λ j ne. inl (mark_cong k (freeproc ext i k) j (freeproc_other ext i j k ne));
      cpus = λ id. freeproc-myproc id i k;
      pid = inl (refl, inl (freeproc-next i k));
    }

  -- A slot that is allotted is then taken to another state.
  pub Allots-Settles :
      {i : ℕ} {s t u : ProcState} {k l m : Kernel F Q W}
      → Allots i s t k l
      → Settles i u l m
      → Allots i s u k m
  Allots-Settles {i} {s} {t} {u} {k} {l} {m} a r = record {
    before = a.before;
    from = a.from;
    after = a.after;
    to = r.settled ∙ ap (moved u) a.to;
    others = λ j ne. Woken-trans (mark k j) (mark l j) (mark m j) (a.others j ne) (r.others j ne);
    cpus = λ id. r.cpus id ∙ a.cpus id;
    pid = subst (λ n. Given k.nextpid n a.after) (sym r.next) a.pid;
  }

  pub Allots-Still :
      {i : ℕ} {s t : ProcState} {k l m : Kernel F Q W}
      → Allots i s t k l
      → Still l m
      → Allots i s t k m
  Allots-Still {i} {s} {t} {k} {l} {m} a q = record {
    before = a.before;
    from = a.from;
    after = a.after;
    to = q.marks i ∙ a.to;
    others = λ j ne. subst (Woken (mark k j)) (sym (q.marks j)) (a.others j ne);
    cpus = λ id. q.cpus id ∙ a.cpus id;
    pid = subst (λ n. Given k.nextpid n a.after) (sym q.next) a.pid;
  }

  pub Still-Allots :
      {i : ℕ} {s t : ProcState} {k l m : Kernel F Q W}
      → Still k l
      → Allots i s t l m
      → Allots i s t k m
  Still-Allots {i} {s} {t} {k} {l} {m} q a = record {
    before = a.before;
    from = sym (q.marks i) ∙ a.from;
    after = a.after;
    to = a.to;
    others = λ j ne. subst (λ o. Woken o (mark m j)) (q.marks j) (a.others j ne);
    cpus = λ id. a.cpus id ∙ q.cpus id;
    pid = subst (λ n. Given n m.nextpid a.after) q.next a.pid;
  }
