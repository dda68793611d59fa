-- ===== src/System/Views.antt =====
-- What the scheduling and the pids of proc.c depend on: for each slot of the table its state and
-- its pid, for each CPU its process, and nextpid.
use mathlib.Core.Option.{some-injective}
use os_project_files.Base.{
  ℕ, ◌≡◌, ◌≢◌, refl, sym, ap, ◌∙◌, subst, inl, inr, Option, Option-cases, none, some, Bool,
  Bool-cases, false, ◌==◌, ==_iff, get_elem?-modify_self, get_elem?-modify-none,
  get_elem?-modify_ne,
}
use os_project_files.Kernel.{
  ProcState, running, state_eq, Proc, Kernel, at, proc_at, myproc, set_world,
}

-- The state and the pid of a slot.
abbrev pub Mark : Type 0
Mark = ProcState × ℕ

abbrev pub mark_of : {F : Type 0} → Proc F → Mark
mark_of p = (p.state, p.pid)

-- A slot that is RUNNING; the pid of a slot, 0 if there is no slot.
abbrev pub runs : Option Mark → Bool
runs none = false
runs (some m) = state_eq m.0 running

abbrev pub pid_of : Option Mark → ℕ
pid_of none = 0
pid_of (some m) = m.1

-- The slot goes over to the state.
abbrev pub moved : ProcState → Option Mark → Option Mark
moved s none = none
moved s (some m) = some (s, m.1)

pub pid_of-moved : (s : ProcState) (m : Option Mark) → pid_of (moved s m) ≡ pid_of m
pid_of-moved s none = refl
pid_of-moved s (some m) = refl

pub moved-moved : (s t : ProcState) (m : Option Mark) → moved s (moved t m) ≡ moved s m
moved-moved s t none = refl
moved-moved s t (some m) = refl

pub runs-moved :
    (s : ProcState) (m : Option Mark) → state_eq s running ≡ false → runs (moved s m) ≡ false
runs-moved s none e = refl
runs-moved s (some m) e = e

module _ {F Q W : Type 0} where
  abbrev pub mark : Kernel F Q W → ℕ → Option Mark
  mark k j = elim (proc_at k j) [ none ↦ none | some p ↦ some (mark_of p) ]

  pub mark_cong : (k l : Kernel F Q W) (j : ℕ) → proc_at l j ≡ proc_at k j → mark l j ≡ mark k j
  mark_cong k l j e =
      ap
        (λ (o : Option (Proc F)). elim o as (λ _. Option Mark) [
          | none ↦ none
          | some p ↦ some (mark_of p)
        ])
        e

  pub mark-none : (k : Kernel F Q W) (j : ℕ) → proc_at k j ≡ none → mark k j ≡ none
  mark-none k j e =
      ap
        (λ (o : Option (Proc F)). elim o as (λ _. Option Mark) [
          | none ↦ none
          | some p ↦ some (mark_of p)
        ])
        e

  pub mark-some :
      (k : Kernel F Q W) (j : ℕ) {p : Proc F} → proc_at k j ≡ some p → mark k j ≡ some (mark_of p)
  mark-some k j {p} e =
      ap
        (λ (o : Option (Proc F)). elim o as (λ _. Option Mark) [
          | none ↦ none
          | some p ↦ some (mark_of p)
        ])
        e

  -- Nothing of this has changed.
  pub record Still (k l : Kernel F Q W) : Type 0 where
    pub marks : (j : ℕ) → mark l j ≡ mark k j
    pub cpus : (id : ℕ) → myproc id l ≡ myproc id k
    pub next : l.nextpid ≡ k.nextpid

  pub Still-refl : (k : Kernel F Q W) → Still k k
  Still-refl k = record { marks = λ j. refl; cpus = λ id. refl; next = refl }

  pub Still-trans : {k l m : Kernel F Q W} → Still k l → Still l m → Still k m
  Still-trans a b = record {
    marks = λ j. b.marks j ∙ a.marks j;
    cpus = λ id. b.cpus id ∙ a.cpus id;
    next = b.next ∙ a.next;
  }

  pub at-mark_other :
      (i j : ℕ) (f : Proc F → Proc F) (k : Kernel F Q W) → i ≢ j → mark (at i f k) j ≡ mark k j
  at-mark_other i j f k ne = mark_cong k (at i f k) j (get_elem?-modify_ne k.procs i j f ne)

  -- A store that keeps the state and the pid.
  pub at-Still :
      (i : ℕ) (f : Proc F → Proc F) (k : Kernel F Q W)
      → ((p : Proc F) → proc_at k i ≡ some p → mark_of (f p) ≡ mark_of p)
      → Still k (at i f k)
  unfolding myproc
  at-Still i f k keeps = record {
    marks = λ j. elim (Bool-cases (i == j)) [
      | inl e ↦ subst (λ n. mark (at i f k) n ≡ mark k n) ((==_iff i j).0 e) here
      | inr e ↦ at-mark_other i j f k (λ q. cc ((==_iff i j).1 q))
    ];
    cpus = λ id. refl;
    next = refl;
  }
    where
      here : mark (at i f k) i ≡ mark k i
      here = elim (Option-cases (proc_at k i)) [
        | inl e ↦ mark_cong k (at i f k) i (get_elem?-modify-none k.procs i f e ∙ sym e)
        | inr (p, e) ↦
            mark-some (at i f k) i (get_elem?-modify_self k.procs i f e)
            ∙ ap some (keeps p e)
            ∙ sym (mark-some k i e)
      ]

  pub set_world-Still : (k : Kernel F Q W) (w : W) → Still k (set_world k w)
  unfolding myproc
  set_world-Still k w = record { marks = λ j. refl; cpus = λ id. refl; next = refl }

  -- A store into a slot whose process is known.
  pub at-Still_of :
      (i : ℕ) (f : Proc F → Proc F) (k : Kernel F Q W) {p : Proc F}
      → proc_at k i ≡ some p
      → mark_of (f p) ≡ mark_of p
      → Still k (at i f k)
  at-Still_of i f k {p} e same = at-Still i f k λ q at_q.
      let eq : p ≡ q = some-injective _ _ (sym e ∙ at_q) in
      subst (λ x. mark_of (f x) ≡ mark_of x) eq same

  -- A store that takes the process to the state s and keeps its pid.
  pub at-mark_self :
      (i : ℕ) (s : ProcState) (f : Proc F → Proc F) (k : Kernel F Q W)
      → ((p : Proc F) → mark_of (f p) ≡ (s, p.pid))
      → mark (at i f k) i ≡ moved s (mark k i)
  at-mark_self i s f k to = elim (Option-cases (proc_at k i)) [
    | inl e ↦
        mark_cong k (at i f k) i (get_elem?-modify-none k.procs i f e ∙ sym e)
        ∙ mark-none k i e
        ∙ ap (moved s) (sym (mark-none k i e))
    | inr (p, e) ↦
        mark-some (at i f k) i (get_elem?-modify_self k.procs i f e)
        ∙ ap some (to p)
        ∙ ap (moved s) (sym (mark-some k i e))
  ]
