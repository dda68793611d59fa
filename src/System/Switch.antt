-- ===== src/System/Switch.antt =====
-- What scheduler() stores when it takes a process and when it leaves it, in the terms of `Policy`.
use os_project_files.Base.{
  ℕ, ◌≡◌, refl, sym, ap, ◌∙◌, subst, inl, inr, Option, Option-cases, none, some, get_elem?, modify,
  get_elem?-modify_self, get_elem?-modify_ne, get_elem?-modify-none,
}
use os_project_files.Kernel.{
  ProcState, runnable, running, Cpu, Proc, Kernel, at, proc_at, myproc, set_running, clear_running,
}
use os_project_files.System.Exclusion.{same_or_not}
use os_project_files.System.Policy.{Starts, Leaves}
use os_project_files.System.Views.{mark_of, mark-some, at-mark_other, Still}

module _ {F Q W : Type 0} where
  myproc-eq :
      (id : ℕ) (k : Kernel F Q W) {c : Cpu Q} → get_elem? k.cpus id ≡ some c → myproc id k ≡ c.proc
  unfolding myproc
  myproc-eq id k e = rw (e, myproc)

  myproc-none : (id : ℕ) (k : Kernel F Q W) → get_elem? k.cpus id ≡ none → myproc id k ≡ none
  unfolding myproc
  myproc-none id k e = rw (e, myproc)

  myproc_cong :
      (id : ℕ) (k l : Kernel F Q W)
      → get_elem? l.cpus id ≡ get_elem? k.cpus id
      → myproc id l ≡ myproc id k
  unfolding myproc
  myproc_cong id k l e =
      ap (λ (o : Option (Cpu Q)). elim o as (λ _. Option ℕ) [ none ↦ none | some c ↦ c.proc ]) e

  -- A store into a CPU's own queue.
  pub cpu-Still :
      (id : ℕ) (f : Cpu Q → Cpu Q) (k : Kernel F Q W)
      → ((c : Cpu Q) → (f c).proc ≡ c.proc)
      → Still k (record k { cpus = modify k.cpus id f })
  cpu-Still id f k keeps = record {
    marks = λ j. refl;
    cpus = λ a. elim (same_or_not id a) [
      | inl q ↦ subst (λ n. myproc n (record k { cpus = modify k.cpus id f }) ≡ myproc n k) q here
      | inr ne ↦
          myproc_cong a k (record k { cpus = modify k.cpus id f })
            (get_elem?-modify_ne k.cpus id a f ne)
    ];
    next = refl;
  }
    where
      here : myproc id (record k { cpus = modify k.cpus id f }) ≡ myproc id k
      here = elim (Option-cases (get_elem? k.cpus id)) [
        | inl e ↦
            myproc_cong id k (record k { cpus = modify k.cpus id f })
              (get_elem?-modify-none k.cpus id f e ∙ sym e)
        | inr (c, e) ↦
            myproc-eq id (record k { cpus = modify k.cpus id f })
              (get_elem?-modify_self k.cpus id f e)
            ∙ keeps c
            ∙ sym (myproc-eq id k e)
      ]

  -- c->proc = 0
  pub clear_running-Leaves : (id : ℕ) (k : Kernel F Q W) → Leaves id k (clear_running id k)
  unfolding clear_running
  clear_running-Leaves id k = record {
    marks = λ j. refl;
    idle = elim (Option-cases (get_elem? k.cpus id)) [
      | inl e ↦ myproc-none id (clear_running id k) (get_elem?-modify-none k.cpus id _ e)
      | inr (c, e) ↦ myproc-eq id (clear_running id k) (get_elem?-modify_self k.cpus id _ e)
    ];
    elsewhere = λ a ne. myproc_cong a k (clear_running id k) (get_elem?-modify_ne k.cpus id a _ ne);
    next = refl;
  }

  -- The store of RUNNING into a RUNNABLE process, and c->proc = p on a CPU without one.
  pub dispatch-Starts :
      (id i : ℕ) (f : Proc F → Proc F) (k : Kernel F Q W) {c : Cpu Q} {p : Proc F}
      → get_elem? k.cpus id ≡ some c
      → c.proc ≡ none
      → proc_at k i ≡ some p
      → p.state ≡ runnable
      → mark_of (f p) ≡ (running, p.pid)
      → Starts id i k (set_running id i (at i f k))
  unfolding set_running
  dispatch-Starts id i f k {c} {p} at_id free at_i ready runs = record {
    idle = myproc-eq id k at_id ∙ free;
    pid = p.pid;
    waits = mark-some k i at_i ∙ ap (λ (s : ProcState). some (s, p.pid)) ready;
    runs =
        mark-some (set_running id i (at i f k)) i (get_elem?-modify_self k.procs i f at_i)
        ∙ ap some runs;
    others = λ j ne. at-mark_other i j f k ne;
    taken = myproc-eq id (set_running id i (at i f k)) (get_elem?-modify_self k.cpus id _ at_id);
    elsewhere = λ a ne.
        myproc_cong a k (set_running id i (at i f k)) (get_elem?-modify_ne k.cpus id a _ ne);
    next = refl;
  }
