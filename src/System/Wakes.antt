-- ===== src/System/Wakes.antt =====
-- What wakeup(chan) and kkill may do to the marks: a SLEEPING process becomes RUNNABLE.
use os_project_files.Base.{
  ℕ, zero, suc, ◌+◌, ◌≡◌, ◌⊎◌, refl, sym, ap, ◌∙◌, subst, inl, inr, Option, some, Bool, Bool-cases,
  true, ◌==◌, ==_iff, ◌&&◌, length, get_elem?-modify_self, arith,
}
use os_project_files.Kernel.{
  ProcState, sleeping, runnable, state_eq, Proc, Kernel, at, proc_at, myproc,
}
use os_project_files.Process.Loop.{for_from, for_each}
use os_project_files.System.Views.{
  Mark, mark, mark_of, mark-some, runs, pid_of, moved, Still, at-mark_other,
}

-- The slot with the mark m is left as it is, or woken.
abbrev pub Woken : Option Mark → Option Mark → Type 0
Woken m n = (n ≡ m) ⊎ ((pid : ℕ) × (m ≡ some (sleeping, pid)) × (n ≡ some (runnable, pid)))

pub Woken-trans : (m n o : Option Mark) → Woken m n → Woken n o → Woken m o
Woken-trans m n o (inl e) (inl f) = inl (f ∙ e)
Woken-trans m n o (inl e) (inr (p, a, b)) = inr (p, sym e ∙ a, b)
Woken-trans m n o (inr (p, a, b)) (inl f) = inr (p, a, f ∙ b)
Woken-trans m n o (inr (p, a, b)) (inr (q, c, d)) = absurd (clash p q (sym b ∙ c))
  where
    clash : (p q : ℕ) → ◌≡◌ {A = Option Mark} (some (runnable, p)) (some (sleeping, q)) → ⊥
    clash p q e = cc e

pub Woken-runs : (m n : Option Mark) → Woken m n → runs n ≡ runs m
Woken-runs m n (inl e) = ap runs e
Woken-runs m n (inr (p, a, b)) = ap runs b ∙ sym (ap runs a)

pub Woken-pid_of : (m n : Option Mark) → Woken m n → pid_of n ≡ pid_of m
Woken-pid_of m n (inl e) = ap pid_of e
Woken-pid_of m n (inr (p, a, b)) = ap pid_of b ∙ sym (ap pid_of a)

pub Woken-moved : (s : ProcState) (m n : Option Mark) → Woken m n → moved s n ≡ moved s m
Woken-moved s m n (inl e) = ap (moved s) e
Woken-moved s m n (inr (p, a, b)) = ap (moved s) b ∙ sym (ap (moved s) a)

-- A process that wakeup(chan) takes is SLEEPING.
pub asleep :
    {F : Type 0} (p : Proc F) (a b : Bool)
    → (a && (state_eq p.state sleeping && b)) ≡ true
    → p.state ≡ sleeping
asleep p a b t = ground arith

module _ {F Q W : Type 0} where
  pub record Wakes (k l : Kernel F Q W) : Type 0 where
    pub marks : (j : ℕ) → Woken (mark k j) (mark l j)
    pub cpus : (id : ℕ) → myproc id l ≡ myproc id k
    pub next : l.nextpid ≡ k.nextpid

  pub Still-Wakes : {k l : Kernel F Q W} → Still k l → Wakes k l
  Still-Wakes s = record { marks = λ j. inl (s.marks j); cpus = s.cpus; next = s.next }

  pub Wakes-trans : {k l m : Kernel F Q W} → Wakes k l → Wakes l m → Wakes k m
  Wakes-trans {k} {l} {m} a b = record {
    marks = λ j. Woken-trans (mark k j) (mark l j) (mark m j) (a.marks j) (b.marks j);
    cpus = λ id. b.cpus id ∙ a.cpus id;
    next = b.next ∙ a.next;
  }

  -- A store that wakes a SLEEPING process.
  pub at-Wakes :
      (i : ℕ) (f : Proc F → Proc F) (k : Kernel F Q W) {p : Proc F}
      → proc_at k i ≡ some p
      → p.state ≡ sleeping
      → mark_of (f p) ≡ (runnable, p.pid)
      → Wakes k (at i f k)
  unfolding myproc
  at-Wakes i f k {p} e asleep wakes = record {
    marks = λ j. elim (Bool-cases (i == j)) [
      | inl t ↦ subst (λ n. Woken (mark k n) (mark (at i f k) n)) ((==_iff i j).0 t) here
      | inr t ↦ inl (at-mark_other i j f k (λ q. cc ((==_iff i j).1 q)))
    ];
    cpus = λ id. refl;
    next = refl;
  }
    where
      here : Woken (mark k i) (mark (at i f k) i)
      here = inr (
        p.pid,
        mark-some k i e ∙ ap (λ (s : ProcState). some (s, p.pid)) asleep,
        mark-some (at i f k) i (get_elem?-modify_self k.procs i f e) ∙ ap some wakes,
      )

  for_from-Wakes :
      (body : ℕ → Kernel F Q W → Kernel F Q W)
      → ((i : ℕ) (k : Kernel F Q W) → Wakes k (body i k))
      → (n i : ℕ) (k : Kernel F Q W) → Wakes k (for_from body n i k)
  unfolding for_from
  for_from-Wakes body wakes zero i k = record {
    marks = λ j. inl refl;
    cpus = λ id. refl;
    next = refl;
  }
  for_from-Wakes body wakes (suc n) i k =
      Wakes-trans (wakes i k) (for_from-Wakes body wakes n (i + 1) (body i k))

  pub for_each-Wakes :
      (body : ℕ → Kernel F Q W → Kernel F Q W)
      → ((i : ℕ) (k : Kernel F Q W) → Wakes k (body i k))
      → (k : Kernel F Q W) → Wakes k (for_each body k)
  unfolding for_each
  for_each-Wakes body wakes k = for_from-Wakes body wakes (length k.procs) 0 k
