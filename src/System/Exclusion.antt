-- ===== src/System/Exclusion.antt =====
-- What every reachable state of the machine has: the RUNNING processes are those that the CPUs run,
-- each on one CPU; and the pids in use differ.
use mathlib.Core.Option.{some-injective}
use os_project_files.Base.{
  ℕ, ◌≡◌, ◌≢◌, ◌⊎◌, sym, ap, ◌∙◌, subst, inl, inr, some, Bool-cases, true, false, ◌==◌, ==_iff,
  refl,
}
use os_project_files.Kernel.{ProcState, used, runnable, running, state_eq, Kernel, Ext, myproc}
use os_project_files.System.Change.{Change, wakes_some, starts, stops, begins, allots, Step-Change}
use os_project_files.System.Effects.{Lot, born, claimed, refused, reaped, Allots}
use os_project_files.System.Policy.{Policy, Settles, Starts, Stops, Rests-still}
use os_project_files.System.Step.{Reach, start, later}
use os_project_files.System.Views.{mark, moved, runs, runs-moved}
use os_project_files.System.Wakes.{Wakes, Woken, Woken-runs}

pub same_or_not : (i j : ℕ) → (i ≡ j) ⊎ (i ≢ j)
same_or_not i j = elim (Bool-cases (i == j)) [
  | inl e ↦ inl ((==_iff i j).0 e)
  | inr e ↦ inr (λ q. cc ((==_iff i j).1 q))
]

-- A slot that is allotted is not RUNNING before and after.
Lot-still :
    {s t : ProcState} → Lot s t → (state_eq s running ≡ false) × (state_eq t running ≡ false)
Lot-still born = (refl, refl)
Lot-still claimed = (refl, refl)
Lot-still refused = (refl, refl)
Lot-still reaped = (refl, refl)

module _ {F Q W : Type 0} where
  -- Every CPU's process is RUNNING, no process is on two CPUs, and every RUNNING process is on one.
  pub record Exclusive (k : Kernel F Q W) : Type 0 where
    pub held : (id i : ℕ) → myproc id k ≡ some i → runs (mark k i) ≡ true
    pub unique : (a b i : ℕ) → myproc a k ≡ some i → myproc b k ≡ some i → a ≡ b
    pub covered : (i : ℕ) → runs (mark k i) ≡ true → (id : ℕ) × (myproc id k ≡ some i)

  others_run :
      (k l : Kernel F Q W) {i : ℕ}
      → ((j : ℕ) → i ≢ j → Woken (mark k j) (mark l j))
      → (j : ℕ) → i ≢ j
      → runs (mark l j) ≡ runs (mark k j)
  others_run k l others j ne = Woken-runs (mark k j) (mark l j) (others j ne)

  same_runs-Exclusive :
      {k l : Kernel F Q W}
      → ((i : ℕ) → runs (mark l i) ≡ runs (mark k i))
      → ((id : ℕ) → myproc id l ≡ myproc id k)
      → Exclusive k
      → Exclusive l
  same_runs-Exclusive {k} {l} same cpus v = record {
    held = λ id i e. same i ∙ v.held id i (sym (cpus id) ∙ e);
    unique = λ a b i e f. v.unique a b i (sym (cpus a) ∙ e) (sym (cpus b) ∙ f);
    covered = λ i e. let (id, c) = v.covered i (sym (same i) ∙ e) in (id, cpus id ∙ c);
  }

  Wakes-Exclusive : {k l : Kernel F Q W} → Wakes k l → Exclusive k → Exclusive l
  Wakes-Exclusive {k} {l} q =
      same_runs-Exclusive (λ i. Woken-runs (mark k i) (mark l i) (q.marks i)) q.cpus

  begins-Exclusive :
      {i pid : ℕ} {k l : Kernel F Q W}
      → mark k i ≡ some (used, pid)
      → Settles i runnable k l
      → Exclusive k
      → Exclusive l
  begins-Exclusive {i} {pid} {k} {l} was r =
      same_runs-Exclusive
        (λ j. elim (same_or_not i j) [
          | inl q ↦
              subst (λ n. runs (mark l n) ≡ runs (mark k n)) q
                (ap runs (r.settled ∙ ap (moved runnable) was) ∙ sym (ap runs was))
          | inr ne ↦ others_run k l r.others j ne
        ])
        r.cpus

  Allots-Exclusive :
      {i : ℕ} {s t : ProcState} {k l : Kernel F Q W}
      → Lot s t
      → Allots i s t k l
      → Exclusive k
      → Exclusive l
  Allots-Exclusive {i} {s} {t} {k} {l} lot a v = record {
    held = λ id j e.
        let c = v.held id j (sym (a.cpus id) ∙ e) in others_run k l a.others j (differs j c) ∙ c;
    unique = λ x y j e f. v.unique x y j (sym (a.cpus x) ∙ e) (sym (a.cpus y) ∙ f);
    covered = λ j e. elim (same_or_not i j) [
      | inl q ↦ absurd (cc (ap runs a.to, (Lot-still lot).1, e, ap (λ (n : ℕ). runs (mark l n)) q))
      | inr ne ↦
          let (id, c) = v.covered j (sym (others_run k l a.others j ne) ∙ e) in (id, a.cpus id ∙ c)
    ];
  }
    where
      differs : (j : ℕ) → runs (mark k j) ≡ true → i ≢ j
      differs j e q = cc (e, ap runs a.from, (Lot-still lot).0, ap (λ (n : ℕ). runs (mark k n)) q)

  Starts-Exclusive : {id i : ℕ} {k l : Kernel F Q W} → Starts id i k l → Exclusive k → Exclusive l
  Starts-Exclusive {id} {i} {k} {l} s v = record {
    held = λ a j e. elim (same_or_not id a) [
      | inl q ↦ takes j (some-injective _ _ (sym s.taken ∙ ap (λ (n : ℕ). myproc n l) q ∙ e))
      | inr ne ↦ kept j (v.held a j (sym (s.elsewhere a ne) ∙ e))
    ];
    unique = λ a b j e f. elim (same_or_not id a) [
      | inl q ↦ elim (same_or_not id b) [
        | inl r ↦ sym q ∙ r
        | inr ne ↦ absurd (apart a b j q ne e f)
      ]
      | inr ne ↦ elim (same_or_not id b) [
        | inl r ↦ absurd (apart b a j r ne f e)
        | inr nf ↦ v.unique a b j (sym (s.elsewhere a ne) ∙ e) (sym (s.elsewhere b nf) ∙ f)
      ]
    ];
    covered = λ j e. elim (same_or_not i j) [
      | inl q ↦ (id, s.taken ∙ ap some q)
      | inr ne ↦
          let (a, c) = v.covered j (sym (ap runs (s.others j ne)) ∙ e) in
          (a, s.elsewhere a (busy a j c) ∙ c)
    ];
  }
    where
      takes : (j : ℕ) → i ≡ j → runs (mark l j) ≡ true
      takes j q = sym (ap (λ (n : ℕ). runs (mark l n)) q) ∙ ap runs s.runs

      kept : (j : ℕ) → runs (mark k j) ≡ true → runs (mark l j) ≡ true
      kept j c = elim (same_or_not i j) [ inl q ↦ takes j q | inr ne ↦ ap runs (s.others j ne) ∙ c ]

      busy : (a j : ℕ) → myproc a k ≡ some j → id ≢ a
      busy a j c q = cc (c, s.idle, ap (λ (n : ℕ). myproc n k) q)

      -- The process that starts was on no other CPU.
      apart : (a b j : ℕ) → id ≡ a → id ≢ b → myproc a l ≡ some j → myproc b l ≡ some j → ⊥
      apart a b j q ne e f =
          let r = v.held b j (sym (s.elsewhere b ne) ∙ f) in
          let same : i ≡ j = some-injective _ _ (sym s.taken ∙ ap (λ (n : ℕ). myproc n l) q ∙ e) in
          cc (r, ap runs s.waits, ap (λ (n : ℕ). runs (mark k n)) same)

  Stops-Exclusive : {id i : ℕ} {k l : Kernel F Q W} → Stops id i k l → Exclusive k → Exclusive l
  Stops-Exclusive {id} {i} {k} {l} s v = record {
    held = λ a j e.
        let c = sym (s.elsewhere a (busy a j e)) ∙ e in
        others_run k l s.others j (other a j (busy a j e) c) ∙ v.held a j c;
    unique = λ a b j e f.
        v.unique a b j (sym (s.elsewhere a (busy a j e)) ∙ e)
          (sym (s.elsewhere b (busy b j f)) ∙ f);
    covered = λ j e. elim (same_or_not i j) [
      | inl q ↦ absurd (cc (e, still, ap (λ (n : ℕ). runs (mark l n)) q))
      | inr ne ↦
          let (a, c) = v.covered j (sym (others_run k l s.others j ne) ∙ e) in
          (
            a,
            s.elsewhere a
                  (λ q. ne (some-injective _ _ (sym s.held ∙ ap (λ (n : ℕ). myproc n k) q ∙ c)))
                ∙ c,
          )
    ];
  }
    where
      still : runs (mark l i) ≡ false
      still = ap runs s.stopped ∙ runs-moved s.to (mark k i) (Rests-still s.rests)

      busy : (a j : ℕ) → myproc a l ≡ some j → id ≢ a
      busy a j e q = cc (e, s.idle, ap (λ (n : ℕ). myproc n l) q)

      other : (a j : ℕ) → id ≢ a → myproc a k ≡ some j → i ≢ j
      other a j ne c q = ne (v.unique id a j (s.held ∙ ap some q) c)

  Change-Exclusive : {k l : Kernel F Q W} → Change k l → Exclusive k → Exclusive l
  Change-Exclusive (wakes_some q) v = Wakes-Exclusive q v
  Change-Exclusive (starts id i s) v = Starts-Exclusive s v
  Change-Exclusive (stops id i s) v = Stops-Exclusive s v
  Change-Exclusive (begins i was r) v = begins-Exclusive was r v
  Change-Exclusive (allots i lot a) v = Allots-Exclusive lot a v

  module _ (P : Policy F Q W) (ext : Ext W) where
    -- From a kernel in which every CPU's process is RUNNING, no process is on two CPUs, and every
    -- RUNNING process is on one, every run of the machine, under any scheduler that meets the
    -- interface Policy, leads to kernels of which the same holds.
    pub Reach-Exclusive :
        {k : Kernel F Q W} {n : ℕ} {l : Kernel F Q W}
        → Exclusive k
        → Reach P ext k n l
        → Exclusive l
    Reach-Exclusive v start = v
    Reach-Exclusive v (later r s) = Change-Exclusive (Step-Change P ext s) (Reach-Exclusive v r)
