-- ===== src/WorkStealing/Round.antt =====
-- A round of scheduler() in work stealing/proc.c loses no RUNNABLE process.
use mathlib.Core.Option.{some-injective}
use os_project_files.Base.{
  ℕ, zero, suc, ◌-◌, ◌≡◌, ◌≢◌, ◌⊎◌, refl, sym, ap, ◌∙◌, subst, inl, inr, Option, Option-cases, none,
  some, Bool-cases, true, false, ◌==◌, ==_iff, get_elem?, modify, get_elem?-modify_self,
  get_elem?-modify_ne,
}
use os_project_files.Kernel.{Cpu, Kernel}
use os_project_files.WorkStealing.Choice.{is_runnable_cong}
use os_project_files.WorkStealing.Deque.{Deque, max_tasks, pop_front, pop_back}
use os_project_files.WorkStealing.Kept.{
  Among, IsFair, find_in-IsValid, pop_back-IsFair, pop_front-IsFair,
}
use os_project_files.WorkStealing.Ring.{IsValid, contents}
use os_project_files.WorkStealing.{
  Sched, find_in, find_task, select_victim, steal, select, is_runnable,
}

module _ {W : Type 0} where
  -- The process i stands in a ring.
  pub record Queued (k : Kernel Sched Deque W) (i : ℕ) : Type 0 where
    pub cpu : ℕ
    pub entry : Cpu Deque
    pub at_cpu : get_elem? k.cpus cpu ≡ some entry
    pub among : Among i (contents entry.queue)

  abbrev pub RingsValid : Kernel Sched Deque W → Type 0
  RingsValid k = (id : ℕ) (c : Cpu Deque) → get_elem? k.cpus id ≡ some c → IsValid c.queue

  -- Every ring is valid, and every RUNNABLE process stands in one.
  pub record AllQueued (k : Kernel Sched Deque W) : Type 0 where
    pub valid : RingsValid k
    pub queued : (i : ℕ) → is_runnable k i ≡ true → Queued k i

  -- A search from k to l that finds `task`.
  pub record Keeps (k : Kernel Sched Deque W) (task : Option ℕ) (l : Kernel Sched Deque W)
      : Type 0 where
    pub valid : RingsValid l
    pub same : l.procs ≡ k.procs
    pub kept : (i : ℕ) → is_runnable k i ≡ true → Queued k i → (task ≡ some i) ⊎ Queued l i

  Keeps-trans :
      {k l m : Kernel Sched Deque W} {task : Option ℕ}
      → Keeps k none l
      → Keeps l task m
      → Keeps k task m
  Keeps-trans {k} {l} a b = record {
    valid = b.valid;
    same = b.same ∙ a.same;
    kept = λ i r q. elim (a.kept i r q) [
      | inl e ↦ absurd (cc e)
      | inr s ↦ b.kept i (is_runnable_cong k l i a.same ∙ r) s
    ];
  }

  Keeps-cong : {k l : Kernel Sched Deque W} {t u : Option ℕ} → t ≡ u → Keeps k t l → Keeps k u l
  Keeps-cong {k} {l} e a = subst (λ t. Keeps k t l) e a

  module _ (pop : Deque → Option ℕ × Deque) (fair : IsFair pop) where
    -- The ring of the CPU `id` changes from that of c to q, and no other does.
    replaced :
        (id : ℕ) (k : Kernel Sched Deque W) (c : Cpu Deque)
        → get_elem? k.cpus id ≡ some c
        → RingsValid k
        → let r = find_in pop (is_runnable k) max_tasks c.queue in
          Keeps k r.0 (record k { cpus = modify k.cpus id (λ d. record d { queue = r.1 }) })
    replaced id k c at_id v = record {
      valid = λ a d e. elim (Bool-cases (id == a)) [
        | inl t ↦
            let same : record c { queue = q } ≡ d = some-injective _ _ (
              sym (get_elem?-modify_self k.cpus id (λ x. record x { queue = q }) at_id)
              ∙ ap (get_elem? (modify k.cpus id (λ x. record x { queue = q }))) ((==_iff id a).0 t)
              ∙ e) in
            subst (λ (x : Cpu Deque). IsValid x.queue) same
              (find_in-IsValid pop (is_runnable k) fair.valid max_tasks c.queue (v id c at_id))
        | inr t ↦ v a d (sym (get_elem?-modify_ne k.cpus id a _ (other id a t)) ∙ e)
      ];
      same = refl;
      kept = λ i r s. elim (Bool-cases (id == s.cpu)) [
        | inl t ↦
            let here : c ≡ s.entry =
              some-injective _ _
                (sym at_id ∙ ap (get_elem? k.cpus) ((==_iff id s.cpu).0 t) ∙ s.at_cpu) in
            elim (fair.stays (is_runnable k) c.queue (v id c at_id) i r
              (subst (λ (x : Cpu Deque). Among i (contents x.queue)) (sym here) s.among)) [
                | inl e ↦ inl e
                | inr m ↦ inr (record {
                  cpu = id;
                  entry = record c { queue = q };
                  at_cpu = get_elem?-modify_self k.cpus id (λ x. record x { queue = q }) at_id;
                  among = m;
                })
              ]
        | inr t ↦ inr (record {
          cpu = s.cpu;
          entry = s.entry;
          at_cpu = get_elem?-modify_ne k.cpus id s.cpu _ (other id s.cpu t) ∙ s.at_cpu;
          among = s.among;
        })
      ];
    }
      where
        q : Deque
        q = (find_in pop (is_runnable k) max_tasks c.queue).1

        other : (a b : ℕ) → (a == b) ≡ false → a ≢ b
        other a b e same = cc (e, (==_iff a b).1 same)

    find_task-Keeps :
        (id : ℕ) (k : Kernel Sched Deque W)
        → RingsValid k
        → Keeps k (find_task pop id k).0 (find_task pop id k).1
    unfolding find_task
    find_task-Keeps id k v = elim (Option-cases (get_elem? k.cpus id)) [
      | inl e ↦ rw (e, find_task) (record { valid = v; same = refl; kept = λ i r s. inr s })
      | inr (c, e) ↦ rw (e, find_task) (replaced id k c e v)
    ]

  -- What a search that ends has kept.
  abbrev pub Ended : Kernel Sched Deque W → Option (Option ℕ × Kernel Sched Deque W × ℕ) → Type 0
  Ended k none = Unit
  Ended k (some (task, l, seed)) = Keeps k task l

  Ended-trans :
      {k l : Kernel Sched Deque W} (r : Option (Option ℕ × Kernel Sched Deque W × ℕ))
      → Keeps k none l
      → Ended l r
      → Ended k r
  Ended-trans none a b = tt
  Ended-trans (some (task, l, seed)) a b = Keeps-trans a b

  steal-Ended :
      (ncpu fuel id n seed : ℕ) (k : Kernel Sched Deque W)
      → RingsValid k
      → Ended k (steal ncpu fuel id n seed k)
  unfolding steal
  steal-Ended ncpu fuel id zero seed k v = record { valid = v; same = refl; kept = λ i r s. inr s }
  steal-Ended ncpu fuel id (suc n) seed k v =
      elim (Option-cases (select_victim ncpu id fuel seed)) [
        | inl e ↦ rw (e, steal) tt
        | inr ((victim, seed1), e) ↦
            let a = find_task-Keeps pop_front pop_front-IsFair victim k v in
            elim (Option-cases (find_task pop_front victim k).0) [
              | inl t ↦
                  rw (e, steal)
                    (rw (t, steal)
                      (Ended-trans (steal ncpu fuel id n seed1 (find_task pop_front victim k).1)
                        (Keeps-cong t a) (steal-Ended ncpu fuel id n seed1 _ a.valid)))
              | inr (i, t) ↦ rw (e, steal) (rw (t, steal) (Keeps-cong t a))
            ]
      ]

  pub select-Ended :
      (ncpu fuel id seed : ℕ) (k : Kernel Sched Deque W)
      → RingsValid k
      → Ended k (select ncpu fuel id seed k)
  unfolding select
  select-Ended ncpu fuel id seed k v =
      let a = find_task-Keeps pop_back pop_back-IsFair id k v in
      elim (Option-cases (find_task pop_back id k).0) [
        | inl t ↦
            rw (t, select)
              (Ended-trans (steal ncpu fuel id (ncpu - 1) seed (find_task pop_back id k).1)
                (Keeps-cong t a) (steal-Ended ncpu fuel id (ncpu - 1) seed _ a.valid))
        | inr (i, t) ↦ rw (t, select) (Keeps-cong t a)
      ]
