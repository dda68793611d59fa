-- ===== src/WorkStealing/Waiting.antt =====
-- The RUNNABLE processes of work stealing/proc.c wait in the rings: what a round of scheduler() does to
-- that.
use mathlib.Core.Option.{some-injective}
use os_project_files.Base.{
  ℕ, suc, ◌*◌, ◌<◌, ◌≡◌, ◌≢◌, refl, sym, ap, ◌∙◌, subst, inl, inr, Option, Option-cases, none, some,
  Bool, Bool-cases, true, false, ◌==◌, ==_iff, get_elem?, modify, get_elem?-modify_self,
  get_elem?-modify_ne, get_elem?-modify-none,
}
use os_project_files.Kernel.{
  running, runnable, state_eq, Cpu, Proc, Kernel, at, proc_at, set_running,
}
use os_project_files.WorkStealing.Deque.{Deque}
use os_project_files.WorkStealing.Ring.{IsValid}
use os_project_files.WorkStealing.Round.{Queued, RingsValid, AllQueued, Keeps, Ended, select-Ended}
use os_project_files.WorkStealing.Choice.{is_runnable_cong, select-Ends}
use os_project_files.WorkStealing.{Sched, schedule, run_found, select, dispatch, is_runnable}

pub other : (a b : ℕ) → (a == b) ≡ false → a ≢ b
other a b e same = cc (e, (==_iff a b).1 same)

module _ {W : Type 0} where
  -- A store into one CPU that keeps its ring valid.
  pub RingsValid-modify :
      (id : ℕ) (f : Cpu Deque → Cpu Deque) (k : Kernel Sched Deque W)
      → ((c : Cpu Deque) → IsValid c.queue → IsValid (f c).queue)
      → RingsValid k
      → RingsValid (record k { cpus = modify k.cpus id f })
  RingsValid-modify id f k keeps v a d e = elim (Bool-cases (id == a)) [
    | inr t ↦ v a d (sym (get_elem?-modify_ne k.cpus id a f (other id a t)) ∙ e)
    | inl t ↦
        let here : get_elem? (modify k.cpus id f) id ≡ some d =
          ap (get_elem? (modify k.cpus id f)) ((==_iff id a).0 t) ∙ e in
        elim (Option-cases (get_elem? k.cpus id)) [
          | inl n ↦ absurd (cc (get_elem?-modify-none k.cpus id f n, here))
          | inr (c, at_id) ↦
              subst (λ (x : Cpu Deque). IsValid x.queue)
                (some-injective _ _ (sym (get_elem?-modify_self k.cpus id f at_id) ∙ here))
                (keeps c (v id c at_id))
        ]
  ]

  pub runnable_cong :
      (k l : Kernel Sched Deque W) (j : ℕ)
      → proc_at l j ≡ proc_at k j
      → is_runnable l j ≡ is_runnable k j
  unfolding is_runnable
  runnable_cong k l j e =
      ap
        (λ (o : Option (Proc Sched)). elim o as (λ _. Bool) [
          | none ↦ false
          | some p ↦ state_eq p.state runnable
        ])
        e

  runs_not :
      (i : ℕ) (f : Proc Sched → Proc Sched) (k : Kernel Sched Deque W)
      → ((p : Proc Sched) → (f p).state ≡ running)
      → is_runnable (at i f k) i ≡ false
  unfolding is_runnable
  runs_not i f k run = elim (Option-cases (proc_at k i)) [
    | inl e ↦ rw (get_elem?-modify-none k.procs i f e, is_runnable)
    | inr (p, e) ↦ rw (get_elem?-modify_self k.procs i f e, is_runnable) (rw (run p))
  ]

  module _ (id i : ℕ) (m : Kernel Sched Deque W) where
    dispatch-other :
        (j : ℕ) → is_runnable (dispatch id i m) j ≡ true → (i ≢ j) × (is_runnable m j ≡ true)
    unfolding dispatch set_running
    dispatch-other j r = elim (Bool-cases (i == j)) [
      | inl e ↦
          let same = (==_iff i j).0 e in
          absurd (
            cc (
              r,
              ap (λ (n : ℕ). is_runnable (dispatch id i m) n) same,
              runnable_cong
                  (at i (λ p. record p { state = running; sched = record { last_cpu = id } }) m)
                  (dispatch id i m) i refl,
              runs_not i (λ p. record p { state = running; sched = record { last_cpu = id } }) m
                  (λ p. refl),
            ))
      | inr e ↦ (
        other i j e,
        sym (runnable_cong m (dispatch id i m) j (get_elem?-modify_ne m.procs i j _ (other i j e)))
            ∙ r,
      )
    ]

    -- c->proc is no part of a ring.
    dispatch-Queued : (j : ℕ) → Queued m j → Queued (dispatch id i m) j
    unfolding dispatch set_running
    dispatch-Queued j s = elim (Bool-cases (id == s.cpu)) [
      | inl e ↦
          let there = sym (ap (get_elem? m.cpus) ((==_iff id s.cpu).0 e)) in
          record {
            cpu = id;
            entry = record t { proc = some i };
            at_cpu =
                get_elem?-modify_self m.cpus id (λ c. record c { proc = some i })
                  (sym there ∙ s.at_cpu);
            among = s.among;
          }
      | inr e ↦ record {
        cpu = s.cpu;
        entry = t;
        at_cpu = get_elem?-modify_ne m.cpus id s.cpu _ (other id s.cpu e) ∙ s.at_cpu;
        among = s.among;
      }
    ]
      where
        open s use {entry as t}

    dispatch-RingsValid : RingsValid m → RingsValid (dispatch id i m)
    unfolding dispatch set_running
    dispatch-RingsValid v = RingsValid-modify id (λ c. record c { proc = some i }) m (λ c w. w) v

  ran-AllQueued :
      (id : ℕ) (task : Option ℕ) (k m : Kernel Sched Deque W)
      → AllQueued k
      → Keeps k task m
      → AllQueued (run_found id task m)
  unfolding run_found
  ran-AllQueued id none k m v a = record {
    valid = a.valid;
    queued = λ j r.
        let before = sym (is_runnable_cong k m j a.same) ∙ r in
        elim (a.kept j before (v.queued j before)) [ inl e ↦ absurd (cc e) | inr s ↦ s ];
  }
  ran-AllQueued id (some i) k m v a = record {
    valid = dispatch-RingsValid id i m a.valid;
    queued = λ j r.
        let (ne, now) = dispatch-other id i m j r in
        let before = sym (is_runnable_cong k m j a.same) ∙ now in
        elim (a.kept j before (v.queued j before)) [
          | inl e ↦ absurd (ne (some-injective _ _ e))
          | inr s ↦ dispatch-Queued id i m j s
        ];
  }

  found-AllQueued :
      (ncpu fuel id seed seed1 : ℕ) (task : Option ℕ) (k m : Kernel Sched Deque W)
      → AllQueued k
      → select ncpu fuel id seed k ≡ some (task, m, seed1)
      → AllQueued (run_found id task m)
  found-AllQueued ncpu fuel id seed seed1 task k m v e =
      ran-AllQueued id task k m v (subst (Ended k) e (select-Ended ncpu fuel id seed k v.valid))

  -- With an even number of CPUs above 0, a round of scheduler() ends; a process that it takes was
  -- RUNNABLE; and if every ring was valid and every RUNNABLE process stood in a ring, this is so again
  -- when the process that it took, if any, runs.
  pub schedule-AllQueued :
      (half fuel id seed : ℕ) (k : Kernel Sched Deque W)
      → 0 < half
      → AllQueued k
      → (task : Option ℕ) × (l : Kernel Sched Deque W) × (seed1 : ℕ) × (schedule
            (2 * half)
            (suc (suc fuel))
            id
            seed
            k
          ≡ some (task, l, seed1))
        × ((i : ℕ) → task ≡ some i → is_runnable k i ≡ true)
        × AllQueued l
  unfolding schedule
  schedule-AllQueued half fuel id seed k h v =
      let (task, m, seed1, e, (same, sound)) = select-Ends half id fuel h seed k in
      (
        task,
        run_found id task m,
        seed1,
        rw (e, schedule),
        sound,
        found-AllQueued (2 * half) (suc (suc fuel)) id seed seed1 task k m v e,
      )
