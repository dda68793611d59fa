-- ===== src/WorkStealing/Yield.antt =====
-- What yield() and the push behind the switch do to the queue in work stealing/proc.c.
use os_project_files.Base.{
  ℕ, suc, ◌<◌, ◌≡◌, refl, sym, ap, ◌∙◌, inl, inr, Option, none, some, List, [], ◌∷◌, ◌++◌, Bool,
  Bool-cases, true, ◌==◌, length, length-append, get_elem?, modify, get_elem?-modify_self,
  append-last, arith, if◌then◌else◌,
}
use os_project_files.Kernel.{Cpu, Proc, Kernel, clear_running}
use os_project_files.WorkStealing.Deque.{Deque, max_tasks, push_back, pop_back}
use os_project_files.WorkStealing.Ring.{
  IsValid, contents, push_back-IsValid, push_back-contents, pop_back-contents, not_nil,
}
use os_project_files.WorkStealing.Search.{find_in-step_hit}
use os_project_files.WorkStealing.{
  Sched, find_in, find_task, select, ready, resume, enqueue, is_runnable, make_ready,
}

if_not_full : (n : ℕ) (xs ys : List ℕ) → n < 63 → (if n == 63 then xs else ys) ≡ ys
if_not_full n xs ys h = ground arith

if_full : (n : ℕ) (xs ys : List ℕ) → n ≡ 63 → (if n == 63 then xs else ys) ≡ xs
if_full n xs ys h = ground arith

pub push_room :
    (c : Deque) (p : ℕ)
    → IsValid c
    → length (contents c) < 63
    → contents (push_back c p) ≡ contents c ++ p ∷ []
push_room c p v h =
    push_back-contents c p v
    ∙ if_not_full (length (contents c)) (contents c) (contents c ++ p ∷ []) (omega arith)

-- Two pushes of `p`, by yield() and behind the switch, leave p as the newest entry if there was
-- room for one.
push_twice :
    (c : Deque) (p : ℕ)
    → IsValid c
    → length (contents c) < 63
    → (xs : List ℕ) × (contents (push_back (push_back c p) p) ≡ xs ++ p ∷ [])
push_twice c p v h =
    let again = push_back-contents (push_back c p) p (push_back-IsValid c p v) in
    elim (Bool-cases (length (contents (push_back c p)) == 63)) [
      | inl e ↦ (contents c, again ∙ rw e (push_room c p v h))
      | inr e ↦ (contents (push_back c p), again ∙ rw e)
    ]

-- A newest entry that is RUNNABLE is the one that the loop on the own queue finds.
find_last :
    (run : ℕ → Bool) (n i : ℕ) (c : Deque) (xs : List ℕ)
    → IsValid c
    → contents c ≡ xs ++ i ∷ []
    → run i ≡ true
    → (find_in pop_back run (suc n) c ≡ (some i, (pop_back c).1)) × (contents (pop_back c).1 ≡ xs)
find_last run n i c xs v e r = elim (pop_back-contents c v) [
  | inl (z, _) ↦ absurd (not_nil xs i (sym e ∙ z))
  | inr (j, p, w) ↦
      let (l, same) = append-last (contents (pop_back c).1) xs j i (sym w ∙ e) in
      (find_in-step_hit run pop_back n i c (p ∙ ap some same) r, l)
]

module _ {W : Type 0} (id i : ℕ) (k : Kernel Sched Deque W) where
  clear_running-is_runnable : is_runnable (clear_running id k) i ≡ is_runnable k i
  unfolding clear_running is_runnable
  clear_running-is_runnable = refl

  resume-eq : is_runnable k i ≡ true → resume id i k ≡ enqueue id i (clear_running id k)
  unfolding resume
  resume-eq r = rw (clear_running-is_runnable ∙ r)

  enqueue-is_runnable : is_runnable (enqueue id i (clear_running id k)) i ≡ is_runnable k i
  unfolding enqueue clear_running is_runnable
  enqueue-is_runnable = refl

  queue_of_pushes :
      {d : Cpu Deque}
      → get_elem? k.cpus id ≡ some d
      → get_elem? (enqueue id i (clear_running id k)).cpus id
        ≡ some (record { proc = none; queue = push_back d.queue i })
  unfolding enqueue clear_running
  queue_of_pushes e =
      get_elem?-modify_self (modify k.cpus id (λ c. record c { proc = none })) id _
        (get_elem?-modify_self k.cpus id (λ c. record c { proc = none }) e)

module _ {W : Type 0} (id i : ℕ) (k : Kernel Sched Deque W) where
  find_task-eq :
      {c : Cpu Deque} {q : Deque}
      → get_elem? k.cpus id ≡ some c
      → find_in pop_back (is_runnable k) max_tasks c.queue ≡ (some i, q)
      → find_task pop_back id k
        ≡ (some i, record k { cpus = modify k.cpus id (λ d. record d { queue = q }) })
  unfolding find_task
  find_task-eq e found = rw (e, find_task) (rw found)

  select-eq :
      (ncpu fuel seed : ℕ) {l : Kernel Sched Deque W}
      → find_task pop_back id k ≡ (some i, l)
      → select ncpu fuel id seed k ≡ some (some i, l, seed)
  unfolding select
  select-eq ncpu fuel seed e =
      rw (ap (λ (r : Option ℕ × Kernel Sched Deque W). r.0) e, select)
        (ap (λ (r : Option ℕ × Kernel Sched Deque W). some (some i, r.1, seed)) e)

-- scheduler() chooses a RUNNABLE newest entry of its own queue.
select-last :
    {W : Type 0} (ncpu fuel id seed i : ℕ) (k : Kernel Sched Deque W) (c : Cpu Deque) (xs : List ℕ)
    → get_elem? k.cpus id ≡ some c
    → IsValid c.queue
    → contents c.queue ≡ xs ++ i ∷ []
    → is_runnable k i ≡ true
    → (l : Kernel Sched Deque W) × (select ncpu fuel id seed k ≡ some (some i, l, seed))
select-last ncpu fuel id seed i k c xs at_id v e r =
    let (found, _) = find_last (is_runnable k) 63 i c.queue xs v e r in
    (
      record k { cpus = modify k.cpus id (λ d. record d { queue = (pop_back c.queue).1 }) },
      select-eq id i k ncpu fuel seed (find_task-eq id i k at_id found),
    )

module _ {W : Type 0} (id i : ℕ) (k : Kernel Sched Deque W) {c : Cpu Deque} {p : Proc Sched}
    (cpu : get_elem? k.cpus id ≡ some c) (proc : get_elem? k.procs i ≡ some p) where
  -- The process is RUNNABLE once it is made ready.
  ready-is_runnable : is_runnable (ready id i k) i ≡ true
  unfolding ready is_runnable
  ready-is_runnable = rw (get_elem?-modify_self k.procs i make_ready proc, is_runnable)

  -- The queue behind yield(), the switch and the push behind the switch.
  resume-ready-queue :
      (d : Cpu Deque) × (get_elem? (resume id i (ready id i k)).cpus id ≡ some d)
      × (d.queue ≡ push_back (push_back c.queue i) i)
  unfolding ready
  resume-ready-queue = (
    record { proc = none; queue = push_back (push_back c.queue i) i },
    rw (resume-eq id i (ready id i k) ready-is_runnable) (
        queue_of_pushes id i (ready id i k)
          (get_elem?-modify_self k.cpus id (λ d. record d { queue = push_back d.queue i }) cpu)),
    refl,
  )

  resume-ready-is_runnable : is_runnable (resume id i (ready id i k)) i ≡ true
  resume-ready-is_runnable =
      rw (resume-eq id i (ready id i k) ready-is_runnable)
        (enqueue-is_runnable id i (ready id i k) ∙ ready-is_runnable)

  -- With a valid queue and room for one entry in it, a process that calls yield() is the next that the same
  -- CPU's scheduler() chooses, whatever else waits in its queue.
  pub yield_resumes :
      (ncpu fuel seed : ℕ)
      → IsValid c.queue
      → length (contents c.queue) < 63
      → (l : Kernel Sched Deque W) × (select ncpu fuel id seed (resume id i (ready id i k))
          ≡ some (some i, l, seed))
  yield_resumes ncpu fuel seed v h =
      let (d, at_id, q) = resume-ready-queue in
      let (xs, e) = push_twice c.queue i v h in
      select-last ncpu fuel id seed i (resume id i (ready id i k)) d xs at_id
        (rw q (push_back-IsValid _ i (push_back-IsValid c.queue i v))) (rw q e)
        resume-ready-is_runnable

  -- With a valid queue and room for two entries in it, yield(), the push behind the switch and the
  -- next choice of the same CPU leave one more entry of the process in the queue than before, while
  -- the process itself is the choice.
  pub yield_leaks :
      (ncpu fuel seed : ℕ)
      → IsValid c.queue
      → length (contents c.queue) < 62
      → (l : Kernel Sched Deque W) × (d : Cpu Deque) × (select ncpu fuel id seed
            (resume id i (ready id i k))
          ≡ some (some i, l, seed))
        × (get_elem? l.cpus id ≡ some d)
        × (contents d.queue ≡ contents c.queue ++ i ∷ [])
  yield_leaks ncpu fuel seed v h =
      let (d, at_id, q) = resume-ready-queue in
      let after = push_back c.queue i in
      let one = push_room c.queue i v (omega arith) in
      let two : contents (push_back after i) ≡ contents after ++ i ∷ [] =
        push_room after i (push_back-IsValid c.queue i v)
          (omega (arith, ap length one, length-append (contents c.queue) (i ∷ []))) in
      let valid = push_back-IsValid after i (push_back-IsValid c.queue i v) in
      let l = resume id i (ready id i k) in
      let (found, rest) =
        find_last (is_runnable l) 63 i d.queue (contents after) (rw q valid) (rw q two)
          resume-ready-is_runnable in
      (
        record l { cpus = modify l.cpus id (λ e. record e { queue = (pop_back d.queue).1 }) },
        record d { queue = (pop_back d.queue).1 },
        select-eq id i l ncpu fuel seed (find_task-eq id i l at_id found),
        get_elem?-modify_self l.cpus id (λ e. record e { queue = (pop_back d.queue).1 }) at_id,
        rest ∙ one,
      )

  -- When the CPU's queue is valid and full, a process that is made ready there is RUNNABLE and the
  -- queue holds what it held before.
  pub ready_full :
      IsValid c.queue
      → length (contents c.queue) ≡ 63
      → (is_runnable (ready id i k) i ≡ true)
        × ((d : Cpu Deque) × (get_elem? (ready id i k).cpus id ≡ some d)
            × (contents d.queue ≡ contents c.queue))
  unfolding ready
  ready_full v full = (
    ready-is_runnable,
    (
      record c { queue = push_back c.queue i },
      get_elem?-modify_self k.cpus id (λ d. record d { queue = push_back d.queue i }) cpu,
      push_back-contents c.queue i v
          ∙ if_full (length (contents c.queue)) (contents c.queue) (contents c.queue ++ i ∷ [])
              full,
    ),
  )
