-- ===== src/WorkStealing/Tests.antt =====
-- Runs of the work-stealing scheduler on concrete queues.
use mathlib.Core.Option.{some-injective}
use os_project_files.Base.{
  zero, subst, inl, ℕ, suc, ◌*◌, ◌≡◌, refl, Option, none, some, List, [], ◌∷◌, ◌++◌, Bool, true,
  ◌==◌, replicate, get_elem?, arith,
}
use os_project_files.Kernel.{runnable, running, Cpu, Kernel}
use os_project_files.Samples.{process, kernel_of}
use os_project_files.WorkStealing.Deque.{Deque, empty, push_back, pop_front, pop_back}
use os_project_files.WorkStealing.Queue.{
  Op, push, take_front, take_back, perform, run, serve_all, run-empty, pop_back-push_back,
}
use os_project_files.WorkStealing.Ring.{IsValid, contents}
use os_project_files.WorkStealing.Choice.{Ends, select-Ends}
use os_project_files.WorkStealing.Search.{FoundLast, find_in-pop_back}
use os_project_files.WorkStealing.Round.{Queued, RingsValid, AllQueued}
use os_project_files.WorkStealing.Pushing.{ready-AllQueued}
use os_project_files.WorkStealing.Waiting.{schedule-AllQueued}
use os_project_files.WorkStealing.Yield.{yield_resumes, yield_leaks, ready_full}
use os_project_files.WorkStealing.{Sched, find_in, schedule, select, resume, ready, is_runnable}

-- 5, 6, 7, round the end of the storage.
abbrev wrapped : Deque
wrapped = record { queue = 7 ∷ replicate 61 0 ++ 5 ∷ 6 ∷ []; front = 62; rear = 1 }

wrapped-IsValid : IsValid wrapped
wrapped-IsValid = record { slots = refl; front_in = omega arith; rear_in = omega arith }

contents-wrapped : contents wrapped ≡ 5 ∷ 6 ∷ 7 ∷ []
contents-wrapped = refl

abbrev full : Deque
full = record { queue = replicate 64 3; front = 1; rear = 0 }

full-IsValid : IsValid full
full-IsValid = record { slots = refl; front_in = omega arith; rear_in = omega arith }

-- Of the entries only 6 is RUNNABLE.
abbrev only_six : ℕ → Bool
only_six i = i == 6

-- A push, a steal, and the owner's pops until the ring is empty.
abbrev calls : List Op
calls = push 5 ∷ push 6 ∷ push 7 ∷ take_front ∷ take_back ∷ take_back ∷ take_back ∷ []

calls-returned : (run calls empty).0 ≡ none ∷ none ∷ none ∷ some 5 ∷ some 7 ∷ some 6 ∷ none ∷ []
unfolding run perform empty push_back pop_front pop_back
calls-returned = refl

run-empty_example :
    IsValid (run calls empty).1
    × ((run calls empty).0 ≡ (serve_all calls []).0)
    × (contents (run calls empty).1 ≡ (serve_all calls []).1)
run-empty_example = run-empty calls

pop_back-push_back_example :
    ((pop_back (push_back wrapped 9)).0 ≡ some 9)
    × (contents (pop_back (push_back wrapped 9)).1 ≡ contents wrapped)
pop_back-push_back_example = pop_back-push_back wrapped 9 wrapped-IsValid refl

find_in-pop_back_example :
    FoundLast only_six (contents wrapped) (find_in pop_back only_six 64 wrapped)
find_in-pop_back_example = find_in-pop_back only_six 64 wrapped wrapped-IsValid (omega arith)

abbrev kernel_with : Deque → Kernel Sched Deque ℕ
kernel_with queue =
    kernel_of
      (process running 1 none (record { last_cpu = 0 })
        ∷ process runnable 2 (some 0) (record { last_cpu = 0 })
        ∷ [])
      (record { proc = some 0; queue = queue } ∷ [])

yield_resumes_example :
    (l : Kernel Sched Deque ℕ) × (select 8 2 0 3791412
        (resume 0 0 (ready 0 0 (kernel_with wrapped)))
      ≡ some (some 0, l, 3791412))
yield_resumes_example =
    yield_resumes 0 0 (kernel_with wrapped) refl refl 8 2 3791412 wrapped-IsValid (omega arith)

yield_leaks_example :
    (l : Kernel Sched Deque ℕ) × (d : Cpu Deque) × (select 8 2 0 3791412
        (resume 0 0 (ready 0 0 (kernel_with wrapped)))
      ≡ some (some 0, l, 3791412))
    × (get_elem? l.cpus 0 ≡ some d)
    × (contents d.queue ≡ contents wrapped ++ 0 ∷ [])
yield_leaks_example =
    yield_leaks 0 0 (kernel_with wrapped) refl refl 8 2 3791412 wrapped-IsValid (omega arith)

ready_full_example :
    (is_runnable (ready 0 0 (kernel_with full)) 0 ≡ true)
    × ((d : Cpu Deque) × (get_elem? (ready 0 0 (kernel_with full)).cpus 0 ≡ some d)
        × (contents d.queue ≡ contents full))
ready_full_example = ready_full 0 0 (kernel_with full) refl refl full-IsValid (omega arith)

select-Ends_example :
    Ends (kernel_with wrapped) (select (2 * 4) (suc (suc 0)) 0 3791412 (kernel_with wrapped))
select-Ends_example = select-Ends 4 0 0 (omega arith) 3791412 (kernel_with wrapped)

-- One entry, slot 1.
abbrev one_entry : Deque
one_entry = record { queue = 1 ∷ replicate 63 0; front = 0; rear = 1 }

one_entry-RingsValid : RingsValid (kernel_with one_entry)
one_entry-RingsValid zero c e =
    subst (λ (x : Cpu Deque). IsValid x.queue) (some-injective _ _ e)
      (record { slots = refl; front_in = omega arith; rear_in = omega arith })
one_entry-RingsValid (suc id) c e = absurd (cc e)

one_entry-Queued :
    (i : ℕ) → is_runnable (kernel_with one_entry) i ≡ true → Queued (kernel_with one_entry) i
unfolding is_runnable
one_entry-Queued zero r = absurd (cc r)
one_entry-Queued (suc zero) r = record {
  cpu = 0;
  entry = record { proc = some 0; queue = one_entry };
  at_cpu = refl;
  among = inl refl;
}
one_entry-Queued (suc (suc i)) r = absurd (cc r)

one_entry-AllQueued : AllQueued (kernel_with one_entry)
one_entry-AllQueued = record { valid = one_entry-RingsValid; queued = one_entry-Queued }

schedule-AllQueued_example :
    (task : Option ℕ) × (l : Kernel Sched Deque ℕ) × (seed1 : ℕ) × (schedule 8 2 0 3791412
        (kernel_with one_entry)
      ≡ some (task, l, seed1))
    × ((i : ℕ) → task ≡ some i → is_runnable (kernel_with one_entry) i ≡ true)
    × AllQueued l
schedule-AllQueued_example =
    schedule-AllQueued 4 0 0 3791412 (kernel_with one_entry) (omega arith) one_entry-AllQueued

ready-AllQueued_example : AllQueued (ready 0 0 (kernel_with one_entry))
ready-AllQueued_example =
    ready-AllQueued 0 0 (kernel_with one_entry) refl one_entry-AllQueued (omega arith)
