-- ===== src/WorkStealing/Deque.antt =====
-- work stealing/proc.c: push_back, pop_front and pop_back on the ring of a struct cpu, whose
-- entries are pointers into proc[]. Each function holds c->lock from its start to its end.
use os_project_files.Base.{
  ℕ, ◌+◌, ◌-◌, ◌%◌, Option, none, some, List, ◌==◌, get_or, set, replicate, if◌then◌else◌,
}

abbrev pub max_tasks : ℕ
max_tasks = 64

-- queue, front and rear of struct cpu.
pub record Deque : Type 0 where
  pub queue : List ℕ
  pub front : ℕ
  pub rear : ℕ

-- What procinit() stores, over entries that were never written.
unfoldable pub empty : Deque
empty = record { queue = replicate max_tasks 0; front = 0; rear = 0 }

unfoldable pub push_back : Deque → ℕ → Deque
push_back c p =
    let next = (c.rear + 1) % max_tasks in
    if next == c.front then c else record c { queue = set c.queue c.rear p; rear = next }

unfoldable pub pop_front : Deque → Option ℕ × Deque
pop_front c =
    if c.front == c.rear
    then (none, c)
    else (some (get_or c.queue c.front 0), record c { front = (c.front + 1) % max_tasks })

unfoldable pub pop_back : Deque → Option ℕ × Deque
pop_back c =
    if c.front == c.rear
    then (none, c)
    else let rear = (c.rear + max_tasks - 1) % max_tasks in
      (some (get_or c.queue rear 0), record c { rear = rear })
