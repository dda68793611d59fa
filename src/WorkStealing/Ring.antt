-- ===== src/WorkStealing/Ring.antt =====
-- The ring of work stealing/proc.c holds a sequence of at most 63 entries.
use os_project_files.Base.{
  ℕ, zero, suc, ◌+◌, ◌-◌, ◌%◌, ◌<◌, ◌≡◌, ◌≢◌, ◌⊎◌, refl, ap, ap₂, ◌∙◌, inl, inr, none, some, List,
  [], ◌∷◌, ◌++◌, Bool-cases, true, false, ◌==◌, length, get_or, set, length-set, get_or-set_self,
  get_or-set_ne, arith, if◌then◌else◌,
}
use os_project_files.WorkStealing.Deque.{Deque, max_tasks, empty, push_back, pop_front, pop_back}

pub record IsValid (c : Deque) : Type 0 where
  pub slots : length c.queue ≡ max_tasks
  pub front_in : c.front < max_tasks
  pub rear_in : c.rear < max_tasks

-- The number of entries between front and rear.
abbrev pub size : Deque → ℕ
size c = (c.rear + max_tasks - c.front) % max_tasks

-- The n entries from index h on, going round at MAX_TASKS.
abbrev pub window : List ℕ → ℕ → ℕ → List ℕ
window q h zero = []
window q h (suc n) = get_or q h 0 ∷ window q ((h + 1) % max_tasks) n

-- The entries, the oldest first.
abbrev pub contents : Deque → List ℕ
contents c = window c.queue c.front (size c)

pub length-window : (q : List ℕ) (h n : ℕ) → length (window q h n) ≡ n
length-window q h zero = refl
length-window q h (suc n) = ap suc (length-window q ((h + 1) % max_tasks) n)

window-suc :
    (q : List ℕ) (h n m : ℕ)
    → n ≡ suc m
    → window q h n ≡ get_or q h 0 ∷ window q ((h + 1) % max_tasks) m
window-suc q h n m e = ap (window q h) e

-- The last entry of a window.
window-last :
    (q : List ℕ) (h n i : ℕ)
    → h < max_tasks
    → i ≡ (h + n) % max_tasks
    → window q h (suc n) ≡ window q h n ++ get_or q i 0 ∷ []
window-last q h zero i l e = ap (λ x. get_or q x 0 ∷ []) (omega arith)
window-last q h (suc n) i l e =
    ap (◌∷◌ (get_or q h 0)) (window-last q ((h + 1) % max_tasks) n i (omega arith) (omega arith))

-- A write at an index that the window does not reach.
window-set :
    (q : List ℕ) (h n i v : ℕ)
    → h < max_tasks
    → n < max_tasks
    → i ≡ (h + n) % max_tasks
    → window (set q i v) h n ≡ window q h n
window-set q h zero i v l b e = refl
window-set q h (suc n) i v l b e =
    ap₂ ◌∷◌ (get_or-set_ne q v 0 (omega arith))
      (window-set q ((h + 1) % max_tasks) n i v (omega arith) (omega arith) (omega arith))

pub empty-IsValid : IsValid empty
unfolding empty
empty-IsValid = record { slots = refl; front_in = omega arith; rear_in = omega arith }

pub push_back-IsValid : (c : Deque) (p : ℕ) → IsValid c → IsValid (push_back c p)
unfolding push_back
push_back-IsValid c p v = ground (arith, length-set c.queue c.rear p)

pub pop_front-IsValid : (c : Deque) → IsValid c → IsValid (pop_front c).1
unfolding pop_front
pop_front-IsValid c v = ground arith

pub pop_back-IsValid : (c : Deque) → IsValid c → IsValid (pop_back c).1
unfolding pop_back
pop_back-IsValid c v = ground arith

pub not_nil : (xs : List ℕ) (i : ℕ) → xs ++ i ∷ [] ≢ []
not_nil [] i e = cc
not_nil (x ∷ xs) i e = cc

grows :
    (c : Deque)
    → IsValid c
    → size c ≢ 63
    → ((c.rear + 1) % max_tasks + max_tasks - c.front) % max_tasks ≡ suc (size c)
grows c v ne = omega arith

size_empty : (c : Deque) → IsValid c → (c.front == c.rear) ≡ true → size c ≡ 0
size_empty c v e = ground arith

size_pop_front :
    (c : Deque)
    → IsValid c
    → (c.front == c.rear) ≡ false
    → size c ≡ suc ((c.rear + max_tasks - (c.front + 1) % max_tasks) % max_tasks)
size_pop_front c v e = ground arith

size_pop_back :
    (c : Deque)
    → IsValid c
    → (c.front == c.rear) ≡ false
    → size c ≡ suc (((c.rear + max_tasks - 1) % max_tasks + max_tasks - c.front) % max_tasks)
size_pop_back c v e = ground arith

push_back-full : (c : Deque) (p : ℕ) → IsValid c → size c ≡ 63 → push_back c p ≡ c
unfolding push_back
push_back-full c p v e = ground arith

push_back-room :
    (c : Deque) (p : ℕ)
    → IsValid c
    → size c ≢ 63
    → push_back c p ≡ record c { queue = set c.queue c.rear p; rear = (c.rear + 1) % max_tasks }
unfolding push_back
push_back-room c p v ne = ground arith

contents-room :
    (c : Deque) (p : ℕ)
    → IsValid c
    → size c ≢ 63
    → contents (record c { queue = set c.queue c.rear p; rear = (c.rear + 1) % max_tasks })
      ≡ contents c ++ p ∷ []
contents-room c p v ne =
    let q = set c.queue c.rear p in
    let rear_eq : c.rear ≡ (c.front + size c) % max_tasks = omega arith in
    ap (window q c.front) (grows c v ne)
    ∙ window-last q c.front (size c) c.rear v.front_in rear_eq
    ∙ ap₂ (λ (xs : List ℕ) (x : ℕ). xs ++ x ∷ [])
        (window-set c.queue c.front (size c) c.rear p v.front_in (omega arith) rear_eq)
        (get_or-set_self c.queue c.rear p 0 (omega arith))

-- On a valid ring push_back appends the entry while there are fewer than 63, and drops it otherwise.
pub push_back-contents :
    (c : Deque) (p : ℕ)
    → IsValid c
    → contents (push_back c p)
      ≡ (if length (contents c) == 63 then contents c else contents c ++ p ∷ [])
push_back-contents c p v =
    let len = length-window c.queue c.front (size c) in
    elim (Bool-cases (size c == 63)) [
      | inl e ↦ rw (len, e, push_back-full c p v (ground arith))
      | inr e ↦
          rw (len, e, push_back-room c p v (λ h. ground arith))
            (contents-room c p v (λ h. ground arith))
    ]

-- On a valid ring pop_front fails on the empty ring only, and otherwise takes the oldest entry.
pub pop_front-contents :
    (c : Deque)
    → IsValid c
    → ((contents c ≡ []) × (pop_front c ≡ (none, c)))
      ⊎ ((p : ℕ) × ((pop_front c).0 ≡ some p) × (contents c ≡ p ∷ contents (pop_front c).1))
unfolding pop_front
pop_front-contents c v = elim (Bool-cases (c.front == c.rear)) [
  | inl e ↦ inl (ap (window c.queue c.front) (size_empty c v e), rw e)
  | inr e ↦ inr (get_or c.queue c.front 0, rw e, rw e (window-suc _ _ _ _ (size_pop_front c v e)))
]

pop_back_window :
    (c : Deque)
    → IsValid c
    → (c.front == c.rear) ≡ false
    → let i = (c.rear + max_tasks - 1) % max_tasks in
      contents c
      ≡ window c.queue c.front ((i + max_tasks - c.front) % max_tasks) ++ get_or c.queue i 0 ∷ []
pop_back_window c v e =
    let i = (c.rear + max_tasks - 1) % max_tasks in
    ap (window c.queue c.front) (size_pop_back c v e)
    ∙ window-last c.queue c.front ((i + max_tasks - c.front) % max_tasks) i v.front_in (omega arith)

-- On a valid ring pop_back fails on the empty ring only, and otherwise takes the newest entry.
pub pop_back-contents :
    (c : Deque)
    → IsValid c
    → ((contents c ≡ []) × (pop_back c ≡ (none, c)))
      ⊎ ((p : ℕ) × ((pop_back c).0 ≡ some p) × (contents c ≡ contents (pop_back c).1 ++ p ∷ []))
unfolding pop_back
pop_back-contents c v = elim (Bool-cases (c.front == c.rear)) [
  | inl e ↦ inl (ap (window c.queue c.front) (size_empty c v e), rw e)
  | inr e ↦
      inr (
        get_or c.queue ((c.rear + max_tasks - 1) % max_tasks) 0,
        rw e,
        rw e (pop_back_window c v e),
      )
]
