-- ===== src/WorkStealing/Kept.antt =====
-- What the loops of scheduler() in work stealing/proc.c leave on a queue: every RUNNABLE entry but
-- the one that they find.
use os_project_files.Base.{
  ℕ, zero, suc, ◌<◌, ◌≡◌, ◌⊎◌, ap, ◌∙◌, subst, inl, inr, Option, Option-cases, some, List, [], ◌∷◌,
  ◌++◌, Bool, Bool-cases, true, length, arith,
}
use os_project_files.WorkStealing.Deque.{Deque, max_tasks, pop_front, pop_back}
use os_project_files.WorkStealing.Ring.{
  IsValid, contents, size, length-window, pop_front-IsValid, pop_back-IsValid,
}
use os_project_files.WorkStealing.Search.{AllStale, find_in-pop_back, find_in-pop_front}
use os_project_files.WorkStealing.{find_in}

-- The entry i stands in the list.
abbrev pub Among : ℕ → List ℕ → Type 0
Among i [] = ⊥
Among i (x ∷ xs) = (x ≡ i) ⊎ Among i xs

Among-append : (i : ℕ) (xs ys : List ℕ) → Among i (xs ++ ys) → Among i xs ⊎ Among i ys
Among-append i [] ys m = inr m
Among-append i (x ∷ xs) ys (inl e) = inl (inl e)
Among-append i (x ∷ xs) ys (inr m) = elim (Among-append i xs ys m) [
  | inl a ↦ inl (inr a)
  | inr b ↦ inr b
]

AllStale-Among :
    (run : ℕ → Bool) (i : ℕ) (xs : List ℕ) → AllStale run xs → run i ≡ true → Among i xs → ⊥
AllStale-Among run i [] s r m = m
AllStale-Among run i (x ∷ xs) s r (inl e) = cc (s.0, r, ap run e)
AllStale-Among run i (x ∷ xs) s r (inr m) = AllStale-Among run i xs s.1 r m

pub find_in-IsValid :
    (pop : Deque → Option ℕ × Deque) (run : ℕ → Bool)
    → ((c : Deque) → IsValid c → IsValid (pop c).1)
    → (n : ℕ) (c : Deque) → IsValid c
    → IsValid (find_in pop run n c).1
unfolding find_in
find_in-IsValid pop run keeps zero c v = v
find_in-IsValid pop run keeps (suc n) c v = elim (Option-cases (pop c).0) [
  | inl e ↦ rw (e, find_in) (keeps c v)
  | inr (i, e) ↦ elim (Bool-cases (run i)) [
    | inl r ↦ rw (e, find_in) (rw r (keeps c v))
    | inr r ↦ rw (e, find_in) (rw r (find_in-IsValid pop run keeps n (pop c).1 (keeps c v)))
  ]
]

-- What a loop on a queue does to a RUNNABLE entry: it is found, or it stays.
abbrev pub Stays : (ℕ → Bool) → Deque → Option ℕ × Deque → Type 0
Stays run c r =
    (i : ℕ) → run i ≡ true → Among i (contents c) → (r.0 ≡ some i) ⊎ Among i (contents r.1)

room : (c : Deque) → length (contents c) < max_tasks
room c = omega (arith, length-window c.queue c.front (size c))

-- A search end that keeps rings valid and RUNNABLE entries.
pub record IsFair (pop : Deque → Option ℕ × Deque) : Type 0 where
  pub valid : (c : Deque) → IsValid c → IsValid (pop c).1
  pub stays : (run : ℕ → Bool) (c : Deque) → IsValid c → Stays run c (find_in pop run max_tasks c)

pub pop_back-IsFair : IsFair pop_back
pop_back-IsFair = record {
  valid = pop_back-IsValid;
  stays = λ run c v i r m. elim (find_in-pop_back run max_tasks c v (room c)) [
    | inl (e, s, _) ↦ absurd (AllStale-Among run i (contents c) s r m)
    | inr (j, stale, e, _, s, split) ↦
        elim (Among-append i _ (j ∷ stale) (subst (Among i) split m)) [
          | inl a ↦ inr a
          | inr (inl q) ↦ inl (e ∙ ap some q)
          | inr (inr b) ↦ absurd (AllStale-Among run i stale s r b)
        ]
  ];
}

pub pop_front-IsFair : IsFair pop_front
pop_front-IsFair = record {
  valid = pop_front-IsValid;
  stays = λ run c v i r m. elim (find_in-pop_front run max_tasks c v (room c)) [
    | inl (e, s, _) ↦ absurd (AllStale-Among run i (contents c) s r m)
    | inr (j, stale, e, _, s, split) ↦
        elim (Among-append i stale (j ∷ _) (subst (Among i) split m)) [
          | inl b ↦ absurd (AllStale-Among run i stale s r b)
          | inr (inl q) ↦ inl (e ∙ ap some q)
          | inr (inr a) ↦ inr a
        ]
  ];
}
