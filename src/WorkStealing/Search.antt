-- ===== src/WorkStealing/Search.antt =====
-- What the loops of scheduler() in work stealing/proc.c find on a queue.
use mathlib.Core.List.{append_assoc}
use os_project_files.Base.{
  ℕ, zero, suc, ◌<◌, ◌≡◌, ◌⊎◌, refl, ap, inl, inr, Option, none, some, List, [], ◌∷◌, ◌++◌, Bool,
  Bool-cases, true, false, length, length-append, arith,
}
use os_project_files.WorkStealing.Deque.{Deque, pop_front, pop_back}
use os_project_files.WorkStealing.Ring.{
  IsValid, contents, pop_front-contents, pop_back-contents, pop_front-IsValid, pop_back-IsValid,
}
use os_project_files.WorkStealing.{find_in}

module _ (run : ℕ → Bool) where
  -- No entry is RUNNABLE.
  abbrev pub AllStale : List ℕ → Type 0
  AllStale [] = Unit
  AllStale (i ∷ is) = (run i ≡ false) × AllStale is

  AllStale-append : (xs ys : List ℕ) → AllStale xs → AllStale ys → AllStale (xs ++ ys)
  AllStale-append [] ys a b = b
  AllStale-append (x ∷ xs) ys a b = (a.0, AllStale-append xs ys a.1 b)

  -- The newest RUNNABLE entry is found and what was pushed after it is dropped; or no entry is
  -- RUNNABLE and all are dropped.
  abbrev pub FoundLast : List ℕ → Option ℕ × Deque → Type 0
  FoundLast xs r =
      ((r.0 ≡ none) × AllStale xs × (contents r.1 ≡ []))
      ⊎ ((i : ℕ) × (stale : List ℕ) × (r.0 ≡ some i)
          × (run i ≡ true)
          × AllStale stale
          × (xs ≡ contents r.1 ++ i ∷ stale))

  -- The same at the other end, for the oldest RUNNABLE entry.
  abbrev pub FoundFirst : List ℕ → Option ℕ × Deque → Type 0
  FoundFirst xs r =
      ((r.0 ≡ none) × AllStale xs × (contents r.1 ≡ []))
      ⊎ ((i : ℕ) × (stale : List ℕ) × (r.0 ≡ some i)
          × (run i ≡ true)
          × AllStale stale
          × (xs ≡ stale ++ i ∷ contents r.1))

  pub find_in-step_hit :
      (pop : Deque → Option ℕ × Deque) (n i : ℕ) (c : Deque)
      → (pop c).0 ≡ some i
      → run i ≡ true
      → find_in pop run (suc n) c ≡ (some i, (pop c).1)
  unfolding find_in
  find_in-step_hit pop n i c e h = rw (e, find_in, h)

  pub find_in-step_stale :
      (pop : Deque → Option ℕ × Deque) (n i : ℕ) (c : Deque)
      → (pop c).0 ≡ some i
      → run i ≡ false
      → find_in pop run (suc n) c ≡ find_in pop run n (pop c).1
  unfolding find_in
  find_in-step_stale pop n i c e h = rw (e, find_in, h)

  find_in-step_none :
      (pop : Deque → Option ℕ × Deque) (n : ℕ) (c : Deque)
      → pop c ≡ (none, c)
      → find_in pop run (suc n) c ≡ (none, c)
  unfolding find_in
  find_in-step_none pop n c e =
      rw (ap (λ (r : Option ℕ × Deque). r.0) e, find_in)
        (ap (λ (r : Option ℕ × Deque). (none, r.1)) e)

  later :
      (xs : List ℕ) (i : ℕ) (r : Option ℕ × Deque)
      → run i ≡ false
      → FoundLast xs r
      → FoundLast (xs ++ i ∷ []) r
  later xs i r h (inl (a, b, c)) = inl (a, AllStale-append xs (i ∷ []) b (h, tt), c)
  later xs i r h (inr (j, stale, a, b, c, e)) = inr (
    j,
    stale ++ i ∷ [],
    a,
    b,
    AllStale-append stale (i ∷ []) c (h, tt),
    rw e (append_assoc (contents r.1) (j ∷ stale) (i ∷ [])),
  )

  earlier :
      (xs : List ℕ) (i : ℕ) (r : Option ℕ × Deque)
      → run i ≡ false
      → FoundFirst xs r
      → FoundFirst (i ∷ xs) r
  earlier xs i r h (inl (a, b, c)) = inl (a, (h, b), c)
  earlier xs i r h (inr (j, stale, a, b, c, e)) = inr (j, i ∷ stale, a, b, (h, c), ap (◌∷◌ i) e)

  -- The loop on the own queue, valid and with more rounds than there are entries, takes the newest
  -- RUNNABLE entry and drops all that were pushed after it, or empties a queue of stale entries.
  pub find_in-pop_back :
      (n : ℕ) (c : Deque)
      → IsValid c
      → length (contents c) < n
      → FoundLast (contents c) (find_in pop_back run n c)
  find_in-pop_back zero c v h = absurd (omega arith)
  find_in-pop_back (suc n) c v h = elim (pop_back-contents c v) [
    | inl (e, p) ↦ rw (find_in-step_none pop_back n c p, e) (inl (refl, tt, refl))
    | inr (i, p, e) ↦ elim (Bool-cases (run i)) [
      | inl r ↦ rw (find_in-step_hit pop_back n i c p r) (inr (i, [], refl, r, tt, e))
      | inr r ↦
          rw (find_in-step_stale pop_back n i c p r, e)
            (later (contents (pop_back c).1) i _ r (
              find_in-pop_back n (pop_back c).1 (pop_back-IsValid c v)
                (omega (arith, ap length e, length-append (contents (pop_back c).1) (i ∷ [])))))
    ]
  ]

  -- The loop on a victim's queue, valid and with more rounds than there are entries, takes the oldest
  -- RUNNABLE entry and drops all that were pushed before it, or empties a queue of stale entries.
  pub find_in-pop_front :
      (n : ℕ) (c : Deque)
      → IsValid c
      → length (contents c) < n
      → FoundFirst (contents c) (find_in pop_front run n c)
  find_in-pop_front zero c v h = absurd (omega arith)
  find_in-pop_front (suc n) c v h = elim (pop_front-contents c v) [
    | inl (e, p) ↦ rw (find_in-step_none pop_front n c p, e) (inl (refl, tt, refl))
    | inr (i, p, e) ↦ elim (Bool-cases (run i)) [
      | inl r ↦ rw (find_in-step_hit pop_front n i c p r) (inr (i, [], refl, r, tt, e))
      | inr r ↦
          rw (find_in-step_stale pop_front n i c p r, e)
            (earlier (contents (pop_front c).1) i _ r (
              find_in-pop_front n (pop_front c).1 (pop_front-IsValid c v)
                (omega (arith, ap length e))))
    ]
  ]
