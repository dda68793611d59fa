-- ===== src/Adaptive/Overlap.antt =====
-- When the scan of adaptive/proc.c holds two locks: the comment above scheduler() says never.
use os_project_files.Base.{
  ℕ, ◌+◌, ◌≤◌, ◌≡◌, ◌≢◌, refl, inl, inr, Option, none, some, List, [], ◌∷◌, ◌++◌, ◌∙◌, ap,
  Bool-cases, Option-cases, ltb_int, length, arith,
}
use native.Mathlib.Nat.{add-zero}
use os_project_files.Kernel.{runnable, state_eq, Proc}
use os_project_files.Adaptive.Scan.{
  Sched, Scan, acquire, release_chosen, curr_pri, visit, scan_from, start, select,
}
use os_project_files.Adaptive.Locks.{
  held, lock_of, most_held, Inv, scan_from-Inv, start-Inv, scan_locks,
}

scan_from-append :
    (ticks i : ℕ) (xs ys : List (Proc Sched)) (s : Scan)
    → scan_from ticks i (xs ++ ys) s ≡ scan_from ticks (i + length xs) ys (scan_from ticks i xs s)
unfolding scan_from
scan_from-append ticks i [] ys s = rw add-zero
scan_from-append ticks i (x ∷ xs) ys s =
    scan_from-append ticks (i + 1) xs ys (visit ticks i x s)
    ∙ ap (λ n. scan_from ticks n ys (scan_from ticks (i + 1) xs (visit ticks i x s))) (omega arith)

-- A visit adds to the trace, the acquire first.
visit-most_held :
    (ticks i : ℕ) (p : Proc Sched) (s : Scan)
    → (most_held (acquire i ∷ s.locks) ≤ most_held (visit ticks i p s).locks)
unfolding visit release_chosen
visit-most_held ticks i p s = elim (Bool-cases (state_eq p.state runnable)) [
  | inl e ↦ elim (Bool-cases (ltb_int (curr_pri ticks p.sched) s.best_pri)) [
    | inl l ↦ elim (Option-cases s.chosen) [
      | inl n ↦ rw (e, l, n) (omega arith)
      | inr (j, c) ↦ rw (e, l, c) (omega arith)
    ]
    | inr l ↦ rw (e, l) (omega arith)
  ]
  | inr e ↦ rw e (omega arith)
]

scan_from-most_held :
    (ticks i : ℕ) (ps : List (Proc Sched)) (s : Scan)
    → most_held s.locks ≤ most_held (scan_from ticks i ps s).locks
unfolding scan_from
scan_from-most_held ticks i [] s = omega arith
scan_from-most_held ticks i (p ∷ ps) s =
    omega
      (arith, scan_from-most_held ticks (i + 1) ps (visit ticks i p s), visit-most_held ticks i p s)

two_locks_of_chosen :
    (ticks i : ℕ) (q : Proc Sched) (ys : List (Proc Sched)) (s : Scan)
    → length (held s.locks) ≡ 1
    → 2 ≤ most_held (scan_from ticks i (q ∷ ys) s).locks
unfolding scan_from
two_locks_of_chosen ticks i q ys s h =
    omega
      (arith, scan_from-most_held ticks (i + 1) ys (visit ticks i q s), visit-most_held ticks i q s)

length-lock_of : (o : Option ℕ) → o ≢ none → length (lock_of o) ≡ 1
length-lock_of none h = absurd (h refl)
length-lock_of (some i) h = refl

-- If the slots before some slot of the table hold a process that the scan chooses among them, the
-- scan of the table holds two locks of processes at a time, and never more: that of the choice so
-- far, and that of the slot that it looks at.
pub scan_overlap :
    (ticks : ℕ) (xs ys : List (Proc Sched)) (q : Proc Sched)
    → select ticks xs ≢ none
    → most_held (scan_from ticks 0 (xs ++ q ∷ ys) start).locks ≡ 2
unfolding select
scan_overlap ticks xs ys q h =
    let s : Scan = scan_from ticks 0 xs start in
    let v : Inv (0 + length xs) s = scan_from-Inv ticks 0 xs start start-Inv in
    let one : length (held s.locks) ≡ 1 = rw v.now (length-lock_of s.chosen h) in
    omega (
      arith,
      two_locks_of_chosen ticks (0 + length xs) q ys s one,
      ap (λ (r : Scan). most_held r.locks) (scan_from-append ticks 0 xs (q ∷ ys) start),
      (scan_locks ticks (xs ++ q ∷ ys)).1,
    )
