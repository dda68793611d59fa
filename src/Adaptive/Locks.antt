-- ===== src/Adaptive/Locks.antt =====
-- The locks that the scan of adaptive/proc.c holds. A trace of lock operations stands newest first.
use os_project_files.Base.{
  ℕ, ◌+◌, ◌≤◌, ◌<◌, ◌≡◌, refl, ◌⊎◌, inl, inr, Option, none, some, List, [], ◌∷◌, ◌∙◌, subst,
  Bool-cases, ltb_int, ◌==◌, max, length, if◌then◌else◌, arith,
}
use native.Mathlib.Nat.{add-zero}
use os_project_files.Kernel.{runnable, state_eq, Proc}
use os_project_files.Adaptive.Scan.{
  Sched, Scan, LockOp, acquire, release, release_chosen, curr_pri, visit, scan_from, start, select,
}

-- The list without its first i.
abbrev pub remove : ℕ → List ℕ → List ℕ
remove i [] = []
remove i (j ∷ js) = if i == j then js else j ∷ remove i js

-- The locks held after a trace.
abbrev pub held : List LockOp → List ℕ
held [] = []
held (acquire i ∷ l) = i ∷ held l
held (release i ∷ l) = remove i (held l)

abbrev pub AllBelow : List ℕ → ℕ → Type 0
AllBelow [] i = Unit
AllBelow (j ∷ js) i = (j < i) × AllBelow js i

abbrev pub Holds : List ℕ → ℕ → Type 0
Holds [] i = ⊥
Holds (j ∷ js) i = (j ≡ i) ⊎ Holds js i

-- Each lock is taken while at most one other is held, whose index is lower; and only a lock that
-- is held is released.
abbrev pub Disciplined : List LockOp → Type 0
Disciplined [] = Unit
Disciplined (acquire i ∷ l) = AllBelow (held l) i × (length (held l) ≤ 1) × Disciplined l
Disciplined (release i ∷ l) = Holds (held l) i × Disciplined l

-- The largest number of locks held at a time.
abbrev pub most_held : List LockOp → ℕ
most_held [] = 0
most_held (op ∷ l) = max (length (held (op ∷ l))) (most_held l)

abbrev pub lock_of : Option ℕ → List ℕ
lock_of none = []
lock_of (some i) = i ∷ []

-- Before the visit of slot i the lock of the choice is held and no other.
pub record Inv (i : ℕ) (s : Scan) : Type 0 where
  pub now : held s.locks ≡ lock_of s.chosen
  pub below : AllBelow (lock_of s.chosen) i
  pub past : Disciplined s.locks

acquire-Disciplined :
    (i : ℕ) (chosen : Option ℕ) (l : List LockOp)
    → held l ≡ lock_of chosen
    → AllBelow (lock_of chosen) i
    → Disciplined l
    → Disciplined (acquire i ∷ l)
acquire-Disciplined i none l e b d = (rw e b, rw e (omega arith), d)
acquire-Disciplined i (some j) l e b d = (rw e b, rw e (omega arith), d)

remove_self : (i : ℕ) (js : List ℕ) → remove i (i ∷ js) ≡ js
remove_self i js = ground arith

remove_below : (i j : ℕ) → j < i → remove j (i ∷ j ∷ []) ≡ i ∷ []
remove_below i j h = ground arith

lock_of-below :
    (i : ℕ) (chosen : Option ℕ) → AllBelow (lock_of chosen) i → AllBelow (lock_of chosen) (i + 1)
lock_of-below i none b = tt
lock_of-below i (some j) b = omega arith

take-Inv :
    (i c : ℕ) (s : Scan)
    → Inv i s
    → Inv (i + 1) (record {
      chosen = some i;
      best_pri = c;
      locks = release_chosen s.chosen (acquire i ∷ s.locks);
    })
unfolding release_chosen
take-Inv i c s v = go s.chosen v.now v.below
  where
    go :
        (chosen : Option ℕ)
        → held s.locks ≡ lock_of chosen
        → AllBelow (lock_of chosen) i
        → Inv (i + 1) (record {
          chosen = some i;
          best_pri = c;
          locks = release_chosen chosen (acquire i ∷ s.locks);
        })
    go none e b = record {
      now = rw e;
      below = (omega arith, tt);
      past = acquire-Disciplined i none s.locks e b v.past;
    }
    go (some j) e b = record {
      now = rw e (remove_below i j b.0);
      below = (omega arith, tt);
      past = (inr (rw e (inl refl)), acquire-Disciplined i (some j) s.locks e b v.past);
    }

pass-Inv :
    (i : ℕ) (s : Scan)
    → Inv i s
    → Inv (i + 1) (record s { locks = release i ∷ acquire i ∷ s.locks })
pass-Inv i s v = record {
  now = remove_self i (held s.locks) ∙ v.now;
  below = lock_of-below i s.chosen v.below;
  past = (inl refl, acquire-Disciplined i s.chosen s.locks v.now v.below v.past);
}

visit-Inv : (ticks i : ℕ) (p : Proc Sched) (s : Scan) → Inv i s → Inv (i + 1) (visit ticks i p s)
unfolding visit
visit-Inv ticks i p s v = elim (Bool-cases (state_eq p.state runnable)) [
  | inl e ↦ elim (Bool-cases (ltb_int (curr_pri ticks p.sched) s.best_pri)) [
    | inl l ↦ rw (e, l) (take-Inv i (curr_pri ticks p.sched) s v)
    | inr l ↦ rw (e, l) (pass-Inv i s v)
  ]
  | inr e ↦ rw e (pass-Inv i s v)
]

pub scan_from-Inv :
    (ticks i : ℕ) (ps : List (Proc Sched)) (s : Scan)
    → Inv i s
    → Inv (i + length ps) (scan_from ticks i ps s)
unfolding scan_from
scan_from-Inv ticks i [] s v = rw add-zero v
scan_from-Inv ticks i (p ∷ ps) s v =
    let rest : Inv (i + 1 + length ps) (scan_from ticks (i + 1) ps (visit ticks i p s)) =
      scan_from-Inv ticks (i + 1) ps (visit ticks i p s) (visit-Inv ticks i p s v) in
    subst (λ n. Inv n (scan_from ticks (i + 1) ps (visit ticks i p s))) (omega arith) rest

pub start-Inv : Inv 0 start
unfolding start
start-Inv = record { now = refl; below = tt; past = tt }

length-remove-le : (i : ℕ) (js : List ℕ) → length (remove i js) ≤ length js
length-remove-le i [] = omega arith
length-remove-le i (j ∷ js) = ground (arith, length-remove-le i js)

pub length-held-le : (l : List LockOp) → length (held l) ≤ most_held l
length-held-le [] = omega arith
length-held-le (op ∷ l) = omega arith

Disciplined-most_held : (l : List LockOp) → Disciplined l → most_held l ≤ 2
Disciplined-most_held [] d = omega arith
Disciplined-most_held (acquire i ∷ l) d = omega (arith, Disciplined-most_held l d.2)
Disciplined-most_held (release i ∷ l) d =
    omega (arith, Disciplined-most_held l d.1, length-remove-le i (held l), length-held-le l)

-- The scan takes the locks in the order of the table, holds at most two at a time, releases only
-- what it holds, and ends with the lock of the chosen process and no other.
pub scan_locks :
    (ticks : ℕ) (procs : List (Proc Sched))
    → let s = scan_from ticks 0 procs start in
      Disciplined s.locks × (most_held s.locks ≤ 2) × (held s.locks ≡ lock_of (select ticks procs))
unfolding select
scan_locks ticks procs =
    let v : Inv (0 + length procs) (scan_from ticks 0 procs start) =
      scan_from-Inv ticks 0 procs start start-Inv in
    (v.past, Disciplined-most_held _ v.past, v.now)
