-- ===== src/Lpt/Collect.antt =====
-- STEP 1 of scheduler() of lpt/proc.c: what stands in the batch.
use mathlib.Core.Logic.Or
use mathlib.Core.List.{
  Mem, Nodup, Nodup-cons, Nodup-nil, mem-cons, mem-cons_self, mem-cons_of_mem, not-mem-nil,
}
use native.Mathlib.Bridge.{le_prop}
use native.Mathlib.Nat.{add-zero}
use os_project_files.Base.{
  ℕ, zero, suc, ◌+◌, ◌-◌, ◌≤◌, ◌≡◌, refl, subst, inl, inr, some, List, [], ◌∷◌, Bool-cases, true,
  add32, get_elem?, arith,
}
use os_project_files.Kernel.{runnable, state_eq, Proc}
use os_project_files.Lpt.Batch.{Sched, runnable_slot, collect, key}

minus_self : (i j : ℕ) → j ≡ i → j - i ≡ 0
minus_self i j e = omega arith

minus_later : (i j : ℕ) → i + 1 ≤ j → j - i ≡ suc (j - (i + 1))
minus_later i j h = omega arith

-- The batch holds the RUNNABLE slots and no other,
pub collect_sound :
    (ps : List (Proc Sched)) (i j : ℕ)
    → Mem j (collect ps i).1
    → (i ≤ j) × (runnable_slot ps (j - i) ≡ true)
unfolding collect
collect_sound [] i j m = absurd (not-mem-nil m)
collect_sound (p ∷ ps) i j m = elim (Bool-cases (state_eq p.state runnable)) [
  | inl e ↦
      let m' : Mem j (i ∷ (collect ps (i + 1)).1) = rw e at m in
      Or.elim (hlevel le_prop) (mem-cons.0 m') (λ q. (omega arith, rw (minus_self i j q) e))
        (λ r. later (collect_sound ps (i + 1) j r))
  | inr e ↦
      let m' : Mem j (collect ps (i + 1)).1 = rw e at m in later (collect_sound ps (i + 1) j m')
]
  where
    later :
        (i + 1 ≤ j) × (runnable_slot ps (j - (i + 1)) ≡ true)
        → (i ≤ j) × (runnable_slot (p ∷ ps) (j - i) ≡ true)
    later (le, r) = (omega arith, rw (minus_later i j le) r)

pub collect_complete :
    (ps : List (Proc Sched)) (i n : ℕ) → runnable_slot ps n ≡ true → Mem (i + n) (collect ps i).1
unfolding collect
collect_complete [] i n r = cc
collect_complete (p ∷ ps) i zero r = rw (r, add-zero) mem-cons_self
collect_complete (p ∷ ps) i (suc n) r =
    let m : Mem (i + suc n) (collect ps (i + 1)).1 =
      subst (λ x. Mem x (collect ps (i + 1)).1) (omega arith) (collect_complete ps (i + 1) n r) in
    elim (Bool-cases (state_eq p.state runnable)) [
      | inl e ↦ rw e (mem-cons_of_mem i m)
      | inr e ↦ rw e m
    ]

pub collect-Nodup : (ps : List (Proc Sched)) (i : ℕ) → Nodup (collect ps i).1
unfolding collect
collect-Nodup [] i = Nodup-nil
collect-Nodup (p ∷ ps) i = elim (Bool-cases (state_eq p.state runnable)) [
  | inl e ↦ rw e (
      Nodup-cons.1
        ((λ m. absurd (omega (arith, (collect_sound ps (i + 1) i m).0))), collect-Nodup ps (i + 1)))
  | inr e ↦ rw e (collect-Nodup ps (i + 1))
]

pub collect-slot :
    (ps : List (Proc Sched)) (i n : ℕ) → runnable_slot (collect ps i).0 n ≡ runnable_slot ps n
unfolding collect
collect-slot [] i n = refl
collect-slot (p ∷ ps) i zero = ground arith
collect-slot (p ∷ ps) i (suc n) = ground (arith, collect-slot ps (i + 1) n)

-- and gives each the estimate rtime + 1.
pub collect-key :
    (ps : List (Proc Sched)) (i n : ℕ) {p : Proc Sched}
    → get_elem? ps n ≡ some p
    → p.state ≡ runnable
    → key (collect ps i).0 n ≡ add32 p.rtime 1
unfolding collect key
collect-key [] i n e r = cc
collect-key (q ∷ ps) i zero e r = ground arith
collect-key (q ∷ ps) i (suc n) e r = ground (arith, collect-key ps (i + 1) n e r)
