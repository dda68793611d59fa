-- ===== src/System/Life.antt =====
-- The life of a slot of proc[] of proc.c: the edges that the stores into p->state of all its
-- functions make together.
use mathlib.Core.Option.{some-injective}
use os_project_files.Base.{ℕ, ◌≡◌, sym, ◌∙◌, ap, subst, inl, inr, Option, some, true, arith}
use os_project_files.Kernel.{
  unused, used, sleeping, runnable, running, zombie, state_eq, ProcState, Proc, Kernel, Ext,
  proc_at,
}
use os_project_files.System.Change.{Change, wakes_some, starts, stops, begins, allots, Step-Change}
use os_project_files.System.Effects.{Lot, born, claimed, refused, reaped}
use os_project_files.System.Exclusion.{Exclusive, Reach-Exclusive, same_or_not}
use os_project_files.System.Policy.{Policy, Rests, to_ready, to_sleep, to_death}
use os_project_files.System.Step.{Step, Reach}
use os_project_files.System.Views.{Mark, mark, mark_of, mark-some, moved, runs}
use os_project_files.System.Wakes.{Woken}

-- An edge from a state and a pid to a state and a pid. Only allocproc() and freeproc() give and take
-- pids.
pub data Life : Mark → Mark → Type 0 where
  stays : {m : Mark} → Life m m
  is_born : {a b : ℕ} → Life (unused, a) (runnable, b)
  is_claimed : {a b : ℕ} → Life (unused, a) (used, b)
  starts_life : {a : ℕ} → Life (used, a) (runnable, a)
  is_refused : {a b : ℕ} → Life (unused, a) (unused, b)
  is_picked : {a : ℕ} → Life (runnable, a) (running, a)
  gives_way : {a : ℕ} → Life (running, a) (runnable, a)
  falls_asleep : {a : ℕ} → Life (running, a) (sleeping, a)
  dies : {a : ℕ} → Life (running, a) (zombie, a)
  wakes_up : {a : ℕ} → Life (sleeping, a) (runnable, a)
  is_reaped : {a b : ℕ} → Life (zombie, a) (unused, b)

-- The marks of a slot before and after.
abbrev Lives : Option Mark → Option Mark → Type 0
Lives m n = (a b : Mark) → m ≡ some a → n ≡ some b → Life a b

Life-Lives : (m n : Option Mark) {a b : Mark} → m ≡ some a → n ≡ some b → Life a b → Lives m n
Life-Lives m n {a} {b} e f way c d g h =
    subst (λ x. Life x d) (some-injective _ _ (sym e ∙ g))
      (subst (Life a) (some-injective _ _ (sym f ∙ h)) way)

same-Lives : (m n : Option Mark) → n ≡ m → Lives m n
same-Lives m n e a b f g = subst (Life a) (some-injective _ _ (sym f ∙ sym e ∙ g)) stays

Woken-Lives : (m n : Option Mark) → Woken m n → Lives m n
Woken-Lives m n (inl e) = same-Lives m n e
Woken-Lives m n (inr (p, e, f)) = Life-Lives m n e f wakes_up

Lot-Life : {s t : ProcState} → Lot s t → (a b : ℕ) → Life (s, a) (t, b)
Lot-Life born a b = is_born
Lot-Life claimed a b = is_claimed
Lot-Life refused a b = is_refused
Lot-Life reaped a b = is_reaped

Rests-Life : {s : ProcState} → Rests s → (a : ℕ) → Life (running, a) (s, a)
Rests-Life to_ready a = gives_way
Rests-Life to_sleep a = falls_asleep
Rests-Life to_death a = dies

-- A slot that is RUNNING.
runs-state : (m : Mark) → runs (some m) ≡ true → m ≡ (running, m.1)
runs-state (s, a) e = ap (λ (x : ProcState). (x, a)) (is_running s e)
  where
    is_running : (s : ProcState) → state_eq s running ≡ true → s ≡ running
    is_running s e = ground arith

stops-Lives :
    (m n : Option Mark) {s : ProcState} → runs m ≡ true → Rests s → n ≡ moved s m → Lives m n
stops-Lives m n r rest e a b f g =
    let is = runs-state a (sym (ap runs f) ∙ r) in
    subst (λ x. Life x b) (sym is)
      (subst (Life (running, a.1)) (some-injective _ _ (sym (e ∙ ap (moved _) f) ∙ g))
        (Rests-Life rest a.1))

module _ {F Q W : Type 0} where
  Change-Lives :
      {k l : Kernel F Q W} → Exclusive k → Change k l → (j : ℕ) → Lives (mark k j) (mark l j)
  Change-Lives {k} {l} v (wakes_some w) j = Woken-Lives (mark k j) (mark l j) (w.marks j)
  Change-Lives {k} {l} v (starts id i s) j = elim (same_or_not i j) [
    | inl q ↦
        subst (λ n. Lives (mark k n) (mark l n)) q
          (Life-Lives (mark k i) (mark l i) s.waits s.runs is_picked)
    | inr ne ↦ same-Lives (mark k j) (mark l j) (s.others j ne)
  ]
  Change-Lives {k} {l} v (stops id i s) j = elim (same_or_not i j) [
    | inl q ↦
        subst (λ n. Lives (mark k n) (mark l n)) q
          (stops-Lives (mark k i) (mark l i) (v.held id i s.held) s.rests s.stopped)
    | inr ne ↦ Woken-Lives (mark k j) (mark l j) (s.others j ne)
  ]
  Change-Lives {k} {l} v (begins i was r) j = elim (same_or_not i j) [
    | inl q ↦
        subst (λ n. Lives (mark k n) (mark l n)) q
          (Life-Lives (mark k i) (mark l i) was (r.settled ∙ ap (moved runnable) was) starts_life)
    | inr ne ↦ Woken-Lives (mark k j) (mark l j) (r.others j ne)
  ]
  Change-Lives {k} {l} v (allots i lot a) j = elim (same_or_not i j) [
    | inl q ↦
        subst (λ n. Lives (mark k n) (mark l n)) q
          (Life-Lives (mark k i) (mark l i) a.from a.to (Lot-Life lot a.before a.after))
    | inr ne ↦ Woken-Lives (mark k j) (mark l j) (a.others j ne)
  ]

  module _ (P : Policy F Q W) (ext : Ext W) where
    -- In every run of the machine, under any scheduler that meets the interface Policy, from a kernel
    -- in which every CPU's process is RUNNING, no process is on two CPUs, and every RUNNING process
    -- is on one, each further step takes each slot along an edge of Life: it leaves the slot's state
    -- and pid, or takes it from UNUSED to USED, RUNNABLE or UNUSED, from USED to RUNNABLE, from
    -- RUNNABLE to RUNNING, from RUNNING to RUNNABLE, SLEEPING or ZOMBIE, from SLEEPING to RUNNABLE,
    -- or from ZOMBIE to UNUSED, and except from and to UNUSED it keeps the pid.
    pub Reach-Life :
        {k : Kernel F Q W} {n : ℕ} {l m : Kernel F Q W}
        → Exclusive k
        → Reach P ext k n l
        → Step P ext l m
        → (j : ℕ) {p q : Proc F} → proc_at l j ≡ some p
        → proc_at m j ≡ some q
        → Life (mark_of p) (mark_of q)
    Reach-Life {l} {m} v r s j {p} {q} e f =
        Change-Lives (Reach-Exclusive P ext v r) (Step-Change P ext s) j (mark_of p) (mark_of q)
          (mark-some l j e) (mark-some m j f)
