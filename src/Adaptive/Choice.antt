-- ===== src/Adaptive/Choice.antt =====
-- Which process a round of scheduler() in adaptive/proc.c chooses.
use os_project_files.Base.{
  ℕ, zero, suc, sym, ap, ◌∙◌, ◌↔◌, ◌+◌, ◌≤◌, ◌<◌, ◌^◌, ◌≡◌, refl, subst, ◌⊎◌, inl, inr, Option,
  none, some, List, [], ◌∷◌, Bool-cases, true, ltb_int, arith,
}
use os_project_files.Kernel.{ProcState, runnable, state_eq, Proc}
use os_project_files.Adaptive.Scan.{
  Sched, Scan, curr_pri, visit, scan_from, start, select, priority_max,
}
use os_project_files.Adaptive.Aging.{curr_pri-lt}

-- The process is RUNNABLE, with the given effective priority.
abbrev pub Competes : ℕ → Proc Sched → ℕ → Type 0
Competes ticks p c = (p.state ≡ runnable) × (curr_pri ticks p.sched ≡ c)

-- No RUNNABLE process of the table is more urgent than c.
abbrev pub NoneBelow : ℕ → List (Proc Sched) → ℕ → Type 0
NoneBelow ticks [] c = Unit
NoneBelow ticks (p ∷ ps) c =
    (p.state ≡ runnable → c ≤ curr_pri ticks p.sched) × NoneBelow ticks ps c

-- At index i of the table stands a RUNNABLE process of priority c, every RUNNABLE process before
-- it is strictly less urgent, and none behind it is more urgent.
abbrev pub FirstBest : ℕ → List (Proc Sched) → ℕ → ℕ → Type 0
FirstBest ticks [] i c = ⊥
FirstBest ticks (p ∷ ps) zero c = Competes ticks p c × NoneBelow ticks ps c
FirstBest ticks (p ∷ ps) (suc i) c =
    (p.state ≡ runnable → c < curr_pri ticks p.sched) × FirstBest ticks ps i c

-- What the scan of `ps`, from index i and state s, comes to.
abbrev Scanned : ℕ → ℕ → List (Proc Sched) → Scan → Scan → Type 0
Scanned ticks i ps s r =
    ((r.chosen ≡ s.chosen) × (r.best_pri ≡ s.best_pri) × NoneBelow ticks ps s.best_pri)
    ⊎ ((j : ℕ) × (r.chosen ≡ some (i + j))
        × (r.best_pri < s.best_pri)
        × FirstBest ticks ps j r.best_pri)

runnable_of_eq : (s : ProcState) → state_eq s runnable ≡ true → s ≡ runnable
runnable_of_eq s h = ground arith

eq_of_runnable : (s : ProcState) → s ≡ runnable → state_eq s runnable ≡ true
eq_of_runnable s h = ground arith

NoneBelow-le :
    (ticks : ℕ) (ps : List (Proc Sched)) (c d : ℕ)
    → c ≤ d
    → NoneBelow ticks ps d
    → NoneBelow ticks ps c
NoneBelow-le ticks [] c d h n = tt
NoneBelow-le ticks (p ∷ ps) c d h n = (λ e. omega (arith, n.0 e), NoneBelow-le ticks ps c d h n.1)

-- A visit takes the process, or leaves the choice as it was.
visit_cases :
    (ticks i : ℕ) (p : Proc Sched) (s : Scan)
    → s.best_pri < 2 ^ 31
    → ((p.state ≡ runnable)
        × (curr_pri ticks p.sched < s.best_pri)
        × ((visit ticks i p s).chosen ≡ some i)
        × ((visit ticks i p s).best_pri ≡ curr_pri ticks p.sched))
      ⊎ ((p.state ≡ runnable → s.best_pri ≤ curr_pri ticks p.sched)
          × ((visit ticks i p s).chosen ≡ s.chosen)
          × ((visit ticks i p s).best_pri ≡ s.best_pri))
unfolding visit
visit_cases ticks i p s b = elim (Bool-cases (state_eq p.state runnable)) [
  | inl e ↦ elim (Bool-cases (ltb_int (curr_pri ticks p.sched) s.best_pri)) [
    | inl l ↦
        inl (
          runnable_of_eq p.state e,
          ground (arith, curr_pri-lt ticks p.sched),
          rw (e, l),
          rw (e, l),
        )
    | inr l ↦ inr ((λ _. ground (arith, curr_pri-lt ticks p.sched)), rw (e, l), rw (e, l))
  ]
  | inr e ↦ inr ((λ q. absurd (cc (eq_of_runnable p.state q))), rw e, rw e)
]

scan_from-Scanned :
    (ticks i : ℕ) (ps : List (Proc Sched)) (s : Scan)
    → s.best_pri < 2 ^ 31
    → Scanned ticks i ps s (scan_from ticks i ps s)
unfolding scan_from
scan_from-Scanned ticks i [] s b = inl (refl, refl, tt)
scan_from-Scanned ticks i (p ∷ ps) s b = elim (visit_cases ticks i p s b) [
  | inl (run, less, ch, be) ↦
      elim (scan_from-Scanned ticks (i + 1) ps (visit ticks i p s) (omega arith)) [
        | inl (c1, b1, n1) ↦
            inr (0, c1 ∙ ch ∙ ap some (omega arith), omega arith, ((run, sym (b1 ∙ be)), rw b1 n1))
        | inr (j, c1, b1, f1) ↦
            inr (suc j, c1 ∙ ap some (omega arith), omega arith, ((λ _. omega arith), f1))
      ]
  | inr (keep, ch, be) ↦
      elim (scan_from-Scanned ticks (i + 1) ps (visit ticks i p s) (omega arith)) [
        | inl (c1, b1, n1) ↦ inl (c1 ∙ ch, b1 ∙ be, (keep, rw (← be) n1))
        | inr (j, c1, b1, f1) ↦
            inr (suc j, c1 ∙ ap some (omega arith), omega arith, ((λ e. omega (arith, keep e)), f1))
      ]
]

FirstBest-NoneBelow :
    (ticks : ℕ) (ps : List (Proc Sched)) (i c d : ℕ)
    → c < d
    → NoneBelow ticks ps d
    → FirstBest ticks ps i c
    → ⊥
FirstBest-NoneBelow ticks [] i c d h n f = f
FirstBest-NoneBelow ticks (p ∷ ps) zero c d h n f = omega (arith, n.0 f.0.0)
FirstBest-NoneBelow ticks (p ∷ ps) (suc i) c d h n f = FirstBest-NoneBelow ticks ps i c d h n.1 f.1

-- There is one first best index and priority.
FirstBest-unique :
    (ticks : ℕ) (ps : List (Proc Sched)) (i j c d : ℕ)
    → FirstBest ticks ps i c
    → FirstBest ticks ps j d
    → i ≡ j
FirstBest-unique ticks [] i j c d f g = absurd f
FirstBest-unique ticks (p ∷ ps) zero zero c d f g = refl
FirstBest-unique ticks (p ∷ ps) zero (suc j) c d f g =
    absurd (FirstBest-NoneBelow ticks ps j d c (omega (arith, g.0 f.0.0)) f.1 g.1)
FirstBest-unique ticks (p ∷ ps) (suc i) zero c d f g =
    absurd (FirstBest-NoneBelow ticks ps i c d (omega (arith, f.0 g.0.0)) g.1 f.1)
FirstBest-unique ticks (p ∷ ps) (suc i) (suc j) c d f g =
    ap suc (FirstBest-unique ticks ps i j c d f.1 g.1)

same_index : (i j : ℕ) (o : Option ℕ) → o ≡ some (0 + j) → o ≡ some i → j ≡ i
same_index i j o e h = ground arith

-- scheduler() chooses the slot i exactly when i is the first RUNNABLE slot of the least effective
-- priority, and this priority is at most PRIORITY_MAX.
pub select_iff :
    (ticks : ℕ) (procs : List (Proc Sched)) (i : ℕ)
    → (select ticks procs ≡ some i) ↔ ((c : ℕ) × (c ≤ priority_max) × FirstBest ticks procs i c)
unfolding select start
select_iff ticks procs i = elim (scan_from-Scanned ticks 0 procs start (omega arith)) [
  | inl (e, _, n) ↦ (
    (λ h. cc),
    λ (c, le, f). absurd (FirstBest-NoneBelow ticks procs i c 10001 (omega arith) n f),
  )
  | inr (j, e, lt, f) ↦ (
    (λ h. (
      (scan_from ticks 0 procs start).best_pri,
      omega arith,
      subst (λ x. FirstBest ticks procs x (scan_from ticks 0 procs start).best_pri)
          (same_index i j (scan_from ticks 0 procs start).chosen e h) f,
    )),
    λ (c, le, g). e ∙ ap some (omega arith) ∙ ap some (FirstBest-unique ticks procs j i _ c f g),
  )
]

-- scheduler() waits for an interrupt exactly when every RUNNABLE process has a priority above
-- PRIORITY_MAX.
pub select-none_iff :
    (ticks : ℕ) (procs : List (Proc Sched))
    → (select ticks procs ≡ none) ↔ NoneBelow ticks procs (priority_max + 1)
unfolding select start
select-none_iff ticks procs = elim (scan_from-Scanned ticks 0 procs start (omega arith)) [
  | inl (e, _, n) ↦ ((λ h. n), λ m. e)
  | inr (j, e, lt, f) ↦ ((λ h. cc), λ m. absurd (FirstBest-NoneBelow ticks procs j _ 10001 lt m f))
]
