-- ===== src/Adaptive/Starvation.antt =====
-- Rounds of scheduler() of adaptive/proc.c on a CPU, and the processes that have waited long.
use mathlib.Core.Option.{some-injective}
use mathlib.Core.List.{Mem, mem-cons_self, mem-cons_of_mem}
use os_project_files.Adaptive.Aging.{curr_pri_lem}
use os_project_files.Adaptive.Choice.{FirstBest, NoneBelow, select_iff, select-none_iff}
use os_project_files.Adaptive.Scan.{Sched, curr_pri, select, priority_max, aging_rate}
use os_project_files.Adaptive.{dispatch_proc, schedule}
use os_project_files.Base.{
  ℕ, zero, suc, ◌+◌, ◌-◌, ◌*◌, ◌%◌, ◌^◌, ◌<◌, ◌≤◌, ◌≡◌, ◌≢◌, refl, sym, ap, ◌∙◌, subst, inl, inr,
  Option, Option-cases, none, some, List, [], ◌∷◌, Bool, Bool-cases, true, false, ◌&&◌, ◌==◌,
  ==_iff, length, get_elem?, modify, get_elem?-modify_ne, u32_mod, arith, if◌then◌else◌,
}
use os_project_files.Kernel.{
  runnable, state_eq, Proc, Kernel, at, proc_at, set_running, clear_running,
}

-- The rounds of scheduler() on the CPU `id` from the kernel k on, and the processes that they choose,
-- one after the other. What happens in the whole system from a switch to the switch back, or while
-- the CPU waits for an interrupt, is related by `Between`; behind the switch back c->proc is 0.
pub data Rounds {Q W : Type 0} (Between : Kernel Sched Q W → Kernel Sched Q W → Type 0) (id : ℕ)
    : Kernel Sched Q W → List ℕ → Type 0 where
  stops : {k : Kernel Sched Q W} → Rounds Between id k []
  waits :
      {k l m : Kernel Sched Q W} {js : List ℕ}
      → schedule id k ≡ (l, none)
      → Between l m
      → Rounds Between id m js
      → Rounds Between id k js
  runs :
      (j : ℕ) {k l m : Kernel Sched Q W} {js : List ℕ}
      → schedule id k ≡ (l, some j)
      → Between l m
      → Rounds Between id (clear_running id m) js
      → Rounds Between id k (j ∷ js)

-- RUNNABLE, with the effective priority 0.
abbrev pub urgent : ℕ → Proc Sched → Bool
urgent ticks p = state_eq p.state runnable && (curr_pri ticks p.sched == 0)

urgent_lem :
    (ticks : ℕ) (p : Proc Sched)
    → urgent ticks p ≡ true
    → (p.state ≡ runnable) × (curr_pri ticks p.sched ≡ 0)
urgent_lem ticks p h = (ground arith, ground arith)

urgent_of :
    (ticks : ℕ) (p : Proc Sched)
    → p.state ≡ runnable
    → curr_pri ticks p.sched ≡ 0
    → urgent ticks p ≡ true
urgent_of ticks p r e = ground arith

-- How many urgent slots stand before slot i.
abbrev ahead : ℕ → List (Proc Sched) → ℕ → ℕ
ahead ticks [] i = 0
ahead ticks (p ∷ ps) zero = 0
ahead ticks (p ∷ ps) (suc i) = (if urgent ticks p then 1 else 0) + ahead ticks ps i

ahead-le : (ticks : ℕ) (ps : List (Proc Sched)) (i : ℕ) → ahead ticks ps i ≤ i
ahead-le ticks [] i = omega arith
ahead-le ticks (p ∷ ps) zero = omega arith
ahead-le ticks (p ∷ ps) (suc i) = ground (arith, ahead-le ticks ps i)

-- An urgent slot before i that is urgent no longer.
ahead-modify :
    (ticks : ℕ) (f : Proc Sched → Proc Sched) (ps : List (Proc Sched)) (i j : ℕ) (q : Proc Sched)
    → get_elem? ps j ≡ some q
    → j < i
    → urgent ticks q ≡ true
    → ((p : Proc Sched) → urgent ticks (f p) ≡ false)
    → ahead ticks (modify ps j f) i + 1 ≡ ahead ticks ps i
ahead-modify ticks f [] i j q e lt u not_now = cc
ahead-modify ticks f (p ∷ ps) zero j q e lt u not_now = absurd (omega arith)
ahead-modify ticks f (p ∷ ps) (suc i) zero q e lt u not_now =
    let v = ap (urgent ticks) (some-injective _ _ e) ∙ u in rw (v, not_now p) (omega arith)
ahead-modify ticks f (p ∷ ps) (suc i) (suc j) q e lt u not_now =
    omega (arith, ahead-modify ticks f ps i j q e (omega arith) u not_now)

NoneBelow-at :
    (ticks : ℕ) (ps : List (Proc Sched)) (i c : ℕ) {p : Proc Sched}
    → get_elem? ps i ≡ some p
    → p.state ≡ runnable
    → NoneBelow ticks ps c
    → c ≤ curr_pri ticks p.sched
NoneBelow-at ticks [] i c e r n = cc
NoneBelow-at ticks (x ∷ ps) zero c {p} e r n =
    subst (λ y. y.state ≡ runnable → c ≤ curr_pri ticks y.sched) (some-injective _ _ e) n.0 r
NoneBelow-at ticks (x ∷ ps) (suc i) c e r n = NoneBelow-at ticks ps i c e r n.1

-- If slot i is urgent, the slot that is chosen is not behind it, and is urgent.
FirstBest-urgent :
    (ticks : ℕ) (ps : List (Proc Sched)) (i j c : ℕ) {p : Proc Sched}
    → get_elem? ps i ≡ some p
    → urgent ticks p ≡ true
    → FirstBest ticks ps j c
    → (j ≤ i) × (q : Proc Sched) × (get_elem? ps j ≡ some q) × (urgent ticks q ≡ true)
FirstBest-urgent ticks [] i j c e u f = absurd f
FirstBest-urgent ticks (x ∷ ps) zero zero c e u f =
    (omega arith, x, refl, ap (urgent ticks) (some-injective _ _ e) ∙ u)
FirstBest-urgent ticks (x ∷ ps) zero (suc j) c e u f =
    let (r, z) = urgent_lem ticks x (ap (urgent ticks) (some-injective _ _ e) ∙ u) in
    absurd (omega (arith, f.0 r, z))
FirstBest-urgent ticks (x ∷ ps) (suc i) zero c {p} e u f =
    let (r, z) = urgent_lem ticks p u in
    let least = NoneBelow-at ticks ps i c e r f.1 in
    (omega arith, x, refl, urgent_of ticks x f.0.0 (f.0.1 ∙ omega (arith, least, z)))
FirstBest-urgent ticks (x ∷ ps) (suc i) (suc j) c e u f =
    let (le, q, at_j, v) = FirstBest-urgent ticks ps i j c e u f.1 in (omega arith, q, at_j, v)

NoneBelow-urgent :
    (ticks : ℕ) (ps : List (Proc Sched)) (i : ℕ) {p : Proc Sched}
    → get_elem? ps i ≡ some p
    → urgent ticks p ≡ true
    → select ticks ps ≢ none
NoneBelow-urgent ticks ps i {p} e u h =
    let (r, z) = urgent_lem ticks p u in
    let far = NoneBelow-at ticks ps i (priority_max + 1) e r ((select-none_iff ticks ps).0 h) in
    omega (arith, far, z)

-- If every urgent slot before i was urgent before, there are no more of them.
ahead_mono :
    (t u : ℕ) (ps qs : List (Proc Sched)) (i : ℕ)
    → ((x : ℕ) (q : Proc Sched)
        → x < i
        → get_elem? qs x ≡ some q
        → urgent u q ≡ true
        → (p : Proc Sched) × (get_elem? ps x ≡ some p) × (urgent t p ≡ true))
    → ahead u qs i ≤ ahead t ps i
ahead_mono t u ps [] i was = omega arith
ahead_mono t u ps (q ∷ qs) zero was = omega arith
ahead_mono t u [] (q ∷ qs) (suc i) was = elim (Bool-cases (urgent u q)) [
  | inl e ↦ let (p, at_p, _) = was 0 q (omega arith) refl e in cc
  | inr e ↦
      rw e (
        omega (arith, ahead_mono t u [] qs i (λ x y lt at_y v. was (suc x) y (omega arith) at_y v)))
]
ahead_mono t u (p ∷ ps) (q ∷ qs) (suc i) was =
    let rest = ahead_mono t u ps qs i (λ x y lt at_y v. was (suc x) y (omega arith) at_y v) in
    elim (Bool-cases (urgent u q)) [
      | inl e ↦
          let (o, at_o, v) = was 0 q (omega arith) refl e in
          let f = ap (urgent t) (some-injective _ _ at_o) ∙ v in rw (e, f) (omega (arith, rest))
      | inr e ↦ rw e (omega (arith, rest))
    ]

ne_of_test : (i j : ℕ) → (i == j) ≡ false → i ≢ j
ne_of_test i j e q = ground arith

-- What a process is once it runs.
dispatch_proc-urgent : (ticks : ℕ) (p : Proc Sched) → urgent ticks (dispatch_proc p) ≡ false
unfolding dispatch_proc
dispatch_proc-urgent ticks p = refl

module _ {Q W : Type 0} where
  schedule-eq :
      (id j : ℕ) (k : Kernel Sched Q W)
      → select k.ticks k.procs ≡ some j
      → schedule id k ≡ (set_running id j (at j dispatch_proc k), some j)
  unfolding schedule
  schedule-eq id j k e = rw (e, schedule)

  -- From l to m slot i stays urgent if it is, and no slot before it becomes urgent.
  pub record Calm (i : ℕ) (l m : Kernel Sched Q W) : Type 0 where
    pub waiting :
        (p : Proc Sched)
        → proc_at l i ≡ some p
        → urgent l.ticks p ≡ true
        → (q : Proc Sched) × (proc_at m i ≡ some q) × (urgent m.ticks q ≡ true)
    pub others :
        (x : ℕ) (q : Proc Sched)
        → x < i
        → proc_at m x ≡ some q
        → urgent m.ticks q ≡ true
        → (p : Proc Sched) × (proc_at l x ≡ some p) × (urgent l.ticks p ≡ true)

  chosen-eq :
      (id j : ℕ) (k l : Kernel Sched Q W)
      → schedule id k ≡ (l, some j)
      → (select k.ticks k.procs ≡ some j) × (l ≡ set_running id j (at j dispatch_proc k))
  unfolding schedule
  chosen-eq id j k l e = elim (Option-cases (select k.ticks k.procs)) [
    | inl n ↦ absurd (cc (rw (n, schedule) at e))
    | inr (i, n) ↦
        let same = sym (schedule-eq id i k n) ∙ e in
        let is : i ≡ j = some-injective _ _ (ap (λ (r : Kernel Sched Q W × Option ℕ). r.1) same) in
        (
          n ∙ ap some is,
          sym (ap (λ (r : Kernel Sched Q W × Option ℕ). r.0) same)
              ∙ ap (λ (n : ℕ). set_running id n (at n dispatch_proc k)) is,
        )
  ]

  waits-none :
      (id : ℕ) (k l : Kernel Sched Q W) → schedule id k ≡ (l, none) → select k.ticks k.procs ≡ none
  unfolding schedule
  waits-none id k l e = elim (Option-cases (select k.ticks k.procs)) [
    | inl n ↦ n
    | inr (i, n) ↦
        absurd (cc (ap (λ (r : Kernel Sched Q W × Option ℕ). r.1) (sym (schedule-eq id i k n) ∙ e)))
  ]

  Rounds-urgent :
      (id i : ℕ) {k : Kernel Sched Q W} {js : List ℕ} {p : Proc Sched}
      → Rounds (Calm i) id k js
      → proc_at k i ≡ some p
      → urgent k.ticks p ≡ true
      → ahead k.ticks k.procs i < length js
      → Mem i js
  unfolding set_running clear_running
  Rounds-urgent id i stops e u h = absurd (omega arith)
  Rounds-urgent id i (waits {k} {l} {m} {js} idle calm r) e u h =
      absurd (NoneBelow-urgent k.ticks k.procs i e u (waits-none id k l idle))
  Rounds-urgent id i (runs j {k} {l} {m} {js} switch calm r) e u h =
      let (chosen, is) = chosen-eq id j k l switch in
      let (c, _, best) = (select_iff k.ticks k.procs j).0 chosen in
      let (le, q, at_j, v) = FirstBest-urgent k.ticks k.procs i j c e u best in
      elim (Bool-cases (j == i)) [
        | inl same ↦ subst (λ n. Mem i (n ∷ js)) (sym ((==_iff j i).0 same)) mem-cons_self
        | inr other ↦
            let calm_from = subst (λ x. Calm i x m) is calm in
            let (y, at_m, w) =
              calm_from.waiting _
                (get_elem?-modify_ne k.procs j i dispatch_proc (ne_of_test j i other) ∙ e) u in
            let fewer =
              ahead_mono k.ticks m.ticks (modify k.procs j dispatch_proc) m.procs i
                calm_from.others in
            let one =
              ahead-modify k.ticks dispatch_proc k.procs i j q at_j
                (omega (arith, le, ne_of_test j i other)) v (dispatch_proc-urgent k.ticks) in
            mem-cons_of_mem j (Rounds-urgent id i r at_m w (omega (arith, h, fewer, one)))
      ]

  -- If from each switch of a CPU to its switch back a RUNNABLE process in slot i stays RUNNABLE with
  -- the effective priority 0, until the CPU chooses it, and no process in a slot before i comes to
  -- that, then the process is chosen by one of any i + 1 rounds of scheduler() in which the CPU
  -- chooses a process, where its base priority is at most PRIORITY_MAX and it has waited 1000 ticks,
  -- but less than 2^31 / 10, when they begin.
  pub Rounds-aged :
      (id i now since : ℕ) {k : Kernel Sched Q W} {js : List ℕ} {p : Proc Sched}
      → Rounds (Calm i) id k js
      → proc_at k i ≡ some p
      → p.state ≡ runnable
      → p.sched.priority ≤ priority_max
      → k.ticks ≡ now % u32_mod
      → p.sched.age_start ≡ since % u32_mod
      → since + 1000 ≤ now
      → (now - since) * aging_rate < 2 ^ 31
      → i < length js
      → Mem i js
  Rounds-aged id i now since {k} {p = p} r e run small t s old bound h =
      let aged : curr_pri k.ticks p.sched ≡ 0 =
        ap (λ (n : ℕ). curr_pri n p.sched) t
        ∙ curr_pri_lem now since p.sched s (omega arith) (omega arith) bound
        ∙ omega arith in
      Rounds-urgent id i r e (urgent_of k.ticks p run aged)
        (omega (arith, ahead-le k.ticks k.procs i))
