-- ===== src/System/Pids.antt =====
-- The pids that the machine gives out.
use os_project_files.Base.{
  ℕ, ◌+◌, ◌<◌, ◌≤◌, ◌^◌, ◌≡◌, ◌≢◌, ◌⊎◌, sym, ap, ◌∙◌, subst, inl, inr, add32, arith,
}
use os_project_files.Kernel.{ProcState, runnable, Kernel, Ext}
use os_project_files.System.Change.{Change, wakes_some, starts, stops, begins, allots, Step-Change}
use os_project_files.System.Effects.{Allots, Given}
use os_project_files.System.Exclusion.{same_or_not}
use os_project_files.System.Policy.{Policy}
use os_project_files.System.Step.{Reach, start, later}
use os_project_files.System.Views.{mark, pid_of, pid_of-moved}
use os_project_files.System.Wakes.{Woken, Woken-pid_of}

no_wrap : (n : ℕ) → n + 1 < 2 ^ 31 → add32 n 1 ≡ n + 1
no_wrap n h = omega arith

Given-cases :
    (before after pid : ℕ)
    → before + 1 < 2 ^ 31
    → Given before after pid
    → ((pid ≡ 0) ⊎ (pid ≡ before))
      × (pid ≢ 0 → after ≡ before + 1)
      × (before ≤ after)
      × (after ≤ before + 1)
Given-cases before after pid small (inl (z, inl e)) =
    (inl z, (λ ne. absurd (ne z)), omega (arith, e), omega (arith, e))
Given-cases before after pid small (inl (z, inr e)) =
    let w = no_wrap before small in
    (inl z, (λ ne. absurd (ne z)), omega (arith, e, w), omega (arith, e, w))
Given-cases before after pid small (inr (z, e)) =
    let w = no_wrap before small in (inr z, (λ ne. e ∙ w), omega (arith, e, w), omega (arith, e, w))

module _ {F Q W : Type 0} where
  -- p->pid of slot j, 0 if it has none.
  abbrev pub pid_at : Kernel F Q W → ℕ → ℕ
  pid_at k j = pid_of (mark k j)

  -- Every pid is below nextpid, and two slots have the same pid only when it is 0, which is none.
  pub record Distinct (k : Kernel F Q W) : Type 0 where
    pub below : (j : ℕ) → pid_at k j < k.nextpid
    pub apart : (i j : ℕ) → i ≢ j → pid_at k i ≡ pid_at k j → pid_at k i ≡ 0

  kept-Distinct :
      {k l : Kernel F Q W}
      → ((j : ℕ) → pid_at l j ≡ pid_at k j)
      → l.nextpid ≡ k.nextpid
      → Distinct k
      → Distinct l
  kept-Distinct {k} {l} same next d = record {
    below = λ j. omega (arith, d.below j, same j, next);
    apart = λ i j ne e. same i ∙ d.apart i j ne (sym (same i) ∙ e ∙ same j);
  }

  -- Slot i keeps its pid, and the others are at most woken.
  pids_kept :
      (k l : Kernel F Q W) (i : ℕ)
      → pid_at l i ≡ pid_at k i
      → ((j : ℕ) → i ≢ j → Woken (mark k j) (mark l j))
      → (j : ℕ) → pid_at l j ≡ pid_at k j
  pids_kept k l i here others j = elim (same_or_not i j) [
    | inl q ↦ subst (λ n. pid_at l n ≡ pid_at k n) q here
    | inr ne ↦ Woken-pid_of (mark k j) (mark l j) (others j ne)
  ]

  given :
      {i : ℕ} {s t : ProcState} {k l : Kernel F Q W}
      → k.nextpid + 1 < 2 ^ 31
      → Allots i s t k l
      → ((pid_at l i ≡ 0) ⊎ (pid_at l i ≡ k.nextpid))
        × (pid_at l i ≢ 0 → l.nextpid ≡ k.nextpid + 1)
        × (k.nextpid ≤ l.nextpid)
        × (l.nextpid ≤ k.nextpid + 1)
  given {i} {s} {t} {k} {l} small a =
      Given-cases k.nextpid l.nextpid (pid_at l i) small
        (subst (Given k.nextpid l.nextpid) (sym (ap pid_of a.to)) a.pid)

  -- The pid of a slot that is allotted is that of no other slot.
  fresh :
      {i : ℕ} {s t : ProcState} {k l : Kernel F Q W}
      → k.nextpid + 1 < 2 ^ 31
      → Allots i s t k l
      → Distinct k
      → (j : ℕ) → i ≢ j
      → pid_at l i ≡ pid_at l j
      → pid_at l i ≡ 0
  fresh {i} {s} {t} {k} {l} small a d j ne e =
      let (here, _, _, _) = given small a in
      elim here [
        | inl z ↦ z
        | inr z ↦
            absurd
              (omega (arith, d.below j, e, z, Woken-pid_of (mark k j) (mark l j) (a.others j ne)))
      ]

  Allots-Distinct :
      {i : ℕ} {s t : ProcState} {k l : Kernel F Q W}
      → k.nextpid + 1 < 2 ^ 31
      → Allots i s t k l
      → Distinct k
      → Distinct l
  Allots-Distinct {i} {s} {t} {k} {l} small a d = record {
    below = λ j. elim (same_or_not i j) [
      | inl q ↦ subst (λ n. pid_at l n < l.nextpid) q own
      | inr ne ↦ omega (arith, d.below j, pid_of j ne, grows)
    ];
    apart = λ x y ne e. elim (same_or_not i x) [
      | inl q ↦
          subst (λ n. n ≢ y → pid_at l n ≡ pid_at l y → pid_at l n ≡ 0) q (fresh small a d y) ne e
      | inr nx ↦ elim (same_or_not i y) [
        | inl q ↦ e ∙ sym (ap (pid_at l) q) ∙ fresh small a d x nx (ap (pid_at l) q ∙ sym e)
        | inr ny ↦ pid_of x nx ∙ d.apart x y ne (sym (pid_of x nx) ∙ e ∙ pid_of y ny)
      ]
    ];
  }
    where
      pid_of : (j : ℕ) → i ≢ j → pid_at l j ≡ pid_at k j
      pid_of j ne = Woken-pid_of (mark k j) (mark l j) (a.others j ne)

      grows : k.nextpid ≤ l.nextpid
      grows = let (_, _, le, _) = given small a in le

      own : pid_at l i < l.nextpid
      own =
          let (here, next, _, _) = given small a in
          elim here [
            | inl z ↦ omega (arith, z, grows, d.below i)
            | inr z ↦ elim (same_or_not (pid_at l i) 0) [
              | inl y ↦ omega (arith, y, grows, d.below i)
              | inr ne ↦ omega (arith, z, next ne)
            ]
          ]

  Change-Distinct :
      {k l : Kernel F Q W}
      → k.nextpid + 1 < 2 ^ 31
      → Change k l
      → Distinct k
      → Distinct l × (l.nextpid ≤ k.nextpid + 1)
  Change-Distinct {k} {l} small (wakes_some q) d = (
    kept-Distinct (λ j. Woken-pid_of (mark k j) (mark l j) (q.marks j)) q.next d,
    omega (arith, q.next),
  )
  Change-Distinct {k} {l} small (starts id i s) d = (
    kept-Distinct
        (pids_kept k l i (ap pid_of s.runs ∙ sym (ap pid_of s.waits)) (λ j ne. inl (s.others j ne)))
        s.next d,
    omega (arith, s.next),
  )
  Change-Distinct {k} {l} small (stops id i s) d = (
    kept-Distinct (pids_kept k l i (ap pid_of s.stopped ∙ pid_of-moved s.to (mark k i)) s.others)
        s.next d,
    omega (arith, s.next),
  )
  Change-Distinct {k} {l} small (begins i was r) d = (
    kept-Distinct
        (pids_kept k l i (ap pid_of r.settled ∙ pid_of-moved runnable (mark k i)) r.others) r.next
        d,
    omega (arith, r.next),
  )
  Change-Distinct {k} {l} small (allots i lot a) d =
      let (_, _, _, le) = given small a in (Allots-Distinct small a d, le)

  module _ (P : Policy F Q W) (ext : Ext W) where
    Reach-Distinct_next :
        {k : Kernel F Q W} {n : ℕ} {l : Kernel F Q W}
        → Distinct k
        → k.nextpid + n < 2 ^ 31
        → Reach P ext k n l
        → Distinct l × (l.nextpid ≤ k.nextpid + n)
    Reach-Distinct_next d small start = (d, omega arith)
    Reach-Distinct_next {k} d small (later {n} {l} {m} r s) =
        let (e, le) = Reach-Distinct_next d (omega arith) r in
        let (f, lf) = Change-Distinct (omega arith) (Step-Change P ext s) e in (f, omega arith)

    -- From a kernel whose pids are below nextpid and differ in any two slots that have one, every
    -- run of fewer steps than nextpid is short of 2^31, under any scheduler that meets the interface
    -- Policy, leads to such a kernel.
    pub Reach-Distinct :
        {k : Kernel F Q W} {n : ℕ} {l : Kernel F Q W}
        → Distinct k
        → k.nextpid + n < 2 ^ 31
        → Reach P ext k n l
        → Distinct l
    Reach-Distinct d small r = (Reach-Distinct_next d small r).0
