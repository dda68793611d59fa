-- ===== src/Process/Loop.antt =====
-- `for(p = proc; p < &proc[NPROC]; p++)` over a body that stores into the table.
use os_project_files.Base.{
  ℕ, zero, suc, ◌+◌, ◌<◌, ◌≤◌, ◌≡◌, ◌≢◌, false, refl, sym, subst, ◌∙◌, ap, some, inl, inr,
  Bool-cases, ◌==◌, ==_iff, length, get_elem?-lt, arith,
}
use os_project_files.Kernel.{Proc, Kernel, proc_at}

module _ {F Q W : Type 0} (body : ℕ → Kernel F Q W → Kernel F Q W) where
  -- The loop, from proc[i] with n slots left.
  unfoldable pub for_from : ℕ → ℕ → Kernel F Q W → Kernel F Q W
  for_from zero i k = k
  for_from (suc n) i k = for_from n (i + 1) (body i k)

  unfoldable pub for_each : Kernel F Q W → Kernel F Q W
  unfolding for_from
  for_each k = for_from (length k.procs) 0 k

module _ {F Q W A : Type 0} (keep : Kernel F Q W → A) (body : ℕ → Kernel F Q W → Kernel F Q W)
    (kept : (i : ℕ) (k : Kernel F Q W) → keep (body i k) ≡ keep k) where
  for_from-same : (n i : ℕ) (k : Kernel F Q W) → keep (for_from body n i k) ≡ keep k
  unfolding for_from
  for_from-same zero i k = refl
  for_from-same (suc n) i k = for_from-same n (i + 1) (body i k) ∙ kept i k

  -- What every round of the loop leaves alone, the loop leaves alone.
  pub for_each-same : (k : Kernel F Q W) → keep (for_each body k) ≡ keep k
  unfolding for_each
  for_each-same k = for_from-same (length k.procs) 0 k

-- A body that changes no slot but its own and leaves what `keep` reads.
pub record IsLocal {F Q W A : Type 0} (keep : Kernel F Q W → A) (change : A → ℕ → Proc F → Proc F)
    (body : ℕ → Kernel F Q W → Kernel F Q W) : Type 0 where
  pub others : (i j : ℕ) (k : Kernel F Q W) → i ≢ j → proc_at (body i k) j ≡ proc_at k j
  pub kept : (i : ℕ) (k : Kernel F Q W) → keep (body i k) ≡ keep k
  pub own :
      (i : ℕ) (k : Kernel F Q W) (p : Proc F)
      → proc_at k i ≡ some p
      → proc_at (body i k) i ≡ some (change (keep k) i p)

ne_of_test : (i j : ℕ) → (i == j) ≡ false → i ≢ j
ne_of_test i j e q = ground arith

module _ {F Q W A : Type 0} (keep : Kernel F Q W → A) (change : A → ℕ → Proc F → Proc F)
    (body : ℕ → Kernel F Q W → Kernel F Q W) (l : IsLocal keep change body) where
  for_from-before :
      (n i j : ℕ) (k : Kernel F Q W) → j < i → proc_at (for_from body n i k) j ≡ proc_at k j
  unfolding for_from
  for_from-before zero i j k h = refl
  for_from-before (suc n) i j k h =
      for_from-before n (i + 1) j (body i k) (omega arith) ∙ l.others i j k (λ e. omega arith)

  for_from-own :
      (n i j : ℕ) (k : Kernel F Q W) (p : Proc F)
      → i ≤ j
      → j < i + n
      → proc_at k j ≡ some p
      → proc_at (for_from body n i k) j ≡ some (change (keep k) j p)
  unfolding for_from
  for_from-own zero i j k p le lt e = absurd (omega arith)
  for_from-own (suc n) i j k p le lt e = elim (Bool-cases (i == j)) [
    | inl q ↦
        let same : i ≡ j = (==_iff i j).0 q in
        for_from-before n (i + 1) j (body i k) (omega arith)
        ∙ subst (λ x. proc_at (body x k) j ≡ some (change (keep k) j p)) (sym same) (l.own j k p e)
    | inr q ↦
        for_from-own n (i + 1) j (body i k) p (omega (arith, ne_of_test i j q)) (omega arith)
          (l.others i j k (ne_of_test i j q) ∙ e)
        ∙ ap (λ (a : A). some (change a j p)) (l.kept i k)
  ]

  -- Every slot is changed once, by its own round of the loop.
  pub for_each-own :
      (j : ℕ) (k : Kernel F Q W) (p : Proc F)
      → proc_at k j ≡ some p
      → proc_at (for_each body k) j ≡ some (change (keep k) j p)
  unfolding for_each
  for_each-own j k p e =
      for_from-own (length k.procs) 0 j k p (omega arith) (omega (arith, get_elem?-lt k.procs j e))
        e

  pub for_each-keep : (k : Kernel F Q W) → keep (for_each body k) ≡ keep k
  for_each-keep k = for_each-same keep body l.kept k
