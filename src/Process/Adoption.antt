-- ===== src/Process/Adoption.antt =====
-- What reparent of proc.c does to the parents of the processes.
use mathlib.Core.Option.{some-injective}
use os_project_files.Base.{
  ℕ, zero, suc, ◌+◌, ◌≡◌, refl, sym, ap, ◌∙◌, Option, Option-cases, inl, inr, none, some, List, [],
  ◌∷◌, map, length, modify, get_elem?, Bool-cases, if◌then◌else◌, arith,
}
use os_project_files.Kernel.{Chan, ptr_eq, Proc, Kernel, proc_at}
use os_project_files.Process.Exit.{adopt, reparent}
use os_project_files.Process.Loop.{for_from, for_each}

-- The parents of all slots, in the order of the table.
abbrev pub parents : {F Q W : Type 0} → Kernel F Q W → List (Option ℕ)
parents k = map (λ p. p.parent) k.procs

-- What reparent reads and writes: the parents, and initproc.
abbrev pub family : {F Q W : Type 0} → Kernel F Q W → List (Option ℕ) × Option ℕ
family k = (parents k, k.initproc)

module _ {A : Type 0} (f : A → A) where
  -- f at the n indices from i on.
  abbrev modify_from : ℕ → ℕ → List A → List A
  modify_from zero i xs = xs
  modify_from (suc n) i xs = modify_from n (i + 1) (modify xs i f)

  modify_from-suc :
      (n i j : ℕ) (x : A) (xs : List A)
      → j ≡ suc i
      → modify_from n j (x ∷ xs) ≡ x ∷ modify_from n i xs
  modify_from-suc zero i j x xs e = refl
  modify_from-suc (suc n) i j x xs e =
      ap (λ (m : ℕ). modify_from n (j + 1) (modify (x ∷ xs) m f)) e
      ∙ modify_from-suc n (i + 1) (j + 1) x (modify xs i f) (omega arith)

  modify_from-length : (xs : List A) → modify_from (length xs) 0 xs ≡ map f xs
  modify_from-length [] = refl
  modify_from-length (x ∷ xs) =
      modify_from-suc (length xs) 0 1 (f x) xs refl ∙ ap (◌∷◌ (f x)) (modify_from-length xs)

module _ {A B : Type 0} (g : A → B) where
  -- A store that `g` sees as h.
  map-modify :
      (xs : List A) (i : ℕ) (f : A → A) (h : B → B) {x : A}
      → get_elem? xs i ≡ some x
      → g (f x) ≡ h (g x)
      → map g (modify xs i f) ≡ modify (map g xs) i h
  map-modify [] i f h e q = refl
  map-modify (x ∷ xs) zero f h {x = y} e q =
      let same : x ≡ y = some-injective _ _ e in
      ap (λ (b : B). b ∷ map g xs)
        (ap (λ (z : A). g (f z)) same ∙ q ∙ ap (λ (z : A). h (g z)) (sym same))
  map-modify (x ∷ xs) (suc i) f h e q = ap (◌∷◌ (g x)) (map-modify xs i f h e q)

  -- A store that `g` does not see.
  pub map-modify_same :
      (xs : List A) (i : ℕ) (f : A → A)
      → ((x : A) → g (f x) ≡ g x)
      → map g (modify xs i f) ≡ map g xs
  map-modify_same [] i f q = refl
  map-modify_same (x ∷ xs) zero f q = ap (λ (y : B). y ∷ map g xs) (q x)
  map-modify_same (x ∷ xs) (suc i) f q = ap (◌∷◌ (g x)) (map-modify_same xs i f q)

  -- A change that leaves what `g` sees of the entry.
  modify-map_same :
      (xs : List A) (i : ℕ) (h : B → B) {x : A}
      → get_elem? xs i ≡ some x
      → h (g x) ≡ g x
      → modify (map g xs) i h ≡ map g xs
  modify-map_same [] i h e q = refl
  modify-map_same (x ∷ xs) zero h {x = y} e q =
      let same : x ≡ y = some-injective _ _ e in
      ap (λ (b : B). b ∷ map g xs) (ap (λ (z : A). h (g z)) same ∙ q ∙ ap g (sym same))
  modify-map_same (x ∷ xs) (suc i) h e q = ap (◌∷◌ (g x)) (modify-map_same xs i h e q)

  modify-map-none :
      (xs : List A) (i : ℕ) (h : B → B) → get_elem? xs i ≡ none → modify (map g xs) i h ≡ map g xs
  modify-map-none [] i h e = refl
  modify-map-none (x ∷ xs) zero h e = cc
  modify-map-none (x ∷ xs) (suc i) h e = ap (◌∷◌ (g x)) (modify-map-none xs i h e)

-- A child of `me` becomes a child of init.
abbrev pub redirect : Option ℕ → ℕ → Option ℕ → Option ℕ
redirect init me parent = if ptr_eq parent (some me) then init else parent

module _ {F Q W : Type 0} (wakeup : Chan → Kernel F Q W → Kernel F Q W)
    (keeps : (c : Chan) (k : Kernel F Q W) → family (wakeup c k) ≡ family k) where
  adopt-parents :
      (me i : ℕ) (k : Kernel F Q W)
      → parents (adopt wakeup me i k) ≡ modify (parents k) i (redirect k.initproc me)
  unfolding adopt
  adopt-parents me i k = elim (Option-cases (proc_at k i)) [
    | inl e ↦ rw (e, adopt) (sym (modify-map-none (λ (p : Proc F). p.parent) k.procs i _ e))
    | inr (pp, e) ↦ elim (Bool-cases (ptr_eq pp.parent (some me))) [
      | inl t ↦
          rw (e, adopt)
            (rw t (
              ap (λ (r : List (Option ℕ) × Option ℕ). r.0) (keeps _ _)
              ∙ map-modify (λ (p : Proc F). p.parent) k.procs i _ _ e (rw t)))
      | inr t ↦
          rw (e, adopt)
            (rw t (sym (modify-map_same (λ (p : Proc F). p.parent) k.procs i _ e (rw t))))
    ]
  ]

  adopt-initproc : (me i : ℕ) (k : Kernel F Q W) → (adopt wakeup me i k).initproc ≡ k.initproc
  unfolding adopt
  adopt-initproc me i k = elim (Option-cases (proc_at k i)) [
    | inl e ↦ rw (e, adopt)
    | inr (pp, e) ↦ elim (Bool-cases (ptr_eq pp.parent (some me))) [
      | inl t ↦ rw (e, adopt) (rw t (ap (λ (r : List (Option ℕ) × Option ℕ). r.1) (keeps _ _)))
      | inr t ↦ rw (e, adopt) (rw t)
    ]
  ]

  loop-parents :
      (me n i : ℕ) (k : Kernel F Q W)
      → parents (for_from (adopt wakeup me) n i k)
        ≡ modify_from (redirect k.initproc me) n i (parents k)
  unfolding for_from
  loop-parents me zero i k = refl
  loop-parents me (suc n) i k =
      loop-parents me n (i + 1) (adopt wakeup me i k)
      ∙ ap (λ (o : Option ℕ). modify_from (redirect o me) n (i + 1) (parents (adopt wakeup me i k)))
          (adopt-initproc me i k)
      ∙ ap (modify_from (redirect k.initproc me) n (i + 1)) (adopt-parents me i k)

  length-parents : (ps : List (Proc F)) → length (map (λ (p : Proc F). p.parent) ps) ≡ length ps
  length-parents [] = refl
  length-parents (p ∷ ps) = ap suc (length-parents ps)

  -- If wakeup() changes neither a parent nor initproc, reparent(p) makes every child of p a child
  -- of init, in one pass over the table, and leaves every other parent as it was.
  pub reparent-parents :
      (me : ℕ) (k : Kernel F Q W)
      → parents (reparent wakeup me k) ≡ map (redirect k.initproc me) (parents k)
  unfolding reparent for_each
  reparent-parents me k =
      loop-parents me (length k.procs) 0 k
      ∙ ap (λ (n : ℕ). modify_from (redirect k.initproc me) n 0 (parents k))
          (sym (length-parents k.procs))
      ∙ modify_from-length (redirect k.initproc me) (parents k)
