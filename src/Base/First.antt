-- ===== src/Base/First.antt =====
-- The first index of a list at which a test holds: what each of the table's scans returns.
use mathlib.Core.Path.{◌≡◌, refl, ap, ◌∙◌, subst}
use mathlib.Core.Logic.{◌⊎◌, inl, inr}
use mathlib.Core.Bool.{Bool, true, false}
use mathlib.Core.Option.{Option, none, some, some-injective}
use mathlib.Core.List.{List, [], ◌∷◌}
use Prim.Native.Nat.{ℕ, zero, suc, ◌+◌, ◌<◌}
use native.Mathlib.Omega.{arith}
use os_project_files.Base.Tests.{Bool-cases, if◌then◌else◌}
use os_project_files.Base.Lists.{get_elem?}

module _ {ℓ} {A : Type ℓ} where
  -- The index of the first element that passes, counted from i.
  abbrev pub first : (A → Bool) → List A → ℕ → Option ℕ
  first test [] i = none
  first test (x ∷ xs) i = if test x then some i else first test xs (i + 1)

  -- The element at index n passes, and none before it does.
  abbrev pub FirstAt : (A → Bool) → List A → ℕ → Type ℓ
  FirstAt test xs n =
      (x : A) × (get_elem? xs n ≡ some x)
      × (test x ≡ true)
      × ((j : ℕ) (y : A) → j < n → get_elem? xs j ≡ some y → test y ≡ false)

  abbrev pub NonePasses : (A → Bool) → List A → Type ℓ
  NonePasses test xs = (j : ℕ) (y : A) → get_elem? xs j ≡ some y → test y ≡ false

same_index : (n m : ℕ) (o : Option ℕ) → o ≡ some (0 + m) → o ≡ some n → m ≡ n
same_index n m o p q = ground arith

module _ {ℓ} {A : Type ℓ} (test : A → Bool) where
  NonePasses-cons :
      (x : A) (xs : List A) → test x ≡ false → NonePasses test xs → NonePasses test (x ∷ xs)
  NonePasses-cons x xs f h zero y e = rw (← some-injective _ _ e) f
  NonePasses-cons x xs f h (suc j) y e = h j y e

  FirstAt-cons :
      (x : A) (xs : List A) (n : ℕ)
      → test x ≡ false
      → FirstAt test xs n
      → FirstAt test (x ∷ xs) (suc n)
  FirstAt-cons x xs n f (y, e, t, before) = (y, e, t, earlier)
    where
      earlier : (j : ℕ) (z : A) → j < suc n → get_elem? (x ∷ xs) j ≡ some z → test z ≡ false
      earlier zero z l q = rw (← some-injective _ _ q) f
      earlier (suc j) z l q = before j z (omega arith) q

  pub first_cases :
      (xs : List A) (i : ℕ)
      → ((first test xs i ≡ none) × NonePasses test xs)
        ⊎ ((n : ℕ) × (first test xs i ≡ some (i + n)) × FirstAt test xs n)
  first_cases [] i = inl (refl, λ j y e. cc)
  first_cases (x ∷ xs) i = elim (Bool-cases (test x)) [
    | inl t ↦ inr (0, rw t (ap some (omega arith)), (x, refl, t, λ j y l e. absurd (omega arith)))
    | inr f ↦ elim (first_cases xs (i + 1)) [
      | inl (e, h) ↦ inl (rw f e, NonePasses-cons x xs f h)
      | inr (n, e, h) ↦ inr (suc n, rw f (e ∙ ap some (omega arith)), FirstAt-cons x xs n f h)
    ]
  ]

  -- The first index is the result exactly.
  pub first-some : (xs : List A) (n : ℕ) → first test xs 0 ≡ some n → FirstAt test xs n
  first-some xs n e = elim (first_cases xs 0) [
    | inl (q, _) ↦ cc
    | inr (m, q, h) ↦ subst (FirstAt test xs) (same_index n m (first test xs 0) q e) h
  ]

  pub first-none : (xs : List A) → first test xs 0 ≡ none → NonePasses test xs
  first-none xs e = elim (first_cases xs 0) [ inl (_, h) ↦ h | inr (m, q, h) ↦ cc ]

  cong_test : (x y : A) → some x ≡ some y → test x ≡ test y
  cong_test x y e = ap test (some-injective _ _ e)

  pub first-eq-some : (xs : List A) (i n : ℕ) → FirstAt test xs n → first test xs i ≡ some (i + n)
  first-eq-some [] i n (x, e, t, before) = cc
  first-eq-some (x ∷ xs) i zero (y, e, t, before) = rw (cong_test x y e ∙ t) (ap some (omega arith))
  first-eq-some (x ∷ xs) i (suc n) (y, e, t, before) = rw (before 0 x (omega arith) refl) (
      first-eq-some xs (i + 1) n (y, e, t, λ j z l q. before (suc j) z (omega arith) q)
      ∙ ap some (omega arith))

  pub first-eq-none : (xs : List A) (i : ℕ) → NonePasses test xs → first test xs i ≡ none
  first-eq-none [] i h = refl
  first-eq-none (x ∷ xs) i h = rw (h 0 x refl) (first-eq-none xs (i + 1) (λ j y q. h (suc j) y q))
