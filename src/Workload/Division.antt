-- ===== src/Workload/Division.antt =====
-- Division on the natural numbers: the primes, and the search for a divisor up to the square root.
use native.Mathlib.Nat
use os_project_files.Base.{
  ℕ, zero, suc, ◌+◌, ◌*◌, ◌/◌, ◌%◌, ◌^◌, ◌≤◌, ◌<◌, ◌≡◌, ◌≢◌, refl, ap, ◌∙◌, inl, inr, Bool,
  Bool-cases, true, false, not, ◌&&◌, ◌||◌, ◌==◌, ==_iff, ltb, leb, add32, if◌then◌else◌, arith,
}

-- No number from 2 up to n, n left out, divides i.
unfoldable pub none_divides : ℕ → ℕ → Bool
none_divides i zero = true
none_divides i (suc d) = (ltb d 2 || not (i % d == 0)) && none_divides i d

-- The number of primes below n.
unfoldable pub prime_count : ℕ → ℕ
unfolding none_divides
prime_count zero = 0
prime_count (suc i) =
    let below = prime_count i in if leb 2 i && none_divides i i then below + 1 else below

abbrev pub NoDivisor : ℕ → ℕ → Type 0
NoDivisor i n = (d : ℕ) → 2 ≤ d → d < n → i % d ≢ 0

pub none_divides-true : (i n : ℕ) → NoDivisor i n → none_divides i n ≡ true
unfolding none_divides
none_divides-true i zero h = refl
none_divides-true i (suc d) h =
    let rest = none_divides-true i d (λ e two lt. h e two (omega arith)) in
    elim (Bool-cases (ltb d 2)) [
      | inl small ↦ rw (small, rest)
      | inr big ↦ rw (no_zero (i % d) (h d (at_least d big) (omega arith)), rest) (ground arith)
    ]
  where
    at_least : (d : ℕ) → ltb d 2 ≡ false → 2 ≤ d
    at_least d e = ground arith

    no_zero : (r : ℕ) → r ≢ 0 → (r == 0) ≡ false
    no_zero r ne = ground arith

pub none_divides-false : (i n d : ℕ) → 2 ≤ d → d < n → i % d ≡ 0 → none_divides i n ≡ false
unfolding none_divides
none_divides-false i zero d two lt e = absurd (omega arith)
none_divides-false i (suc m) d two lt e = elim (Bool-cases (d == m)) [
  | inl same ↦ let same : d ≡ m = (==_iff d m).0 same in rw (← same) (divides d two (i % d) e _)
  | inr other ↦
      let rest = none_divides-false i m d two (below d m lt other) e in rw rest (ground arith)
]
  where
    divides :
        (d : ℕ) → 2 ≤ d → (r : ℕ) → r ≡ 0 → (b : Bool) → ((ltb d 2 || not (r == 0)) && b) ≡ false
    divides d two r e b = ground arith

    below : (d m : ℕ) → d < suc m → (d == m) ≡ false → d < m
    below d m lt ne = ground arith

-- If i < k * k, a divisor that is not below k has a cofactor that is.
pub no_more : (i k : ℕ) → i < k * k → NoDivisor i k → NoDivisor i i
no_more i k lt h d two below divides = elim (Bool-cases (ltb d k)) [
  | inl small ↦ h d two (small_of d small) divides
  | inr large ↦
      h (i / d) (cofactor_two (i / d) split) (cofactor_small (i / d) split (large_of d large))
        (ap (λ (x : ℕ). x % (i / d)) split ∙ Nat.mul-mod_left d (i / d))
]
  where
    small_of : (d : ℕ) → ltb d k ≡ true → d < k
    small_of d e = ground arith

    large_of : (d : ℕ) → ltb d k ≡ false → k ≤ d
    large_of d e = ground arith

    split : i ≡ d * (i / d)
    split = omega (arith, Nat.div-add-mod i d, divides)

    cofactor_two : (e : ℕ) → i ≡ d * e → 2 ≤ e
    cofactor_two zero s = absurd (omega (arith, Nat.mul-zero d))
    cofactor_two (suc zero) s = absurd (omega (arith, Nat.mul-one d))
    cofactor_two (suc (suc e)) s = omega arith

    cofactor_small : (e : ℕ) → i ≡ d * e → k ≤ d → e < k
    cofactor_small e s le = elim (Bool-cases (ltb e k)) [
      | inl t ↦ small_of e t
      | inr t ↦ absurd (omega (arith, Nat.mul-le-mul le (large_of e t)))
    ]

prime_count-le : (n : ℕ) → prime_count n ≤ n
unfolding prime_count
prime_count-le zero = omega arith
prime_count-le (suc i) = elim (Bool-cases (leb 2 i && none_divides i i)) [
  | inl t ↦ rw t (omega (arith, prime_count-le i))
  | inr t ↦ rw t (omega (arith, prime_count-le i))
]

pub prime_count-suc :
    (i : ℕ)
    → 2 ≤ i
    → i < 2 ^ 29
    → (if none_divides i i then add32 (prime_count i) 1 else prime_count i) ≡ prime_count (suc i)
unfolding prime_count
prime_count-suc i two small =
    let two : leb 2 i ≡ true = at_least i two in
    elim (Bool-cases (none_divides i i)) [
      | inl t ↦ rw (t, two) (omega (arith, prime_count-le i))
      | inr t ↦ rw (t, two)
    ]
  where
    at_least : (i : ℕ) → 2 ≤ i → leb 2 i ≡ true
    at_least i h = ground arith
