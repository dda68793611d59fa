-- ===== src/Workload/Primes.antt =====
-- The loops of do_work of test_workload.c count the primes below the limit.
use native.Mathlib.Nat
use os_project_files.Base.{
  ℕ, zero, suc, ◌+◌, ◌*◌, ◌%◌, ◌^◌, ◌≤◌, ◌<◌, ◌≡◌, sym, ap, ◌∙◌, inl, inr, Option, none, some, Bool,
  Bool-cases, true, false, not, ◌==◌, ==_iff, ltb, ltb_int, add32, mul32, if◌then◌else◌, arith,
}
use os_project_files.Workload.{trial, count, limit_of, do_work}
use os_project_files.Workload.Division.{
  none_divides, prime_count, NoDivisor, none_divides-true, none_divides-false, no_more,
  prime_count-suc,
}

-- The two loops of do_work work on numbers below 2 ^ 29, where nothing wraps around.
fits : (i m : ℕ) → i < 2 ^ 31 → m < 2 ^ 31 → ltb_int i m ≡ ltb i m
fits i m a b = ground arith

square : (k : ℕ) → suc k * suc k ≡ k * k + (2 * k + 1)
square k = omega (arith, Nat.suc-mul k (suc k), Nat.mul-suc k k)

le_square : (k : ℕ) → 1 ≤ k → k ≤ k * k
le_square k h = omega (arith, Nat.mul-le-mul_left k h, Nat.mul-one k)

-- A round of the loop over j, behind its test.
abbrev after : ℕ → ℕ → ℕ → Bool → Option Bool
after n i j over = elim (not over) [
  | false ↦ some true
  | true ↦ if i % j == 0 then some false else trial n i (add32 j 1)
]

trial_stops : (n i j : ℕ) → ltb_int i (mul32 j j) ≡ true → trial (suc n) i j ≡ some true
unfolding trial
trial_stops n i j e = ap (after n i j) e

trial_goes :
    (n i j : ℕ)
    → ltb_int i (mul32 j j) ≡ false
    → trial (suc n) i j ≡ (if i % j == 0 then some false else trial n i (add32 j 1))
unfolding trial
trial_goes n i j e = ap (after n i j) e

trial-some :
    (n i k : ℕ)
    → i < 2 ^ 29
    → 1 ≤ k
    → k * k ≤ i
    → i < n + k
    → NoDivisor i (suc k)
    → trial n i (suc k) ≡ some (none_divides i i)
unfolding trial
trial-some zero i k small pos le room h = absurd (omega (arith, le_square k pos))
trial-some (suc n) i k small pos le room h =
    let near = le_square k pos in
    let next = square k in
    let up : add32 (suc k) 1 ≡ suc (suc k) = omega (arith, near) in
    let exact : mul32 (suc k) (suc k) ≡ suc k * suc k = omega (arith, near, next) in
    let test : ltb_int i (mul32 (suc k) (suc k)) ≡ ltb i (suc k * suc k) =
      ap (ltb_int i) exact ∙ fits i (suc k * suc k) (omega arith) (omega (arith, near, next)) in
    elim (Bool-cases (ltb i (suc k * suc k))) [
      | inl over ↦
          trial_stops n i (suc k) (test ∙ over)
          ∙ ap some (sym (none_divides-true i i (no_more i (suc k) (lt_of _ _ over) h)))
      | inr on ↦
          let le2 = le_of _ _ on in
          trial_goes n i (suc k) (test ∙ on) ∙ elim (Bool-cases (i % suc k == 0)) [
            | inl hit ↦
                let zero = (==_iff (i % suc k) 0).0 hit in
                let lt = proper le2 in
                rw hit (ap some (sym (none_divides-false i i (suc k) (omega arith) lt zero)))
            | inr miss ↦
                rw (miss, up)
                  (trial-some n i (suc k) small (omega arith) le2 (omega arith) (further miss))
          ]
    ]
  where
    lt_of : (a b : ℕ) → ltb a b ≡ true → a < b
    lt_of a b e = ground arith

    le_of : (a b : ℕ) → ltb a b ≡ false → b ≤ a
    le_of a b e = ground arith

    proper : suc k * suc k ≤ i → suc k < i
    proper le2 = omega (arith, le_square k pos, square k)

    further : (i % suc k == 0) ≡ false → NoDivisor i (suc (suc k))
    further miss d two lt = elim (Bool-cases (ltb d (suc k))) [
      | inl t ↦ h d two (lt_of d (suc k) t)
      | inr t ↦ λ e.
          let same : d ≡ suc k = omega (arith, le_of _ _ t) in
          cc ((==_iff (i % suc k) 0).1 (sym (ap (λ (x : ℕ). i % x) same) ∙ e), miss)
    ]

-- A round of the loop over i, behind its test and behind the loop over j.
abbrev tested : ℕ → ℕ → ℕ → ℕ → Option Bool → Option ℕ
tested n limit i primes found = elim found [
  | none ↦ none
  | some is_prime ↦
      let counted = if is_prime then add32 primes 1 else primes in count n limit (add32 i 1) counted
]

abbrev onward : ℕ → ℕ → ℕ → ℕ → Bool → Option ℕ
onward n limit i primes more = elim more [
  | false ↦ some primes
  | true ↦ tested n limit i primes (trial i i 2)
]

count_goes :
    (n limit i primes : ℕ) {b : Bool}
    → ltb_int i limit ≡ true
    → trial i i 2 ≡ some b
    → count (suc n) limit i primes
      ≡ count n limit (add32 i 1) (if b then add32 primes 1 else primes)
unfolding count
count_goes n limit i primes e found =
    ap (onward n limit i primes) e ∙ ap (tested n limit i primes) found

count_stops :
    (n limit i primes : ℕ) → ltb_int i limit ≡ false → count (suc n) limit i primes ≡ some primes
unfolding count
count_stops n limit i primes e = ap (onward n limit i primes) e

count-some :
    (n limit i : ℕ)
    → limit < 2 ^ 29
    → 2 ≤ i
    → i ≤ limit
    → limit < n + i
    → count n limit i (prime_count i) ≡ some (prime_count limit)
unfolding count
count-some zero limit i small two le room = absurd (omega arith)
count-some (suc n) limit i small two le room =
    let test = fits i limit (omega arith) (omega arith) in
    elim (Bool-cases (ltb i limit)) [
      | inl on ↦
          let found =
            trial-some i i 1 (omega arith) (omega arith) (omega arith) (omega arith)
              (λ d ge lt. absurd (omega arith)) in
          let up : add32 i 1 ≡ suc i = omega arith in
          count_goes n limit i (prime_count i) (test ∙ on) found
          ∙ rw (up, prime_count-suc i two (omega arith))
              (count-some n limit (suc i) small (omega arith) (lt_of i limit on) (omega arith))
      | inr over ↦
          count_stops n limit i (prime_count i) (test ∙ over)
          ∙ ap some (ap prime_count (last i limit le over))
    ]
  where
    lt_of : (a b : ℕ) → ltb a b ≡ true → suc a ≤ b
    lt_of a b e = ground arith

    last : (a b : ℕ) → a ≤ b → ltb a b ≡ false → a ≡ b
    last a b le e = ground arith

limit_range : (m : ℕ) → (2 ≤ limit_of m) × (limit_of m < 2 ^ 29)
unfolding limit_of
limit_range m = elim (Bool-cases (m == 0)) [
  | inl e ↦ rw e (omega arith, omega arith)
  | inr e ↦ rw e (omega arith, omega arith)
]

-- Do_work(is_monster) gets to its exit(0), and has then counted the primes below 1000000, or below
-- 1000 if is_monster is 0.
pub do_work-prime_count :
    (is_monster : ℕ)
    → do_work is_monster ≡ some (prime_count (if is_monster == 0 then 1000 else 1000000))
unfolding do_work prime_count limit_of
do_work-prime_count is_monster =
    let (two, small) = limit_range is_monster in
    count-some (limit_of is_monster) (limit_of is_monster) 2 small (omega arith) two (omega arith)
