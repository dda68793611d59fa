-- ===== src/Workload/Delay.antt =====
-- Spin_delay of test_workload.c ends, and not too early.
use native.Mathlib.Nat
use os_project_files.Base.{
  ℕ, zero, suc, ◌+◌, ◌-◌, ◌*◌, ◌%◌, ◌^◌, ◌≤◌, ◌<◌, ◌≡◌, ap, ◌∙◌, subst, inl, inr, Bool, Bool-cases,
  true, false, ltb_int, sub32, u32_mod, arith,
}
use os_project_files.Workload.Phases.{Os, Flow, goes_on, spin, spin_delay}

-- The state behind n calls of uptime().
abbrev pub calls : {W : Type 0} → Os W → ℕ → W → W
calls os zero w = w
calls os (suc n) w = calls os n (os.uptime w).1

-- The clock: uptime() returns the low 32 bits of the tick count `now`, which does not go back, goes
-- on by at most 2 ^ 30 ticks in a call, and goes on by one at least in `patience` calls.
pub record IsClock {W : Type 0} (os : Os W) (now : W → ℕ) (patience : ℕ) : Type 0 where
  pub reads : (w : W) → (os.uptime w).0 ≡ now (os.uptime w).1 % u32_mod
  pub forward : (w : W) → now w ≤ now (os.uptime w).1
  pub short : (w : W) → now (os.uptime w).1 ≤ now w + 2 ^ 30
  pub goes : (w : W) → now w < now (calls os patience w)

-- The test of the loop reads the true time, across a wrap-around of the counter.
elapsed :
    (start now d : ℕ)
    → start ≤ now
    → now < start + 2 ^ 31
    → d < 2 ^ 30
    → (ltb_int (sub32 (now % u32_mod) (start % u32_mod)) d ≡ true → now < start + d)
      × (ltb_int (sub32 (now % u32_mod) (start % u32_mod)) d ≡ false → start + d ≤ now)
elapsed start now d le near small = (λ e. ground arith, λ e. ground arith)

module _ {W : Type 0} (os : Os W) (now : W → ℕ) (patience : ℕ) (clock : IsClock os now patience)
    (start d : ℕ) (small : d < 2 ^ 30) where
  -- The loop returns with n rounds of fuel, d ticks after start or later.
  abbrev Ends : ℕ → W → Type 0
  Ends n w = (l : W) × (spin os n (start % u32_mod) d w ≡ goes_on l) × (start + d ≤ now l)

  after : ℕ → W → Bool → Flow W
  after n w on = elim on [ false ↦ goes_on w | true ↦ spin os n (start % u32_mod) d w ]

  round :
      (n : ℕ) (w : W)
      → start ≤ now w
      → now w < start + d
      → (now (os.uptime w).1 < start + d → Ends n (os.uptime w).1)
      → Ends (suc n) w
  unfolding spin after
  round n w le early rest =
      let v = (os.uptime w).1 in
      let (on, over) =
        elapsed start (now v) d (omega (arith, clock.forward w)) (omega (arith, clock.short w))
          small in
      let read : ltb_int (sub32 (os.uptime w).0 (start % u32_mod)) d
          ≡ ltb_int (sub32 (now v % u32_mod) (start % u32_mod)) d =
        ap (λ (x : ℕ). ltb_int (sub32 x (start % u32_mod)) d) (clock.reads w) in
      elim (Bool-cases (ltb_int (sub32 (now v % u32_mod) (start % u32_mod)) d)) [
        | inl e ↦ let (l, eq, late) = rest (on e) in (l, ap (after n v) (read ∙ e) ∙ eq, late)
        | inr e ↦ (v, ap (after n v) (read ∙ e), over e)
      ]

  -- N rounds: the loop has ended, or it is not yet time.
  rounds :
      (n f g : ℕ) (w : W)
      → f ≡ g + n
      → start ≤ now w
      → now w < start + d
      → (start ≤ now (calls os n w) → now (calls os n w) < start + d → Ends g (calls os n w))
      → Ends f w
  rounds zero f g w e le early rest = subst (λ m. Ends m w) (omega (arith, e)) (rest le early)
  rounds (suc n) zero g w e le early rest = absurd (omega (arith, e))
  rounds (suc n) (suc f) g w e le early rest =
      round f w le early λ on.
        rounds n f g (os.uptime w).1 (omega (arith, e)) (omega (arith, clock.forward w)) on rest

  spin-Ends :
      (t f : ℕ) (w : W)
      → start ≤ now w
      → now w < start + d
      → start + d ≤ now w + t
      → patience * t ≤ f
      → Ends f w
  spin-Ends zero f w le early last room = absurd (omega arith)
  spin-Ends (suc t) f w le early last room =
      let step = Nat.mul-suc patience t in
      rounds patience f (f - patience) w (omega arith) le early λ le2 early2.
        spin-Ends t (f - patience) (calls os patience w) le2 early2 (omega (arith, clock.goes w))
          (omega (arith, step))

module _ {W : Type 0} (os : Os W) (now : W → ℕ) (patience : ℕ)
    (clock : IsClock os now patience) where
  -- Spin_delay(d) with 0 < d < 2^30, and with fuel for `patience` rounds a tick, returns, at least d
  -- ticks after its first call of uptime() returned, across a wrap-around of the counter. The clock
  -- does not go back, goes on by at most 2^30 ticks in a call of uptime(), and goes on by one at
  -- least in `patience` calls.
  pub spin_delay_lem :
      (fuel d : ℕ) (w : W)
      → 0 < d
      → d < 2 ^ 30
      → patience * d ≤ fuel
      → (l : W) × (spin_delay os fuel d w ≡ goes_on l) × (now (os.uptime w).1 + d ≤ now l)
  unfolding spin_delay
  spin_delay_lem fuel d w pos small room =
      let v = (os.uptime w).1 in
      let (l, eq, late) =
        spin-Ends os now patience clock (now v) d small d fuel v (omega arith) (omega arith)
          (omega arith) room in
      (l, ap (λ (x : ℕ). spin os fuel x d v) (clock.reads w) ∙ eq, late)
