-- ===== src/WorkStealing/Victim.antt =====
-- select_victim of work stealing/proc.c ends, and what it returns.
use native.Mathlib.Nat.{div-add-mod, mod-lt}
use os_project_files.Base.{
  ℕ, suc, ◌*◌, ◌%◌, ◌<◌, ◌≡◌, ◌≢◌, sym, ap, ◌∙◌, some, inl, inr, Bool-cases, ◌==◌, ==_iff, arith,
}
use os_project_files.WorkStealing.{rand, select_victim}

-- Consecutive seeds differ in parity.
rand-parity : (seed : ℕ) → rand seed % 2 ≢ seed % 2
unfolding rand
rand-parity seed = omega arith

mod-parity : (x half : ℕ) → x % (2 * half) % 2 ≡ x % 2
mod-parity x half = omega (arith, div-add-mod x (2 * half))

victims-ne : (half seed : ℕ) → rand (rand seed) % (2 * half) ≢ rand seed % (2 * half)
victims-ne half seed e = rand-parity (rand seed) (
    sym (mod-parity (rand (rand seed)) half)
    ∙ ap (λ (x : ℕ). x % 2) e
    ∙ mod-parity (rand seed) half)

-- With an even number of CPUs above 0 the loop of select_victim ends in its first or second round, at
-- another CPU than the caller's.
pub select_victim-total :
    (half id seed fuel : ℕ)
    → 0 < half
    → (victim seed1 : ℕ) × (select_victim (2 * half) id (suc (suc fuel)) seed
        ≡ some (victim, seed1))
      × (victim < 2 * half)
      × (victim ≢ id)
unfolding select_victim
select_victim-total half id seed fuel h =
    let v1 = rand seed % (2 * half) in
    let v2 = rand (rand seed) % (2 * half) in
    elim (Bool-cases (v1 == id)) [
      | inl e ↦ (
        v2,
        rand (rand seed),
        ground (arith, victims-ne half seed),
        mod-lt _ (omega arith),
        (λ q. victims-ne half seed (q ∙ sym ((==_iff v1 id).0 e))),
      )
      | inr e ↦ (v1, rand seed, rw e, mod-lt _ (omega arith), (λ q. cc ((==_iff v1 id).1 q)))
    ]
