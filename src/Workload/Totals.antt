-- ===== src/Workload/Totals.antt =====
-- The sums that main of test_workload.c forms.
use os_project_files.Base.{
  ℕ, zero, suc, ◌+◌, ◌-◌, ◌%◌, ◌^◌, ◌≤◌, ◌<◌, ◌≡◌, ◌≢◌, ◌∙◌, List, [], ◌∷◌, add32, u32_mod, arith,
}
use os_project_files.Workload.Phases.{Os, Metrics, Report, gather}

-- The metrics that the next n calls of waitx() leave in the variables.
unfoldable pub reports : {W : Type 0} → Os W → ℕ → Metrics → W → List Metrics
reports os zero vars w = []
reports os (suc n) vars w = let (vars1, w1) = os.waitx vars w in vars1 ∷ reports os n vars1 w1

unfoldable pub sum_of : (Metrics → ℕ) → List Metrics → ℕ
sum_of f [] = 0
sum_of f (m ∷ ms) = f m + sum_of f ms

-- The process stays the parent: no fork() returns 0. `forks` counts the calls of fork(), and no call
-- takes the clock back.
pub record IsParent {W : Type 0} (os : Os W) (now forks : W → ℕ) : Type 0 where
  pub parent : (w : W) → (os.fork w).0 ≢ 0
  pub counts : (w : W) → forks (os.fork w).1 ≡ forks w + 1
  pub uptime_none : (w : W) → forks (os.uptime w).1 ≡ forks w
  pub waitx_none : (m : Metrics) (w : W) → forks (os.waitx m w).1 ≡ forks w
  pub fork_forward : (w : W) → now w ≤ now (os.fork w).1
  pub waitx_forward : (m : Metrics) (w : W) → now w ≤ now (os.waitx m w).1

module _ {W : Type 0} (os : Os W) where
  -- The totals are the sums of what waitx() reports, each modulo 2 ^ 32.
  pub gather-sums :
      (n : ℕ) (vars t : Metrics) (w : W)
      → t.wtime < 2 ^ 32
      → t.rtime < 2 ^ 32
      → t.nswtch < 2 ^ 32
      → let r = (gather os n vars t w).0 in
        let ms = reports os n vars w in
        (r.wtime ≡ (t.wtime + sum_of (λ m. m.wtime) ms) % u32_mod)
        × (r.rtime ≡ (t.rtime + sum_of (λ m. m.rtime) ms) % u32_mod)
        × (r.nswtch ≡ (t.nswtch + sum_of (λ m. m.nswtch) ms) % u32_mod)
  unfolding gather reports sum_of
  gather-sums zero vars t w a b c = (omega (arith, a), omega (arith, b), omega (arith, c))
  gather-sums (suc n) vars t w a b c =
      let (vars1, w1) = os.waitx vars w in
      let (e, f, g) =
        gather-sums n vars1
          (record {
            wtime = add32 t.wtime vars1.wtime;
            rtime = add32 t.rtime vars1.rtime;
            nswtch = add32 t.nswtch vars1.nswtch;
          })
          w1 (omega arith) (omega arith) (omega arith) in
      (
        e ∙ more t.wtime vars1.wtime _,
        f ∙ more t.rtime vars1.rtime _,
        g ∙ more t.nswtch vars1.nswtch _,
      )
    where
      more : (x y z : ℕ) → (add32 x y + z) % u32_mod ≡ (x + (y + z)) % u32_mod
      more x y z = omega arith

module _ {W : Type 0} (os : Os W) (now forks : W → ℕ) where
  -- What main prints, r, and the state in which it ends, l, if it calls waitx() from u on.
  abbrev pub Printed : Metrics → W → W → Report × W → Type 0
  Printed vars w u (r, l) =
      let ms = reports os 50 vars u in
      (forks l ≡ forks u)
      × (now (os.uptime w).1 ≤ now l)
      × (r.total_ticks ≡ (now l - now (os.uptime w).1) % u32_mod)
      × (r.total_wtime ≡ sum_of (λ m. m.wtime) ms % u32_mod)
      × (r.total_rtime ≡ sum_of (λ m. m.rtime) ms % u32_mod)
      × (r.total_nswtch ≡ sum_of (λ m. m.nswtch) ms % u32_mod)
