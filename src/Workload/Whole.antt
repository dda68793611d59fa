-- ===== src/Workload/Whole.antt =====
-- What main of test_workload.c does from its start to its end.
use os_project_files.Base.{
  ℕ, zero, suc, ◌+◌, ◌-◌, ◌*◌, ◌%◌, ◌^◌, ◌≤◌, ◌<◌, ◌≡◌, ◌≢◌, refl, sym, ap, ◌∙◌, subst, inl, inr,
  Bool, Bool-cases, true, false, ◌==◌, ltb_int, sub32, u32_mod, arith,
}
use os_project_files.Workload.Delay.{IsClock, spin_delay_lem}
use os_project_files.Workload.Phases.{
  Os, Metrics, Report, Flow, goes_on, then_do, spin, spin_delay, in_child, spawn, gather, main,
}
use os_project_files.Workload.Totals.{IsParent, Printed, gather-sums}

module _ {W : Type 0} (os : Os W) (now forks : W → ℕ) (patience : ℕ)
    (clock : IsClock os now patience) (stays : IsParent os now forks) where
  -- From w to l time does not go back, and fork() is called n times.
  abbrev Onward : ℕ → W → W → Type 0
  Onward n w l = (forks l ≡ forks w + n) × (now w ≤ now l)

  Onward-trans : (a b : ℕ) (w u l : W) → Onward a w u → Onward b u l → Onward (a + b) w l
  Onward-trans a b w u l (e, le) (f, lf) = (omega (arith, e, f), omega (arith, le, lf))

  uptime-Onward : (w : W) → Onward 0 w (os.uptime w).1
  uptime-Onward w = (omega (arith, stays.uptime_none w), clock.forward w)

  spin-Onward : (n start d : ℕ) (w : W) {l : W} → spin os n start d w ≡ goes_on l → Onward 0 w l
  unfolding spin
  spin-Onward zero start d w e = cc
  spin-Onward (suc n) start d w {l} e =
      let v = (os.uptime w).1 in
      elim (Bool-cases (ltb_int (sub32 (os.uptime w).0 start) d)) [
        | inl t ↦
            Onward-trans 0 0 w v l (uptime-Onward w)
              (spin-Onward n start d v (sym (ap (behind n start d v) t) ∙ e))
        | inr t ↦
            subst (Onward 0 w) (same v l (sym (ap (behind n start d v) t) ∙ e)) (uptime-Onward w)
      ]
    where
      behind : ℕ → ℕ → ℕ → W → Bool → Flow W
      behind n start d v on = elim on [ false ↦ goes_on v | true ↦ spin os n start d v ]

      same : (v l : W) → ◌≡◌ {A = Flow W} (goes_on v) (goes_on l) → v ≡ l
      same v l e = cc e

  -- A pause between two forks that returns.
  abbrev Pauses : (W → Flow W) → Type 0
  Pauses pause = (w : W) → (l : W) × (pause w ≡ goes_on l) × Onward 0 w l

  spin_delay-Pauses :
      (fuel d : ℕ) → 0 < d → d < 2 ^ 30 → patience * d ≤ fuel → Pauses (spin_delay os fuel d)
  unfolding spin_delay
  spin_delay-Pauses fuel d pos small room w =
      let (l, eq, late) = spin_delay_lem os now patience clock fuel d w pos small room in
      let v = (os.uptime w).1 in
      (l, eq, Onward-trans 0 0 w v l (uptime-Onward w) (spin-Onward fuel _ d v eq))

  spawn-Onward :
      (pause : W → Flow W)
      → Pauses pause
      → (n i : ℕ) (w : W) → (l : W) × (spawn os pause n i w ≡ goes_on l) × Onward n w l
  unfolding spawn
  spawn-Onward pause pauses zero i w = (w, refl, (omega arith, omega arith))
  spawn-Onward pause pauses (suc n) i w =
      let u = (os.fork w).1 in
      let (v, eq, on) = pauses u in
      let (l, rest, far) = spawn-Onward pause pauses n (i + 1) v in
      (
        l,
        ap
              (λ (b : Bool). elim b as (λ _. Flow W) [
                | true ↦ in_child i
                | false ↦ then_do (pause u) λ w2. spawn os pause n (i + 1) w2
              ])
              (not_zero (os.fork w).0 (stays.parent w))
            ∙ ap (λ (f : Flow W). then_do f (spawn os pause n (i + 1))) eq
            ∙ rest,
        (
          omega (arith, stays.counts w, on.0, far.0),
          omega (arith, stays.fork_forward w, on.1, far.1),
        ),
      )
    where
      not_zero : (pid : ℕ) → pid ≢ 0 → (pid == 0) ≡ false
      not_zero pid ne = ground arith

  gather-Onward : (n : ℕ) (vars t : Metrics) (w : W) → Onward 0 w (gather os n vars t w).1
  unfolding gather
  gather-Onward zero vars t w = (omega arith, omega arith)
  gather-Onward (suc n) vars t w =
      let u = (os.waitx vars w).1 in
      Onward-trans 0 0 w u _ (omega (arith, stays.waitx_none vars w), stays.waitx_forward vars w)
        (gather-Onward n (os.waitx vars w).0 _ u)

  -- The last part of main, behind the third phase.
  finish : Metrics → ℕ → W → Report × W
  finish vars start_time w =
      let (total, w6) = gather os 50 vars (record { wtime = 0; rtime = 0; nswtch = 0 }) w in
      let (end_time, w7) = os.uptime w6 in
      (
        record {
          total_ticks = sub32 end_time start_time;
          total_wtime = total.wtime;
          total_rtime = total.rtime;
          total_nswtch = total.nswtch;
        },
        w7,
      )

  since : (a b : ℕ) → a ≤ b → sub32 (b % u32_mod) (a % u32_mod) ≡ (b - a) % u32_mod
  since a b le = omega arith

  from_zero : (x : ℕ) → (0 + x) % u32_mod ≡ x % u32_mod
  from_zero x = omega arith

  finish-Printed :
      (vars : Metrics) (w u : W)
      → now (os.uptime w).1 ≤ now u
      → Printed os now forks vars w u (finish vars (os.uptime w).0 u)
  unfolding finish
  finish-Printed vars w u le =
      let zeros : Metrics = record { wtime = 0; rtime = 0; nswtch = 0 } in
      let v = (gather os 50 vars zeros u).1 in
      let (f, t) = gather-Onward 50 vars zeros u in
      let (g, s) = uptime-Onward v in
      let passed : now (os.uptime w).1 ≤ now (os.uptime v).1 = omega (arith, le, t, s) in
      let (a, b, c) = gather-sums os 50 vars zeros u (omega arith) (omega arith) (omega arith) in
      (
        omega (arith, f, g),
        passed,
        ap (λ (x : ℕ). sub32 (os.uptime v).0 x) (clock.reads w)
            ∙ ap (λ (x : ℕ). sub32 x (now (os.uptime w).1 % u32_mod)) (clock.reads v)
            ∙ since (now (os.uptime w).1) (now (os.uptime v).1) passed,
        a ∙ from_zero _,
        b ∙ from_zero _,
        c ∙ from_zero _,
      )

  no_pause : Pauses goes_on
  no_pause u = (u, refl, (omega arith, omega arith))

  goes : {A B : Type 0} {f : Flow A} {a : A} (k : A → Flow B) → f ≡ goes_on a → then_do f k ≡ k a
  goes k e = ap (λ f. then_do f k) e

  -- What is left of main behind the first phase, the second, and the pause.
  abbrev at_end : Metrics → ℕ → W → Flow (Report × W)
  at_end vars start_time w = goes_on (finish vars start_time w)

  abbrev behind_pause : Metrics → ℕ → W → Flow (Report × W)
  behind_pause vars start_time w = then_do (spawn os goes_on 10 40 w) (at_end vars start_time)

  abbrev behind_trickle : ℕ → Metrics → ℕ → W → Flow (Report × W)
  behind_trickle fuel vars start_time w =
      then_do (spin_delay os fuel 50 w) (behind_pause vars start_time)

  abbrev behind_flood : ℕ → Metrics → ℕ → W → Flow (Report × W)
  behind_flood fuel vars start_time w =
      then_do (spawn os (spin_delay os fuel 5) 15 25 w) (behind_trickle fuel vars start_time)

  -- Main of a process that stays the parent, with fuel for `patience` rounds of a delay a tick, ends:
  -- it calls fork() 50 times, it prints as the turnaround time the low 32 bits of the ticks that it
  -- has taken, and as the totals the low 32 bits of the sums of what its 50 calls of waitx() leave
  -- in the variables. The clock is as for the delays, and no call takes it back.
  pub main_lem :
      (fuel : ℕ) (vars : Metrics) (w : W)
      → patience * 50 ≤ fuel
      → (r : Report × W) × (u : W) × (main os fuel vars w ≡ goes_on r)
        × (forks u ≡ forks w + 50)
        × Printed os now forks vars w u r
  unfolding main finish
  main_lem fuel vars w room =
      let start_time = (os.uptime w).0 in
      let w1 = (os.uptime w).1 in
      let (w2, e2, (f2, t2)) = spawn-Onward goes_on no_pause 25 0 w1 in
      let (w3, e3, (f3, t3)) =
        spawn-Onward (spin_delay os fuel 5)
          (spin_delay-Pauses fuel 5 (omega arith) (omega arith) (omega arith)) 15 25 w2 in
      let (w4, e4, (f4, t4)) = spin_delay-Pauses fuel 50 (omega arith) (omega arith) room w3 in
      let (w5, e5, (f5, t5)) = spawn-Onward goes_on no_pause 10 40 w4 in
      (
        finish vars start_time w5,
        w5,
        goes (behind_flood fuel vars start_time) e2
            ∙ goes (behind_trickle fuel vars start_time) e3
            ∙ goes (behind_pause vars start_time) e4
            ∙ goes (at_end vars start_time) e5,
        omega (arith, stays.uptime_none w, f2, f3, f4, f5),
        finish-Printed vars w w5 (omega (arith, t2, t3, t4, t5)),
      )
