-- ===== src/Workload/Phases.antt =====
-- test_workload.c: spin_delay and main. The system calls that they make are a record; W is the state
-- behind them. The loop of spin_delay has fuel.
use os_project_files.Base.{
  ℕ, zero, suc, ◌+◌, ◌%◌, none, some, true, false, ◌==◌, ltb_int, add32, sub32, if◌then◌else◌,
}
use os_project_files.Workload.{do_work}

-- The variables that waitx() stores into.
pub record Metrics : Type 0 where
  pub wtime : ℕ
  pub rtime : ℕ
  pub nswtch : ℕ

-- Uptime(); fork(), which is 0 in the child; and waitx() on the three variables, which leaves them as
-- it pleases and whose result main does not look at.
pub record Os (W : Type 0) : Type 0 where
  pub uptime : W → ℕ × W
  pub fork : W → ℕ × W
  pub waitx : Metrics → W → Metrics × W

-- What main prints at its end.
pub record Report : Type 0 where
  pub total_ticks : ℕ
  pub total_wtime : ℕ
  pub total_rtime : ℕ
  pub total_nswtch : ℕ

-- Where the process is: after a phase, in exit(0) behind do_work with the value of primes, or still
-- in a loop when the fuel is used up.
pub data Flow (A : Type 0) : Type 0 where
  goes_on : A → Flow A
  exited : ℕ → Flow A
  looping : Flow A

abbrev pub then_do : {A B : Type 0} → Flow A → (A → Flow B) → Flow B
then_do (goes_on a) f = f a
then_do (exited primes) f = exited primes
then_do looping f = looping

module _ {W : Type 0} (os : Os W) where
  -- The loop of spin_delay(), with the rounds left.
  unfoldable pub spin : ℕ → ℕ → ℕ → W → Flow W
  spin zero start delay_ticks w = looping
  spin (suc rounds) start delay_ticks w =
      let (now, w1) = os.uptime w in
      elim (ltb_int (sub32 now start) delay_ticks) [
        | false ↦ goes_on w1
        | true ↦ spin rounds start delay_ticks w1
      ]

  -- The loop over waitx(), for the rounds that are left, with the totals so far.
  unfoldable pub gather : ℕ → Metrics → Metrics → W → Metrics × W
  gather zero vars total w = (total, w)
  gather (suc rounds) vars total w =
      let (vars1, w1) = os.waitx vars w in
      gather rounds vars1
        (record {
          wtime = add32 total.wtime vars1.wtime;
          rtime = add32 total.rtime vars1.rtime;
          nswtch = add32 total.nswtch vars1.nswtch;
        })
        w1

unfoldable pub is_monster_at : ℕ → ℕ
is_monster_at i = if i % 5 == 0 then 1 else 0

-- The child of the fork with the number i, to its exit(0).
unfoldable pub in_child : {A : Type 0} → ℕ → Flow A
unfolding is_monster_at
in_child i = elim (do_work (is_monster_at i)) [ none ↦ looping | some primes ↦ exited primes ]

module _ {W : Type 0} (os : Os W) where
  -- A phase of main, from i on for the rounds that are left; `pause` is what follows each fork.
  unfoldable pub spawn : (W → Flow W) → ℕ → ℕ → W → Flow W
  unfolding in_child
  spawn pause zero i w = goes_on w
  spawn pause (suc rounds) i w =
      let (pid, w1) = os.fork w in
      elim (pid == 0) [
        | true ↦ in_child i
        | false ↦ then_do (pause w1) λ w2. spawn pause rounds (i + 1) w2
      ]

module _ {W : Type 0} (os : Os W) (fuel : ℕ) where
  unfoldable pub spin_delay : ℕ → W → Flow W
  unfolding spin
  spin_delay delay_ticks w = let (start, w1) = os.uptime w in spin os fuel start delay_ticks w1

  -- Main(), from the values that its variables happen to have.
  unfoldable pub main : Metrics → W → Flow (Report × W)
  unfolding spin_delay spawn gather
  main vars w =
      let (start_time, w1) = os.uptime w in
      then_do (spawn os goes_on 25 0 w1) λ w2. then_do (spawn os (spin_delay 5) 15 25 w2) λ w3.
        then_do (spin_delay 50 w3) λ w4. then_do (spawn os goes_on 10 40 w4) λ w5.
          let (total, w6) = gather os 50 vars (record { wtime = 0; rtime = 0; nswtch = 0 }) w5 in
          let (end_time, w7) = os.uptime w6 in
          goes_on (
            record {
              total_ticks = sub32 end_time start_time;
              total_wtime = total.wtime;
              total_rtime = total.rtime;
              total_nswtch = total.nswtch;
            },
            w7,
          )
