-- ===== src/Process/Kill.antt =====
-- kkill of proc.c. `publish` is what this scheduler does behind the store of RUNNABLE.
use os_project_files.Base.{
  ℕ, ◌+◌, Option, none, some, List, [], ◌∷◌, ◌==◌, if◌then◌else◌, minus_one,
}
use os_project_files.Kernel.{runnable, sleeping, state_eq, Proc, Kernel, at, proc_at}

-- The scan for the first slot with the given pid.
unfoldable pub find_pid : {F : Type 0} → ℕ → List (Proc F) → ℕ → Option ℕ
find_pid pid [] i = none
find_pid pid (p ∷ ps) i = if p.pid == pid then some i else find_pid pid ps (i + 1)

module _ {F Q W : Type 0} (publish : ℕ → Kernel F Q W → Kernel F Q W) where
  -- The stores into the victim at slot i.
  unfoldable pub kill_slot : ℕ → Kernel F Q W → Kernel F Q W
  kill_slot i k = elim (proc_at k i) [
    | none ↦ k
    | some p ↦
        let k1 = at i (λ q. record q { killed = 1 }) k in
        if state_eq p.state sleeping
        then publish i (at i (λ q. record q { state = runnable }) k1)
        else k1
  ]

  -- kkill(pid): 0, or -1 if there is no such process.
  unfoldable pub kkill : ℕ → Kernel F Q W → Kernel F Q W × ℕ
  unfolding kill_slot
  kkill pid k = elim (find_pid pid k.procs 0) [
    | none ↦ (k, minus_one)
    | some i ↦ (kill_slot i k, 0)
  ]
