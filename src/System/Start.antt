-- ===== src/System/Start.antt =====
-- The machine from procinit() on: main() calls it on a zeroed table, on CPUs that run no process.
use os_project_files.Base.{
  ℕ, zero, suc, ◌+◌, ◌<◌, ◌^◌, ◌≡◌, refl, ap, ◌∙◌, Option, none, some, List, [], ◌∷◌, false,
  get_elem?, arith,
}
use os_project_files.Kernel.{unused, Proc, Kernel, Ext, myproc}
use os_project_files.Process.Boot.{init_from, init_slot, procinit}
use os_project_files.System.Exclusion.{Exclusive, Reach-Exclusive}
use os_project_files.System.Pids.{pid_at, Distinct, Reach-Distinct}
use os_project_files.System.Policy.{Policy}
use os_project_files.System.Step.{Reach}
use os_project_files.System.Views.{
  Mark, mark, mark_of, runs, pid_of, moved, pid_of-moved, runs-moved,
}

module _ {F : Type 0} where
  abbrev mark_in : List (Proc F) → ℕ → Option Mark
  mark_in ps j = elim (get_elem? ps j) [ none ↦ none | some p ↦ some (mark_of p) ]

  init_from-marks :
      (kstack : ℕ → ℕ) (i : ℕ) (ps : List (Proc F)) (j : ℕ)
      → mark_in (init_from kstack i ps) j ≡ moved unused (mark_in ps j)
  unfolding init_from init_slot
  init_from-marks kstack i [] j = refl
  init_from-marks kstack i (p ∷ ps) zero = refl
  init_from-marks kstack i (p ∷ ps) (suc j) = init_from-marks kstack (i + 1) ps j

module _ {F Q W : Type 0} where
  -- The globals before procinit(): no pid in the table, 1 as the next one, and no process running.
  pub record IsZeroed (k : Kernel F Q W) : Type 0 where
    pub pids : (j : ℕ) → pid_at k j ≡ 0
    pub idle : (id : ℕ) → myproc id k ≡ none
    pub next : k.nextpid ≡ 1

  module _ (kstack : ℕ → ℕ) (k : Kernel F Q W) (z : IsZeroed k) where
    procinit-mark : (j : ℕ) → mark (procinit kstack k) j ≡ moved unused (mark k j)
    unfolding procinit
    procinit-mark j = init_from-marks kstack 0 k.procs j

    procinit-still : (j : ℕ) → runs (mark (procinit kstack k) j) ≡ false
    procinit-still j = ap runs (procinit-mark j) ∙ runs-moved unused (mark k j) refl

    procinit-pid_at : (j : ℕ) → pid_at (procinit kstack k) j ≡ 0
    procinit-pid_at j = ap pid_of (procinit-mark j) ∙ pid_of-moved unused (mark k j) ∙ z.pids j

    procinit-myproc : (id : ℕ) → myproc id (procinit kstack k) ≡ none
    unfolding procinit myproc
    procinit-myproc id = z.idle id

    procinit-next : (procinit kstack k).nextpid ≡ 1
    unfolding procinit
    procinit-next = z.next

    procinit-Exclusive : Exclusive (procinit kstack k)
    procinit-Exclusive = record {
      held = λ id i e. absurd (cc (e, procinit-myproc id));
      unique = λ a b i e f. absurd (cc (e, procinit-myproc a));
      covered = λ i e. absurd (cc (e, procinit-still i));
    }

    procinit-Distinct : Distinct (procinit kstack k)
    procinit-Distinct = record {
      below = λ j. omega (arith, procinit-pid_at j, procinit-next);
      apart = λ i j ne e. procinit-pid_at i;
    }

  module _ (P : Policy F Q W) (ext : Ext W) where
    -- From procinit() on globals that hold no pid, 1 as the next pid and no process on a CPU, every
    -- run of fewer than 2^31 - 1 steps, under any scheduler that meets the interface Policy, leads to
    -- a kernel in which the RUNNING processes are those that the CPUs run, each on one CPU, every
    -- pid is below nextpid, and no two slots have the same pid, 0 apart.
    pub procinit-Reach :
        (kstack : ℕ → ℕ) (k : Kernel F Q W) {n : ℕ} {l : Kernel F Q W}
        → IsZeroed k
        → n + 1 < 2 ^ 31
        → Reach P ext (procinit kstack k) n l
        → Exclusive l × Distinct l
    procinit-Reach kstack k z small r = (
      Reach-Exclusive P ext (procinit-Exclusive kstack k z) r,
      Reach-Distinct P ext (procinit-Distinct kstack k z) (omega (arith, procinit-next kstack k z))
          r,
    )
