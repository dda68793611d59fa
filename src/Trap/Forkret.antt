-- ===== src/Trap/Forkret.antt =====
-- forkret of proc.c: where a process starts that has never run. fsinit(ROOTDEV) and kexec("/init")
-- are arguments, the static variable `first` is an argument and a result.
use os_project_files.Base.{ℕ, Bool, false, ◌==◌, if◌then◌else◌, sign_extend, minus_one64}
use os_project_files.Kernel.{Proc, Kernel, Outcome, done, panic, at, set_world}
use os_project_files.Trap.{ReturnPath, prepare_return}

unfoldable pub store_argc : {F : Type 0} → ℕ → Proc F → Proc F
store_argc argc p = record p { frame = record f { a0 = argc } }
  where
    open p use {frame as f}

module _ {F Q W : Type 0} (fsinit : W → W) (kexec : ℕ → Kernel F Q W → Kernel F Q W × ℕ) where
  -- The first process: the file system is initialised and /init takes the process's place.
  unfoldable pub start_init : ℕ → Kernel F Q W → Outcome (Kernel F Q W)
  unfolding store_argc
  start_init me k =
      let (k1, argc) = kexec me (set_world k (fsinit k.world)) in
      let a0 = sign_extend argc in
      if a0 == minus_one64 then panic else done (at me (store_argc a0) k1)

  -- forkret() of the process `me`, to the jump to user space.
  unfoldable pub forkret : ReturnPath → Bool → ℕ → Kernel F Q W → Outcome (Kernel F Q W × Bool)
  unfolding prepare_return start_init
  forkret env first me k = elim (if first then start_init me k else done k) [
    | panic ↦ panic
    | done k1 ↦ done (at me (prepare_return env) k1, false)
  ]
