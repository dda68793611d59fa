-- ===== src/Process/Dump.antt =====
-- procdump of proc.c: the lines that it prints behind the first, which is empty. A state is one of
-- the six of the enum, so that "???" is never printed.
use Prim.Native.String.{String}
use os_project_files.Base.{ℕ, List, [], ◌∷◌, if◌then◌else◌}
use os_project_files.Kernel.{
  ProcState, unused, used, sleeping, runnable, running, zombie, state_eq, Proc, Kernel,
}

-- The table `states`.
unfoldable pub state_name : ProcState → String
state_name unused = "unused"
state_name used = "used"
state_name sleeping = "sleep "
state_name runnable = "runble"
state_name running = "run   "
state_name zombie = "zombie"

-- The arguments of printf("%d %s %s").
pub record Line : Type 0 where
  pub pid : ℕ
  pub state : String
  pub name : List ℕ

unfoldable pub dump_from : {F : Type 0} → List (Proc F) → List Line
unfolding state_name
dump_from [] = []
dump_from (p ∷ ps) =
    let rest = dump_from ps in
    let line : Line = record { pid = p.pid; state = state_name p.state; name = p.name } in
    if state_eq p.state unused then rest else line ∷ rest

unfoldable pub procdump : {F Q W : Type 0} → Kernel F Q W → List Line
unfolding dump_from
procdump k = dump_from k.procs
