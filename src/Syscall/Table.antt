-- ===== src/Syscall/Table.antt =====
-- syscall.c and syscall.h: the table of system calls, and syscall().
use os_project_files.Base.{
  ℕ, Option, none, some, List, [], ◌∷◌, not, ◌&&◌, ltb, ◌==◌, length, get_elem?, to_u32,
  if◌then◌else◌, is_negative, minus_one64,
}
use os_project_files.Kernel.{Kernel, Proc, at, proc_at}

-- The functions sys_fork to sys_waitx.
pub data Sys : Type 0 where
  fork exit wait pipe read kill exec fstat chdir dup getpid : Sys
  sbrk pause uptime open_file write mknod unlink link mkdir close waitx : Sys

-- syscalls[], with its empty first entry.
unfoldable pub syscalls : List (Option Sys)
syscalls =
    none
    ∷ some fork
    ∷ some exit
    ∷ some wait
    ∷ some pipe
    ∷ some read
    ∷ some kill
    ∷ some exec
    ∷ some fstat
    ∷ some chdir
    ∷ some dup
    ∷ some getpid
    ∷ some sbrk
    ∷ some pause
    ∷ some uptime
    ∷ some open_file
    ∷ some write
    ∷ some mknod
    ∷ some unlink
    ∷ some link
    ∷ some mkdir
    ∷ some close
    ∷ some waitx
    ∷ []

-- The SYS_ numbers of syscall.h.
unfoldable pub number : Sys → ℕ
number fork = 1
number exit = 2
number wait = 3
number pipe = 4
number read = 5
number kill = 6
number exec = 7
number fstat = 8
number chdir = 9
number dup = 10
number getpid = 11
number sbrk = 12
number pause = 13
number uptime = 14
number open_file = 15
number write = 16
number mknod = 17
number unlink = 18
number link = 19
number mkdir = 20
number close = 21
number waitx = 22

-- The handler that syscall() finds for the value of a7.
unfoldable pub find_handler : ℕ → Option Sys
unfolding syscalls
find_handler a7 =
    let num = to_u32 a7 in
    if (not (is_negative num) && not (num == 0)) && ltb num (length syscalls)
    then (elim (get_elem? syscalls num) [ none ↦ none | some h ↦ h ])
    else none

abbrev pub store_a0 : {F : Type 0} → ℕ → Proc F → Proc F
store_a0 v p = record p { frame = record f { a0 = v } }
  where
    open p use {frame as f}

module _ {F Q W : Type 0} where
  -- p->trapframe->a0 = v
  abbrev pub set_a0 : ℕ → ℕ → Kernel F Q W → Kernel F Q W
  set_a0 me v k = at me (λ p. store_a0 v p) k

module _ {F Q W : Type 0} (handle : Sys → Kernel F Q W → Kernel F Q W × ℕ) where
  -- syscall() of the process `me`, for the calls that return.
  unfoldable pub syscall : ℕ → Kernel F Q W → Kernel F Q W
  syscall me k = elim (proc_at k me) [
    | none ↦ k
    | some p ↦ elim (find_handler p.frame.a7) [
      | none ↦ set_a0 me minus_one64 k
      | some s ↦ let (k1, v) = handle s k in set_a0 me v k1
    ]
  ]
