-- ===== src/System/Policy.antt =====
-- What the machine asks of a scheduler, and what the three schedulers keep: their stores into the
-- table change no pid, take one RUNNABLE process to RUNNING when it is dispatched, and otherwise only
-- wake what sleeps or make ready what yields.
use os_project_files.Base.{ℕ, ◌≡◌, ◌≢◌, refl, sym, subst, ◌∙◌, none, some, false}
use os_project_files.Kernel.{
  ProcState, runnable, running, sleeping, zombie, state_eq, Chan, Kernel, myproc,
}
use os_project_files.System.Views.{mark, moved, Still}
use os_project_files.System.Wakes.{Woken, Wakes}

-- The states in which a process gives up its CPU.
pub data Rests : ProcState → Type 0 where
  to_ready : Rests runnable
  to_sleep : Rests sleeping
  to_death : Rests zombie

pub Rests-still : {s : ProcState} → Rests s → state_eq s running ≡ false
Rests-still to_ready = refl
Rests-still to_sleep = refl
Rests-still to_death = refl

module _ {F Q W : Type 0} where
  -- The CPU `id` was idle and takes the process in slot i, which was RUNNABLE.
  pub record Starts (id i : ℕ) (k l : Kernel F Q W) : Type 0 where
    pub idle : myproc id k ≡ none
    pub pid : ℕ
    pub waits : mark k i ≡ some (runnable, pid)
    pub runs : mark l i ≡ some (running, pid)
    pub others : (j : ℕ) → i ≢ j → mark l j ≡ mark k j
    pub taken : myproc id l ≡ some i
    pub elsewhere : (a : ℕ) → id ≢ a → myproc a l ≡ myproc a k
    pub next : l.nextpid ≡ k.nextpid

  -- The CPU `id` gives up the process in slot i, which goes to a state in which it waits; others may
  -- be woken.
  pub record Stops (id i : ℕ) (k l : Kernel F Q W) : Type 0 where
    pub held : myproc id k ≡ some i
    pub to : ProcState
    pub rests : Rests to
    pub stopped : mark l i ≡ moved to (mark k i)
    pub others : (j : ℕ) → i ≢ j → Woken (mark k j) (mark l j)
    pub idle : myproc id l ≡ none
    pub elsewhere : (a : ℕ) → id ≢ a → myproc a l ≡ myproc a k
    pub next : l.nextpid ≡ k.nextpid

  -- Slot i is taken to the state s; others may be woken.
  pub record Settles (i : ℕ) (s : ProcState) (k l : Kernel F Q W) : Type 0 where
    pub settled : mark l i ≡ moved s (mark k i)
    pub others : (j : ℕ) → i ≢ j → Woken (mark k j) (mark l j)
    pub cpus : (id : ℕ) → myproc id l ≡ myproc id k
    pub next : l.nextpid ≡ k.nextpid

  -- The CPU `id` is left without a process.
  pub record Leaves (id : ℕ) (k l : Kernel F Q W) : Type 0 where
    pub marks : (j : ℕ) → mark l j ≡ mark k j
    pub idle : myproc id l ≡ none
    pub elsewhere : (a : ℕ) → id ≢ a → myproc a l ≡ myproc a k
    pub next : l.nextpid ≡ k.nextpid

-- A scheduler. `Prepares id k l`: scheduler() on the CPU `id` takes k to l and runs nothing.
-- `Chooses id k i l`: on the idle CPU `id` it takes k to l and runs slot i. `start` is what userinit
-- stores into the scheduling fields, `ready id i` what yield() stores, `leave id i` what scheduler()
-- does behind the switch.
pub record Policy (F Q W : Type 0) : Type 1 where
  pub init_sched : ℕ → F → F
  pub start : ℕ → F → F
  pub inherit : ℕ → F → F → F
  pub publish : ℕ → ℕ → Kernel F Q W → Kernel F Q W
  pub wakeup : ℕ → Chan → Kernel F Q W → Kernel F Q W
  pub ready : ℕ → ℕ → Kernel F Q W → Kernel F Q W
  pub leave : ℕ → ℕ → Kernel F Q W → Kernel F Q W
  pub Prepares : ℕ → Kernel F Q W → Kernel F Q W → Type 0
  pub Chooses : ℕ → Kernel F Q W → ℕ → Kernel F Q W → Type 0
  pub publish-procs : (id i : ℕ) (k : Kernel F Q W) → (publish id i k).procs ≡ k.procs
  pub publish-Still : (id i : ℕ) (k : Kernel F Q W) → Still k (publish id i k)
  pub wakeup-Wakes : (id : ℕ) (chan : Chan) (k : Kernel F Q W) → Wakes k (wakeup id chan k)
  pub ready-Settles : (id i : ℕ) (k : Kernel F Q W) → Settles i runnable k (ready id i k)
  pub leave-Leaves : (id i : ℕ) (k : Kernel F Q W) → Leaves id k (leave id i k)
  pub Prepares-Still : (id : ℕ) (k l : Kernel F Q W) → Prepares id k l → Still k l
  pub Chooses-Starts : (id i : ℕ) (k l : Kernel F Q W) → Chooses id k i l → Starts id i k l

module _ {F Q W : Type 0} where
  pub Settles-Still :
      {i : ℕ} {s : ProcState} {k l m : Kernel F Q W} → Settles i s k l → Still l m → Settles i s k m
  Settles-Still {i} {s} {k} {l} {m} r q = record {
    settled = q.marks i ∙ r.settled;
    others = λ j ne. subst (Woken (mark k j)) (sym (q.marks j)) (r.others j ne);
    cpus = λ id. q.cpus id ∙ r.cpus id;
    next = q.next ∙ r.next;
  }

  pub Leaves-Still : {id : ℕ} {k l m : Kernel F Q W} → Leaves id k l → Still l m → Leaves id k m
  Leaves-Still {id} v q = record {
    marks = λ j. q.marks j ∙ v.marks j;
    idle = q.cpus id ∙ v.idle;
    elsewhere = λ a ne. q.cpus a ∙ v.elsewhere a ne;
    next = q.next ∙ v.next;
  }

  pub Still-Starts :
      {id i : ℕ} {k l m : Kernel F Q W} → Still k l → Starts id i l m → Starts id i k m
  Still-Starts {id} {i} q s = record {
    idle = sym (q.cpus id) ∙ s.idle;
    pid = s.pid;
    waits = sym (q.marks i) ∙ s.waits;
    runs = s.runs;
    others = λ j ne. s.others j ne ∙ q.marks j;
    taken = s.taken;
    elsewhere = λ a ne. s.elsewhere a ne ∙ q.cpus a;
    next = s.next ∙ q.next;
  }
