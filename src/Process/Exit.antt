-- ===== src/Process/Exit.antt =====
-- reparent and kexit of proc.c, over the scheduler's own wakeup(chan).
use os_project_files.Base.{ℕ, Option, none, some, List, [], ◌∷◌, ◌==◌, map, if◌then◌else◌}
use os_project_files.Kernel.{
  zombie, Chan, null, proc_addr, ptr_eq, Kernel, Ext, Outcome, panic, at, proc_at, set_world,
}
use os_project_files.Process.Loop.{for_each}
use os_project_files.Process.Sleep.{SwitchEnv, sched}

-- A process as a sleep channel.
abbrev pub chan_of : Option ℕ → Chan
chan_of none = null
chan_of (some i) = proc_addr i

-- p->parent of proc[i].
abbrev pub parent_of : {F Q W : Type 0} → Kernel F Q W → ℕ → Option ℕ
parent_of k i = elim (proc_at k i) [ none ↦ none | some p ↦ p.parent ]

-- Closing of the open files: ofile holds 0 for a descriptor that is not in use.
unfoldable pub close_files : {W : Type 0} → Ext W → List ℕ → W → W
close_files ext [] w = w
close_files ext (f ∷ fs) w = close_files ext fs (if f == 0 then w else ext.fileclose f w)

module _ {F Q W : Type 0} (wakeup : Chan → Kernel F Q W → Kernel F Q W) where
  -- The body of reparent's loop, for proc[i].
  unfoldable pub adopt : ℕ → ℕ → Kernel F Q W → Kernel F Q W
  adopt me i k = elim (proc_at k i) [
    | none ↦ k
    | some pp ↦
        if ptr_eq pp.parent (some me)
        then wakeup (chan_of k.initproc) (at i (λ q. record q { parent = k.initproc }) k)
        else k
  ]

  -- reparent(&proc[me])
  unfoldable pub reparent : ℕ → Kernel F Q W → Kernel F Q W
  unfolding for_each adopt
  reparent me k = for_each (adopt me) k

  -- kexit(status) of the process `me`, to the switch in sched().
  unfoldable pub kexit : Ext W → SwitchEnv → ℕ → ℕ → Kernel F Q W → Outcome (Kernel F Q W)
  kexit ext env me status k = elim (proc_at k me) [
    | none ↦ panic
    | some p ↦
        let k1 = at me (λ q. record q { etime = k.ticks }) k in
        if ptr_eq (some me) k1.initproc
        then panic
        else let w1 = close_files ext p.ofile k1.world in
          let w2 = ext.end_op (ext.iput p.cwd (ext.begin_op w1)) in
          let k2 =
            at me (λ q. record q { ofile = map (λ _. 0) q.ofile; cwd = 0 }) (set_world k1 w2) in
          let k3 = reparent me k2 in
          let k4 = wakeup (chan_of (parent_of k3 me)) k3 in
          sched env me (at me (λ q. record q { xstate = status; state = zombie }) k4)
  ]
