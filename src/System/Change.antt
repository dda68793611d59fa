-- ===== src/System/Change.antt =====
-- A step of the machine changes the marks in one of five ways.
use os_project_files.Base.{ℕ, ◌≡◌, ◌∙◌, refl, ap, inl, inr, some, Bool-cases, ◌==◌}
use os_project_files.Kernel.{ProcState, used, runnable, ticks_addr, Kernel, Ext, myproc}
use os_project_files.System.Boot.{userinit-Allots}
use os_project_files.System.Calls.{
  charge-Still, wake_from_sleep-Still, setkilled-Still, growproc-Still, kwait_pass-Calls,
  waitx_pass-Calls, kkill-Wakes,
}
use os_project_files.System.Effects.{Lot, born, Allots, Calls, Settles-Stops}
use os_project_files.System.Exits.{sleep-Stops, kexit-Stops}
use os_project_files.System.Forks.{kfork_begin-Calls, fork_adopt-Still, fork_start-Settles}
use os_project_files.System.Policy.{Policy, Settles, Starts, Stops, to_ready}
use os_project_files.System.Step.{
  Step, boots, prepares, dispatches, yields, sleeps, exits, resumes, wakes, forks, adopts,
  starts_child, waits, waitxs, kills, sets_killed, grows, charges, interrupts, stores, acts,
}
use os_project_files.System.Views.{mark, mark-some, Still, Still-refl, at-Still, set_world-Still}
use os_project_files.System.Wakes.{Wakes, Still-Wakes, Wakes-trans}
use os_project_files.Trap.{clockintr}

module _ {F Q W : Type 0} where
  pub data Change (k l : Kernel F Q W) : Type 0 where
    wakes_some : Wakes k l → Change k l
    starts : (id i : ℕ) → Starts id i k l → Change k l
    stops : (id i : ℕ) → Stops id i k l → Change k l
    begins : (i : ℕ) {pid : ℕ} → mark k i ≡ some (used, pid) → Settles i runnable k l → Change k l
    allots : (i : ℕ) {s t : ProcState} → Lot s t → Allots i s t k l → Change k l

  called : {k l : Kernel F Q W} → Calls k l → Change k l
  called (inl q) = wakes_some (Still-Wakes q)
  called (inr (i, s, t, lot, a)) = allots i lot a

  ticks-Still : (now : ℕ) (k : Kernel F Q W) → Still k (record k { ticks = now })
  unfolding myproc
  ticks-Still now k = record { marks = λ j. refl; cpus = λ id. refl; next = refl }

  module _ (P : Policy F Q W) (ext : Ext W) where
    clockintr-Wakes : (id : ℕ) (k : Kernel F Q W) → Wakes k (clockintr (P.wakeup id) id k)
    unfolding clockintr
    clockintr-Wakes id k = elim (Bool-cases (id == 0)) [
      | inl e ↦ rw e (Wakes-trans (Still-Wakes (ticks-Still _ k)) (P.wakeup-Wakes id ticks_addr _))
      | inr e ↦ rw e (Still-Wakes (Still-refl k))
    ]

    pub Step-Change : {k l : Kernel F Q W} → Step P ext k l → Change k l
    Step-Change {k} {l} (boots id h) =
        let (i, a) =
          userinit-Allots ext P.init_sched P.start (P.publish id) (P.publish-Still id) k l h in
        allots i born a
    Step-Change {k} {l} (prepares id h) = wakes_some (Still-Wakes (P.Prepares-Still id k l h))
    Step-Change {k} {l} (dispatches id i h) = starts id i (P.Chooses-Starts id i k l h)
    Step-Change {k} (yields id me held h) =
        stops id me
          (Settles-Stops to_ready held (P.ready-Settles id me k) h (P.leave-Leaves id me _))
    Step-Change {k} (sleeps id me chan held h) =
        stops id me (sleep-Stops chan held h (P.leave-Leaves id me _))
    Step-Change {k} (exits id me status held h) =
        stops id me
          (kexit-Stops (P.wakeup id) (P.wakeup-Wakes id) ext status held h (P.leave-Leaves id me _))
    Step-Change {k} (resumes id me held) = wakes_some (Still-Wakes (wake_from_sleep-Still me k))
    Step-Change {k} (wakes id chan) = wakes_some (P.wakeup-Wakes id chan k)
    Step-Change {k} (forks id me held) = called (kfork_begin-Calls ext P.init_sched P.inherit me k)
    Step-Change {k} (adopts id me i held at_i is) =
        wakes_some (Still-Wakes (fork_adopt-Still me i k))
    Step-Change {k} (starts_child id me i {c} held at_i is mine) =
        begins i (mark-some k i at_i ∙ ap (λ (s : ProcState). some (s, c.pid)) is)
          (fork_start-Settles (P.publish id) (P.publish-Still id) i k)
    Step-Change {k} (waits id me addr held) = called (kwait_pass-Calls ext me addr k)
    Step-Change {k} (waitxs id me a b c held) = called (waitx_pass-Calls ext me a b c k)
    Step-Change {k} (kills id pid) =
        wakes_some (kkill-Wakes (P.publish id) (P.publish-Still id) pid k)
    Step-Change {k} (sets_killed i) = wakes_some (Still-Wakes (setkilled-Still i k))
    Step-Change {k} (grows id me n held) = wakes_some (Still-Wakes (growproc-Still ext me n k))
    Step-Change {k} (charges id) = wakes_some (Still-Wakes (charge-Still (myproc id k) k))
    Step-Change {k} (interrupts id) = wakes_some (clockintr-Wakes id k)
    Step-Change {k} (stores id me f held) =
        wakes_some (Still-Wakes (at-Still me (λ p. record p { frame = f p.frame }) k (λ p e. refl)))
    Step-Change {k} (acts w) = wakes_some (Still-Wakes (set_world-Still k w))
