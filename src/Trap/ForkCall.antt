-- ===== src/Trap/ForkCall.antt =====
-- Fork from the trap to the return: usertrap of trap.c with syscall of syscall.c, sys_fork of
-- sysproc.c and kfork of proc.c.
use mathlib.Core.Option.{some-injective}
use os_project_files.Base.{
  ℕ, ◌≡◌, ◌≢◌, ◌⊎◌, refl, sym, ap, ◌∙◌, inl, inr, some, Bool, List, FirstAt, get_elem?, true, false,
  add64, to_u32, sign_extend, minus_one, minus_one64, get_elem?-modify_self, get_elem?-modify_ne,
}
use os_project_files.Kernel.{runnable, TrapFrame, Chan, Proc, Kernel, Ext, Outcome, at, proc_at}
use os_project_files.Process.Fork.{kfork}
use os_project_files.Process.Forking.{IsForked, kfork_lem, used_ne}
use os_project_files.Process.Slots.{is_unused}
use os_project_files.Syscall.Handlers.{sys_fork}
use os_project_files.Syscall.Table.{Sys, number, set_a0, store_a0, syscall, fork}
use os_project_files.Trap.{Devices, ReturnPath, resumed, prepare_return, usertrap}
use os_project_files.Trap.Ecall.{
  ecall, in_call, enter, enter-at, enter-other, killed-at, syscall-found, ecall-runs,
}

FirstAt-passes :
    {A : Type 0} (test : A → Bool) (l : List A) (i : ℕ) {x : A}
    → FirstAt test l i
    → get_elem? l i ≡ some x
    → test x ≡ true
FirstAt-passes test l i (y, e, t, _) at_i = ap test (some-injective _ _ (sym at_i ∙ e)) ∙ t

module _ {F Q W : Type 0} where
  -- Fork() seen from user space: in l the caller is behind the ecall at sepc with the child's pid as
  -- the result, and slot i, which was UNUSED, holds its RUNNABLE child behind the same ecall, with
  -- the result 0; the rest of the table is that of k.
  pub record ForkedTwice (me sepc i : ℕ) (p : Proc F) (k l : Kernel F Q W) : Type 0 where
    pub old : Proc F
    pub was_free : (proc_at k i ≡ some old) × (is_unused old ≡ true)
    pub parent : Proc F
    pub at_me : proc_at l me ≡ some parent
    pub result : parent.frame.a0 ≡ sign_extend k.nextpid
    pub back : parent.frame.epc ≡ add64 sepc 4
    pub kept : (parent.state ≡ p.state) × (parent.pid ≡ p.pid) × (parent.sz ≡ p.sz)
    pub child : Proc F
    pub at_i : proc_at l i ≡ some child
    pub ready : child.state ≡ runnable
    pub pid : child.pid ≡ k.nextpid
    pub of_me : child.parent ≡ some me
    pub zero : child.frame.a0 ≡ 0
    pub same_back : child.frame.epc ≡ add64 sepc 4
    pub size : child.sz ≡ p.sz
    pub others : (j : ℕ) → me ≢ j → i ≢ j → proc_at l j ≡ proc_at k j

  -- Fork() that fails, seen from user space: the caller is behind the ecall with the result -1, and
  -- no slot in use is another.
  pub record ForkFailed (me sepc : ℕ) (k l : Kernel F Q W) : Type 0 where
    pub parent : Proc F
    pub at_me : proc_at l me ≡ some parent
    pub result : parent.frame.a0 ≡ minus_one64
    pub back : parent.frame.epc ≡ add64 sepc 4
    pub others :
        (j : ℕ) (q : Proc F)
        → me ≢ j
        → proc_at k j ≡ some q
        → is_unused q ≡ false
        → proc_at l j ≡ some q

  module _ (dev : Devices W) (wakeup : Chan → Kernel F Q W → Kernel F Q W)
      (kexit : ℕ → Kernel F Q W → Outcome (Kernel F Q W))
      (yield : ℕ → Kernel F Q W → Outcome (Kernel F Q W)) (env : ReturnPath) (id me : ℕ)
      (handle : Sys → Kernel F Q W → Kernel F Q W × ℕ) (ext : Ext W) (init_sched : ℕ → F → F)
      (inherit : ℕ → F → F → F) (publish : ℕ → Kernel F Q W → Kernel F Q W)
      (keeps : (i : ℕ) (k : Kernel F Q W) → (publish i k).procs ≡ k.procs)
      (handles : (k : Kernel F Q W)
        → handle fork k ≡ sys_fork (kfork ext init_sched inherit publish me) k) where
    -- The kernel to which fork() returns.
    abbrev pub returned_to : ℕ → Kernel F Q W → Kernel F Q W
    returned_to v k = at me (prepare_return env) (set_a0 me v k)

    returned_to-at :
        (v : ℕ) (k : Kernel F Q W) {p : Proc F}
        → proc_at k me ≡ some p
        → proc_at (returned_to v k) me ≡ some (prepare_return env (store_a0 v p))
    returned_to-at v k e =
        get_elem?-modify_self _ me (prepare_return env) (get_elem?-modify_self k.procs me _ e)

    returned_to-other :
        (v j : ℕ) (k : Kernel F Q W) → me ≢ j → proc_at (returned_to v k) j ≡ proc_at k j
    returned_to-other v j k ne =
        get_elem?-modify_ne _ me j (prepare_return env) ne
        ∙ get_elem?-modify_ne k.procs me j (store_a0 v) ne

    forked : Kernel F Q W → Kernel F Q W × ℕ
    forked k = kfork ext init_sched inherit publish me k

    fork-runs :
        (sepc stval : ℕ) (k : Kernel F Q W) {p q : Proc F}
        → proc_at k me ≡ some p
        → p.killed ≡ 0
        → to_u32 p.frame.a7 ≡ number fork
        → proc_at (forked (enter me sepc k)).0 me ≡ some q
        → q.killed ≡ 0
        → usertrap dev wakeup kexit yield (syscall handle me) env id me (ecall sepc stval) k
          ≡ resumed
              (returned_to (sign_extend (forked (enter me sepc k)).1) (forked (enter me sepc k)).0)
    unfolding sys_fork forked
    fork-runs sepc stval k {p} {q} e z n at_q alive =
        ecall-runs dev wakeup kexit yield env id me handle sepc stval k e z
        ∙ rw (
          syscall-found handle me (enter me sepc k) fork (enter-at me sepc k e) n,
          handles (enter me sepc k),
          killed-at me
                (set_a0 me (sign_extend (forked (enter me sepc k)).1) (forked (enter me sepc k)).0)
                (get_elem?-modify_self _ me (store_a0 (sign_extend (forked (enter me sepc k)).1))
                  at_q)
              ∙ alive,
        )

    fails :
        (sepc : ℕ) (p : Proc F) (k m : Kernel F Q W) (v : ℕ)
        → v ≡ minus_one
        → proc_at m me ≡ some (in_call sepc p)
        → ((j : ℕ) (q : Proc F)
            → proc_at (enter me sepc k) j ≡ some q
            → is_unused q ≡ false
            → proc_at m j ≡ some q)
        → ForkFailed me sepc k (returned_to (sign_extend v) m)
    unfolding prepare_return
    fails sepc p k m v failed at_me same = record {
      parent = prepare_return env (store_a0 (sign_extend v) (in_call sepc p));
      at_me = returned_to-at (sign_extend v) m at_me;
      result = ap sign_extend failed;
      back = refl;
      others = λ j q ne at_j used.
          returned_to-other (sign_extend v) j m ne
          ∙ same j q (enter-other me j sepc k ne ∙ at_j) used;
    }

    twice :
        (sepc i v : ℕ) (k m : Kernel F Q W) {p old c : Proc F} {fields : F} {now : ℕ}
        → me ≢ i
        → proc_at k i ≡ some old
        → is_unused old ≡ true
        → v ≡ k.nextpid
        → proc_at m me ≡ some (in_call sepc p)
        → proc_at m i ≡ some c
        → IsForked me k.nextpid now fields (in_call sepc p) c
        → ((j : ℕ) → i ≢ j → proc_at m j ≡ proc_at (enter me sepc k) j)
        → ForkedTwice me sepc i p k (returned_to (sign_extend v) m)
    unfolding prepare_return
    twice sepc i v k m {p} {old} {c} ne free unused pid at_me at_i child others = record {
      old = old;
      was_free = (free, unused);
      parent = prepare_return env (store_a0 (sign_extend v) (in_call sepc p));
      at_me = returned_to-at (sign_extend v) m at_me;
      result = ap sign_extend pid;
      back = refl;
      kept = (refl, refl, refl);
      child = c;
      at_i = returned_to-other (sign_extend v) i m ne ∙ at_i;
      ready = child.state;
      pid = child.pid;
      of_me = child.parent;
      zero = ap (λ (f : TrapFrame). f.a0) child.frame;
      same_back = ap (λ (f : TrapFrame). f.epc) child.frame;
      size = child.sz;
      others = λ j nm ni.
          returned_to-other (sign_extend v) j m nm ∙ others j ni ∙ enter-other me j sepc k nm;
    }

    -- An ecall with the number of fork in a7, by a process that is in use and was not killed, under
    -- a table of system calls that has sys_fork and kfork there, returns to user space behind the
    -- ecall: either with -1, and no other slot in use has changed; or with the old nextpid, which is
    -- the pid of a RUNNABLE child in a slot that was UNUSED, the child is to return 0 at the same
    -- place, and the rest of the table is as it was. What follows the store of RUNNABLE leaves the
    -- table alone.
    pub usertrap-fork :
        (sepc stval : ℕ) (k : Kernel F Q W) {p : Proc F}
        → proc_at k me ≡ some p
        → is_unused p ≡ false
        → p.killed ≡ 0
        → to_u32 p.frame.a7 ≡ number fork
        → (l : Kernel F Q W) × (usertrap dev wakeup kexit yield
              (syscall handle me)
              env
              id
              me
              (ecall sepc stval)
              k
            ≡ resumed l)
          × (ForkFailed me sepc k l ⊎ ((i : ℕ) × ForkedTwice me sepc i p k l))
    unfolding forked
    usertrap-fork sepc stval k {p} e used z n =
        elim (kfork_lem ext init_sched inherit publish keeps me (enter me sepc k)
          (enter-at me sepc k e)) [
            | inl (failed, same) ↦
                let at_me = same me (in_call sepc p) (enter-at me sepc k e) used in
                (
                  _,
                  fork-runs sepc stval k e z n at_me z,
                  inl (fails sepc p k _ _ failed at_me same),
                )
            | inr (i, old, c, first, free, at_i, child, pid, others) ↦
                let ne =
                  used_ne ext init_sched inherit publish keeps (enter me sepc k) i me _ first
                    (enter-at me sepc k e) used in
                let nm = λ (q : me ≡ i). ne (sym q) in
                let at_me = others me ne ∙ enter-at me sepc k e in
                let was_free = FirstAt-passes is_unused (enter me sepc k).procs i first free in
                (
                  _,
                  fork-runs sepc stval k e z n at_me z,
                  inr (
                    i,
                    twice sepc i _ k _ nm (sym (enter-other me i sepc k nm) ∙ free) was_free pid
                        at_me at_i child others,
                  ),
                )
          ]
