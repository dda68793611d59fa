-- ===== src/Trap/Ecall.antt =====
-- A system call from the trap to the return: usertrap of trap.c with syscall of syscall.c.
use os_project_files.Base.{
  ℕ, ◌+◌, ◌≡◌, ◌≢◌, ◌⊎◌, refl, sym, ap, subst, ◌∙◌, add64, inl, inr, Option-cases, some, Bool-cases,
  not, ◌==◌, true, false, to_u32, minus_one, minus_one64, get_elem?-modify_self,
  get_elem?-modify_ne, if◌then◌else◌, arith,
}
use os_project_files.Kernel.{Chan, Proc, Kernel, Outcome, at, proc_at}
use os_project_files.Process.Sleep.{killed}
use os_project_files.Syscall.Dispatch.{find_handler_iff}
use os_project_files.Syscall.Table.{Sys, number, find_handler, set_a0, store_a0, syscall}
use os_project_files.Trap.{
  Devices, Csrs, ReturnPath, Trapped, resumed, switch, set_epc, skip_ecall, prepare_return,
  finish_trap, usertrap,
}

-- The registers of an `ecall` at the address sepc.
abbrev pub ecall : ℕ → ℕ → Csrs
ecall sepc stval = record { scause = 8; sepc = sepc; stval = stval; from_supervisor = false }

zero_of : (n : ℕ) → (n == 0) ≡ true → n ≡ 0
zero_of n t = ground arith

ne_of : (n : ℕ) → (n == 0) ≡ false → n ≢ 0
ne_of n t = ground arith

-- The process as the handler sees it.
abbrev pub in_call : {F : Type 0} → ℕ → Proc F → Proc F
in_call sepc p = skip_ecall (set_epc sepc p)

module _ {F Q W : Type 0} where
  abbrev pub enter : ℕ → ℕ → Kernel F Q W → Kernel F Q W
  enter me sepc k = at me skip_ecall (at me (set_epc sepc) k)

  pub enter-at :
      (me sepc : ℕ) (k : Kernel F Q W) {p : Proc F}
      → proc_at k me ≡ some p
      → proc_at (enter me sepc k) me ≡ some (in_call sepc p)
  enter-at me sepc k e =
      get_elem?-modify_self _ me skip_ecall (get_elem?-modify_self k.procs me (set_epc sepc) e)

  pub enter-other :
      (me j sepc : ℕ) (k : Kernel F Q W) → me ≢ j → proc_at (enter me sepc k) j ≡ proc_at k j
  enter-other me j sepc k ne =
      get_elem?-modify_ne _ me j skip_ecall ne ∙ get_elem?-modify_ne k.procs me j (set_epc sepc) ne

  pub killed-at :
      (me : ℕ) (k : Kernel F Q W) {p : Proc F} → proc_at k me ≡ some p → killed k me ≡ p.killed
  unfolding killed
  killed-at me k e = rw (e, killed)

  -- The kernels k and l differ at most in the slot.
  pub record Only (me : ℕ) (k l : Kernel F Q W) : Type 0 where
    pub others : (j : ℕ) → me ≢ j → proc_at l j ≡ proc_at k j
    pub rest : l ≡ record k { procs = l.procs }

  at-Only : (me : ℕ) (f : Proc F → Proc F) (k : Kernel F Q W) → Only me k (at me f k)
  at-Only me f k = record { others = λ j ne. get_elem?-modify_ne k.procs me j f ne; rest = refl }

  Only-trans : {me : ℕ} {k l m : Kernel F Q W} → Only me k l → Only me l m → Only me k m
  Only-trans {me} {k} {l} {m} a b = record {
    others = λ j ne. b.others j ne ∙ a.others j ne;
    rest = b.rest ∙ ap (λ (x : Kernel F Q W). record x { procs = m.procs }) a.rest;
  }

  -- The kernel l and the value v that the system call with the number in a7 gives from c.
  abbrev pub Answer :
      (Sys → Kernel F Q W → Kernel F Q W × ℕ) → ℕ → Kernel F Q W → Kernel F Q W → ℕ → Type 0
  Answer handle a7 c l v =
      ((s : Sys) × (to_u32 a7 ≡ number s) × (l ≡ (handle s c).0) × (v ≡ (handle s c).1))
      ⊎ (((s : Sys) → to_u32 a7 ≢ number s) × (l ≡ c) × (v ≡ minus_one64))

  -- The trap ends in r behind a system call that leaves the process q in l and has the value v.
  abbrev pub Left :
      (ℕ → Kernel F Q W → Outcome (Kernel F Q W))
      → ReturnPath
      → ℕ
      → ℕ
      → Proc F
      → Kernel F Q W
      → Trapped (Kernel F Q W)
      → Type 0
  Left kexit env me v q l r =
      ((q.killed ≡ 0)
        × (m : Kernel F Q W) × Only me l m
        × (proc_at m me
            ≡ some (record q {
              frame = record (q.frame) {
                a0 = v;
                kernel_satp = env.satp;
                kernel_sp = q.kstack + env.page_size;
                kernel_trap = env.usertrap_addr;
                kernel_hartid = env.tp;
              };
            }))
        × (r ≡ resumed m))
      ⊎ ((q.killed ≢ 0)
          × (m : Kernel F Q W) × Only me l m
          × (proc_at m me ≡ some (record q { frame = record (q.frame) { a0 = v } }))
          × (r ≡ switch (kexit minus_one m)))

  module _ (handle : Sys → Kernel F Q W → Kernel F Q W × ℕ) (me : ℕ) where
    -- What syscall() leaves of the kernel for the number in a7: the handler's kernel with its result
    -- in a0, or -1 in a0 if no system call has the number.
    abbrev Answered : ℕ → Kernel F Q W → Kernel F Q W → Type 0
    Answered a7 k l =
        ((s : Sys) × (to_u32 a7 ≡ number s) × (l ≡ set_a0 me (handle s k).1 (handle s k).0))
        ⊎ (((s : Sys) → to_u32 a7 ≢ number s) × (l ≡ set_a0 me minus_one64 k))

    pub syscall-found :
        (k : Kernel F Q W) (s : Sys) {p : Proc F}
        → proc_at k me ≡ some p
        → to_u32 p.frame.a7 ≡ number s
        → syscall handle me k ≡ set_a0 me (handle s k).1 (handle s k).0
    unfolding syscall
    syscall-found k s {p} e n = rw (e, syscall) (rw ((find_handler_iff p.frame.a7 s).1 n, syscall))

    syscall-Answered :
        (k : Kernel F Q W) {p : Proc F}
        → proc_at k me ≡ some p
        → Answered p.frame.a7 k (syscall handle me k)
    unfolding syscall
    syscall-Answered k {p} e = elim (Option-cases (find_handler p.frame.a7)) [
      | inl f ↦ inr (
        (λ s n. absurd (cc (f, (find_handler_iff p.frame.a7 s).1 n))),
        rw (e, syscall) (rw (f, syscall)),
      )
      | inr (s, f) ↦
          let n = (find_handler_iff p.frame.a7 s).0 f in inl (s, n, syscall-found k s e n)
    ]

  module _ (dev : Devices W) (wakeup : Chan → Kernel F Q W → Kernel F Q W)
      (kexit : ℕ → Kernel F Q W → Outcome (Kernel F Q W))
      (yield : ℕ → Kernel F Q W → Outcome (Kernel F Q W)) (env : ReturnPath) (id me : ℕ)
      (handle : Sys → Kernel F Q W → Kernel F Q W × ℕ) where
    -- The way back: kexit(-1) for a process that was killed meanwhile.
    abbrev leave : Kernel F Q W → Trapped (Kernel F Q W)
    leave l =
        if not (killed l me == 0)
        then switch (kexit minus_one l)
        else resumed (at me (prepare_return env) l)

    finish-leave : (l : Kernel F Q W) → finish_trap dev wakeup kexit yield env me 0 l ≡ leave l
    unfolding finish_trap
    finish-leave l = refl

    abbrev trap : ℕ → ℕ → Kernel F Q W → Trapped (Kernel F Q W)
    trap sepc stval k =
        usertrap dev wakeup kexit yield (syscall handle me) env id me (ecall sepc stval) k

    ecall-dies :
        (sepc stval : ℕ) (k : Kernel F Q W) {p : Proc F}
        → proc_at k me ≡ some p
        → (p.killed == 0) ≡ false
        → trap sepc stval k ≡ switch (kexit minus_one (at me (set_epc sepc) k))
    unfolding usertrap
    ecall-dies sepc stval k e z =
        rw
          (killed-at me (at me (set_epc sepc) k)
            (get_elem?-modify_self k.procs me (set_epc sepc) e))
          (rw z)

    pub ecall-runs :
        (sepc stval : ℕ) (k : Kernel F Q W) {p : Proc F}
        → proc_at k me ≡ some p
        → p.killed ≡ 0
        → trap sepc stval k ≡ leave (syscall handle me (enter me sepc k))
    unfolding usertrap finish_trap
    ecall-runs sepc stval k e z = rw (
        killed-at me (at me (set_epc sepc) k) (get_elem?-modify_self k.procs me (set_epc sepc) e)
        ∙ z)

    syscall-Answer :
        (k : Kernel F Q W) {p : Proc F}
        → proc_at k me ≡ some p
        → (l : Kernel F Q W) × (v : ℕ) × Answer handle p.frame.a7 k l v
          × (syscall handle me k ≡ set_a0 me v l)
    syscall-Answer k e = elim (syscall-Answered handle me k e) [
      | inl (s, n, same) ↦ ((handle s k).0, (handle s k).1, inl (s, n, refl, refl), same)
      | inr (no_call, same) ↦ (k, minus_one64, inr (no_call, refl, refl), same)
    ]

    syscall_stays :
        ((s : Sys) (c : Kernel F Q W) (x : Proc F)
          → proc_at c me ≡ some x
          → (q : Proc F) × (proc_at (handle s c).0 me ≡ some q))
        → (a7 : ℕ) (c : Kernel F Q W) {x : Proc F} → proc_at c me ≡ some x
        → (l : Kernel F Q W) (v : ℕ) → Answer handle a7 c l v
        → (q : Proc F) × (proc_at l me ≡ some q)
    syscall_stays stays a7 c {x} e l v (inl (s, n, same, w)) =
        subst (λ m. (q : Proc F) × (proc_at m me ≡ some q)) (sym same) (stays s c x e)
    syscall_stays stays a7 c {x} e l v (inr (no_call, same, w)) =
        (x, ap (λ m. proc_at m me) same ∙ e)

    leave-Left :
        (v : ℕ) (l : Kernel F Q W) {q : Proc F}
        → proc_at l me ≡ some q
        → Left kexit env me v q l (leave (set_a0 me v l))
    unfolding prepare_return
    leave-Left v l {q} e =
        let at_me = get_elem?-modify_self l.procs me (store_a0 v) e in
        let asked = killed-at me (set_a0 me v l) at_me in
        let only = at-Only me (store_a0 v) l in
        elim (Bool-cases (q.killed == 0)) [
          | inl z ↦ inl (
            zero_of q.killed z,
            at me (prepare_return env) (set_a0 me v l),
            Only-trans only (at-Only me (prepare_return env) (set_a0 me v l)),
            get_elem?-modify_self _ me (prepare_return env) at_me,
            rw (asked, z),
          )
          | inr z ↦ inr (ne_of q.killed z, set_a0 me v l, only, at_me, rw (asked, z))
        ]

    -- An ecall from user space by a process that was killed ends in kexit(-1), with epc at the
    -- ecall, and no system call is made. By any other process it makes the system call with the
    -- number in the low 32 bits of a7, in a kernel that differs only in the epc of the process,
    -- which is sepc + 4. The result of the call, or -1 if no system call has the number, is then put
    -- into a0 of what the call left in the slot, where every handler leaves a process in the slot of
    -- its caller; unless that was killed, which ends in kexit(-1), it returns to user space, with the kernel's page table, stack, trap handler and CPU number
    -- stored in its trap frame, and no other field and no other slot is changed.
    pub usertrap-ecall :
        (sepc stval : ℕ) (k : Kernel F Q W) {p : Proc F}
        → ((s : Sys) (c : Kernel F Q W) (x : Proc F)
            → proc_at c me ≡ some x
            → (q : Proc F) × (proc_at (handle s c).0 me ≡ some q))
        → proc_at k me ≡ some p
        → let r =
            usertrap dev wakeup kexit yield (syscall handle me) env id me (ecall sepc stval) k in
          ((p.killed ≢ 0)
            × (c : Kernel F Q W) × Only me k c
            × (proc_at c me ≡ some (record p { frame = record (p.frame) { epc = sepc } }))
            × (r ≡ switch (kexit minus_one c)))
          ⊎ ((p.killed ≡ 0)
              × (c : Kernel F Q W) × Only me k c
              × (proc_at c me ≡ some (record p { frame = record (p.frame) { epc = add64 sepc 4 } }))
              × (l : Kernel F Q W) × (v : ℕ) × (q : Proc F) × Answer handle p.frame.a7 c l v
              × (proc_at l me ≡ some q)
              × Left kexit env me v q l r)
    usertrap-ecall sepc stval k {p} stays e = elim (Bool-cases (p.killed == 0)) [
      | inl z ↦
          let c = enter me sepc k in
          let (l, v, answer, same) = syscall-Answer c (enter-at me sepc k e) in
          let (q, at_q) = syscall_stays stays p.frame.a7 c (enter-at me sepc k e) l v answer in
          let runs = ecall-runs sepc stval k e (zero_of p.killed z) ∙ ap leave same in
          inr (
            zero_of p.killed z,
            c,
            Only-trans (at-Only me (set_epc sepc) k)
                (at-Only me skip_ecall (at me (set_epc sepc) k)),
            enter-at me sepc k e,
            l,
            v,
            q,
            answer,
            at_q,
            subst (Left kexit env me v q l) (sym runs) (leave-Left v l at_q),
          )
      | inr z ↦ inl (
        ne_of p.killed z,
        at me (set_epc sepc) k,
        at-Only me (set_epc sepc) k,
        get_elem?-modify_self k.procs me (set_epc sepc) e,
        ecall-dies sepc stval k e z,
      )
    ]
