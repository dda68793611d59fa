-- ===== src/WorkStealing/Pushing.antt =====
-- The RUNNABLE processes of work stealing/proc.c wait in the rings: what the push of a process that
-- becomes ready does to that.
use mathlib.Core.Option.{some-injective}
use os_project_files.Base.{
  ℕ, ◌<◌, ◌≡◌, ◌≢◌, refl, sym, ap, ◌∙◌, subst, inl, inr, some, List, [], ◌∷◌, ◌++◌, Bool-cases,
  true, ◌==◌, ==_iff, length, get_elem?, get_elem?-modify_self, get_elem?-modify_ne,
}
use os_project_files.Kernel.{Cpu, Kernel, at}
use os_project_files.WorkStealing.Deque.{Deque, push_back}
use os_project_files.WorkStealing.Kept.{Among}
use os_project_files.WorkStealing.Ring.{contents, push_back-IsValid}
use os_project_files.WorkStealing.Round.{Queued, RingsValid, AllQueued}
use os_project_files.WorkStealing.Yield.{push_room}
use os_project_files.WorkStealing.{Sched, ready, enqueue, make_ready, is_runnable}
use os_project_files.WorkStealing.Waiting.{other, RingsValid-modify, runnable_cong}

Among-left : (i : ℕ) (xs ys : List ℕ) → Among i xs → Among i (xs ++ ys)
Among-left i [] ys m = absurd m
Among-left i (x ∷ xs) ys (inl e) = inl e
Among-left i (x ∷ xs) ys (inr m) = inr (Among-left i xs ys m)

Among-last : (i : ℕ) (xs : List ℕ) → Among i (xs ++ i ∷ [])
Among-last i [] = inl refl
Among-last i (x ∷ xs) = inr (Among-last i xs)

module _ {W : Type 0} where
  module _ (id i : ℕ) (k : Kernel Sched Deque W) {c : Cpu Deque}
      (at_id : get_elem? k.cpus id ≡ some c) (v : AllQueued k)
      (space : length (contents c.queue) < 63) where
    pushed : contents (push_back c.queue i) ≡ contents c.queue ++ i ∷ []
    pushed = push_room c.queue i (v.valid id c at_id) space

    -- The CPU behind the push.
    ready-cpu : get_elem? (ready id i k).cpus id ≡ some (record c { queue = push_back c.queue i })
    unfolding ready enqueue
    ready-cpu =
        get_elem?-modify_self k.cpus id (λ d. record d { queue = push_back d.queue i }) at_id

    ready-cpu_ne : (a : ℕ) → id ≢ a → get_elem? (ready id i k).cpus a ≡ get_elem? k.cpus a
    unfolding ready enqueue
    ready-cpu_ne a ne = get_elem?-modify_ne k.cpus id a _ ne

    ready-RingsValid : RingsValid (ready id i k)
    unfolding ready enqueue
    ready-RingsValid =
        RingsValid-modify id (λ d. record d { queue = push_back d.queue i }) (at i make_ready k)
          (λ d w. push_back-IsValid d.queue i w) v.valid

    ready-runnable : (j : ℕ) → i ≢ j → is_runnable (ready id i k) j ≡ true → is_runnable k j ≡ true
    unfolding ready enqueue
    ready-runnable j ne r =
        sym (runnable_cong k (ready id i k) j (get_elem?-modify_ne k.procs i j make_ready ne)) ∙ r

    ready-Queued : (j : ℕ) → Queued k j → Queued (ready id i k) j
    ready-Queued j s = elim (Bool-cases (id == s.cpu)) [
      | inl t ↦
          let same : t_of s ≡ c =
            some-injective _ _
              (sym s.at_cpu ∙ sym (ap (get_elem? k.cpus) ((==_iff id s.cpu).0 t)) ∙ at_id) in
          record {
            cpu = id;
            entry = record c { queue = push_back c.queue i };
            at_cpu = ready-cpu;
            among = subst (Among j) (sym pushed) (
                Among-left j (contents c.queue) (i ∷ [])
                  (subst (λ (x : Cpu Deque). Among j (contents x.queue)) same s.among));
          }
      | inr t ↦ record {
        cpu = s.cpu;
        entry = t_of s;
        at_cpu = ready-cpu_ne s.cpu (other id s.cpu t) ∙ s.at_cpu;
        among = s.among;
      }
    ]
      where
        t_of : Queued k j → Cpu Deque
        t_of q = q.entry

    -- If every ring is valid and every RUNNABLE process stands in a ring, this is so when yield() or
    -- wakeup() has made a process RUNNABLE and pushed it, if the ring of the CPU has room for it.
    pub ready-AllQueued : AllQueued (ready id i k)
    ready-AllQueued = record {
      valid = ready-RingsValid;
      queued = λ j r. elim (Bool-cases (i == j)) [
        | inl e ↦ subst (Queued (ready id i k)) ((==_iff i j).0 e) (record {
          cpu = id;
          entry = record c { queue = push_back c.queue i };
          at_cpu = ready-cpu;
          among = subst (Among i) (sym pushed) (Among-last i (contents c.queue));
        })
        | inr e ↦ ready-Queued j (v.queued j (ready-runnable j (other i j e) r))
      ];
    }
