-- ===== src/Process/Slots.antt =====
-- Each scan of proc[] in proc.c returns the first slot that passes its test.
use os_project_files.Base.{
  ℕ, ◌+◌, ◌≡◌, refl, some, none, List, [], ◌∷◌, Bool, false, ◌&&◌, ◌||◌, ◌==◌, first, arith,
}
use os_project_files.Kernel.{unused, zombie, state_eq, ptr_eq, Proc}
use os_project_files.Process.Alloc.{find_unused}
use os_project_files.Process.Kill.{find_pid}
use os_project_files.Process.Wait.{scan_children}

module _ {F : Type 0} where
  abbrev pub is_unused : Proc F → Bool
  is_unused p = state_eq p.state unused

  abbrev pub is_child : ℕ → Proc F → Bool
  is_child me p = ptr_eq p.parent (some me)

  abbrev pub is_zombie_child : ℕ → Proc F → Bool
  is_zombie_child me p = is_child me p && state_eq p.state zombie

  abbrev pub has_pid : ℕ → Proc F → Bool
  has_pid pid p = p.pid == pid

  -- Some slot holds a child of `me`.
  abbrev pub any_child : ℕ → List (Proc F) → Bool
  any_child me [] = false
  any_child me (p ∷ ps) = is_child me p || any_child me ps

  pub find_unused-first : (ps : List (Proc F)) (i : ℕ) → find_unused ps i ≡ first is_unused ps i
  unfolding find_unused
  find_unused-first [] i = refl
  find_unused-first (p ∷ ps) i = ground (arith, find_unused-first ps (i + 1))

  pub find_pid-first :
      (pid : ℕ) (ps : List (Proc F)) (i : ℕ) → find_pid pid ps i ≡ first (has_pid pid) ps i
  unfolding find_pid
  find_pid-first pid [] i = refl
  find_pid-first pid (p ∷ ps) i = ground (arith, find_pid-first pid ps (i + 1))

  pub scan_children-first :
      (me : ℕ) (ps : List (Proc F)) (i : ℕ) (have : Bool)
      → (scan_children me ps i have).0 ≡ first (is_zombie_child me) ps i
  unfolding scan_children
  scan_children-first me [] i have = refl
  scan_children-first me (p ∷ ps) i have =
      ground (arith, scan_children-first me ps (i + 1) (is_child me p || have))

  -- Without a zombie child, `havekids` tells whether there is a child at all.
  pub scan_children-havekids :
      (me : ℕ) (ps : List (Proc F)) (i : ℕ) (have : Bool)
      → (scan_children me ps i have).0 ≡ none
      → (scan_children me ps i have).1 ≡ (any_child me ps || have)
  unfolding scan_children
  scan_children-havekids me [] i have e = refl
  scan_children-havekids me (p ∷ ps) i have e =
      ground (arith, scan_children-havekids me ps (i + 1) (is_child me p || have))
