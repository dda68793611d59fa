-- ===== src/Syscall/Dispatch.antt =====
-- Which handler syscall() of syscall.c calls, and what it stores for the process.
use os_project_files.Base.{
  ℕ, zero, suc, ◌+◌, ◌<◌, ◌≡◌, ◌↔◌, refl, sym, ap, ◌∙◌, Option-cases, Bool, inl, inr, Option, none,
  some, List, [], ◌∷◌, Bool-cases, true, false, not, ◌&&◌, ◌==◌, ltb, to_u32, is_negative, length,
  get_elem?, arith,
}
use os_project_files.Syscall.Table.{Sys, syscalls, number, find_handler, fork}

-- Each number of syscall.h stands at its place in the table.
table_of_number : (s : Sys) → get_elem? syscalls (number s) ≡ some (some s)
unfolding syscalls number
table_of_number fork = refl
table_of_number _ = refl

number_range : (s : Sys) → (0 < number s) × (number s < 23)
unfolding number
number_range fork = omega arith
number_range _ = omega arith

-- The entries of a table from index i on are handlers with that index for their number.
abbrev Numbered : ℕ → List (Option Sys) → Type 0
Numbered i [] = Unit
Numbered i (none ∷ l) = Numbered (suc i) l
Numbered i (some s ∷ l) = (number s ≡ i) × Numbered (suc i) l

syscalls-Numbered : Numbered 0 syscalls
unfolding syscalls number
syscalls-Numbered = omega arith

number_of_entry :
    (i n : ℕ) (l : List (Option Sys)) (s : Sys)
    → Numbered i l
    → get_elem? l n ≡ some (some s)
    → number s ≡ i + n
number_of_entry i n [] s h e = cc
number_of_entry i zero (none ∷ l) s h e = cc
number_of_entry i zero (some t ∷ l) s h e = ground arith
number_of_entry i (suc n) (none ∷ l) s h e = omega (arith, number_of_entry (suc i) n l s h e)
number_of_entry i (suc n) (some t ∷ l) s h e = omega (arith, number_of_entry (suc i) n l s h.1 e)

abbrev in_table : ℕ → Bool
in_table num = (not (is_negative num) && not (num == 0)) && ltb num (length syscalls)

length-syscalls : length syscalls ≡ 23
unfolding syscalls
length-syscalls = refl

number-in_table : (n : ℕ) (s : Sys) → n ≡ number s → in_table n ≡ true
number-in_table n s e = ground (arith, number_range s, length-syscalls)

handler : ℕ → Option Sys
handler n = elim (get_elem? syscalls n) [ none ↦ none | some h ↦ h ]

handler-some : (n : ℕ) (s : Sys) → handler n ≡ some s → get_elem? syscalls n ≡ some (some s)
unfolding handler syscalls
handler-some n s e = elim (Option-cases (get_elem? syscalls n)) [
  | inl q ↦ absurd (cc (rw q at e))
  | inr (h, q) ↦ q ∙ ap some (rw (q, handler) at e)
]

handler-number : (s : Sys) → handler (number s) ≡ some s
unfolding handler
handler-number s = rw (table_of_number s, handler)

find_handler-in : (a7 : ℕ) → in_table (to_u32 a7) ≡ true → find_handler a7 ≡ handler (to_u32 a7)
unfolding find_handler handler
find_handler-in a7 e = rw e

find_handler-out : (a7 : ℕ) → in_table (to_u32 a7) ≡ false → find_handler a7 ≡ none
unfolding find_handler
find_handler-out a7 e = rw e

-- syscall() finds the handler of s exactly when the low 32 bits of a7 are the number of s in
-- syscall.h.
pub find_handler_iff : (a7 : ℕ) (s : Sys) → (find_handler a7 ≡ some s) ↔ (to_u32 a7 ≡ number s)
find_handler_iff a7 s = (
  (λ e. elim (Bool-cases (in_table (to_u32 a7))) [
    | inl t ↦
        let at_num = handler-some (to_u32 a7) s (sym (find_handler-in a7 t) ∙ e) in
        omega (arith, number_of_entry 0 (to_u32 a7) syscalls s syscalls-Numbered at_num)
    | inr f ↦ cc (find_handler-out a7 f)
  ]),
  λ e. find_handler-in a7 (number-in_table (to_u32 a7) s e) ∙ ap handler e ∙ handler-number s,
)
