-- ===== src/Lpt/Sort.antt =====
-- The order of a batch of lpt/proc.c, and what its tuples do to that order.
use mathlib.Core.List.{Perm}
use mathlib.Core.List.Perm
use os_project_files.Base.{
  ℕ, zero, suc, ◌+◌, ◌%◌, ◌^◌, ◌≤◌, ◌<◌, ◌≡◌, refl, true, false, sym, subst, inl, inr, List, [],
  ◌∷◌, ◌++◌, ◌∙◌, ap, Bool-cases, ltb_int, u32_mod, length, take, drop, take-append-drop,
  length-drop, arith, if◌then◌else◌,
}
use os_project_files.Lpt.Batch.{sweep, sort, group}

-- The order of the `int` values: the pattern with its sign bit flipped.
abbrev pub rank : ℕ → ℕ
rank x = (x + 2 ^ 31) % u32_mod

module _ (est : ℕ → ℕ) where
  abbrev pub AtMost : ℕ → List ℕ → Type 0
  AtMost x [] = Unit
  AtMost x (y ∷ ys) = (rank (est y) ≤ rank (est x)) × AtMost x ys

  -- Every entry's estimate is at least that of each entry behind it.
  abbrev pub Descending : List ℕ → Type 0
  Descending [] = Unit
  Descending (x ∷ xs) = AtMost x xs × Descending xs

  AtMost-le : (x y : ℕ) (ys : List ℕ) → rank (est x) ≤ rank (est y) → AtMost x ys → AtMost y ys
  AtMost-le x y [] h a = tt
  AtMost-le x y (z ∷ zs) h a = (omega arith, AtMost-le x y zs h a.1)

  sweep-perm : (x : ℕ) (xs : List ℕ) → Perm ((sweep est x xs).0 ∷ (sweep est x xs).1) (x ∷ xs)
  unfolding sweep
  sweep-perm x [] = Perm.refl (x ∷ [])
  sweep-perm x (y ∷ ys) = elim (Bool-cases (ltb_int (est x) (est y))) [
    | inl e ↦ rw e (
        Perm.trans (Perm.swap x (sweep est y ys).0 (sweep est y ys).1)
          (Perm.cons x (sweep-perm y ys)))
    | inr e ↦ rw e (
        Perm.trans (Perm.swap y (sweep est x ys).0 (sweep est x ys).1)
          (Perm.trans (Perm.cons y (sweep-perm x ys)) (Perm.swap x y ys)))
  ]

  -- The first entry of the pair is at least x and each entry of the second.
  abbrev Tops : ℕ → ℕ × List ℕ → Type 0
  Tops x r = (rank (est x) ≤ rank (est r.0)) × AtMost r.0 r.1

  sweep-swap :
      (x y : ℕ) (ys : List ℕ)
      → ltb_int (est x) (est y) ≡ true
      → sweep est x (y ∷ ys) ≡ ((sweep est y ys).0, x ∷ (sweep est y ys).1)
  unfolding sweep
  sweep-swap x y ys e = rw e

  sweep-stay :
      (x y : ℕ) (ys : List ℕ)
      → ltb_int (est x) (est y) ≡ false
      → sweep est x (y ∷ ys) ≡ ((sweep est x ys).0, y ∷ (sweep est x ys).1)
  unfolding sweep
  sweep-stay x y ys e = rw e

  lt_of_ltb_int : (a b : ℕ) → ltb_int a b ≡ true → rank a < rank b
  lt_of_ltb_int a b e = ground arith

  le_of_ltb_int : (a b : ℕ) → ltb_int a b ≡ false → rank b ≤ rank a
  le_of_ltb_int a b e = ground arith

  sweep-Tops : (x : ℕ) (xs : List ℕ) → Tops x (sweep est x xs)
  unfolding sweep
  sweep-Tops x [] = (omega arith, tt)
  sweep-Tops x (y ∷ ys) = elim (Bool-cases (ltb_int (est x) (est y))) [
    | inl e ↦
        let r = sweep-Tops y ys in
        let l = lt_of_ltb_int (est x) (est y) e in
        subst (Tops x) (sym (sweep-swap x y ys e)) (omega arith, (omega arith, r.1))
    | inr e ↦
        let r = sweep-Tops x ys in
        let l = le_of_ltb_int (est x) (est y) e in
        subst (Tops x) (sym (sweep-stay x y ys e)) (r.0, (omega arith, r.1))
  ]

  AtMost-sweep :
      (b x : ℕ) (xs : List ℕ)
      → AtMost b (x ∷ xs)
      → AtMost b ((sweep est x xs).0 ∷ (sweep est x xs).1)
  unfolding sweep
  AtMost-sweep b x [] a = a
  AtMost-sweep b x (y ∷ ys) a = elim (Bool-cases (ltb_int (est x) (est y))) [
    | inl e ↦ let r = AtMost-sweep b y ys a.1 in rw e (r.0, (a.0, r.1))
    | inr e ↦ let r = AtMost-sweep b x ys (a.0, a.1.1) in rw e (r.0, (a.1.0, r.1))
  ]

  AtMost-sort : (b n : ℕ) (l : List ℕ) → AtMost b l → AtMost b (sort est n l)
  unfolding sort
  AtMost-sort b zero l a = a
  AtMost-sort b (suc n) [] a = tt
  AtMost-sort b (suc n) (x ∷ xs) a =
      let r = AtMost-sweep b x xs a in (r.0, AtMost-sort b n (sweep est x xs).1 r.1)

  length-sweep : (x : ℕ) (xs : List ℕ) → length (sweep est x xs).1 ≡ length xs
  unfolding sweep
  length-sweep x [] = refl
  length-sweep x (y ∷ ys) = ap suc (length-sweep (if ltb_int (est x) (est y) then y else x) ys)

  -- STEP 2 only reorders the batch, however many of its rounds are done.
  pub sort-perm : (n : ℕ) (l : List ℕ) → Perm (sort est n l) l
  unfolding sort
  sort-perm zero l = Perm.refl l
  sort-perm (suc n) [] = Perm.refl []
  sort-perm (suc n) (x ∷ xs) =
      Perm.trans (Perm.cons (sweep est x xs).0 (sort-perm n (sweep est x xs).1)) (sweep-perm x xs)

  -- STEP 2 sorts: with a round for each entry, no estimate of the result is below one behind it, as
  -- `int` values.
  pub sort-Descending_of_le : (n : ℕ) (l : List ℕ) → length l ≤ n → Descending (sort est n l)
  unfolding sort
  sort-Descending_of_le zero [] h = tt
  sort-Descending_of_le zero (x ∷ xs) h = absurd (omega arith)
  sort-Descending_of_le (suc n) [] h = tt
  sort-Descending_of_le (suc n) (x ∷ xs) h = (
    AtMost-sort (sweep est x xs).0 n (sweep est x xs).1 (sweep-Tops x xs).1,
    sort-Descending_of_le n (sweep est x xs).1 (omega (arith, length-sweep x xs)),
  )

-- STEP 3 copies the batch as it is: for every NCPU above 0 the tuples, one behind the other, are
-- the batch in its order.
pub group_lem :
    (ncpu n : ℕ) (batch : List ℕ) → 0 < ncpu → length batch ≤ n → group ncpu n batch ≡ batch
unfolding group
group_lem ncpu zero [] h b = refl
group_lem ncpu zero (x ∷ xs) h b = absurd (omega arith)
group_lem ncpu (suc n) [] h b = refl
group_lem ncpu (suc n) (x ∷ xs) h b =
    ap (◌++◌ (take ncpu (x ∷ xs)))
      (group_lem ncpu n (drop ncpu (x ∷ xs)) h (omega (arith, length-drop ncpu (x ∷ xs))))
    ∙ take-append-drop ncpu (x ∷ xs)
