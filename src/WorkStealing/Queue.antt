-- ===== src/WorkStealing/Queue.antt =====
-- The ring of work stealing/proc.c under any sequence of its operations, against a queue with two
-- ends that holds at most 63 entries.
use os_project_files.Base.{
  ℕ, ◌≡◌, refl, ap, ◌∙◌, sym, inl, inr, Option, none, some, List, [], ◌∷◌, ◌++◌, ◌==◌, length,
  append-last, false, if◌then◌else◌,
}
use os_project_files.WorkStealing.Deque.{Deque, empty, push_back, pop_front, pop_back}
use os_project_files.WorkStealing.Ring.{
  IsValid, contents, empty-IsValid, push_back-IsValid, pop_front-IsValid, pop_back-IsValid,
  push_back-contents, pop_front-contents, pop_back-contents, not_nil,
}

pub data Op : Type 0 where
  push : ℕ → Op
  take_front : Op
  take_back : Op

-- A call of one of the three functions: what it returns, and the ring.
unfoldable pub perform : Op → Deque → Option ℕ × Deque
perform (push p) c = (none, push_back c p)
perform take_front c = pop_front c
perform take_back c = pop_back c

unfoldable pub run : List Op → Deque → List (Option ℕ) × Deque
unfolding perform
run [] c = ([], c)
run (o ∷ os) c = let (r, d) = perform o c in let (rs, e) = run os d in (r ∷ rs, e)

-- The last entry of a list, and those before it.
unfoldable pub split_last : List ℕ → Option ℕ × List ℕ
split_last [] = (none, [])
split_last (x ∷ xs) =
    let (last, before) = split_last xs in
    elim last [ none ↦ (some x, []) | some y ↦ (some y, x ∷ before) ]

-- The queue that the ring stands for.
unfoldable pub serve : Op → List ℕ → Option ℕ × List ℕ
unfolding split_last
serve (push p) xs = (none, if length xs == 63 then xs else xs ++ p ∷ [])
serve take_front [] = (none, [])
serve take_front (x ∷ xs) = (some x, xs)
serve take_back xs = split_last xs

unfoldable pub serve_all : List Op → List ℕ → List (Option ℕ) × List ℕ
unfolding serve
serve_all [] xs = ([], xs)
serve_all (o ∷ os) xs = let (r, ys) = serve o xs in let (rs, zs) = serve_all os ys in (r ∷ rs, zs)

split_last-append : (xs : List ℕ) (y : ℕ) → split_last (xs ++ y ∷ []) ≡ (some y, xs)
unfolding split_last
split_last-append [] y = refl
split_last-append (x ∷ xs) y =
    let rest = split_last-append xs y in
    rw (ap (λ (r : Option ℕ × List ℕ). r.0) rest, split_last)
      (ap (λ (r : Option ℕ × List ℕ). (some y, x ∷ r.1)) rest)

-- What the ring returns, and what it then holds.
abbrev view : Option ℕ × Deque → Option ℕ × List ℕ
view r = (r.0, contents r.1)

perform-serve : (o : Op) (c : Deque) → IsValid c → view (perform o c) ≡ serve o (contents c)
unfolding perform serve
perform-serve (push p) c v = ap (λ (xs : List ℕ). (none, xs)) (push_back-contents c p v)
perform-serve take_front c v = elim (pop_front-contents c v) [
  | inl (e, p) ↦ ap view p ∙ ap (λ (xs : List ℕ). (none, xs)) e ∙ sym (ap (serve take_front) e)
  | inr (x, p, e) ↦
      ap (λ (r : Option ℕ). (r, contents (pop_front c).1)) p ∙ sym (ap (serve take_front) e)
]
perform-serve take_back c v = elim (pop_back-contents c v) [
  | inl (e, p) ↦ ap view p ∙ ap (λ (xs : List ℕ). (none, xs)) e ∙ sym (ap (serve take_back) e)
  | inr (x, p, e) ↦
      ap (λ (r : Option ℕ). (r, contents (pop_back c).1)) p
      ∙ sym (split_last-append (contents (pop_back c).1) x)
      ∙ sym (ap (serve take_back) e)
]

perform-IsValid : (o : Op) (c : Deque) → IsValid c → IsValid (perform o c).1
unfolding perform
perform-IsValid (push p) c v = push_back-IsValid c p v
perform-IsValid take_front c v = pop_front-IsValid c v
perform-IsValid take_back c v = pop_back-IsValid c v

-- On a valid ring every sequence of the operations returns, one after the other, what the queue
-- returns, and leaves a valid ring that holds what the queue holds.
pub run-serve_all :
    (os : List Op) (c : Deque)
    → IsValid c
    → IsValid (run os c).1
      × ((run os c).0 ≡ (serve_all os (contents c)).0)
      × (contents (run os c).1 ≡ (serve_all os (contents c)).1)
unfolding run serve_all
run-serve_all [] c v = (v, refl, refl)
run-serve_all (o ∷ os) c v =
    let same = perform-serve o c v in
    let (w, rs, xs) = run-serve_all os (perform o c).1 (perform-IsValid o c v) in
    (
      w,
      ap (◌∷◌ (perform o c).0) rs ∙ ap (λ (r : Option ℕ × List ℕ). r.0 ∷ (serve_all os r.1).0) same,
      xs ∙ ap (λ (r : Option ℕ × List ℕ). (serve_all os r.1).1) same,
    )

-- From the ring that procinit() makes, every sequence of push_back, pop_front and pop_back returns,
-- call by call, what a queue with two ends returns that starts empty and drops a push while it
-- holds 63 entries; the ring stays valid and holds what the queue holds.
pub run-empty :
    (os : List Op)
    → IsValid (run os empty).1
      × ((run os empty).0 ≡ (serve_all os []).0)
      × (contents (run os empty).1 ≡ (serve_all os []).1)
unfolding empty
run-empty os = run-serve_all os empty empty-IsValid

-- A push onto a valid ring with room is undone by pop_back: the entry comes back, and the ring
-- holds what it held before.
pub pop_back-push_back :
    (c : Deque) (p : ℕ)
    → IsValid c
    → (length (contents c) == 63) ≡ false
    → ((pop_back (push_back c p)).0 ≡ some p) × (contents (pop_back (push_back c p)).1 ≡ contents c)
pop_back-push_back c p v room =
    let pushed : contents (push_back c p) ≡ contents c ++ p ∷ [] =
      push_back-contents c p v ∙ rw room in
    elim (pop_back-contents (push_back c p) (push_back-IsValid c p v)) [
      | inl (e, _) ↦ absurd (not_nil (contents c) p (sym pushed ∙ e))
      | inr (x, q, e) ↦
          let (rest, last) =
            append-last (contents (pop_back (push_back c p)).1) (contents c) x p (sym e ∙ pushed) in
          (q ∙ ap some last, rest)
    ]
