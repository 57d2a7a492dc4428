-- ===== src/Hammer/Queue.antt =====
-- admin/auction/page.tsx: a reorder loses no question and adds none.
use codolympics.Prelude.{
  ℕ, zero, suc, ◌+◌, ◌≡◌, refl, sym, subst, List, [], ◌∷◌, Option, none, some, leb, length,
  get_elem?, set, Option-cases, Bool-cases, inl, inr, arith,
}
use mathlib.Core.List.{Perm}
use mathlib.Core.List.Perm
use codolympics.Widgets.ListEditor.{swap}
use codolympics.Hammer.Control.{
  Control, Page, Way, earlier, later, index_of, moved, pending_ids, queue, move, load, moved_at,
  Event, read, shifted, discarded, recorded, chose, typed, step, steps,
}

module _ {A : Type 0} where
  set_pair :
      (i : ℕ) (xs : List A) (a b : A)
      → get_elem? xs i ≡ some a
      → get_elem? xs (suc i) ≡ some b
      → Perm (set (set xs i b) (suc i) a) xs
  set_pair i [] a b p q = absurd cc
  set_pair zero (x ∷ []) a b p q = absurd cc
  set_pair zero (x ∷ y ∷ xs) a b p q =
      let e : x ≡ a = cc in
      let f : y ≡ b = cc in
      subst (λ z. Perm (b ∷ z ∷ xs) (x ∷ y ∷ xs)) e
        (subst (λ z. Perm (z ∷ x ∷ xs) (x ∷ y ∷ xs)) f (Perm.swap x y xs))
  set_pair (suc i) (x ∷ xs) a b p q = Perm.cons x (set_pair i xs a b p q)

  set_pair_back :
      (i : ℕ) (xs : List A) (a b : A)
      → get_elem? xs i ≡ some a
      → get_elem? xs (suc i) ≡ some b
      → Perm (set (set xs (suc i) a) i b) xs
  set_pair_back i [] a b p q = absurd cc
  set_pair_back zero (x ∷ []) a b p q = absurd cc
  set_pair_back zero (x ∷ y ∷ xs) a b p q =
      let e : x ≡ a = cc in
      let f : y ≡ b = cc in
      subst (λ z. Perm (b ∷ z ∷ xs) (x ∷ y ∷ xs)) e
        (subst (λ z. Perm (z ∷ x ∷ xs) (x ∷ y ∷ xs)) f (Perm.swap x y xs))
  set_pair_back (suc i) (x ∷ xs) a b p q = Perm.cons x (set_pair_back i xs a b p q)

  -- Neighbours that change places.
  swap_down : (i : ℕ) (xs : List A) → Perm (swap i (suc i) xs) xs
  unfolding swap
  swap_down i xs = elim (Option-cases (get_elem? xs i)) [
    | inl n ↦ rw (n, swap) (Perm.refl xs)
    | inr (a, p) ↦ elim (Option-cases (get_elem? xs (suc i))) [
      | inl n ↦ rw (p, swap) (rw (n, swap) (Perm.refl xs))
      | inr (b, q) ↦ rw (p, swap) (rw (q, swap) (set_pair i xs a b p q))
    ]
  ]

  swap_up : (i : ℕ) (xs : List A) → Perm (swap (suc i) i xs) xs
  unfolding swap
  swap_up i xs = elim (Option-cases (get_elem? xs (suc i))) [
    | inl n ↦ rw (n, swap) (Perm.refl xs)
    | inr (b, q) ↦ elim (Option-cases (get_elem? xs i)) [
      | inl n ↦ rw (q, swap) (rw (n, swap) (Perm.refl xs))
      | inr (a, p) ↦ rw (q, swap) (rw (p, swap) (set_pair_back i xs a b p q))
    ]
  ]

-- What `move` makes of an order, if anything.
abbrev KeepsAll : List ℕ → Option (List ℕ) → Type 0
KeepsAll l none = Unit
KeepsAll l (some next) = Perm next l

moved_at-KeepsAll : (i : ℕ) (way : Way) (l : List ℕ) → KeepsAll l (moved_at i way l)
unfolding moved_at
moved_at-KeepsAll zero earlier l = tt
moved_at-KeepsAll (suc i) earlier l = swap_up i l
moved_at-KeepsAll i later l = elim (Bool-cases (leb (length l) (i + 1))) [
  | inl t ↦ rw t tt
  | inr f ↦ rw f (subst (λ j. Perm (swap i j l) l) (omega arith) (swap_down i l))
]

moved-KeepsAll : (id : ℕ) (way : Way) (l : List ℕ) → KeepsAll l (moved id way l)
unfolding moved
moved-KeepsAll id way l = elim (Option-cases (index_of id l)) [
  | inl n ↦ rw (n, moved) tt
  | inr (i, e) ↦ rw (e, moved) (moved_at-KeepsAll i way l)
]

-- The order on the page is one of exactly the questions still to come.
abbrev pub IsQueue : Page → Type 0
IsQueue p = Perm (queue p) (pending_ids p.control)

moved_order : (p : Page) (next : List ℕ) → queue (record p { order = some next }) ≡ next
unfolding queue
moved_order p next = refl

move-IsQueue : (id : ℕ) (way : Way) (p : Page) → IsQueue p → IsQueue (move id way p)
unfolding move
move-IsQueue id way p h = elim (Option-cases (moved id way (queue p))) [
  | inl n ↦ rw (n, move) h
  | inr (next, e) ↦
      rw (e, move)
        (subst (λ q. Perm q (pending_ids p.control)) (sym (moved_order p next))
          (Perm.trans (subst (KeepsAll (queue p)) e (moved-KeepsAll id way (queue p))) h))
]

fresh-IsQueue : (c : Control) (p : Page) → IsQueue (record p { control = c; order = none })
unfolding queue
fresh-IsQueue c p = Perm.refl (pending_ids c)

step-IsQueue : (p : Page) (e : Event) → IsQueue p → IsQueue (step p e)
unfolding step load queue
step-IsQueue p (read c) h = fresh-IsQueue c p
step-IsQueue p (shifted id way) h = move-IsQueue id way p h
step-IsQueue p discarded h = fresh-IsQueue p.control p
step-IsQueue p recorded h = h
step-IsQueue p (chose v) h = h
step-IsQueue p (typed v) h = h

-- However the questions still to come are moved, whatever is read again in between, the order on the page
-- has each of them as often as the round that was last read, and none else, provided that it was so.
pub steps-IsQueue : (p : Page) (l : List Event) → IsQueue p → IsQueue (steps p l)
unfolding steps
steps-IsQueue p [] h = h
steps-IsQueue p (e ∷ rest) h = steps-IsQueue (step p e) rest (step-IsQueue p e h)
