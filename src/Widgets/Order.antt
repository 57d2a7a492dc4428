-- ===== src/Widgets/Order.antt =====
-- reorder-list.tsx and list-editor.tsx: a move loses nothing, puts the row where it was dropped, leaves
-- the others in their order, and can be undone.
use codolympics.Prelude.{
  ℕ, zero, suc, ◌+◌, ◌≤◌, ◌<◌, ◌≡◌, ◌≢◌, refl, sym, ap, ◌∙◌, List, [], ◌∷◌, none, some, arith,
  length, get_elem?, Option-cases, inl, inr, subst,
}
use mathlib.Core.List.{Perm}
use mathlib.Core.List.Perm
use codolympics.Widgets.Reorder.{remove_at, insert_at, move_within}

module _ {T : Type 0} where
  remove_at-insert_at :
      (to : ℕ) (row : T) (xs : List T) → to ≤ length xs → remove_at to (insert_at to row xs) ≡ xs
  unfolding remove_at insert_at
  remove_at-insert_at zero row [] h = refl
  remove_at-insert_at zero row (x ∷ xs) h = refl
  remove_at-insert_at (suc to) row [] h = absurd (omega arith)
  remove_at-insert_at (suc to) row (x ∷ xs) h =
      ap (λ ys. x ∷ ys) (remove_at-insert_at to row xs (omega arith))

  insert_at-remove_at :
      (from : ℕ) (row : T) (xs : List T)
      → get_elem? xs from ≡ some row
      → insert_at from row (remove_at from xs) ≡ xs
  unfolding remove_at insert_at
  insert_at-remove_at from row [] h = cc
  insert_at-remove_at zero row (x ∷ []) h = ground arith
  insert_at-remove_at zero row (x ∷ y ∷ xs) h = ground arith
  insert_at-remove_at (suc from) row (x ∷ xs) h =
      ap (λ ys. x ∷ ys) (insert_at-remove_at from row xs h)

  get_elem?-insert_at :
      (to : ℕ) (row : T) (xs : List T)
      → to ≤ length xs
      → get_elem? (insert_at to row xs) to ≡ some row
  unfolding insert_at
  get_elem?-insert_at zero row [] h = refl
  get_elem?-insert_at zero row (x ∷ xs) h = refl
  get_elem?-insert_at (suc to) row [] h = absurd (omega arith)
  get_elem?-insert_at (suc to) row (x ∷ xs) h = get_elem?-insert_at to row xs (omega arith)

  length-insert_at : (to : ℕ) (row : T) (xs : List T) → length (insert_at to row xs) ≡ length xs + 1
  unfolding insert_at
  length-insert_at zero row [] = omega arith
  length-insert_at (suc to) row [] = omega arith
  length-insert_at zero row (x ∷ xs) = omega arith
  length-insert_at (suc to) row (x ∷ xs) = omega (arith, length-insert_at to row xs)

  length-remove_at :
      (from : ℕ) (row : T) (xs : List T)
      → get_elem? xs from ≡ some row
      → length (remove_at from xs) + 1 ≡ length xs
  unfolding remove_at
  length-remove_at from row [] h = cc
  length-remove_at zero row (x ∷ xs) h = omega arith
  length-remove_at (suc from) row (x ∷ xs) h = omega (arith, length-remove_at from row xs h)

  insert_at-perm : (to : ℕ) (row : T) (xs : List T) → Perm (insert_at to row xs) (row ∷ xs)
  unfolding insert_at
  insert_at-perm zero row [] = Perm.refl _
  insert_at-perm (suc to) row [] = Perm.refl _
  insert_at-perm zero row (x ∷ xs) = Perm.refl _
  insert_at-perm (suc to) row (x ∷ xs) =
      Perm.trans (Perm.cons x (insert_at-perm to row xs)) (Perm.swap row x xs)

  -- What a move that is made leaves behind.
  pub record IsMoved (from to : ℕ) (items next : List T) : Type 0 where
    pub in_range : to < length items
    pub same_items : Perm next items
    pub placed : get_elem? next to ≡ get_elem? items from
    pub others : remove_at to next ≡ remove_at from items
    pub undone : move_within to from next ≡ some items

  move_within_refused :
      (from to : ℕ) (items next : List T)
      → get_elem? items from ≡ none
      → move_within from to items ≡ some next
      → ⊥
  unfolding move_within
  move_within_refused from to items next e h = ground arith

  move_within_made :
      (from to : ℕ) (items next : List T) (row : T)
      → get_elem? items from ≡ some row
      → move_within from to items ≡ some next
      → (to < length items) × (insert_at to row (remove_at from items) ≡ next) × (from ≢ to)
  unfolding move_within
  move_within_made from to items next row e h = ground arith

  get_elem?-lt : (xs : List T) (i : ℕ) (row : T) → get_elem? xs i ≡ some row → i < length xs
  get_elem?-lt [] i row h = cc
  get_elem?-lt (x ∷ xs) zero row h = omega arith
  get_elem?-lt (x ∷ xs) (suc i) row h = omega (arith, get_elem?-lt xs i row h)

  move_within_back :
      (from to : ℕ) (items rest : List T) (row : T)
      → get_elem? (insert_at to row rest) to ≡ some row
      → remove_at to (insert_at to row rest) ≡ rest
      → insert_at from row rest ≡ items
      → from < length items
      → length (insert_at to row rest) ≡ length rest + 1
      → length rest + 1 ≡ length items
      → from ≢ to
      → move_within to from (insert_at to row rest) ≡ some items
  unfolding move_within
  move_within_back from to items rest row a b c d e f ne = ground arith

  IsMoved-insert :
      (from to : ℕ) (items : List T) (row : T)
      → get_elem? items from ≡ some row
      → to < length items
      → from ≢ to
      → IsMoved from to items (insert_at to row (remove_at from items))
  unfolding move_within
  IsMoved-insert from to items row e p ne =
      let rest = remove_at from items in
      let short = length-remove_at from row items e in
      let back = insert_at-remove_at from row items e in
      let found = get_elem?-insert_at to row rest (omega (arith, short)) in
      let left = remove_at-insert_at to row rest (omega (arith, short)) in
      record {
        in_range = p;
        same_items =
            Perm.trans (insert_at-perm to row rest)
              (Perm.symm (subst (λ l. Perm l (row ∷ rest)) back (insert_at-perm from row rest)));
        placed = found ∙ sym e;
        others = left;
        undone =
            move_within_back from to items rest row found left back (get_elem?-lt items from row e)
              (length-insert_at to row rest) short ne;
      }

  -- A move that is made gives a list with the same items, in which the row stands at the place that it
  -- was moved to, the other rows keep their order, and the opposite move restores the list.
  pub move_within-IsMoved :
      (from to : ℕ) (items next : List T)
      → move_within from to items ≡ some next
      → IsMoved from to items next
  unfolding move_within
  move_within-IsMoved from to items next h = elim (Option-cases (get_elem? items from)) [
    | inl e ↦ absurd (move_within_refused from to items next e h)
    | inr (row, e) ↦
        let (p, q, ne) = move_within_made from to items next row e h in
        subst (IsMoved from to items) q (IsMoved-insert from to items row e p ne)
  ]
