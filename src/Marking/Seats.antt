-- ===== src/Marking/Seats.antt =====
-- grade/page.tsx: Next and Previous go by seats.
use codolympics.Prelude.{
  ℕ, zero, suc, ◌+◌, ◌≤◌, ◌≡◌, refl, sym, ap, ◌∙◌, Bool, true, false, String, List, [], ◌∷◌, ◌++◌,
  none, some, if_ind, ltb, length, keep, sort_by, All, arith,
}
use mathlib.Core.List.{append_assoc}
use codolympics.Marking.Queue.{
  Item, Question, Group, Row, Filter, rows_of, numbered, listed, matches, after,
}

module _ {M : Type 0} where
  -- Rows whose seats go up, from a seat on.
  abbrev pub Ascend : ℕ → List (Row M) → Type 0
  Ascend n [] = Unit
  Ascend n (r ∷ rest) = (n ≤ r.seat) × Ascend (r.seat + 1) rest

  Ascend-le : (m n : ℕ) (l : List (Row M)) → m ≤ n → Ascend n l → Ascend m l
  Ascend-le m n [] h a = tt
  Ascend-le m n (r ∷ rest) h (p, a) = (omega arith, a)

  numbered-Ascend :
      (trim : String → String) (q : Question) (n : ℕ) (l : List (Item M))
      → Ascend n (numbered trim q n l)
  unfolding numbered
  numbered-Ascend trim q n [] = tt
  numbered-Ascend trim q n (it ∷ rest) = (omega arith, numbered-Ascend trim q (n + 1) rest)

  keep-Ascend : (p : Row M → Bool) (n : ℕ) (l : List (Row M)) → Ascend n l → Ascend n (keep p l)
  keep-Ascend p n [] a = tt
  keep-Ascend p n (r ∷ rest) (h, a) =
      if_ind (Ascend n) (p r) _ (keep p rest) (λ _. (h, keep-Ascend p (r.seat + 1) rest a))
        (λ _.
          Ascend-le n (r.seat + 1) (keep p rest) (omega arith) (keep-Ascend p (r.seat + 1) rest a))

  listed-Ascend :
      (trim : String → String) (no_later : String → String → Bool) (g : Group M) (filter : Filter)
      → Ascend 1 (listed filter (rows_of trim no_later g))
  unfolding listed rows_of
  listed-Ascend trim no_later g filter =
      keep-Ascend (λ (r : Row M). matches filter r.state) 1 _
        (numbered-Ascend trim g.question 1
          (sort_by (λ (a b : Item M). no_later a.participant_id b.participant_id) g.items))

  -- The answers that Next goes through, at most so many.
  pub walk : ℕ → ℕ → List (Row M) → List (Row M)
  unfolding after
  walk zero seat l = []
  walk (suc n) seat l = elim (after seat l) [ none ↦ [] | some r ↦ r ∷ walk n r.seat l ]

  -- All of them up to a seat.
  abbrev Passed : ℕ → List (Row M) → Type 0
  Passed seat l = All (λ (r : Row M). r.seat ≤ seat) l

  after-Passed :
      (seat : ℕ) (seen rest : List (Row M))
      → Passed seat seen
      → after seat (seen ++ rest) ≡ after seat rest
  unfolding after
  after-Passed seat [] rest h = refl
  after-Passed seat (r ∷ seen) rest (p, h) =
      let no : ltb seat r.seat ≡ false = ground arith in rw no (after-Passed seat seen rest h)

  after_here :
      (seat : ℕ) (r : Row M) (rest : List (Row M))
      → ltb seat r.seat ≡ true
      → after seat (r ∷ rest) ≡ some r
  unfolding after
  after_here seat r rest h = rw h refl

  Passed-snoc :
      (m : ℕ) (seen : List (Row M)) (r : Row M)
      → Passed m seen
      → m ≤ r.seat
      → Passed r.seat (seen ++ r ∷ [])
  Passed-snoc m [] r h k = (omega arith, tt)
  Passed-snoc m (x ∷ seen) r (p, h) k = (omega arith, Passed-snoc m seen r h k)

  walk_found :
      (n seat : ℕ) (l : List (Row M)) (r : Row M)
      → after seat l ≡ some r
      → walk (suc n) seat l ≡ r ∷ walk n r.seat l
  unfolding walk
  walk_found n seat l r e = rw (e, walk) refl

  walk_over : (n seat : ℕ) (l : List (Row M)) → after seat l ≡ none → walk n seat l ≡ []
  unfolding walk
  walk_over zero seat l e = refl
  walk_over (suc n) seat l e = rw (e, walk) refl

  after-nil : (seat : ℕ) (seen : List (Row M)) → Passed seat seen → after seat (seen ++ []) ≡ none
  unfolding after
  after-nil seat seen h = after-Passed seat seen [] h

  walk_rest :
      (n seat : ℕ) (seen rest : List (Row M))
      → Passed seat seen
      → Ascend (seat + 1) rest
      → length rest ≤ n
      → walk n seat (seen ++ rest) ≡ rest
  unfolding walk
  walk_rest zero seat seen [] h a e = refl
  walk_rest zero seat seen (r ∷ rest) h a e = absurd (omega arith)
  walk_rest (suc n) seat seen [] h a e = walk_over (suc n) seat (seen ++ []) (after-nil seat seen h)
  walk_rest (suc n) seat seen (r ∷ rest) h (p, a) e =
      let yes : ltb seat r.seat ≡ true = ground arith in
      let found : after seat (seen ++ r ∷ rest) ≡ some r =
        after-Passed seat seen (r ∷ rest) h ∙ after_here seat r rest yes in
      let next =
        walk_rest n r.seat (seen ++ r ∷ []) rest (Passed-snoc seat seen r h (omega arith)) a
          (omega arith) in
      let whole : walk n r.seat (seen ++ r ∷ rest) ≡ rest =
        ap (λ l. walk n r.seat l) (sym (append_assoc seen (r ∷ []) rest)) ∙ next in
      walk_found n seat (seen ++ r ∷ rest) r found ∙ ap (λ l. r ∷ l) whole

-- Next goes through exactly the answers that are listed, each once, in the order of their seats, whatever
-- the filter; pressed after the last of them it has nowhere to go.
pub walk_all :
    {M : Type 0} (trim : String → String) (no_later : String → String → Bool) (g : Group M)
    (filter : Filter)
    → let l = listed filter (rows_of trim no_later g) in
      (walk (length l) 0 l ≡ l) × (walk (length l + 1) 0 l ≡ l)
walk_all trim no_later g filter =
    let a = listed-Ascend trim no_later g filter in
    (walk_rest _ 0 [] _ tt a (omega arith), walk_rest _ 0 [] _ tt a (omega arith))
