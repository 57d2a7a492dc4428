-- ===== src/Prelude/Sort.antt =====
-- JavaScript's `sort`, which is stable, by a comparison: `le x y` is `compare(x, y) <= 0`.
use mathlib.Core.Path.{◌≡◌}
use mathlib.Core.Logic.{◌↔◌}
use mathlib.Core.Bool.{Bool, true, false}
use mathlib.Core.List.{List, [], ◌∷◌}
use codolympics.Prelude.Tests.{if◌then◌else◌, if_ind}
use codolympics.Prelude.Lists.{All, In, here, there}

module _ {ℓ} {A : Type ℓ} where
  unfoldable pub insert_by : (A → A → Bool) → A → List A → List A
  insert_by le a [] = a ∷ []
  insert_by le a (b ∷ rest) =
      let later = insert_by le a rest in if le a b then a ∷ b ∷ rest else b ∷ later

  unfoldable pub sort_by : (A → A → Bool) → List A → List A
  unfolding insert_by
  sort_by le [] = []
  sort_by le (a ∷ rest) = insert_by le a (sort_by le rest)

  -- Every element is at most each later one.
  abbrev pub IsSorted : (A → A → Bool) → List A → Type ℓ
  IsSorted le [] = Unit
  IsSorted le (a ∷ rest) = All (λ b. le a b ≡ true) rest × IsSorted le rest

module _ {ℓ} {A : Type ℓ} (le : A → A → Bool) where
  insert_by-In : (a b : A) (l : List A) → In b (a ∷ l) → In b (insert_by le a l)
  unfolding insert_by
  insert_by-In a b [] m = m
  insert_by-In a b (c ∷ rest) m =
      if_ind (In b) (le a c) _ _ (λ _. m)
        (λ _. elim m [
          | here e ↦ there (insert_by-In a b rest (here e))
          | there k ↦ elim k [ here e ↦ here e | there j ↦ there (insert_by-In a b rest (there j)) ]
        ])

  In-insert_by : (a b : A) (l : List A) → In b (insert_by le a l) → In b (a ∷ l)
  unfolding insert_by
  In-insert_by a b [] m = m
  In-insert_by a b (c ∷ rest) m =
      if_ind (λ (k : List A). In b k → In b (a ∷ c ∷ rest)) (le a c) _ _ (λ _ n. n)
        (λ _ n. elim n [
          | here e ↦ there (here e)
          | there k ↦ elim (In-insert_by a b rest k) [ here e ↦ here e | there j ↦ there (there j) ]
        ])
        m

  In-sort_by : (b : A) (l : List A) → In b (sort_by le l) → In b l
  unfolding sort_by
  In-sort_by b [] m = m
  In-sort_by b (a ∷ rest) m = elim (In-insert_by a b (sort_by le rest) m) [
    | here e ↦ here e
    | there k ↦ there (In-sort_by b rest k)
  ]

  sort_by-In : (b : A) (l : List A) → In b l → In b (sort_by le l)
  unfolding sort_by
  sort_by-In b [] m = m
  sort_by-In b (a ∷ rest) (here e) = insert_by-In a b (sort_by le rest) (here e)
  sort_by-In b (a ∷ rest) (there k) =
      insert_by-In a b (sort_by le rest) (there (sort_by-In b rest k))

  -- A sort keeps the members.
  pub In-sort_by_iff : (b : A) (l : List A) → In b (sort_by le l) ↔ In b l
  In-sort_by_iff b l = (In-sort_by b l, sort_by-In b l)

  insert_by-All {κ} :
      (P : A → Type κ) (a : A) (l : List A) → P a → All P l → All P (insert_by le a l)
  unfolding insert_by
  insert_by-All P a [] p q = (p, tt)
  insert_by-All P a (c ∷ rest) p (pc, q) =
      if_ind (All P) (le a c) _ _ (λ _. (p, (pc, q))) (λ _. (pc, insert_by-All P a rest p q))

  module _ (total : (x y : A) → le x y ≡ false → le y x ≡ true)
      (trans : (x y z : A) → le x y ≡ true → le y z ≡ true → le x z ≡ true) where
    below-All :
        (x y : A) (l : List A)
        → le x y ≡ true
        → All (λ z. le y z ≡ true) l
        → All (λ z. le x z ≡ true) l
    below-All x y [] h q = tt
    below-All x y (z ∷ l) h (p, q) = (trans x y z h p, below-All x y l h q)

    insert_by-IsSorted : (a : A) (l : List A) → IsSorted le l → IsSorted le (insert_by le a l)
    unfolding insert_by
    insert_by-IsSorted a [] r = (tt, tt)
    insert_by-IsSorted a (c ∷ rest) (q, r) =
        if_ind (IsSorted le) (le a c) _ _ (λ t. ((t, below-All a c rest t q), (q, r)))
          (λ f. (
            insert_by-All (λ b. le c b ≡ true) a rest (total a c f) q,
            insert_by-IsSorted a rest r,
          ))

    -- By a total and transitive comparison, it sorts.
    pub sort_by-IsSorted : (l : List A) → IsSorted le (sort_by le l)
    unfolding sort_by
    sort_by-IsSorted [] = tt
    sort_by-IsSorted (a ∷ rest) = insert_by-IsSorted a _ (sort_by-IsSorted rest)
