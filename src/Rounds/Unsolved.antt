-- ===== src/Rounds/Unsolved.antt =====
-- coding-round.tsx: the order of the owned questions, and the next one to solve.
use codolympics.Prelude.{
  ◌≤◌, ◌<◌, ◌≡◌, refl, ap, subst, ◌↔◌, ◌⊎◌, inl, inr, Bool, true, false, not, String, List, [], ◌∷◌,
  Option, none, some, str_eq_true, Bool-cases, keep, find, length, In, All, IsSorted,
  In-sort_by_iff, sort_by-IsSorted, arith,
}
use codolympics.Prelude.Lists.{here, there}
use codolympics.Rounds.Coding.{Owned, rank, at_or_before, mine, is_solved, next, points, figures}

rank-solved : (q : Owned) → is_solved q ≡ true → rank q.progress ≡ 3
unfolding rank is_solved
rank-solved q s = ap rank (str_eq_true q.progress "solved" s)

rank-unsolved : (q : Owned) → is_solved q ≡ false → rank q.progress < 3
unfolding rank is_solved
rank-unsolved q s = ground arith

below_solved :
    (q x : Owned) → is_solved q ≡ false → is_solved x ≡ true → rank q.progress ≤ rank x.progress
below_solved q x u s = let h = rank-solved x s in let k = rank-unsolved q u in omega arith

ap_le : (x r : Owned) → x ≡ r → rank x.progress ≤ rank r.progress
ap_le x r e = let h = ap (λ (y : Owned). rank y.progress) e in omega arith

All-In : (P : Owned → Type 0) (q : Owned) (l : List Owned) → All P l → In q l → P q
All-In P q [] a m = elim m [ ]
All-In P q (x ∷ l) (p, a) (here e) = subst P e p
All-In P q (x ∷ l) (p, a) (there m) = All-In P q l a m

at_or_before-rank :
    (title_le : String → String → Bool) (a b : Owned)
    → at_or_before title_le a b ≡ true
    → rank a.progress ≤ rank b.progress
unfolding at_or_before
at_or_before-rank title_le a b h = ground arith

-- What is said of the first unsolved question of a list.
abbrev pub Leads : List Owned → Option Owned → Type 0
Leads l o =
    ((o ≡ none) × ((q : Owned) → In q l → is_solved q ≡ true))
    ⊎ ((q : Owned) × (o ≡ some q)
        × In q l
        × (is_solved q ≡ false)
        × ((r : Owned) → In r l → rank q.progress ≤ rank r.progress))

Leads-after :
    (x : Owned) (l : List Owned) (o : Option Owned)
    → is_solved x ≡ true
    → Leads l o
    → Leads (x ∷ l) o
Leads-after x l o s (inl (n, a)) =
    inl (n, λ q m. elim m [ here e ↦ subst (λ y. is_solved y ≡ true) e s | there k ↦ a q k ])
Leads-after x l o s (inr (q, e, m, u, a)) = inr (
  q,
  e,
  there m,
  u,
  λ r k. elim k [
    | here d ↦ subst (λ (y : Owned). rank q.progress ≤ rank y.progress) d (below_solved q x u s)
    | there j ↦ a r j
  ],
)

first_unsolved :
    (title_le : String → String → Bool) (l : List Owned)
    → IsSorted (at_or_before title_le) l
    → Leads l (find (λ q. not (is_solved q)) l)
first_unsolved title_le [] s = inl (refl, λ q m. elim m [ ])
first_unsolved title_le (x ∷ l) (a, s) = elim (Bool-cases (is_solved x)) [
  | inl t ↦ rw t (Leads-after x l _ t (first_unsolved title_le l s))
  | inr f ↦ rw f (
      inr (
        x,
        refl,
        here refl,
        f,
        λ r m. elim m [
          | here e ↦ ap_le x r e
          | there k ↦
              at_or_before-rank title_le x r
                (All-In (λ b. at_or_before title_le x b ≡ true) r l a k)
        ],
      ))
]

module _ (title_le : String → String → Bool)
    (title_total : (a b : String) → title_le a b ≡ false → title_le b a ≡ true)
    (title_trans : (a b c : String)
      → title_le a b ≡ true
      → title_le b c ≡ true
      → title_le a c ≡ true) where
  at_or_before_total :
      (a b : Owned) → at_or_before title_le a b ≡ false → at_or_before title_le b a ≡ true
  unfolding at_or_before
  at_or_before_total a b h = ground (arith, title_total a.title b.title)

  at_or_before_trans :
      (a b c : Owned)
      → at_or_before title_le a b ≡ true
      → at_or_before title_le b c ≡ true
      → at_or_before title_le a c ≡ true
  unfolding at_or_before
  at_or_before_trans a b c h k = ground (arith, title_trans a.title b.title c.title)

  -- What is left to do comes first: the list shown has the questions owned, each before those of a later
  -- stage of progress, and by title within a stage.
  mine-IsSorted :
      (l : List Owned)
      → IsSorted (at_or_before title_le) (mine title_le l)
        × ((q : Owned) → In q (mine title_le l) ↔ In q l)
  unfolding mine
  mine-IsSorted l = (
    sort_by-IsSorted (at_or_before title_le) at_or_before_total at_or_before_trans l,
    λ q. In-sort_by_iff (at_or_before title_le) q l,
  )

  -- By an order of titles that is total and transitive, the question that the page says to solve
  -- next is owned, unsolved, and no further on than any other that is owned; it is missing exactly
  -- when every owned question is solved.
  pub next_lem : (l : List Owned) → Leads l (next title_le l)
  unfolding next mine
  next_lem l =
      let (s, m) = mine-IsSorted l in same_members m (first_unsolved title_le (mine title_le l) s)
    where
      same_members :
          {o : Option Owned}
          → ((q : Owned) → In q (mine title_le l) ↔ In q l)
          → Leads (mine title_le l) o
          → Leads l o
      same_members m (inl (n, a)) = inl (n, λ q k. a q ((m q).1 k))
      same_members m (inr (q, e, k, u, a)) = inr (q, e, (m q).0 k, u, λ r j. a r ((m r).1 j))

-- Keeping the solved ones keeps at most the points, and all of them when it keeps all the questions.
points-keep :
    (l : List Owned)
    → (length (keep is_solved l) ≤ length l)
      × (points (keep is_solved l) ≤ points l)
      × ((length (keep is_solved l) < length l) ⊎ (points (keep is_solved l) ≡ points l))
unfolding points
points-keep [] = (omega arith, omega arith, inr refl)
points-keep (x ∷ l) = ground (arith, points-keep l)

-- The points earned are at most those possible, and all of them when the page calls the round complete.
figures_lem :
    (title_le : String → String → Bool) (l : List Owned)
    → let f = figures title_le l in
      (f.solved ≤ f.owned)
      × (f.earned ≤ f.possible)
      × ((f.is_complete ≡ false) ⊎ (f.earned ≡ f.possible))
unfolding figures
figures_lem title_le l = ground (arith, points-keep (mine title_le l))
