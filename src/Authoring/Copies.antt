-- ===== src/Authoring/Copies.antt =====
-- hack-builder.tsx, `SolutionsEditor`: there is always a copy, and no language has two.
use codolympics.Prelude.{
  ℕ, zero, suc, ◌+◌, ◌≤◌, ◌≡◌, refl, sym, ap, ◌∙◌, subst, true, false, not, ◌||◌, String, List, [],
  ◌∷◌, ◌++◌, Option, none, some, if_ind, ltb, length, length-append, get_elem?, set, keep-In, In,
  includes, str_eq, str_eq_refl, str_eq_true, Option-cases, Bool-cases, inl, inr, ◌⊎◌, arith,
}
use codolympics.Prelude.Lists.{here, there}
use codolympics.Widgets.Reorder.{remove_at}
use codolympics.Authoring.Platform.{HasNoRepeats}
use codolympics.Authoring.Hack.{
  Copy, Editor, Change, selected, added, removed, in_language, typed, languages_of, spare,
  current_tab, current_copy, added_copy, with_language, with_source, change, changes,
}

-- At least one copy, and no two in one language.
abbrev pub IsOnePerLanguage : List Copy → Type 0
IsOnePerLanguage copies = (1 ≤ length copies) × HasNoRepeats (languages_of copies)

includes-In : (xs : List String) (s : String) → In s xs → includes xs s ≡ true
includes-In [] s m = elim m [ ]
includes-In (x ∷ xs) s (here e) =
    let t : str_eq x s ≡ true = subst (λ z. str_eq x z ≡ true) e (str_eq_refl x) in ground arith
includes-In (x ∷ xs) s (there m) = ground (arith, includes-In xs s m)

not_In : (xs : List String) (s : String) → includes xs s ≡ false → In s xs → ⊥
not_In xs s h m = let t = includes-In xs s m in absurd cc

module _ {A : Type 0} where
  In-snoc : (x y : A) (xs : List A) → In x (xs ++ y ∷ []) → In x xs ⊎ (y ≡ x)
  In-snoc x y [] (here e) = inr e
  In-snoc x y [] (there m) = elim m [ ]
  In-snoc x y (z ∷ xs) (here e) = inl (here e)
  In-snoc x y (z ∷ xs) (there m) = elim (In-snoc x y xs m) [ inl k ↦ inl (there k) | inr e ↦ inr e ]

  snoc-HasNoRepeats :
      (xs : List A) (y : A) → (In y xs → ⊥) → HasNoRepeats xs → HasNoRepeats (xs ++ y ∷ [])
  snoc-HasNoRepeats [] y n h = (λ m. elim m [ ], tt)
  snoc-HasNoRepeats (x ∷ xs) y n (f, h) = (
    λ m. elim (In-snoc x y xs m) [ inl k ↦ f k | inr e ↦ n (here (sym e)) ],
    snoc-HasNoRepeats xs y (λ m. n (there m)) h,
  )

  In-set : (x v : A) (xs : List A) (i : ℕ) → In x (set xs i v) → In x xs ⊎ (v ≡ x)
  In-set x v [] i m = inl m
  In-set x v (y ∷ xs) zero (here e) = inr e
  In-set x v (y ∷ xs) zero (there m) = inl (there m)
  In-set x v (y ∷ xs) (suc i) (here e) = inl (here e)
  In-set x v (y ∷ xs) (suc i) (there m) = elim (In-set x v xs i m) [
    | inl k ↦ inl (there k)
    | inr e ↦ inr e
  ]

  set-HasNoRepeats :
      (xs : List A) (i : ℕ) (v : A) → (In v xs → ⊥) → HasNoRepeats xs → HasNoRepeats (set xs i v)
  set-HasNoRepeats [] i v n h = tt
  set-HasNoRepeats (x ∷ xs) zero v n (f, h) = (λ m. n (there m), h)
  set-HasNoRepeats (x ∷ xs) (suc i) v n (f, h) = (
    λ m. elim (In-set x v xs i m) [ inl k ↦ f k | inr e ↦ n (here (sym e)) ],
    set-HasNoRepeats xs i v (λ m. n (there m)) h,
  )

  set_own : (xs : List A) (i : ℕ) (v : A) → get_elem? xs i ≡ some v → set xs i v ≡ xs
  set_own [] i v e = refl
  set_own (x ∷ xs) zero v e = cc
  set_own (x ∷ xs) (suc i) v e = ap (λ l. x ∷ l) (set_own xs i v e)

languages_of-append :
    (xs ys : List Copy) → languages_of (xs ++ ys) ≡ languages_of xs ++ languages_of ys
languages_of-append [] ys = refl
languages_of-append (x ∷ xs) ys = ap (λ l. x.language ∷ l) (languages_of-append xs ys)

languages_of-set :
    (xs : List Copy) (i : ℕ) (c : Copy)
    → languages_of (set xs i c) ≡ set (languages_of xs) i c.language
languages_of-set [] i c = refl
languages_of-set (x ∷ xs) zero c = refl
languages_of-set (x ∷ xs) (suc i) c = ap (λ l. x.language ∷ l) (languages_of-set xs i c)

get_elem?-languages_of :
    (xs : List Copy) (i : ℕ) (c : Copy)
    → get_elem? xs i ≡ some c
    → get_elem? (languages_of xs) i ≡ some c.language
get_elem?-languages_of [] i c e = cc
get_elem?-languages_of (x ∷ xs) zero c e =
    ap (λ (o : Option Copy). elim o [ none ↦ none | some y ↦ some y.language ]) e
get_elem?-languages_of (x ∷ xs) (suc i) c e = get_elem?-languages_of xs i c e

length-set : (xs : List Copy) (i : ℕ) (c : Copy) → length (set xs i c) ≡ length xs
length-set [] i c = refl
length-set (x ∷ xs) zero c = refl
length-set (x ∷ xs) (suc i) c = ap suc (length-set xs i c)

remove_at-In :
    (s : String) (i : ℕ) (xs : List Copy)
    → In s (languages_of (remove_at i xs))
    → In s (languages_of xs)
unfolding remove_at
remove_at-In s i [] m = m
remove_at-In s zero (x ∷ xs) m = there m
remove_at-In s (suc i) (x ∷ xs) (here e) = here e
remove_at-In s (suc i) (x ∷ xs) (there m) = there (remove_at-In s i xs m)

remove_at-HasNoRepeats :
    (i : ℕ) (xs : List Copy)
    → HasNoRepeats (languages_of xs)
    → HasNoRepeats (languages_of (remove_at i xs))
unfolding remove_at
remove_at-HasNoRepeats i [] h = h
remove_at-HasNoRepeats zero (x ∷ xs) (f, h) = h
remove_at-HasNoRepeats (suc i) (x ∷ xs) (f, h) =
    (λ m. f (remove_at-In x.language i xs m), remove_at-HasNoRepeats i xs h)

length-remove_at_ge : (i : ℕ) (xs : List Copy) → length xs ≤ length (remove_at i xs) + 1
unfolding remove_at
length-remove_at_ge i [] = omega arith
length-remove_at_ge zero (x ∷ xs) = omega arith
length-remove_at_ge (suc i) (x ∷ xs) = omega (arith, length-remove_at_ge i xs)

-- A copy written over by one in the same language, or in a language that none has.
rewritten :
    (xs : List Copy) (i : ℕ) (c d : Copy)
    → get_elem? xs i ≡ some c
    → ((d.language ≡ c.language) ⊎ (includes (languages_of xs) d.language ≡ false))
    → IsOnePerLanguage xs
    → IsOnePerLanguage (set xs i d)
rewritten xs i c d e w (n, h) = (
  omega (arith, length-set xs i d),
  subst HasNoRepeats (sym (languages_of-set xs i d)) (elim w [
    | inl s ↦
        subst HasNoRepeats
          (sym (
            set_own (languages_of xs) i d.language
              (get_elem?-languages_of xs i c e ∙ ap some (sym s))))
          h
    | inr f ↦
        set-HasNoRepeats (languages_of xs) i d.language (not_In (languages_of xs) d.language f) h
  ]),
)

List-cases : (l : List String) → (l ≡ []) ⊎ ((x : String) × (rest : List String) × (l ≡ x ∷ rest))
List-cases [] = inl refl
List-cases (x ∷ rest) = inr (x, rest, refl)

-- A language that may be chosen.
free :
    (l own : String) (others : List String)
    → (str_eq l own || not (includes others l)) ≡ true
    → (l ≡ own) ⊎ (includes others l ≡ false)
free l own others t = elim (Bool-cases (str_eq l own)) [
  | inl y ↦ inl (str_eq_true l own y)
  | inr n ↦ inr (ground (arith, t, n))
]

spare-new :
    (languages : List String) (copies : List Copy) (l : String) (rest : List String)
    → spare languages copies ≡ l ∷ rest
    → includes (languages_of copies) l ≡ false
unfolding spare
spare-new languages copies l rest e =
    let (k, t) =
      keep-In (λ x. not (includes (languages_of copies) x)) l languages
        (subst (In l) (sym e) (here refl)) in
    ground (arith, t)

change-added :
    (languages : List String) (e : Editor)
    → IsOnePerLanguage e.copies
    → IsOnePerLanguage (change languages e added).copies
unfolding change
change-added languages e (n, h) = elim (List-cases (spare languages e.copies)) [
  | inl q ↦ rw (q, change) (n, h)
  | inr (l, rest, q) ↦
      rw (q, change)
        (
          omega (arith, length-append e.copies (added_copy l ∷ [])),
          subst HasNoRepeats (sym (languages_of-append e.copies (added_copy l ∷ []))) (
              snoc-HasNoRepeats (languages_of e.copies) l
                (not_In (languages_of e.copies) l (spare-new languages e.copies l rest q)) h),
        )
]

change-IsOnePerLanguage :
    (languages : List String) (e : Editor) (c : Change)
    → IsOnePerLanguage e.copies
    → IsOnePerLanguage (change languages e c).copies
unfolding change current_copy
change-IsOnePerLanguage languages e (selected i) h = h
change-IsOnePerLanguage languages e added h = change-added languages e h
change-IsOnePerLanguage languages e removed (n, h) =
    if_ind (λ (d : Editor). IsOnePerLanguage d.copies) (ltb 1 (length e.copies)) _ e
      (λ t. (
        ground (arith, t, length-remove_at_ge (current_tab e) e.copies),
        remove_at-HasNoRepeats (current_tab e) e.copies h,
      ))
      (λ _. (n, h))
change-IsOnePerLanguage languages e (in_language l) h = elim (Option-cases (current_copy e)) [
  | inl q ↦ rw (q, change) h
  | inr (c, q) ↦
      rw (q, change)
        (if_ind (λ (d : Editor). IsOnePerLanguage d.copies)
          (str_eq l c.language || not (includes (languages_of e.copies) l)) _ e
          (λ t.
            rewritten e.copies (current_tab e) c (with_language l c) q (free l c.language _ t) h)
          (λ _. h))
]
change-IsOnePerLanguage languages e (typed text) h = elim (Option-cases (current_copy e)) [
  | inl q ↦ rw (q, change) h
  | inr (c, q) ↦
      rw (q, change) (rewritten e.copies (current_tab e) c (with_source text c) q (inl refl) h)
]

-- Whatever is done to the copies of a question, at least one is left and no two are in one language,
-- provided that it was so.
pub changes-IsOnePerLanguage :
    (languages : List String) (e : Editor) (l : List Change)
    → IsOnePerLanguage e.copies
    → IsOnePerLanguage (changes languages e l).copies
unfolding changes
changes-IsOnePerLanguage languages e [] h = h
changes-IsOnePerLanguage languages e (c ∷ rest) h =
    changes-IsOnePerLanguage languages (change languages e c) rest
      (change-IsOnePerLanguage languages e c h)
