-- ===== src/Desk/Failures.antt =====
-- console.tsx: the case that a finished run opens on.
use codolympics.Prelude.{
  ℕ, suc, ◌≡◌, refl, true, false, List, [], ◌∷◌, Option, none, some, get_elem?, take, or_else,
  str_eq, All, Bool-cases, inl, inr, ◌⊎◌,
}
use codolympics.Desk.Console.{RunOutput, first_failure, opened}

abbrev pub Passes : RunOutput → Type 0
Passes o = str_eq o.verdict "AC" ≡ true

-- The case at `i` failed and those before it passed.
abbrev pub IsFirst : List RunOutput → ℕ → Type 0
IsFirst l i =
    (o : RunOutput) × (get_elem? l i ≡ some o)
    × (str_eq o.verdict "AC" ≡ false)
    × All Passes (take i l)

-- What is found: no failure among them all, or the first.
abbrev Found : List RunOutput → Option ℕ → Type 0
Found l none = All Passes l
Found l (some i) = IsFirst l i

Found-cons :
    (o : RunOutput) (l : List RunOutput) (r : Option ℕ)
    → Passes o
    → Found l r
    → Found (o ∷ l) (elim r [ none ↦ none | some i ↦ some (suc i) ])
Found-cons o l none p h = (p, h)
Found-cons o l (some i) p (f, e, n, h) = (f, e, n, (p, h))

first_failure-Found : (l : List RunOutput) → Found l (first_failure l)
unfolding first_failure
first_failure-Found [] = tt
first_failure-Found (o ∷ l) = elim (Bool-cases (str_eq o.verdict "AC")) [
  | inl t ↦ rw t (Found-cons o l (first_failure l) t (first_failure-Found l))
  | inr f ↦ rw f (o, refl, f, tt)
]

-- A finished run opens on its first failure, and where every case passed the case that was open stays.
pub opened_lem :
    (l : List RunOutput) (which : ℕ)
    → IsFirst l (opened l which) ⊎ (All Passes l × (opened l which ≡ which))
unfolding opened
opened_lem l which = by_result (first_failure l) (first_failure-Found l)
  where
    by_result :
        (r : Option ℕ)
        → Found l r
        → IsFirst l (or_else r which) ⊎ (All Passes l × (or_else r which ≡ which))
    by_result none h = inr (h, refl)
    by_result (some i) h = inl h
