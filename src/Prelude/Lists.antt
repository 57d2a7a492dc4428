-- ===== src/Prelude/Lists.antt =====
-- Lists measured and indexed by native numbers, and JavaScript's array methods on them.
use Prim.Native.Nat.{ℕ, zero, suc, ◌+◌, ◌-◌, ◌≤◌, min}
use mathlib.Core.Path.{◌≡◌, refl, ap, sym, subst}
use mathlib.Core.Logic.{◌⊎◌, inl, inr}
use mathlib.Core.Bool.{Bool, true, false, ◌&&◌, ◌||◌}
use mathlib.Core.List.{List, [], ◌∷◌, ◌++◌, map}
use mathlib.Core.Option.{Option, none, some}
use native.Mathlib.Omega.{arith}
use codolympics.Prelude.Tests.{if◌then◌else◌, if_ind}

module _ {ℓ} {A : Type ℓ} where
  abbrev pub length : List A → ℕ
  length [] = 0
  length (x ∷ xs) = suc (length xs)

  abbrev pub get_elem? : List A → ℕ → Option A
  get_elem? [] i = none
  get_elem? (x ∷ xs) zero = some x
  get_elem? (x ∷ xs) (suc i) = get_elem? xs i

  -- A write out of bounds changes nothing.
  abbrev pub set : List A → ℕ → A → List A
  set [] i v = []
  set (x ∷ xs) zero v = v ∷ xs
  set (x ∷ xs) (suc i) v = x ∷ set xs i v

  abbrev pub take : ℕ → List A → List A
  take zero xs = []
  take (suc n) [] = []
  take (suc n) (x ∷ xs) = x ∷ take n xs

  abbrev pub drop : ℕ → List A → List A
  drop zero xs = xs
  drop (suc n) [] = []
  drop (suc n) (x ∷ xs) = drop n xs

  -- `xs.filter(p)`.
  abbrev pub keep : (A → Bool) → List A → List A
  keep p [] = []
  keep p (x ∷ xs) = let rest = keep p xs in if p x then x ∷ rest else rest

  -- `xs.find(p)`.
  abbrev pub find : (A → Bool) → List A → Option A
  find p [] = none
  find p (x ∷ xs) = if p x then some x else find p xs

  -- `xs.some(p)` and `xs.every(p)`.
  abbrev pub any : (A → Bool) → List A → Bool
  any p [] = false
  any p (x ∷ xs) = p x || any p xs

  abbrev pub every : (A → Bool) → List A → Bool
  every p [] = true
  every p (x ∷ xs) = p x && every p xs

  -- A predicate that holds of every element.
  abbrev pub All {κ} : (A → Type κ) → List A → Type κ
  All P [] = Unit
  All P (x ∷ xs) = P x × All P xs

  -- An element occurs in a list.
  pub data In (a : A) : List A → Type ℓ where
    here : {x : A} {xs : List A} → x ≡ a → In a (x ∷ xs)
    there : {x : A} {xs : List A} → In a xs → In a (x ∷ xs)

module _ {ℓ} {A : Type ℓ} where
  pub length-append : (xs ys : List A) → length (xs ++ ys) ≡ length xs + length ys
  length-append [] ys = omega arith
  length-append (x ∷ xs) ys = omega (arith, length-append xs ys)

  pub take-append-drop : (n : ℕ) (xs : List A) → take n xs ++ drop n xs ≡ xs
  take-append-drop zero xs = refl
  take-append-drop (suc n) [] = refl
  take-append-drop (suc n) (x ∷ xs) = ap (λ ys. x ∷ ys) (take-append-drop n xs)

  pub length-take : (n : ℕ) (xs : List A) → length (take n xs) ≡ min n (length xs)
  length-take zero xs = omega arith
  length-take (suc n) [] = omega arith
  length-take (suc n) (x ∷ xs) = omega (arith, length-take n xs)

  pub length-drop : (n : ℕ) (xs : List A) → length (drop n xs) ≡ length xs - n
  length-drop zero xs = omega arith
  length-drop (suc n) [] = omega arith
  length-drop (suc n) (x ∷ xs) = omega (arith, length-drop n xs)

  pub length-keep-le : (p : A → Bool) (xs : List A) → length (keep p xs) ≤ length xs
  length-keep-le p [] = omega arith
  length-keep-le p (x ∷ xs) = ground (arith, length-keep-le p xs)

  pub All-append {κ} : (P : A → Type κ) (xs ys : List A) → All P xs → All P ys → All P (xs ++ ys)
  All-append P [] ys h k = k
  All-append P (x ∷ xs) ys (p, h) k = (p, All-append P xs ys h k)

  pub In-keep : (p : A → Bool) (a : A) (xs : List A) → In a xs → p a ≡ true → In a (keep p xs)
  In-keep p a [] m q = elim m [ ]
  In-keep p a (x ∷ xs) (here e) q = rw (subst (λ y. p y ≡ true) (sym e) q) (here e)
  In-keep p a (x ∷ xs) (there m) q =
      if_ind (In a) (p x) _ _ (λ _. there (In-keep p a xs m q)) (λ _. In-keep p a xs m q)

  kept_case :
      (a x : A) (xs : List A) (b : Bool)
      → In a (if b then x ∷ xs else xs)
      → ((b ≡ true) × (x ≡ a)) ⊎ In a xs
  kept_case a x xs true (here q) = inl (refl, q)
  kept_case a x xs true (there m) = inr m
  kept_case a x xs false m = inr m

  pub keep-In : (p : A → Bool) (a : A) (xs : List A) → In a (keep p xs) → In a xs × (p a ≡ true)
  keep-In p a [] m = elim m [ ]
  keep-In p a (x ∷ xs) m = elim (kept_case a x (keep p xs) (p x) m) [
    | inl (t, e) ↦ (here e, subst (λ y. p y ≡ true) e t)
    | inr k ↦ let (h, q) = keep-In p a xs k in (there h, q)
  ]

module _ {A B : Type 0} (f : A → B) where
  pub In-map : (a : A) (l : List A) → In a l → In (f a) (map f l)
  In-map a [] m = elim m [ ]
  In-map a (x ∷ l) (here e) = here (ap f e)
  In-map a (x ∷ l) (there m) = there (In-map a l m)

  pub map-In : (b : B) (l : List A) → In b (map f l) → (a : A) × In a l × (f a ≡ b)
  map-In b [] m = elim m [ ]
  map-In b (x ∷ l) (here e) = (x, here refl, e)
  map-In b (x ∷ l) (there m) = let (a, k, e) = map-In b l m in (a, there k, e)

pub In-append_left : {A : Type 0} (a : A) (l k : List A) → In a l → In a (l ++ k)
In-append_left a [] k m = elim m [ ]
In-append_left a (x ∷ l) k (here e) = here e
In-append_left a (x ∷ l) k (there m) = there (In-append_left a l k m)

pub In-append_right : {A : Type 0} (a : A) (l k : List A) → In a k → In a (l ++ k)
In-append_right a [] k m = m
In-append_right a (x ∷ l) k m = there (In-append_right a l k m)

pub In-append_case : {A : Type 0} (a : A) (l k : List A) → In a (l ++ k) → In a l ⊎ In a k
In-append_case a [] k m = inr m
In-append_case a (x ∷ l) k (here e) = inl (here e)
In-append_case a (x ∷ l) k (there m) = elim (In-append_case a l k m) [
  | inl h ↦ inl (there h)
  | inr h ↦ inr h
]
