-- ===== src/Authoring/Platform.antt =====
-- What the authoring pages of web/src/components/admin use of JavaScript: its numbers, `trim`, regular
-- expressions, and `new Set(xs)`.
use codolympics.Prelude.{
  ℕ, suc, ◌≤◌, ◌≡◌, refl, sym, subst, Bool, true, false, String, List, [], ◌∷◌, Option, none, some,
  if◌then◌else◌, str_eq, length, any, All, In, arith,
}
use codolympics.Prelude.Lists.{here, there}

-- `Number(s)`, `String(x)`, `Number.isInteger`, `Number.isNaN`, `<` and the literals; `s.trim()`;
-- whether `new RegExp(s)` is accepted; `/def\s+check\s*\(/.test(s)`.
pub record Platform (F : Type 0) : Type 0 where
  pub parse : String → F
  pub print : F → String
  pub is_integer : F → Bool
  pub is_nan : F → Bool
  pub below : F → F → Bool
  pub literal : ℕ → F
  pub trim : String → String
  pub is_pattern : String → Bool
  pub defines_check : String → Bool

-- What `trim` and `String` are documented to do.
pub record Documented {F : Type 0} (js : Platform F) : Type 0 where
  pub trim_again : (s : String) → js.trim (js.trim s) ≡ js.trim s
  pub trim_empty : js.trim "" ≡ ""
  pub print_some : (x : F) → str_eq (js.print x) "" ≡ false

-- `xs.map((x) => x.trim()).filter(Boolean)`.
unfoldable pub clean : (trim : String → String) → List String → List String
clean trim [] = []
clean trim (x ∷ xs) = let rest = clean trim xs in if str_eq (trim x) "" then rest else trim x ∷ rest

-- `s || null`.
unfoldable pub or_null : String → Option String
or_null s = if str_eq s "" then none else some s

-- `xs?.length ? xs : d`.
unfoldable pub or_blank : List String → Option (List String) → List String
or_blank d none = d
or_blank d (some []) = d
or_blank d (some (x ∷ xs)) = x ∷ xs

-- `const out = []`, an `if (b) out.push(text)` for each test with its text, and `return out`.
unfoldable pub reported : {A : Type 0} → List (Bool × A) → List A
reported [] = []
reported ((b, text) ∷ rest) = let later = reported rest in if b then text ∷ later else later

module _ {A : Type 0} (same : A → A → Bool) where
  -- The members of `new Set(xs)`.
  unfoldable pub set_of : List A → List A
  set_of [] = []
  set_of (x ∷ xs) = let rest = set_of xs in if any (λ y. same x y) xs then rest else x ∷ rest

abbrev pub HasNoRepeats {ℓ} : {A : Type ℓ} → List A → Type ℓ
HasNoRepeats [] = Unit
HasNoRepeats (x ∷ xs) = (In x xs → ⊥) × HasNoRepeats xs

-- Nothing is reported where every test fails.
pub reported-nil :
    {A : Type 0} (l : List (Bool × A)) → reported l ≡ [] → All (λ (t : Bool × A). t.0 ≡ false) l
unfolding reported
reported-nil [] h = tt
reported-nil ((true, text) ∷ rest) h = absurd cc
reported-nil ((false, text) ∷ rest) h = (refl, reported-nil rest h)

module _ {A : Type 0} (same : A → A → Bool) (reflexive : (x : A) → same x x ≡ true) where
  any-In : (x : A) (xs : List A) → In x xs → any (λ y. same x y) xs ≡ true
  any-In x [] m = elim m [ ]
  any-In x (y ∷ xs) (here e) =
      let t : same x y ≡ true = subst (λ z. same x z ≡ true) (sym e) (reflexive x) in ground arith
  any-In x (y ∷ xs) (there m) = ground (arith, any-In x xs m)

  length-set_of : (xs : List A) → length (set_of same xs) ≤ length xs
  unfolding set_of
  length-set_of [] = omega arith
  length-set_of (x ∷ xs) = ground (arith, length-set_of xs)

  member_case : (b : Bool) (n : ℕ) (k : ℕ) → (if b then n else suc n) ≡ suc k → n ≤ k → b ≡ false
  member_case true n k h m = absurd (omega arith)
  member_case false n k h m = refl

  -- A list as long as its set has no repeats.
  pub set_of-HasNoRepeats : (xs : List A) → length (set_of same xs) ≡ length xs → HasNoRepeats xs
  unfolding set_of
  set_of-HasNoRepeats [] h = tt
  set_of-HasNoRepeats (x ∷ xs) h =
      let new : any (λ y. same x y) xs ≡ false = ground (arith, length-set_of xs) in
      (λ m. let old = any-In x xs m in absurd cc, set_of-HasNoRepeats xs (ground (arith, new)))
