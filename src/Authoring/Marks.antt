-- ===== src/Authoring/Marks.antt =====
-- puzzle-builder.tsx: an answer key is a list of positions, which edits of the options do not follow.
use codolympics.Prelude.{
  ℕ, zero, suc, ◌≤◌, ◌<◌, ◌≡◌, ◌≢◌, refl, sym, ap, ◌∙◌, Bool, true, false, String, List, [], ◌∷◌,
  none, some, if◌then◌else◌, leb, length, get_elem?, set, str_eq, sort_by, subst, In,
  In-sort_by_iff, All, arith,
}
use codolympics.Widgets.ListEditor.{swap}
use codolympics.Authoring.Platform.{Platform, clean}
use codolympics.Authoring.Puzzle.{
  Form, Key, to_payload, config_of, key_of, is_auto, is_multi, is_mcq,
}
use codolympics.Authoring.Editing.{edit_options, marked}

module _ {A : Type 0} where
  get_elem?-set_same :
      (xs : List A) (i : ℕ) (v : A) → i < length xs → get_elem? (set xs i v) i ≡ some v
  get_elem?-set_same [] i v h = absurd (omega arith)
  get_elem?-set_same (x ∷ xs) zero v h = refl
  get_elem?-set_same (x ∷ xs) (suc i) v h = get_elem?-set_same xs i v (omega arith)

  get_elem?-set_other :
      (xs : List A) (i j : ℕ) (v : A) → i ≢ j → get_elem? (set xs i v) j ≡ get_elem? xs j
  get_elem?-set_other [] i j v h = refl
  get_elem?-set_other (x ∷ xs) zero zero v h = absurd (h refl)
  get_elem?-set_other (x ∷ xs) zero (suc j) v h = refl
  get_elem?-set_other (x ∷ xs) (suc i) zero v h = refl
  get_elem?-set_other (x ∷ xs) (suc i) (suc j) v h =
      get_elem?-set_other xs i j v (λ e. h (ap suc e))

  get_elem?-length : (xs : List A) (i : ℕ) (v : A) → get_elem? xs i ≡ some v → i < length xs
  get_elem?-length [] i v h = absurd cc
  get_elem?-length (x ∷ xs) zero v h = omega arith
  get_elem?-length (x ∷ xs) (suc i) v h = omega (arith, get_elem?-length xs i v h)

  set-All : (P : A → Type 0) (xs : List A) (i : ℕ) (v : A) → P v → All P xs → All P (set xs i v)
  set-All P [] i v p h = tt
  set-All P (x ∷ xs) zero v p (q, h) = (p, h)
  set-All P (x ∷ xs) (suc i) v p (q, h) = (q, set-All P xs i v p h)

  get_elem?-All :
      (P : A → Type 0) (xs : List A) (i : ℕ) (v : A) → All P xs → get_elem? xs i ≡ some v → P v
  get_elem?-All P [] i v h e = absurd cc
  get_elem?-All P (x ∷ xs) zero v (p, h) e = subst P some-is p
    where
      some-is : x ≡ v
      some-is = cc
  get_elem?-All P (x ∷ xs) (suc i) v (p, h) e = get_elem?-All P xs i v h e

-- A line that is neither blank nor padded.
abbrev pub IsLine : (trim : String → String) → String → Type 0
IsLine trim s = (trim s ≡ s) × (str_eq s "" ≡ false)

clean-IsLine :
    (trim : String → String) (xs : List String) → All (IsLine trim) xs → clean trim xs ≡ xs
unfolding clean
clean-IsLine trim [] h = refl
clean-IsLine trim (x ∷ xs) ((t, b), h) = rw t (rw b (ap (λ l. x ∷ l) (clean-IsLine trim xs h)))

swap-set :
    {A : Type 0} (i j : ℕ) (xs : List A) (a b : A)
    → get_elem? xs i ≡ some a
    → get_elem? xs j ≡ some b
    → swap i j xs ≡ set (set xs i b) j a
unfolding swap
swap-set i j xs a b p q = rw (p, swap) (rw (q, swap) refl)

marked_of :
    {F : Type 0} (js : Platform F) (f : Form F) (i : ℕ)
    → f.key_option ≡ some i
    → All (IsLine js.trim) f.options
    → marked js f ≡ get_elem? f.options i
unfolding marked
marked_of js f i k h = rw (k, marked) (ap (λ l. get_elem? l i) (clean-IsLine js.trim f.options h))

swap_at :
    {A : Type 0} (i j : ℕ) (xs : List A) (a b : A)
    → get_elem? xs i ≡ some a
    → get_elem? xs j ≡ some b
    → i ≢ j
    → get_elem? (swap i j xs) i ≡ some b
swap_at i j xs a b p q n =
    ap (λ l. get_elem? l i) (swap-set i j xs a b p q)
    ∙ (get_elem?-set_other (set xs i b) j i a (λ e. n (sym e))
        ∙ get_elem?-set_same xs i b (get_elem?-length xs i a p))

-- Where the option marked as correct changes places with another one, the mark stays at its position
-- and so is on that other option, provided that no option is blank or padded.
pub mark_left_behind :
    {F : Type 0} (js : Platform F) (f : Form F) (i j : ℕ) (right wrong : String)
    → f.key_option ≡ some i
    → All (IsLine js.trim) f.options
    → get_elem? f.options i ≡ some right
    → get_elem? f.options j ≡ some wrong
    → i ≢ j
    → (marked js f ≡ some right) × (marked js (edit_options (swap i j f.options) f) ≡ some wrong)
unfolding edit_options
mark_left_behind js f i j right wrong k lines p q n =
    let kept : All (IsLine js.trim) (swap i j f.options) =
      subst (All (IsLine js.trim)) (sym (swap-set i j f.options right wrong p q)) (
        set-All (IsLine js.trim) _ j right
          (get_elem?-All (IsLine js.trim) f.options i right lines p)
          (set-All (IsLine js.trim) f.options i wrong
            (get_elem?-All (IsLine js.trim) f.options j wrong lines q) lines)) in
    (
      marked_of js f i k lines ∙ p,
      marked_of js (edit_options (swap i j f.options) f) i k kept
          ∙ swap_at i j f.options right wrong p q n,
    )

under : {A : Type 0} {b : Bool} {x : A} → b ≡ true → (if b then some x else none) ≡ some x
under t = rw t refl

-- Where several options may be correct, every position that is marked is sent, also one at which there
-- is no option any more.
pub stale_mark_sent :
    {F : Type 0} (js : Platform F) (f : Form F) (reason : String) (i : ℕ)
    → is_auto f.grading ≡ true
    → is_multi f.kind ≡ true
    → In i f.key_options
    → length (clean js.trim f.options) ≤ i
    → (k : Key F) × (l : List String) × (o : List ℕ) × ((to_payload js f reason).answer_key
        ≡ some k)
      × ((to_payload js f reason).config.options ≡ some l)
      × (k.options ≡ some o)
      × In i o
      × (length l ≤ i)
unfolding to_payload key_of config_of is_mcq
stale_mark_sent js f reason i a m h n = (
  key_of js f,
  clean js.trim f.options,
  sort_by leb f.key_options,
  under a,
  under (ground (arith, m)),
  under m,
  (In-sort_by_iff leb i f.key_options).1 h,
  n,
)
