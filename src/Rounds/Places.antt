-- ===== src/Rounds/Places.antt =====
-- section-a.tsx: which question the page shows.
use codolympics.Prelude.{
  ◌&&◌, ℕ, zero, suc, ◌+◌, ◌*◌, ◌/◌, ◌≤◌, ◌<◌, ◌≡◌, refl, sym, subst, Bool, false, not, List, [],
  ◌∷◌, Option, none, some, leb, leb→le, ◌==◌, ℤ, pos, negsuc, length, get_elem?, All, if_ind, arith,
}
use native.Mathlib.Nat.{div-lt_iff_lt-mul, le-div_iff_mul-le}
use codolympics.Rounds.Puzzles.{
  Data, Page, mounted, total, Direction, moved, clamp, go, Event, loaded, load_failed, arrow,
  stepped, picked, finish_asked, finish_cancelled, finish_done, finish_refused, can_step, is_locked,
  is_drawn, step, steps, at, question, percent,
}

-- The place is one of the page's questions.
abbrev pub InRange : ℕ → ℤ → Type 0
InRange n (pos c) = c < n
InRange n (negsuc c) = ⊥

-- Any data that the event brings has `n` questions.
abbrev pub Keeps : ℕ → Event → Type 0
Keeps n (loaded d) = length d.questions ≡ n
Keeps n _ = Unit

clamp-InRange : (n c : ℕ) → 0 < n → InRange n (clamp n c)
unfolding clamp
clamp-InRange zero c h = omega arith
clamp-InRange (suc n) c h =
    if_ind (λ k. k < suc n) (leb c n) c n (λ t. let k = leb→le c n t in omega arith)
      (λ _. omega arith)

abbrev Stands : ℕ → Page → Type 0
Stands n p = (total p ≡ n) × InRange n p.current

step-Stands :
    (finished : Bool) (n : ℕ) (p : Page) (e : Event)
    → 0 < n
    → Stands n p
    → Keeps n e
    → Stands n (step finished p e)
unfolding step go total
step-Stands finished n p (loaded d) h (t, i) k = (k, i)
step-Stands finished n p (load_failed why) h (t, i) k = (t, i)
step-Stands finished n p (arrow typing d) h (t, i) k =
    if_ind (Stands n) typing p _ (λ _. (t, i))
      (λ _. (t, subst (λ m. InRange n (clamp m (moved d p.current))) (sym t) (clamp-InRange n _ h)))
step-Stands finished n p (stepped d) h (t, i) k =
    if_ind (Stands n) (can_step p d) _ p
      (λ _. (t, subst (λ m. InRange n (clamp m (moved d p.current))) (sym t) (clamp-InRange n _ h)))
      (λ _. (t, i))
step-Stands finished n p (picked j) h (t, i) k =
    if_ind (Stands n) (is_drawn p && leb (j + 1) (total p)) _ p
      (λ b. (t, ground (arith, leb→le (j + 1) (total p)))) (λ _. (t, i))
step-Stands finished n p finish_asked h (t, i) k =
    if_ind (Stands n) (is_drawn p && not (is_locked finished p)) _ p (λ _. (t, i)) (λ _. (t, i))
step-Stands finished n p finish_cancelled h (t, i) k = (t, i)
step-Stands finished n p finish_done h (t, i) k = (t, i)
step-Stands finished n p finish_refused h (t, i) k = (t, i)

steps-Stands :
    (finished : Bool) (n : ℕ) (p : Page) (l : List Event)
    → 0 < n
    → Stands n p
    → All (Keeps n) l
    → Stands n (steps finished p l)
unfolding steps
steps-Stands finished n p [] h s k = s
steps-Stands finished n p (e ∷ rest) h s (k, ks) =
    steps-Stands finished n (step finished p e) rest h (step-Stands finished n p e h s k) ks

get_elem?-lt : {A : Type 0} (l : List A) (n : ℕ) → n < length l → (a : A) × (get_elem? l n ≡ some a)
get_elem?-lt [] n h = absurd (omega arith)
get_elem?-lt (x ∷ l) zero h = (x, refl)
get_elem?-lt (x ∷ l) (suc n) h = get_elem?-lt l n (omega arith)

-- From a question that is there, whatever keys, buttons and reads follow, a question is on the screen,
-- as long as the reads bring as many questions as there were.
pub always_a_question :
    (finished : Bool) (p : Page) (l : List Event)
    → InRange (total p) p.current
    → 0 < total p
    → All (Keeps (total p)) l
    → (q : ℕ) × (question (steps finished p l) ≡ some q)
unfolding question total
always_a_question finished p l i h k =
    let (t, j) = steps-Stands finished (total p) p l h (refl, i) k in
    shows (steps finished p l).data_read (steps finished p l).current
      (subst (λ n. InRange n (steps finished p l).current) (sym t) j)
  where
    shows :
        (read : Option Data) (c : ℤ)
        → InRange (elim read [ none ↦ 0 | some d ↦ length d.questions ]) c
        → (q : ℕ) × (elim read [ none ↦ none | some d ↦ at d.questions c ] ≡ some q)
    shows none (pos c) j = absurd (omega arith)
    shows none (negsuc c) j = elim j [ ]
    shows (some d) (pos c) j = get_elem?-lt d.questions c j
    shows (some d) (negsuc c) j = elim j [ ]

-- An arrow key before the data has come moves to the place -1: the page then shows no question, though
-- the data has some, until a button or a key moves it again.
pub key_before_load :
    (finished : Bool) (d : Direction) (read : Data)
    → let p = steps finished mounted (arrow false d ∷ loaded read ∷ []) in
      (p.current ≡ negsuc 0) × (question p ≡ none) × (p.data_read ≡ some read)
unfolding steps step go clamp total mounted question
key_before_load finished d read = (refl, refl, refl)

at_most : (a n : ℕ) → 0 < n → a ≤ n → (200 * a + n) / (2 * n) ≤ 100
at_most a n p h =
    let k =
      (div-lt_iff_lt-mul {k = 2 * n} {x = 200 * a + n} {y = 101} (omega arith)).1 (omega arith) in
    omega arith

whole : (n : ℕ) → 0 < n → (200 * n + n) / (2 * n) ≡ 100
whole n p =
    let k =
      (div-lt_iff_lt-mul {k = 2 * n} {x = 200 * n + n} {y = 101} (omega arith)).1 (omega arith) in
    let j =
      (le-div_iff_mul-le {k = 2 * n} {x = 100} {y = 200 * n + n} (omega arith)).1 (omega arith) in
    omega arith

-- The share of the answered questions is a percentage, all of it when they all are.
percent_lem :
    (answered n : ℕ) → answered ≤ n → 0 < n → (percent answered n ≤ 100) × (percent n n ≡ 100)
unfolding percent
percent_lem answered n h p = (
  if_ind (λ k. k ≤ 100) (n == 0) _ _ (λ _. omega arith) (λ _. at_most answered n p h),
  if_ind (λ k. k ≡ 100) (n == 0) _ _ (λ e. ground (arith, e)) (λ _. whole n p),
)
