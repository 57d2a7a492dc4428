-- ===== src/Widgets/Answers.antt =====
-- list-editor.tsx and puzzle-card.tsx: what the list answers keep true.
use codolympics.Prelude.{
  ℕ, zero, suc, ◌+◌, ◌≤◌, ◌<◌, ◌≡◌, ◌≢◌, refl, ap, ◌∙◌, subst, Bool, true, false, ◌||◌, String,
  List, [], ◌∷◌, ◌++◌, arith, ◌==◌, length, any, includes, str_eq, length-append, str_eq_refl,
}
use codolympics.Widgets.ListEditor.{is_distinct, identity_from, shown_order, accepted, add_entry}

length-identity_from : (start n : ℕ) → length (identity_from start n) ≡ n
unfolding identity_from
length-identity_from start zero = refl
length-identity_from start (suc n) = ap suc (length-identity_from (start + 1) n)

any-identity_from : (x start n : ℕ) → x < start → any (λ y. y == x) (identity_from start n) ≡ false
unfolding identity_from
any-identity_from x start zero h = refl
any-identity_from x start (suc n) h = ground (arith, any-identity_from x (start + 1) n)

identity_from-is_distinct : (start n : ℕ) → is_distinct (identity_from start n) ≡ true
unfolding is_distinct identity_from
identity_from-is_distinct start zero = refl
identity_from-is_distinct start (suc n) = ground (
  arith,
  any-identity_from start (start + 1) n (omega arith),
  identity_from-is_distinct (start + 1) n,
)

-- Whatever was saved as the answer, the order shown names `n` different entries.
shown_order_lem :
    (n : ℕ) (value : List ℕ)
    → (length (shown_order n value) ≡ n) × (is_distinct (shown_order n value) ≡ true)
unfolding shown_order
shown_order_lem n value = ground (arith, length-identity_from 0 n, identity_from-is_distinct 0 n)

includes-append :
    (xs : List String) (s t : String) → includes (xs ++ s ∷ []) t ≡ (includes xs t || str_eq s t)
includes-append [] s t = ground arith
includes-append (x ∷ xs) s t = ground (arith, includes-append xs s t)

add_entry_accepted :
    (max : ℕ) (check : String → Bool) (value next : List String) (s : String)
    → add_entry max check value s ≡ accepted next
    → (next ≡ value ++ s ∷ [])
      × (str_eq s "" ≡ false)
      × (check s ≡ true)
      × (includes value s ≡ false)
      × (length value < max)
unfolding add_entry
add_entry_accepted max check value next s h = ground arith

or-true : (b : Bool) → (b || true) ≡ true
or-true true = refl
or-true false = refl

-- An entry that is accepted is appended: it is not empty, has the required format and was not there,
-- the list stays within its maximum, and it holds the entry afterwards.
pub add_entry_lem :
    (max : ℕ) (check : String → Bool) (value next : List String) (s : String)
    → add_entry max check value s ≡ accepted next
    → (next ≡ value ++ s ∷ [])
      × (s ≢ "")
      × (check s ≡ true)
      × (includes value s ≡ false)
      × (length next ≤ max)
      × (includes next s ≡ true)
unfolding add_entry
add_entry_lem max check value next s h =
    let (e, f, k, i, l) = add_entry_accepted max check value next s h in
    (
      e,
      (λ q. cc (subst (λ t. str_eq t "" ≡ false) q f)),
      k,
      i,
      rw e (omega (arith, length-append value (s ∷ []))),
      rw e (includes-append value s s ∙ (rw (str_eq_refl s) (or-true (includes value s)))),
    )
