-- ===== src/Hammer/Sales.antt =====
-- admin/auction/page.tsx: what may be recorded as a sale.
use codolympics.Prelude.{
  ℤ, pos, ltb_ℤ, ◌≤ℤ◌, ◌≡◌, refl, sym, ap, ◌∙◌, Bool, true, false, not, ◌&&◌, ◌||◌, String, List,
  Option, none, some, if◌then◌else◌, keep-In, In, str_eq, str_eq_true, Option-cases, Bool-cases,
  inl, inr, ◌↔◌, arith,
}
use codolympics.Hammer.Control.{
  Lot, Balance, Page, open_lot, eligible, chosen, is_valid, problem, Act, record_sale, sale,
  offered, on_act,
}
use codolympics.Rounds.Targets.{find-In}

-- A price that a bidder of the list may pay for a question.
abbrev pub IsSale : Lot → List Balance → String → ℤ → Type 0
IsSale lot balances winner asked =
    (b : Balance) × In b balances
    × (b.id ≡ winner)
    × (b.disqualified ≡ false)
    × (pos lot.base_price ≤ℤ asked)
    × (asked ≤ℤ b.coins)

not_below : (a b : ℤ) → ltb_ℤ a b ≡ false → b ≤ℤ a
not_below a b h = ground arith

act-is : {a b : Act} → some a ≡ some b → b ≡ a
act-is e = cc

module _ (number : String → Option ℤ) (trim : String → String) where
  chosen-In :
      (winner : String) (l : List Balance) (b : Balance)
      → chosen winner l ≡ some b
      → In b l × (b.id ≡ winner) × (b.disqualified ≡ false)
  unfolding chosen eligible
  chosen-In winner l b e =
      let (m, t) = find-In (λ (x : Balance). str_eq x.id winner) (eligible l) b e in
      let (k, d) = keep-In (λ (x : Balance). not x.disqualified) b l m in
      (k, str_eq_true b.id winner t, ground (arith, d))

  valid_at :
      (lot : Lot) (l : List Balance) (winner price : String) (b : Balance) (asked : ℤ)
      → chosen winner l ≡ some b
      → number price ≡ some asked
      → is_valid number trim lot l winner price ≡ (
          not (str_eq (trim price) "")
          && not (ltb_ℤ asked (pos lot.base_price))
          && not (ltb_ℤ b.coins asked))
  unfolding is_valid
  valid_at lot l winner price b asked e q = rw (e, is_valid) (rw (q, is_valid) refl)

  unchosen_invalid :
      (lot : Lot) (l : List Balance) (winner price : String)
      → chosen winner l ≡ none
      → is_valid number trim lot l winner price ≡ false
  unfolding is_valid
  unchosen_invalid lot l winner price e = rw (e, is_valid) refl

  unread_invalid :
      (lot : Lot) (l : List Balance) (winner price : String) (b : Balance)
      → chosen winner l ≡ some b
      → number price ≡ none
      → is_valid number trim lot l winner price ≡ false
  unfolding is_valid
  unread_invalid lot l winner price b e q = rw (e, is_valid) (rw (q, is_valid) refl)

  valid_parts :
      (lot : Lot) (l : List Balance) (winner price : String)
      → is_valid number trim lot l winner price ≡ true
      → (asked : ℤ) × (number price ≡ some asked) × IsSale lot l winner asked
  valid_parts lot l winner price t = elim (Option-cases (chosen winner l)) [
    | inl n ↦ let f = unchosen_invalid lot l winner price n in absurd cc
    | inr (b, e) ↦ elim (Option-cases (number price)) [
      | inl n ↦ let f = unread_invalid lot l winner price b e n in absurd cc
      | inr (asked, q) ↦
          let (m, w, d) = chosen-In winner l b e in
          let s = sym (valid_at lot l winner price b asked e q) ∙ t in
          (
            asked,
            q,
            (
              b,
              m,
              w,
              d,
              not_below asked (pos lot.base_price) (ground (arith, s)),
              not_below b.coins asked (ground (arith, s)),
            ),
          )
    ]
  ]

  -- Of a bidder and a price that have both been given, the page has no complaint exactly where the sale may
  -- be recorded.
  pub problem-is_valid :
      (lot : Lot) (l : List Balance) (winner price : String) (b : Balance)
      → chosen winner l ≡ some b
      → str_eq (trim price) "" ≡ false
      → (problem number trim lot l winner price ≡ none)
        ↔ (is_valid number trim lot l winner price ≡ true)
  unfolding problem is_valid
  problem-is_valid lot l winner price b e t = elim (Option-cases (number price)) [
    | inl n ↦
        rw (e, problem, is_valid) (rw (t, n, problem, is_valid) (λ h. absurd cc, λ h. absurd cc))
    | inr (asked, q) ↦ rw (e, problem, is_valid) (rw (t, q, problem, is_valid) (ground arith))
  ]

  offered_sale_of :
      (p : Page) (lot : Lot)
      → open_lot p.control ≡ some lot
      → offered number trim p sale ≡ (
          if p.control.offline
            && not (
                p.control.is_paused
                || not (is_valid number trim lot p.control.balances p.winner p.price))
          then some (record_sale lot.id p.winner (number p.price))
          else none)
  unfolding offered
  offered_sale_of p lot e = rw (e, offered) refl

  offered_sale-none : (p : Page) → open_lot p.control ≡ none → offered number trim p sale ≡ none
  unfolding offered
  offered_sale-none p e = rw (e, offered) refl

  guards :
      (offline paused valid : Bool)
      → (offline && not (paused || not valid)) ≡ true
      → (offline ≡ true) × (paused ≡ false) × (valid ≡ true)
  guards offline paused valid h = ground arith

  -- "Record the sale" can be pressed only for the question on the block, while an offline auction is not
  -- held, with a bidder chosen who is not disqualified and a whole price from the base price up to what the
  -- bidder has.
  pub offered-IsSale :
      (p : Page) (a : Act)
      → offered number trim p sale ≡ some a
      → (lot : Lot) × (asked : ℤ) × (open_lot p.control ≡ some lot)
        × (a ≡ record_sale lot.id p.winner (some asked))
        × (p.control.offline ≡ true)
        × (p.control.is_paused ≡ false)
        × IsSale lot p.control.balances p.winner asked
  offered-IsSale p a h = elim (Option-cases (open_lot p.control)) [
    | inl n ↦ let f = offered_sale-none p n in absurd cc
    | inr (lot, e) ↦
        let valid = is_valid number trim lot p.control.balances p.winner p.price in
        elim (Bool-cases (p.control.offline && not (p.control.is_paused || not valid))) [
          | inl t ↦
              let (o, u, v) = guards p.control.offline p.control.is_paused valid t in
              let (asked, q, s) = valid_parts lot p.control.balances p.winner p.price v in
              let made : some (record_sale lot.id p.winner (number p.price)) ≡ some a =
                sym (offered_sale_of p lot e ∙ rw t refl) ∙ h in
              (lot, asked, e, act-is made ∙ ap (λ n. record_sale lot.id p.winner n) q, o, u, s)
          | inr f ↦
              let none_made : none ≡ some a = sym (offered_sale_of p lot e ∙ rw f refl) ∙ h in
              absurd cc
        ]
  ]

  unguarded :
      (off free : Bool) (x a : Act)
      → (if off && free then some x else none) ≡ some a
      → (if off then some x else none) ≡ some a
  unguarded true true x a h = h
  unguarded true false x a h = absurd cc
  unguarded false free x a h = h

  on_act_of :
      (p : Page) (lot : Lot)
      → open_lot p.control ≡ some lot
      → on_act number trim p
        ≡ (if p.control.offline then some (record_sale lot.id p.winner (number p.price)) else none)
  unfolding on_act
  on_act_of p lot e = rw (e, on_act) refl

  -- Where the button can be pressed, that is what its dialog sends if nothing changes in between.
  pub offered-on_act :
      (p : Page) (a : Act) → offered number trim p sale ≡ some a → on_act number trim p ≡ some a
  offered-on_act p a h = elim (Option-cases (open_lot p.control)) [
    | inl n ↦ let f = offered_sale-none p n in absurd cc
    | inr (lot, e) ↦ on_act_of p lot e ∙ unguarded _ _ _ a (sym (offered_sale_of p lot e) ∙ h)
  ]

  -- What is sent of a question on the block of an offline auction.
  pub on_act_open :
      (p : Page) (lot : Lot)
      → open_lot p.control ≡ some lot
      → p.control.offline ≡ true
      → on_act number trim p ≡ some (record_sale lot.id p.winner (number p.price))
  on_act_open p lot e o = on_act_of p lot e ∙ rw o refl

  held :
      (off paused valid : Bool) (x : Act)
      → paused ≡ true
      → (if off && not (paused || not valid) then some x else none) ≡ none
  held off paused valid x h = ground arith

  -- Nothing can be pressed while the auction is held.
  pub held-offered :
      (p : Page) (lot : Lot)
      → open_lot p.control ≡ some lot
      → p.control.is_paused ≡ true
      → offered number trim p sale ≡ none
  held-offered p lot e h =
      offered_sale_of p lot e
      ∙ held p.control.offline p.control.is_paused
          (is_valid number trim lot p.control.balances p.winner p.price)
          (record_sale lot.id p.winner (number p.price)) h
