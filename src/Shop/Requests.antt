-- ===== src/Shop/Requests.antt =====
-- marketplace/page.tsx: the page remembers one request, and there can be more.
use codolympics.Prelude.{
  ℕ, ◌≡◌, ◌≢◌, refl, ap, ◌∙◌, true, false, String, List, [], ◌∷◌, ◌++◌, Option, none, some, ◌==◌,
  ==_iff, arith,
}
use codolympics.Shop.Market.{
  Item, Page, Request, buy, bought, ended, on_sale, can_buy, is_busy_with, step, steps,
}

differs : (m n : ℕ) → m ≢ n → (m == n) ≡ false
differs m n h = ground (arith, ==_iff m n)

buy_first :
    (p : Page) (i : Item) (id : String)
    → can_buy p i ≡ true
    → step p (bought i id) ≡ record p { busy = some i.id; sent = p.sent ++ buy i.id id ∷ [] }
unfolding step
buy_first p i id h = rw h refl

-- What a click on Buy asks of the page but for what it is busy with.
abbrev IsOffered : Page → Item → Type 0
IsOffered p i = (on_sale p ≡ true) × (i.buy_blocked ≡ none)

offered_can :
    (p : Page) (i : Item) → IsOffered p i → is_busy_with p.busy i.id ≡ false → can_buy p i ≡ true
unfolding can_buy
offered_can p i (s, b) f = rw (s, b, f) refl

on_sale_same :
    (p : Page) (b : Option ℕ) (l : List Request)
    → on_sale (record p { busy = b; sent = l }) ≡ on_sale p
unfolding on_sale
on_sale_same p b l = refl

after_end :
    (r : Page) (j : Item) (c : String)
    → (steps r (ended ∷ bought j c ∷ [])).sent ≡ (step (record r { busy = none }) (bought j c)).sent
unfolding steps step
after_end r j c = refl

-- A powerup is bought, then another one, and the first purchase ends: that makes the page forget the
-- second, whose button takes a click again while it is still being bought. Both purchases of the second
-- are sent.
pub second_purchase :
    (p : Page) (i j : Item) (a b c : String)
    → on_sale p ≡ true
    → p.busy ≡ none
    → i.buy_blocked ≡ none
    → j.buy_blocked ≡ none
    → i.id ≢ j.id
    → (steps p (bought i a ∷ bought j b ∷ ended ∷ bought j c ∷ [])).sent
      ≡ ((p.sent ++ buy i.id a ∷ []) ++ buy j.id b ∷ []) ++ buy j.id c ∷ []
unfolding steps
second_purchase p i j a b c s f u v n =
    let q : Page = record p { busy = some i.id; sent = p.sent ++ buy i.id a ∷ [] } in
    let r : Page = record q { busy = some j.id; sent = q.sent ++ buy j.id b ∷ [] } in
    let e1 = buy_first p i a (offered_can p i (s, u) (rw f refl)) in
    let e2 =
      buy_first q j b
        (offered_can q j (on_sale_same p (some i.id) q.sent ∙ s, v) (differs i.id j.id n)) in
    let z : Page = record r { busy = none } in
    let e3 = buy_first z j c (offered_can z j (on_sale_same p none r.sent ∙ s, v) refl) in
    ap (λ (x : Page). (steps x (bought j b ∷ ended ∷ bought j c ∷ [])).sent) e1
    ∙ (ap (λ (x : Page). (steps x (ended ∷ bought j c ∷ [])).sent) e2
        ∙ (after_end r j c ∙ ap (λ (x : Page). x.sent) e3))
