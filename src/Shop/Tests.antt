-- ===== src/Shop/Tests.antt =====
-- The marketplace on concrete data.
use codolympics.Prelude.{◌≡◌, refl, true, [], ◌∷◌, ◌++◌, none, some, arith}
use codolympics.Shop.Market.{Item, Page, buy, blackout, shield, bought, ended, on_sale, steps}
use codolympics.Shop.Requests.{second_purchase}

abbrev darkness : Item
darkness = record {
  id = 1;
  kind = blackout;
  price = 40;
  owned = 0;
  buy_blocked = none;
  use_blocked = some "You hold none.";
}

abbrev cover : Item
cover = record {
  id = 2;
  kind = shield;
  price = 25;
  owned = 1;
  buy_blocked = none;
  use_blocked = none;
}

abbrev stall : Page
stall = record {
  market = some (record { in_phase2 = true; items = darkness ∷ cover ∷ []; targets = [] });
  busy = none;
  aiming = none;
  sent = [];
}

stall-on_sale : on_sale stall ≡ true
unfolding on_sale
stall-on_sale = refl

second_purchase_example :
    (steps stall (bought darkness "a" ∷ bought cover "b" ∷ ended ∷ bought cover "c" ∷ [])).sent
    ≡ ((stall.sent ++ buy 1 "a" ∷ []) ++ buy 2 "b" ∷ []) ++ buy 2 "c" ∷ []
second_purchase_example =
    second_purchase stall darkness cover "a" "b" "c" stall-on_sale refl refl refl (omega arith)
