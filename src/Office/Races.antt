-- ===== src/Office/Races.antt =====
-- submissions/page.tsx: answers that overtake each other.
use codolympics.Prelude.{ℕ, ◌≡◌, refl, [], ◌∷◌, some}
use codolympics.Office.Drawer.{Page, inspected, closed, answered, steps}

-- Two submissions are opened one after the other. Where each is answered before the next is opened, the
-- drawer ends with the second one's detail; where the answers come afterwards and in the other order, or the
-- first one's alone has come, it has the first one's detail under the second one's title.
late_detail :
    {D : Type 0} (p : Page D) (m n : ℕ) (a b : D)
    → let ordered = steps p (inspected m ∷ answered m a ∷ inspected n ∷ answered n b ∷ []) in
      let crossed = steps p (inspected m ∷ inspected n ∷ answered n b ∷ answered m a ∷ []) in
      let early = steps p (inspected m ∷ closed ∷ inspected n ∷ answered m a ∷ []) in
      (ordered.opened ≡ some n)
      × (ordered.detail ≡ some b)
      × (crossed.opened ≡ some n)
      × (crossed.detail ≡ some a)
      × (early.opened ≡ some n)
      × (early.detail ≡ some a)
unfolding steps
late_detail p m n a b = (refl, refl, refl, refl, refl, refl)
