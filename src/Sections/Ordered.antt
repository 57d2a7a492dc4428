-- ===== src/Sections/Ordered.antt =====
-- phase1-order.tsx: an order loses no question, and is what was last read where it is not sent.
use mathlib.Core.List.{Perm}
use mathlib.Core.List.Perm
use codolympics.Prelude.{
  ℕ, ◌+◌, ◌≡◌, refl, sym, subst, Bool, true, false, not, ◌&&◌, ◌||◌, inl, inr, List, [], ◌∷◌,
  Option, none, some, map, Option-cases, if_ind, ℤ, pos, negsuc, str_eq, ◌==◌, length,
}
use codolympics.Widgets.Reorder.{
  Drag, Gesture, drag_start, drag_end, drag_over, drop_on, key, move_up, move_down, move,
  move_within, gesture, before,
}
use codolympics.Widgets.Order.{move_within-IsMoved}
use codolympics.Sections.Ordering.{
  Row, row_id, Page, is_dirty, Event, loaded, gestured, discarded, pressed_save, saved, refused,
  load, with_order, save, discard, step, steps,
}

-- What a gesture reports, if anything, has the same items.
abbrev pub Rearranges : {T : Type 0} → List T → Option (List T) → Type 0
Rearranges items none = Unit
Rearranges items (some next) = Perm next items

module _ {T : Type 0} (items : List T) where
  move_within-Rearranges : (from to : ℕ) → Rearranges items (move_within from to items)
  move_within-Rearranges from to = elim (Option-cases (move_within from to items)) [
    | inl n ↦ subst (Rearranges items) (sym n) tt
    | inr (next, e) ↦
        subst (Rearranges items) (sym e) (move_within-IsMoved from to items next e).same_items
  ]

  move-Rearranges : (from : ℕ) (to : ℤ) → Rearranges items (move from to items)
  unfolding move
  move-Rearranges from (negsuc n) = tt
  move-Rearranges from (pos to) = move_within-Rearranges from to

  abbrev Reported : Drag × Option (List T) → Type 0
  Reported r = Rearranges items r.1

  gesture-Rearranges :
      (disabled : Bool) (d : Drag) (g : Gesture) → Rearranges items (gesture disabled items d g).1
  unfolding gesture
  gesture-Rearranges true d (drag_start i) = tt
  gesture-Rearranges false d (drag_start i) = tt
  gesture-Rearranges disabled d drag_end = tt
  gesture-Rearranges disabled d (drag_over i) = elim (Option-cases d.dragging) [
    | inl n ↦ rw (n, gesture) tt
    | inr (f, e) ↦ rw (e, gesture) tt
  ]
  gesture-Rearranges disabled d (drop_on i) = elim (Option-cases d.dragging) [
    | inl n ↦ rw (n, gesture) tt
    | inr (f, e) ↦ rw (e, gesture) (move-Rearranges f (pos i))
  ]
  gesture-Rearranges true d (key i name) = tt
  gesture-Rearranges false d (key i name) =
      if_ind Reported (str_eq name "ArrowUp") _ _ (λ _. move-Rearranges i (before i))
        (λ _.
          if_ind Reported (str_eq name "ArrowDown") _ _ (λ _. move-Rearranges i (pos (i + 1)))
            (λ _. tt))
  gesture-Rearranges disabled d (move_up i) =
      if_ind Reported (disabled || i == 0) _ _ (λ _. tt) (λ _. move-Rearranges i (before i))
  gesture-Rearranges disabled d (move_down i) =
      if_ind Reported (disabled || i + 1 == length items) _ _ (λ _. tt)
        (λ _. move-Rearranges i (pos (i + 1)))

-- The order on the page is one of exactly the questions that were last read.
abbrev pub HasAll : Page → Type 0
HasAll p = Rearranges p.order p.rows

gestured-HasAll :
    (p : Page) (o : Option (List Row)) (r : Drag × Option (List Row))
    → Rearranges p.order o
    → Rearranges p.order r.1
    → Rearranges (with_order p r).order o
gestured-HasAll p none r h k = tt
gestured-HasAll p (some rows) (d, none) h k = h
gestured-HasAll p (some rows) (d, some next) h k = Perm.trans h (Perm.symm k)

same_rows : (p : Page) (r : Drag × Option (List Row)) → (with_order p r).rows ≡ p.rows
same_rows p (d, none) = refl
same_rows p (d, some next) = refl

discard-HasAll : (p : Page) (o : Option (List Row)) → p.rows ≡ o → HasAll p → HasAll (discard p)
unfolding discard
discard-HasAll p none e h = rw (e, discard) h
discard-HasAll p (some rows) e h =
    rw (e, discard) (subst (Rearranges rows) (sym e) (Perm.refl rows))

step-HasAll : (p : Page) (e : Event) → HasAll p → HasAll (step p e)
unfolding step load save
step-HasAll p (loaded rows) h = Perm.refl rows
step-HasAll p (gestured g) h =
    let r = gesture p.busy p.order p.drag g in
    subst (Rearranges (with_order p r).order) (sym (same_rows p r))
      (gestured-HasAll p p.rows r h (gesture-Rearranges p.order p.busy p.drag g))
step-HasAll p discarded h =
    if_ind HasAll (is_dirty p && not p.busy) _ _ (λ _. discard-HasAll p p.rows refl h) (λ _. h)
step-HasAll p pressed_save h = if_ind HasAll (is_dirty p && not p.busy) _ _ (λ _. h) (λ _. h)
step-HasAll p (saved rows) h = Perm.refl rows
step-HasAll p refused h = h

steps-HasAll : (p : Page) (es : List Event) → HasAll p → HasAll (steps p es)
unfolding steps
steps-HasAll p [] h = h
steps-HasAll p (e ∷ es) h = steps-HasAll (step p e) es (step-HasAll p e h)

-- Whatever is dragged, moved by its buttons or its keys, discarded, saved and read again, an order that
-- is then saved has the ids of exactly the questions that were last read, each as often.
pub saved_order :
    (p : Page) (es : List Event) (rows : List Row)
    → HasAll p
    → (steps p es).rows ≡ some rows
    → (is_dirty (steps p es) && not (steps p es).busy) ≡ true
    → let q = steps p es in
      ((step q pressed_save).sent ≡ map row_id q.order ∷ q.sent)
      × Perm (map row_id q.order) (map row_id rows)
unfolding step save
saved_order p es rows h e t = (
  rw t refl,
  Perm.symm (Perm.map row_id (subst (Rearranges (steps p es).order) e (steps-HasAll p es h))),
)
