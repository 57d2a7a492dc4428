-- ===== src/Admin/Edits.antt =====
-- admin/contest/page.tsx: what a save of the settings sends and what becomes of the edits.
use codolympics.Prelude.{
  ◌≡◌, refl, ap, ◌∙◌, true, false, not, List, [], ◌∷◌, some, if◌then◌else◌, str_eq_refl, Bool-cases,
  inl, inr, map,
}
use codolympics.Admin.Settings.{
  Settings, Edit, Texts, Page, edited, pressed_save, answered, discarded, set, is_shown, is_dirty,
  can_save, edit, patch, save, step, steps, took,
}

module _ {N : Type 0} (js : Texts N) where
  -- The settings with the edits made in turn, those of fields that are not shown left out.
  abbrev pub applied : List Edit → Settings N → Settings N
  applied [] c = c
  applied (e ∷ es) c = applied es (if is_shown js e c then set js e c else c)

  edit-applied :
      (p : Page N) (c : Settings N) (e : Edit)
      → p.c ≡ some c
      → step js p (edited e) ≡ record p { c = some (if is_shown js e c then set js e c else c) }
  unfolding step edit
  edit-applied p c e h = elim (Bool-cases (is_shown js e c)) [
    | inl t ↦ rw (h, t) refl
    | inr f ↦ rw (h, f) refl
  ]

  edits-applied :
      (p : Page N) (c : Settings N) (es : List Edit)
      → p.c ≡ some c
      → steps js p (map edited es) ≡ record p { c = some (applied es c) }
  unfolding steps
  edits-applied p c [] h = λ i. record p { c = h i }
  edits-applied p c (e ∷ es) h =
      ap (λ q. steps js q (map edited es)) (edit-applied p c e h)
      ∙ edits-applied (record p { c = some (if is_shown js e c then set js e c else c) }) _ es refl

  -- A save sends, with the reason, every setting of the page: those that were edited since the page had
  -- `c`, and all the others as they were in `c`, whatever the server has by then.
  pub save-whole :
      (p : Page N) (c : Settings N) (es : List Edit)
      → p.c ≡ some c
      → can_save js (steps js p (map edited es)) ≡ true
      → (step js (steps js p (map edited es)) pressed_save).sent
        ≡ patch js p.reason (applied es c) ∷ p.sent
  unfolding step save
  save-whole p c es h k = rw (k, edits-applied p c es h) refl

  -- An edit that is made while a save is out is dropped when the save is answered: the page shows what
  -- the server answered, nothing is left to save, and only what was on the page at the click was sent.
  pub edit_during_save :
      (p : Page N) (c y : Settings N) (e : Edit)
      → p.c ≡ some c
      → can_save js p ≡ true
      → let q = steps js p (pressed_save ∷ edited e ∷ answered (some y) ∷ []) in
        (q.c ≡ some y) × (is_dirty js q ≡ false) × (q.sent ≡ patch js p.reason c ∷ p.sent)
  unfolding steps step save took is_dirty edit
  edit_during_save p c y e h k =
      let clean = ap not (str_eq_refl (js.stringify (some y))) in
      elim (Bool-cases (is_shown js e c)) [
        | inl t ↦ rw (k, h, t) (refl, clean, refl)
        | inr f ↦ rw (k, h, f) (refl, clean, refl)
      ]

  -- Discarding leaves the settings that were last loaded or saved, and nothing to save.
  pub discard_lem :
      (p : Page N)
      → is_dirty js p ≡ true
      → ((step js p discarded).c ≡ p.orig) × (is_dirty js (step js p discarded) ≡ false)
  unfolding step is_dirty
  discard_lem p h = rw h (refl, ap not (str_eq_refl (js.stringify p.orig)))
