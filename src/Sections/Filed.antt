-- ===== src/Sections/Filed.antt =====
-- phase1-lists.tsx: what the dialog of an action can send, and what an answer does to it.
use codolympics.Prelude.{
  ◌≤◌, ◌≡◌, refl, Bool, true, false, ◌&&◌, not, List, [], ◌∷◌, Option, none, some, String, All, leb,
  leb→le, Bool-cases, sym, subst, inl, inr, is_some, or_else, if◌then◌else◌,
}
use codolympics.Widgets.Dialogs.{size}
use codolympics.Sections.Confirming.{
  Deed, publish, unpublish, void, remove, Pending, written, Section, Request, act, Dialog, Event,
  asked, closed, typed, confirmed, done, refused, can_confirm, confirm, show, step, steps,
}

module _ (trim : String → String) (s : Section) where
  -- The reason that the log is given: the page's own words, and for a question that is voided a typed one.
  abbrev pub HasReason : Deed → String → String → Type 0
  HasReason void title reason = (text : String) × (reason ≡ trim text) × (3 ≤ size reason)
  HasReason kind title reason = written kind title ≡ some reason

  abbrev pub IsFiled : Request → Type 0
  IsFiled r =
      (p : Pending) × (reason : String) × (r ≡ act s p.kind p.id reason)
      × HasReason p.kind p.title reason

  reason_of :
      (k : Deed) (t text : String)
      → (if is_some (written k t) then true else leb 3 (size (trim text))) ≡ true
      → HasReason k t (or_else (written k t) (trim text))
  unfolding written
  reason_of publish t text h = refl
  reason_of unpublish t text h = refl
  reason_of void t text h = (text, refl, leb→le _ _ h)
  reason_of remove t text h = refl

  and_right : (a b : Bool) → (a && b) ≡ true → b ≡ true
  and_right true b h = h
  and_right false b h = cc

  confirmed-IsFiled :
      (d : Dialog) (o : Option Pending)
      → d.pending ≡ o
      → All IsFiled d.sent
      → All IsFiled (step trim s d confirmed).sent
  unfolding step confirm can_confirm
  confirmed-IsFiled d none e h = rw (e, step) h
  confirmed-IsFiled d (some p) e h = elim (Bool-cases (can_confirm trim s d p)) [
    | inl t ↦
        rw (e, step)
          (rw t (
            (
              p,
              or_else (written p.kind p.title) (trim d.reason),
              refl,
              reason_of p.kind p.title d.reason (and_right (not d.busy) _ t),
            ),
            h,
          ))
    | inr f ↦ rw (e, step) (rw f h)
  ]

  step-IsFiled : (d : Dialog) (e : Event) → All IsFiled d.sent → All IsFiled (step trim s d e).sent
  unfolding step show
  step-IsFiled d confirmed h = confirmed-IsFiled d d.pending refl h
  step-IsFiled d (asked p) h = h
  step-IsFiled d closed h = h
  step-IsFiled d (typed t) h = h
  step-IsFiled d done h = h
  step-IsFiled d (refused why) h = h

  -- Whatever is done with the dialog, each request that it sends is that of an action which was asked
  -- for, with the reason that the page words, or, if it voids, a typed one of three characters at least
  -- once trimmed.
  pub steps-IsFiled :
      (d : Dialog) (es : List Event) → All IsFiled d.sent → All IsFiled (steps trim s d es).sent
  unfolding steps
  steps-IsFiled d [] h = h
  steps-IsFiled d (e ∷ es) h = steps-IsFiled (step trim s d e) es (step-IsFiled d e h)

  step_confirmed :
      (d : Dialog) (p : Pending)
      → d.pending ≡ some p
      → can_confirm trim s d p ≡ true
      → step trim s d confirmed ≡ confirm trim s d p
  unfolding step
  step_confirmed d p e h =
      subst
        (λ (o : Option Pending).
          elim o [ none ↦ d | some q ↦ if can_confirm trim s d q then confirm trim s d q else d ]
          ≡ confirm trim s d p)
        (sym e) (rw h refl)

  -- Where a dialog that has sent its request is closed and that of another question is opened, the end of
  -- the first request reaches the second dialog: it shows the refusal, or closes before it sent anything.
  pub other_dialog_answered :
      (d : Dialog) (p q : Pending) (why : String)
      → d.pending ≡ some p
      → can_confirm trim s d p ≡ true
      → let f = steps trim s d (confirmed ∷ closed ∷ asked q ∷ confirmed ∷ []) in
        let reason = or_else (written p.kind p.title) (trim d.reason) in
        (f.pending ≡ some q)
        × (f.sent ≡ act s p.kind p.id reason ∷ d.sent)
        × ((step trim s f done).pending ≡ none)
        × ((step trim s f (refused why)).pending ≡ some q)
        × ((step trim s f (refused why)).error ≡ some why)
  unfolding steps step show confirm can_confirm
  other_dialog_answered d p q why e h = rw (step_confirmed d p e h) (refl, refl, refl, refl, refl)
