-- ===== src/Authoring/Walk.antt =====
-- wizard.tsx and the two builders: where an author can be, and what can be sent.
use codolympics.Prelude.{
  ◌≤◌, ◌<◌, ◌≡◌, refl, Bool, true, false, String, List, [], ◌∷◌, ◌++◌, if_ind, All, All-append,
  arith,
}
use codolympics.Authoring.Wizard.{
  Place, go, count, on_preview, Page, Event, edited, picked, back, next, discarded, saved, answered,
  refused, reloaded, is_dirty, is_clear, can_save, step, steps,
}

-- A step that has been reached, of those that there are.
abbrev pub IsInside : (existing : Bool) → Place → Type 0
IsInside existing p = (p.current ≤ p.reached) × (p.reached < count existing)

is_clear-nil : (l : List String) → is_clear l ≡ true → l ≡ []
is_clear-nil [] h = refl
is_clear-nil (x ∷ rest) h = absurd cc

module _ {X P : Type 0} (same : X → X → Bool) (issues : X → List String) (payload : X → P) where
  -- What was sent is what a form without issues sends.
  abbrev pub IsSaved : P → Type 0
  IsSaved w = (f : X) × (issues f ≡ []) × (w ≡ payload f)

  step-IsInside :
      (existing : Bool) (p : Page X P) (e : Event X)
      → IsInside existing p.place
      → IsInside existing (step same issues payload existing p e).place
  unfolding step go count on_preview
  step-IsInside existing p (edited f) h = h
  step-IsInside existing p (picked i) h = ground arith
  step-IsInside existing p back h = ground arith
  step-IsInside existing p next h = ground arith
  step-IsInside existing p discarded h =
      if_ind (λ (q : Page X P). IsInside existing q.place) _ _ p (λ _. h) (λ _. h)
  step-IsInside existing p saved h =
      if_ind (λ (q : Page X P). IsInside existing q.place) _ _ p (λ _. h) (λ _. h)
  step-IsInside existing p answered h = h
  step-IsInside existing p (refused why) h = h
  step-IsInside existing p (reloaded x) h = h

  -- Whatever an author does, the page stands at one of its steps, and at one no further than has been
  -- reached, provided it opened so.
  pub steps-IsInside :
      (existing : Bool) (p : Page X P) (l : List (Event X))
      → IsInside existing p.place
      → IsInside existing (steps same issues payload existing p l).place
  unfolding steps
  steps-IsInside existing p [] h = h
  steps-IsInside existing p (e ∷ rest) h =
      steps-IsInside existing (step same issues payload existing p e) rest
        (step-IsInside existing p e h)

  can_save-nil :
      (existing : Bool) (p : Page X P)
      → can_save same issues payload existing p ≡ true
      → issues p.form ≡ []
  unfolding can_save
  can_save-nil existing p h = is_clear-nil (issues p.form) (ground (arith, h))

  step-IsSaved :
      (existing : Bool) (p : Page X P) (e : Event X)
      → All IsSaved p.sent
      → All IsSaved (step same issues payload existing p e).sent
  unfolding step
  step-IsSaved existing p (edited f) h = h
  step-IsSaved existing p (picked i) h =
      if_ind (λ (q : Page X P). All IsSaved q.sent) _ _ p (λ _. h) (λ _. h)
  step-IsSaved existing p back h =
      if_ind (λ (q : Page X P). All IsSaved q.sent) _ p _ (λ _. h) (λ _. h)
  step-IsSaved existing p next h =
      if_ind (λ (q : Page X P). All IsSaved q.sent) _ p _ (λ _. h) (λ _. h)
  step-IsSaved existing p discarded h =
      if_ind (λ (q : Page X P). All IsSaved q.sent) _ _ p (λ _. h) (λ _. h)
  step-IsSaved existing p saved h =
      if_ind (λ (q : Page X P). All IsSaved q.sent) (can_save same issues payload existing p) _ p
        (λ t.
          All-append IsSaved p.sent (payload p.form ∷ []) h
            ((p.form, can_save-nil existing p t, refl), tt))
        (λ _. h)
  step-IsSaved existing p answered h = h
  step-IsSaved existing p (refused why) h = h
  step-IsSaved existing p (reloaded x) h = h

  -- From a page that has sent no other, whatever an author does, only forms without issues are sent.
  pub steps-IsSaved :
      (existing : Bool) (p : Page X P) (l : List (Event X))
      → All IsSaved p.sent
      → All IsSaved (steps same issues payload existing p l).sent
  unfolding steps
  steps-IsSaved existing p [] h = h
  steps-IsSaved existing p (e ∷ rest) h =
      steps-IsSaved existing (step same issues payload existing p e) rest
        (step-IsSaved existing p e h)

  can_save-is_clear :
      (p : Page X P) → can_save same issues payload true p ≡ true → is_clear (issues p.form) ≡ true
  unfolding can_save is_dirty
  can_save-is_clear p h = ground (arith, h)

  can_save-is_dirty :
      (p : Page X P) → can_save same issues payload true p ≡ true → same p.form p.initial ≡ false
  unfolding can_save is_dirty
  can_save-is_dirty p h = ground (arith, h)

  -- Where a stored question comes back from a save other than it was written, the page keeps what was
  -- written, counts it as not saved, and sends the same again when asked to.
  pub save_kept :
      (p : Page X P) (x : X)
      → can_save same issues payload true p ≡ true
      → same p.form x ≡ false
      → let q = steps same issues payload true p (saved ∷ answered ∷ reloaded x ∷ []) in
        (q.form ≡ p.form)
        × (is_dirty same issues payload q ≡ true)
        × ((step same issues payload true q saved).sent
            ≡ (p.sent ++ payload p.form ∷ []) ++ payload p.form ∷ [])
  unfolding steps step is_dirty can_save
  save_kept p x t n =
      let d = can_save-is_dirty p t in
      let c = can_save-is_clear p t in
      (rw t (rw d refl), rw t (rw d (rw n refl)), rw t (rw d (rw n (rw c refl))))
