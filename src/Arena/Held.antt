-- ===== src/Arena/Held.antt =====
-- proctor.tsx: one alert for each time the page is left, and the only way back.
use codolympics.Prelude.{
  ◌+◌, ◌≡◌, ◌≢◌, refl, true, false, String, List, [], ◌∷◌, none, some, arith, includes, ◌⊎◌, inl,
  ◌∙◌, ap,
}
use codolympics.Arena.Proctor.{
  Standing, Kind, gate, ok, alert, locked, Proctor, held_phases, is_enabled, enforced, is_locked,
  lock_effect, enforce_effect, effects, Event, phase_changed, state_read, left, answered,
  unanswered, resumed, report, shown_screen, has_button, step, steps,
}

abbrev pub lefts : List Kind → List Event
lefts [] = []
lefts (k ∷ ks) = left k ∷ lefts ks

left_ignored : (p : Proctor) (k : Kind) → p.screen ≢ ok → step p (left k) ≡ p
unfolding step report
left_ignored p k h = ground arith

left_first :
    (p : Proctor) (k : Kind)
    → p.was_enforced ≡ true
    → p.screen ≡ ok
    → step p (left k) ≡ record p { screen = alert; last = some k; posts = p.posts + 1 }
unfolding step report
left_first p k e s = ground arith

left_again : (p : Proctor) (ks : List Kind) → p.screen ≢ ok → steps p (lefts ks) ≡ p
unfolding steps
left_again p [] h = refl
left_again p (k ∷ ks) h = ap (λ q. steps q (lefts ks)) (left_ignored p k h) ∙ left_again p ks h

-- Leaving full screen, focus and the tab in one go is one alert: from a page that is held, any
-- sequence of leavings sends exactly one, names the first, and puts the alert screen up.
pub one_alert :
    (p : Proctor) (k : Kind) (ks : List Kind)
    → p.was_enforced ≡ true
    → p.screen ≡ ok
    → steps p (lefts (k ∷ ks)) ≡ record p { screen = alert; last = some k; posts = p.posts + 1 }
unfolding steps
one_alert p k ks e s = ap (λ q. steps q (lefts ks)) (left_first p k e s) ∙ left_again _ ks (λ q. cc)

lock_effect-ok : (p : Proctor) → (lock_effect p).screen ≡ ok → p.screen ≡ ok
unfolding lock_effect
lock_effect-ok p h = ground arith

enforce_effect-ok : (p : Proctor) → (enforce_effect p).screen ≡ ok → p.screen ≡ ok
unfolding enforce_effect
enforce_effect-ok p h = ground arith

effects-ok : (p : Proctor) → (effects p).screen ≡ ok → p.screen ≡ ok
unfolding effects
effects-ok p h = lock_effect-ok p (enforce_effect-ok (lock_effect p) h)

-- The page is released by nothing but the button with the page held: any other event leaves the screen
-- away from "ok" unless it was there.
pub released_by_resume :
    (p : Proctor) (e : Event)
    → (step p e).screen ≡ ok
    → (p.screen ≡ ok) ⊎ ((e ≡ resumed true) × (has_button (shown_screen p) ≡ true))
unfolding step report
released_by_resume p (phase_changed phase) h = inl (effects-ok _ h)
released_by_resume p (state_read server phase disqualified) h = inl (effects-ok _ (effects-ok _ h))
released_by_resume p (left kind) h = ground arith
released_by_resume p (answered s) h = ground (arith, effects-ok _ h)
released_by_resume p unanswered h = inl h
released_by_resume p (resumed false) h = ground arith
released_by_resume p (resumed true) h = ground arith

-- While the page is held, a lock that the server answers to an alert takes the screen at once, and
-- leaves no button on it.
pub answered_lock :
    (p : Proctor) (s : Standing)
    → s.locked ≡ true
    → enforced p ≡ true
    → (shown_screen (step p (answered s)) ≡ some locked)
      × (has_button (shown_screen (step p (answered s))) ≡ false)
unfolding step effects lock_effect enforce_effect is_locked enforced shown_screen
answered_lock p s l e = ground arith

-- A lock does not outlast a break between rounds on the screen: where a locked competitor's round gives
-- way to a phase that holds nobody, and that to one that holds them again, with no other news in
-- between, the server's lock still stands but the screen is the gate, its button works, and it lets
-- them back onto the page.
pub lock_lost_between_rounds :
    (p : Proctor) (between next : String)
    → is_locked p ≡ true
    → p.was_locked ≡ true
    → p.was_enforced ≡ true
    → is_enabled p.server ≡ true
    → p.disqualified ≡ false
    → includes held_phases between ≡ false
    → includes held_phases next ≡ true
    → let p' = steps p (phase_changed between ∷ phase_changed next ∷ []) in
      (is_locked p' ≡ true)
      × (shown_screen p' ≡ some gate)
      × ((step p' (resumed true)).screen ≡ ok)
      × (shown_screen (step p' (resumed true)) ≡ none)
unfolding steps step effects lock_effect enforce_effect enforced shown_screen is_locked
lock_lost_between_rounds p between next l wl we en d b n = ground arith
