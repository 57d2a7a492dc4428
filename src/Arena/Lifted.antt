-- ===== src/Arena/Lifted.antt =====
-- blackout-overlay.tsx: what takes the overlay off the screen, and what its clock shows.
use codolympics.Prelude.{
  ℕ, ◌+◌, ◌*◌, ◌≤◌, ◌<◌, ◌≡◌, refl, ap, ◌∙◌, true, false, ◌&&◌, List, [], ◌∷◌, Option, none, some,
  ◌==◌, ℤ, not, All, if_ind, ◌⊎◌, inl, inr, arith,
}
use codolympics.Arena.Blackout.{
  State, Overlay, Event, powerup, heartbeat, tick, answered, failed, page_read, current, is_active,
  shown, check, redraw, left_ms, step, steps, clock,
}

-- If the event brings what decides of this competitor, it is that a blackout is active: an answer that is
-- waited for does, and the page's own state as long as there has been no answer.
abbrev pub SaysActive : Overlay → Event → Type 0
SaysActive o (answered now s) = (o.checking ≡ false) ⊎ (s.active ≡ true)
SaysActive o (page_read now s) = ((k : State) × (o.live ≡ some k)) ⊎ (is_active s ≡ true)
SaysActive o _ = Unit

-- So it is of each event of a run, at the overlay that it meets.
abbrev pub AllSayActive : Overlay → List Event → Type 0
AllSayActive o [] = Unit
AllSayActive o (e ∷ rest) = SaysActive o e × AllSayActive (step o e) rest

-- Asking changes nothing that is shown.
check-current : (o : Overlay) → current (check o) ≡ current o
unfolding check current
check-current o =
    if_ind (λ (p : Overlay). current p ≡ current o) o.checking o _ (λ _. refl) (λ _. refl)

redraw-current : (now : ℤ) (o : Overlay) → current (redraw now o) ≡ current o
unfolding redraw current left_ms
redraw-current now o =
    if_ind (λ (p : Overlay). current p ≡ current o)
      ((is_active (current o) && left_ms o now == 0) && not o.at_zero) _ _
      (λ _. check-current (record o { at_zero = is_active (current o) && left_ms o now == 0 }))
      (λ _. refl)

page_decides :
    (live initial s : Option State)
    → ((k : State) × (live ≡ some k)) ⊎ (is_active s ≡ true)
    → is_active (elim live [ none ↦ initial | some k ↦ some k ]) ≡ true
    → is_active (elim live [ none ↦ s | some k ↦ some k ]) ≡ true
page_decides none initial s (inl (k, e)) up = absurd cc
page_decides none initial s (inr h) up = h
page_decides (some k) initial s h up = up

-- One event keeps the overlay up unless the server's word is that nothing is active.
stays_up_one : (o : Overlay) (e : Event) → SaysActive o e → shown o ≡ true → shown (step o e) ≡ true
unfolding step shown current
stays_up_one o powerup h up = ap is_active (check-current o) ∙ up
stays_up_one o (heartbeat hidden) h up =
    if_ind (λ (p : Overlay). shown p ≡ true) hidden o _ (λ _. up)
      (λ _. ap is_active (check-current o) ∙ up)
stays_up_one o (tick now) h up = ap is_active (redraw-current now o) ∙ up
stays_up_one o (answered now s) h up =
    if_ind (λ (p : Overlay). shown p ≡ true) o.checking _ o
      (λ t.
        ap is_active (redraw-current now (record o { live = some s; checking = false }))
        ∙ elim h [ inl f ↦ absurd cc | inr k ↦ k ])
      (λ _. up)
stays_up_one o failed h up =
    if_ind (λ (p : Overlay). shown p ≡ true) o.checking _ o (λ _. up) (λ _. up)
stays_up_one o (page_read now s) h up =
    ap is_active (redraw-current now (record o { initial = s }))
    ∙ page_decides o.live o.initial s h up

-- The overlay, once up, stays up through heartbeats, failed checks, powerups, a clock that runs to zero or
-- jumps, and, once the server has answered a check, whatever the page's own state says: only an answer, or
-- the page's own state before there has been one, that no blackout is active can take it down.
pub stays_up :
    (o : Overlay) (l : List Event) → shown o ≡ true → AllSayActive o l → shown (steps o l) ≡ true
unfolding steps
stays_up o [] up h = up
stays_up o (e ∷ rest) up (h, hs) = stays_up (step o e) rest (stays_up_one o e h up) hs

-- An event that is not the server's answer to a check.
abbrev pub IsNoAnswer : Event → Type 0
IsNoAnswer (answered now s) = ⊥
IsNoAnswer _ = Unit

check-live : (o : Overlay) → (check o).live ≡ o.live
unfolding check
check-live o = if_ind (λ (p : Overlay). p.live ≡ o.live) o.checking o _ (λ _. refl) (λ _. refl)

redraw-live : (now : ℤ) (o : Overlay) → (redraw now o).live ≡ o.live
unfolding redraw left_ms current
redraw-live now o =
    if_ind (λ (p : Overlay). p.live ≡ o.live)
      ((is_active (current o) && left_ms o now == 0) && not o.at_zero) _ _
      (λ _. check-live (record o { at_zero = is_active (current o) && left_ms o now == 0 }))
      (λ _. refl)

live_kept : (o : Overlay) (e : Event) → IsNoAnswer e → (step o e).live ≡ o.live
unfolding step
live_kept o powerup h = check-live o
live_kept o (heartbeat hidden) h =
    if_ind (λ (p : Overlay). p.live ≡ o.live) hidden o _ (λ _. refl) (λ _. check-live o)
live_kept o (tick now) h = redraw-live now o
live_kept o (answered now s) h = elim h [ ]
live_kept o failed h =
    if_ind (λ (p : Overlay). p.live ≡ o.live) o.checking _ o (λ _. refl) (λ _. refl)
live_kept o (page_read now s) h = redraw-live now (record o { initial = s })

lives_kept : (o : Overlay) (l : List Event) → All IsNoAnswer l → (steps o l).live ≡ o.live
unfolding steps
lives_kept o [] h = refl
lives_kept o (e ∷ rest) (h, hs) = lives_kept (step o e) rest hs ∙ live_kept o e h

live-shown : (o : Overlay) (s : State) → o.live ≡ some s → shown o ≡ s.active
unfolding shown current
live-shown o s e = rw e refl

answered-live :
    (o : Overlay) (now : ℤ) (s : State)
    → o.checking ≡ true
    → (step o (answered now s)).live ≡ some s
unfolding step
answered-live o now s c =
    if_ind (λ (p : Overlay). p.live ≡ some s) o.checking _ o
      (λ _. redraw-live now (record o { live = some s; checking = false })) (λ f. cc)

-- The answer to a check decides alone whether the overlay is up until the next answer: the page's own
-- state, read again or not, no longer counts.
answer_decides :
    (o : Overlay) (now : ℤ) (s : State) (l : List Event)
    → o.checking ≡ true
    → All IsNoAnswer l
    → shown (steps o (answered now s ∷ l)) ≡ s.active
unfolding steps step
answer_decides o now s l c h =
    live-shown (steps (step o (answered now s)) l) s
      (lives_kept (step o (answered now s)) l h ∙ answered-live o now s c)

-- The clock rounds the time left up to whole seconds, shown as minutes and fewer than sixty seconds.
clock_lem :
    (left : ℕ)
    → let k = clock left in
      (k.minutes * 60 + k.seconds ≡ k.total)
      × (k.seconds < 60)
      × (left ≤ k.total * 1000)
      × (k.total * 1000 < left + 1000)
unfolding clock
clock_lem left = omega arith
