-- ===== src/Office/Tests.antt =====
-- The organisers' pages on concrete data.
use codolympics.Prelude.{
  ◌/◌, ◌%◌, ◌≤◌, ◌<◌, ◌≡◌, refl, sym, ◌∙◌, ◌↔◌, true, false, [], ◌∷◌, none, some, In, arith, pos,
}
use codolympics.Prelude.Lists.{here, there}
use codolympics.Office.Feed.{Page, Feed, ticked, pressed, answered, failed, steps}
use codolympics.Office.Polls.{asked-le, Spins, steps-Spins}
use codolympics.Office.Checklist.{Item, groups, shown}
use codolympics.Office.Listed.{flat, HasOneEach, listed_iff}
use codolympics.Office.Announcing.{
  Page as Box, typed, pressed as sent_off, accepted, unread, announced, not_sent, can_send,
  steps as writes, typed_while_sending,
}
use codolympics.Office.Durations.{rounded, length_of, in_minutes, span_of}
use codolympics.Office.Carries.{Spans, span_of-Spans, sixty_seconds_iff}
use codolympics.Office.Dashboard.{panels}
use codolympics.Office.Panels.{panels_for, panels-screen}
use codolympics.Phase.Screens.{screen_of_phase}
use codolympics.Roster.Record.{seconds}

abbrev idle : Page
idle = record { feed = none; busy = false; in_flight = none; asked = 0 }

abbrev busy_feed : Feed
busy_feed = record { judge = some "ok"; work = []; live = 2 }

asked-le_example :
    (steps idle (pressed ∷ ticked false ∷ answered busy_feed ∷ failed ∷ [])).asked ≤ 3
asked-le_example = asked-le idle (pressed ∷ ticked false ∷ answered busy_feed ∷ failed ∷ []) refl

steps-Spins_example : Spins (steps idle (ticked false ∷ pressed ∷ answered busy_feed ∷ []))
steps-Spins_example = steps-Spins idle (ticked false ∷ pressed ∷ answered busy_feed ∷ []) refl

abbrev basis : Item
basis = record { key = "basis"; label = "Basis"; ok = true; detail = ""; href = "" }

one_basis : HasOneEach (basis ∷ [])
one_basis i j (here e) (here f) h = sym e ∙ f
one_basis i j (here e) (there n) h = elim n [ ]
one_basis i j (there m) n h = elim m [ ]

listed_iff_example : In basis (flat (shown groups (basis ∷ []))) ↔ In basis (basis ∷ [])
listed_iff_example = listed_iff groups (basis ∷ []) basis one_basis

abbrev box : Box
box = record { text = "Lunch at one."; busy = false; sent = []; notes = [] }

box-can_send : can_send (λ s. s) box ≡ true
unfolding can_send
box-can_send = refl

typed_while_sending_example :
    let q = writes (λ s. s) box (sent_off ∷ typed "And" ∷ accepted ∷ unread "Offline" ∷ []) in
    (q.sent ≡ "Lunch at one." ∷ [])
    × (q.text ≡ "")
    × (q.busy ≡ false)
    × (q.notes ≡ not_sent "Offline" ∷ announced ∷ [])
typed_while_sending_example = typed_while_sending (λ s. s) box "And" "Offline" box-can_send

sixty_seconds_iff_example :
    (length_of (some 119700) ≡ in_minutes (119700 / 60000) (rounded (119700 % 60000)))
    × (59500 ≤ 119700 % 60000 → rounded (119700 % 60000) ≡ 60)
    × (119700 % 60000 < 59500 → rounded (119700 % 60000) < 60)
sixty_seconds_iff_example = sixty_seconds_iff 119700 (omega arith)

span_of-Spans_example : Spans (seconds (pos 3599600)) (span_of (pos 3599600))
span_of-Spans_example = span_of-Spans (pos 3599600)

panels-screen_example : panels "auction2" ≡ panels_for (screen_of_phase "auction2") "auction2"
panels-screen_example = panels-screen "auction2"
