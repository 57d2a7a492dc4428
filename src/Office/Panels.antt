-- ===== src/Office/Panels.antt =====
-- admin/page.tsx and contest/page: what the organisers watch is what the competitors are doing.
use codolympics.Prelude.{◌≡◌, refl, String, List, [], ◌∷◌, str_eq, str_eq_sym}
use codolympics.Phase.Agreement.{at_text}
use codolympics.Phase.Screens.{
  Screen, section_a, section_b, reviewing, auction_floor, coding_round, ended, screen_of_phase,
}
use codolympics.Office.Dashboard.{
  Panel, registration_panel, phase1_panel, review_panel, live_auction, phase2_board, panels,
  panel_if,
}

-- The panels that go with a competitor's screen.
abbrev pub panels_for : Screen → String → List Panel
panels_for section_a phase = phase1_panel phase ∷ []
panels_for section_b phase = phase1_panel phase ∷ []
panels_for reviewing phase = review_panel ∷ []
panels_for auction_floor phase = live_auction ∷ phase2_board ∷ []
panels_for coding_round phase = phase2_board ∷ []
panels_for ended phase = phase2_board ∷ []
panels_for _ phase = panel_if (str_eq phase "registration") registration_panel

abbrev Agree : String → Type 0
Agree p = panels p ≡ panels_for (screen_of_phase p) p

-- In every phase, known or not, the dashboard shows the panels that go with the screen which competitors
-- are shown: those of the section, of the review, of the auction with the board, or the board alone; and
-- while competitors wait, those of the registration in that phase, and none in one that is not known.
pub panels-screen : (phase : String) → panels phase ≡ panels_for (screen_of_phase phase) phase
unfolding panels screen_of_phase
panels-screen p = at_text Agree "registration" p refl λ a. at_text Agree "p1_puzzles" p refl λ b.
    at_text Agree "p1_hacking" p refl λ c. at_text Agree "review" p refl λ d.
      at_text Agree "auction1" p refl λ e. at_text Agree "coding1" p refl λ f.
        at_text Agree "auction2" p refl λ g. at_text Agree "final" p refl λ h.
          at_text Agree "ended" p refl λ i.
            rw (a, b, c, d, e, f, g, h, i)
              (rw
                (
                  str_eq_sym p "auction1" e,
                  str_eq_sym p "coding1" f,
                  str_eq_sym p "auction2" g,
                  str_eq_sym p "final" h,
                  str_eq_sym p "ended" i,
                )
                (rw a refl))
