-- ===== src/Office/Announcing.antt =====
-- web/src/app/(app)/admin/announcements/page.tsx: the box that announcements are written in.
use codolympics.Prelude.{
  ◌≡◌, refl, Bool, true, false, not, ◌&&◌, ◌||◌, String, List, [], ◌∷◌, if◌then◌else◌, ltb, str_eq,
}
use codolympics.Widgets.Dialogs.{size}

-- What was sent, and the notes that were shown, the latest first.
pub data Note : Type 0 where
  announced : Note
  not_sent : (why : String) → Note

pub record Page : Type 0 where
  pub text : String
  pub busy : Bool
  pub sent : List String
  pub notes : List Note

-- Typing, a template or an old text, "Clear", "Send to everyone"; the post accepted, or refused; and after
-- it was accepted, the two reads that follow done, or one of them failed.
pub data Event : Type 0 where
  typed : String → Event
  cleared pressed accepted read : Event
  refused unread : (why : String) → Event

module _ (trim : String → String) where
  unfoldable pub can_send : Page → Bool
  unfolding size
  can_send p = not p.busy && (not (str_eq (trim p.text) "") && not (ltb 5000 (size p.text)))

  unfoldable pub send : Page → Page
  send p = record p { busy = true; sent = trim p.text ∷ p.sent }

  unfoldable pub step : Page → Event → Page
  unfolding can_send send
  step p (typed t) = record p { text = t }
  step p cleared = if str_eq p.text "" || p.busy then p else record p { text = "" }
  step p pressed = if can_send p then send p else p
  step p accepted = record p { text = ""; notes = announced ∷ p.notes }
  step p read = record p { busy = false }
  step p (refused why) = record p { busy = false; notes = not_sent why ∷ p.notes }
  step p (unread why) = record p { busy = false; notes = not_sent why ∷ p.notes }

  unfoldable pub steps : Page → List Event → Page
  unfolding step
  steps p [] = p
  steps p (e ∷ es) = steps (step p e) es

  -- What is typed while an announcement is being sent is dropped once it has been accepted; and where the
  -- list cannot be read after that, the page says that it was not sent, though it was.
  pub typed_while_sending :
      (p : Page) (t why : String)
      → can_send p ≡ true
      → let q = steps p (pressed ∷ typed t ∷ accepted ∷ unread why ∷ []) in
        (q.sent ≡ trim p.text ∷ p.sent)
        × (q.text ≡ "")
        × (q.busy ≡ false)
        × (q.notes ≡ not_sent why ∷ announced ∷ p.notes)
  unfolding steps send
  typed_while_sending p t why h = rw h (refl, refl, refl, refl)
