-- ===== src/Arena/Saved.antt =====
-- section-a.tsx: what `LiveQuestion` sends, and what its debounce drops.
use codolympics.Prelude.{
  ◌≡◌, refl, sym, ap, ◌∙◌, Bool, true, false, String, List, [], ◌∷◌, ◌++◌, Option, none, some, All,
}
use mathlib.Core.List.{append-nil}
use codolympics.Arena.Autosave.{
  Change, answer_to, explanation_to, Editor, Event, on_answer, on_explanation, elapsed, accepted,
  rejected, schedule, fire, step, steps,
}

module _ {ℓ} {A : Type ℓ} where
  -- The edits of an unlocked question that are saved, and the last of them.
  abbrev saves : Event A → Option (Change A)
  saves (on_answer v true) = some (answer_to v)
  saves (on_explanation e) = some (explanation_to e)
  saves _ = none

  abbrev is_edit : Event A → Bool
  is_edit (on_answer v ok) = true
  is_edit (on_explanation e) = true
  is_edit _ = false

  abbrev pub last_save : Option (Change A) → List (Event A) → Option (Change A)
  last_save before [] = before
  last_save before (e ∷ rest) = last_save (elim (saves e) [ none ↦ before | some c ↦ some c ]) rest

  abbrev pub as_list : Option (Change A) → List (Change A)
  as_list none = []
  as_list (some c) = c ∷ []

  -- Edits that come while the timer never runs out send nothing: it holds the last of them.
  edits_wait :
      (hint : String) (s : Editor A) (l : List (Event A))
      → All (λ e. is_edit e ≡ true) l
      → ((steps false hint s l).timer ≡ last_save s.timer l)
        × ((steps false hint s l).sent ≡ s.sent)
  unfolding steps step schedule
  edits_wait hint s [] h = (refl, refl)
  edits_wait hint s (on_answer v true ∷ rest) (_, h) =
      edits_wait hint (step false hint s (on_answer v true)) rest h
  edits_wait hint s (on_answer v false ∷ rest) (_, h) =
      edits_wait hint (step false hint s (on_answer v false)) rest h
  edits_wait hint s (on_explanation e ∷ rest) (_, h) =
      edits_wait hint (step false hint s (on_explanation e)) rest h
  edits_wait hint s (elapsed ∷ rest) (f, h) = cc
  edits_wait hint s (accepted ∷ rest) (f, h) = cc
  edits_wait hint s (rejected why ∷ rest) (f, h) = cc

  fire-sent : (s : Editor A) → (fire s).sent ≡ s.sent ++ as_list s.timer
  unfolding fire
  fire-sent s = sent_by s.timer refl
    where
      sent_by : (k : Option (Change A)) → s.timer ≡ k → (fire s).sent ≡ s.sent ++ as_list k
      sent_by none q = rw q (sym (append-nil s.sent))
      sent_by (some c) q = rw q refl

  fire-idle : (s : Editor A) → s.timer ≡ none → ((fire s).timer ≡ none) × ((fire s).sent ≡ s.sent)
  unfolding fire
  fire-idle s h = rw h (refl, refl)

  -- Of the edits made on an unlocked question before the timer runs out, exactly one is sent: the
  -- last that is to be saved, or with none of those what the timer held before, if anything.
  pub steps-sent :
      (hint : String) (s : Editor A) (l : List (Event A))
      → All (λ e. is_edit e ≡ true) l
      → (fire (steps false hint s l)).sent ≡ s.sent ++ as_list (last_save s.timer l)
  steps-sent hint s l h =
      let (t, q) = edits_wait hint s l h in
      fire-sent _
      ∙ (ap (λ k. k ++ as_list (steps false hint s l).timer) q ∙ ap (λ k. s.sent ++ as_list k) t)

  -- A locked question with no timer set sends nothing, whatever happens to it, and sets no timer.
  locked_sends_nothing :
      (hint : String) (s : Editor A) (l : List (Event A))
      → s.timer ≡ none
      → ((steps true hint s l).sent ≡ s.sent) × ((steps true hint s l).timer ≡ none)
  unfolding steps step schedule fire
  locked_sends_nothing hint s [] h = (refl, h)
  locked_sends_nothing hint s (on_answer v true ∷ rest) h =
      locked_sends_nothing hint (step true hint s (on_answer v true)) rest h
  locked_sends_nothing hint s (on_answer v false ∷ rest) h =
      locked_sends_nothing hint (step true hint s (on_answer v false)) rest h
  locked_sends_nothing hint s (on_explanation e ∷ rest) h =
      locked_sends_nothing hint (step true hint s (on_explanation e)) rest h
  locked_sends_nothing hint s (elapsed ∷ rest) h =
      let (a, b) = locked_sends_nothing hint (fire s) rest ((fire-idle s h).0) in
      (a ∙ (fire-idle s h).1, b)
  locked_sends_nothing hint s (accepted ∷ rest) h =
      locked_sends_nothing hint (step true hint s accepted) rest h
  locked_sends_nothing hint s (rejected why ∷ rest) h =
      locked_sends_nothing hint (step true hint s (rejected why)) rest h

  -- An answer changed before its explanation, with the timer still set, is shown and is never sent: the
  -- timer that held it is cleared, and the request carries the explanation only.
  pub answer_edit_lost :
      (hint : String) (s : Editor A) (v : A) (e : String)
      → let after = fire (steps false hint s (on_answer v true ∷ on_explanation e ∷ [])) in
        (after.answer ≡ v) × (after.sent ≡ s.sent ++ explanation_to e ∷ []) × (after.timer ≡ none)
  unfolding steps step schedule fire
  answer_edit_lost hint s v e = (refl, refl, refl)
