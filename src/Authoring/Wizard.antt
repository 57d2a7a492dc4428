-- ===== src/Authoring/Wizard.antt =====
-- web/src/components/ui/wizard.tsx, and the part of web/src/components/admin/puzzle-builder.tsx that
-- hack-builder.tsx writes the same: the steps, what is edited against what is stored, saving and the
-- reload after it. What a form is, its issues and what it sends are parameters here, as is the comparison
-- of two forms, which the source makes by their JSON. A save's request ends in an event of its own.
use codolympics.Prelude.{
  ℕ, ◌+◌, ◌-◌, max, min, Bool, true, false, not, ◌&&◌, ◌||◌, String, List, [], ◌∷◌, ◌++◌, Option,
  none, some, if◌then◌else◌, ltb, leb, ◌==◌,
}

pub data Mark : Type 0 where
  todo done error : Mark

-- The sign in a step's circle: `state ?? (i < current ? "done" : "todo")`.
pub data Sign : Type 0 where
  exclamation check number : Sign

unfoldable sign : (state : Option Mark) → (current i : ℕ) → Sign
sign (some error) current i = exclamation
sign (some done) current i = if i == current then number else check
sign (some todo) current i = number
sign none current i = if ltb i current then check else number

pub record Place : Type 0 where
  pub current : ℕ
  pub reached : ℕ

unfoldable pub go : ℕ → Place → Place
go i p = record { current = i; reached = max p.reached i }

-- `st(issues, reached > i)`, and the issues under a step.
unfoldable mark : List String → (i : ℕ) → Place → Mark
mark issues i p = if ltb i p.reached then (elim issues [ [] ↦ done | x ∷ rest ↦ error ]) else todo

unfoldable issues_for : List String → (i : ℕ) → Place → List String
issues_for issues i p = if ltb i p.reached then issues else []

-- A stored question has a fifth step, "verify"; the fourth is the preview.
unfoldable pub count : (existing : Bool) → ℕ
count existing = if existing then 5 else 4

unfoldable pub on_preview : (existing : Bool) → Place → Bool
unfolding count
on_preview existing p = min p.current (count existing - 1) == 3

unfoldable pub opened : (existing : Bool) → (start : Option ℕ) → Place
opened existing none = record { current = 0; reached = if existing then 4 else 0 }
opened existing (some i) = record { current = i; reached = if existing then 4 else 0 }

-- `sent` is what has been posted.
pub record Page (X P : Type 0) : Type 0 where
  pub form : X
  pub initial : X
  pub place : Place
  pub busy : Bool
  pub failure : Option String
  pub sent : List P

pub data Event (X : Type 0) : Type 0 where
  edited : (X → X) → Event X
  picked : ℕ → Event X
  back next discarded saved answered : Event X
  refused : String → Event X
  reloaded : X → Event X

-- `issues.length === 0`.
abbrev pub is_clear : List String → Bool
is_clear [] = true
is_clear (x ∷ rest) = false

module _ {X P : Type 0} (same : X → X → Bool) (issues : X → List String) (payload : X → P) where
  unfoldable pub is_dirty : Page X P → Bool
  is_dirty p = not (same p.form p.initial)

  -- "Save changes", where there are changes to a stored question, and "Create", on the preview of a new
  -- one.
  unfoldable pub can_save : (existing : Bool) → Page X P → Bool
  unfolding is_dirty on_preview
  can_save existing p =
      not p.busy
      && is_clear (issues p.form)
      && (if existing then is_dirty p else on_preview existing p.place)

  abbrev moved : ℕ → Page X P → Page X P
  moved i p = record p { place = go i p.place; failure = none }

  unfoldable pub step : (existing : Bool) → Page X P → Event X → Page X P
  unfolding is_dirty on_preview go count can_save
  step existing p (edited f) = record p { form = f p.form }
  step existing p (picked i) =
      if ltb i (count existing) && leb i p.place.reached then moved i p else p
  step existing p back = if p.place.current == 0 || p.busy then p else moved (p.place.current - 1) p
  step existing p next =
      if (on_preview existing p.place && not existing)
        || p.busy
        || not (ltb p.place.current (count existing - 1))
      then p
      else moved (p.place.current + 1) p
  step existing p discarded =
      if existing && is_dirty p && not p.busy then record p { form = p.initial } else p
  step existing p saved =
      if can_save existing p
      then record p { busy = true; failure = none; sent = p.sent ++ payload p.form ∷ [] }
      else p
  step existing p answered = record p { busy = false }
  step existing p (refused why) = record p { busy = false; failure = some why }
  step existing p (reloaded x) = record p {
    form = if same p.form p.initial then x else p.form;
    initial = x;
  }

  unfoldable pub steps : (existing : Bool) → Page X P → List (Event X) → Page X P
  unfolding step
  steps existing p [] = p
  steps existing p (e ∷ rest) = steps existing (step existing p e) rest
