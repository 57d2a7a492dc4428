-- ===== src/Authoring/Saving.antt =====
-- puzzle-builder.tsx and hack-builder.tsx: what is saved, and what the page makes of what comes back.
use codolympics.Prelude.{
  ℕ, ◌≡◌, ◌≢◌, refl, sym, ◌∙◌, subst, Bool, true, false, String, List, [], ◌∷◌, ◌++◌, none, some,
  All, In, Bool-cases, inl, inr,
}
use codolympics.Prelude.Lists.{here, there}
use codolympics.Authoring.Platform.{Platform}
use codolympics.Authoring.Puzzle.{Form, Payload, from_puzzle, to_payload}
use codolympics.Authoring.Issues.{all_issues}
use codolympics.Authoring.Editing.{saved_as}
use codolympics.Authoring.Hack.{Hack, Copy, payload}
use codolympics.Authoring.Hack
use codolympics.Authoring.Stored.{holding}
use codolympics.Authoring.Gradable.{IsGradable, to_payload-IsGradable}
use codolympics.Authoring.Wizard.{
  Page, Event, saved, answered, reloaded, is_dirty, can_save, step, steps,
}
use codolympics.Authoring.Walk.{IsSaved, steps-IsSaved, save_kept}

module _ {F : Type 0} (js : Platform F) (same : Form F → Form F → Bool) where
  saved-IsGradable :
      (existing : Bool) (l : List (Payload F))
      → All (IsSaved same (all_issues js) (saved_as js existing)) l
      → All (IsGradable js) l
  unfolding saved_as
  saved-IsGradable existing [] h = tt
  saved-IsGradable existing (w ∷ l) ((f, clear, e), h) = (
    subst (IsGradable js) (sym e) (to_payload-IsGradable js f _ clear),
    saved-IsGradable existing l h,
  )

-- Whatever an author does on a page that has sent nothing, every puzzle that it sends has a title, what
-- its kind needs (at least two options that differ, at least two items to order), and the means to grade
-- it: a validator that defines `check`, a model answer, or a key that is not empty. The key of one option
-- names one that is there, and the key of several names one that is there among its marks; that of an order
-- has as many numbers as there are items, no two alike; the key of a number is a number, and the others have
-- at least one answer or member. A free answer is never graded by a key.
pub sent-IsGradable :
    {F : Type 0} (js : Platform F) (same : Form F → Form F → Bool) (existing : Bool)
    (p : Page (Form F) (Payload F)) (l : List (Event (Form F)))
    → p.sent ≡ []
    → All (IsGradable js) (steps same (all_issues js) (saved_as js existing) existing p l).sent
sent-IsGradable js same existing p l e = saved-IsGradable js same existing _ (
    steps-IsSaved same (all_issues js) (saved_as js existing) existing p l
      (subst (All (IsSaved same (all_issues js) (saved_as js existing))) (sym e) tt))

stored_title :
    {F : Type 0} (js : Platform F) (f : Form F) (id : ℕ) (published voided ready : Bool)
    → (from_puzzle js (holding (saved_as js true f) id published voided ready)).title
      ≡ js.trim f.title
unfolding from_puzzle saved_as to_payload
stored_title js f id published voided ready = refl

trimmed-same :
    {F : Type 0} (js : Platform F) (same : Form F → Form F → Bool) (f : Form F) (id : ℕ)
    (published voided ready : Bool)
    → ((a b : Form F) → same a b ≡ true → a.title ≡ b.title)
    → js.trim f.title ≢ f.title
    → same f (from_puzzle js (holding (saved_as js true f) id published voided ready)) ≡ false
trimmed-same {F} js same f id published voided ready law padded =
    let x = from_puzzle js (holding (saved_as js true f) id published voided ready) in
    elim (Bool-cases (same f x)) [
      | inl y ↦ absurd (padded (sym (law f x y ∙ stored_title js f id published voided ready)))
      | inr n ↦ n
    ]

-- A stored puzzle that is saved with a title padded by spaces comes back with the title trimmed: the page
-- keeps its own form, goes on saying that there are unsaved changes, and sends the same again when asked
-- to.
pub padded_title_unsaved :
    {F : Type 0} (js : Platform F) (same : Form F → Form F → Bool) (p : Page (Form F) (Payload F))
    (id : ℕ) (published voided ready : Bool)
    → ((a b : Form F) → same a b ≡ true → a.title ≡ b.title)
    → can_save same (all_issues js) (saved_as js true) true p ≡ true
    → js.trim p.form.title ≢ p.form.title
    → let x = from_puzzle js (holding (saved_as js true p.form) id published voided ready) in
      let q =
        steps same (all_issues js) (saved_as js true) true p (saved ∷ answered ∷ reloaded x ∷ []) in
      (q.form ≡ p.form)
      × (is_dirty same (all_issues js) (saved_as js true) q ≡ true)
      × ((step same (all_issues js) (saved_as js true) true q saved).sent
          ≡ (p.sent ++ saved_as js true p.form ∷ []) ++ saved_as js true p.form ∷ [])
padded_title_unsaved js same p id published voided ready law t padded =
    save_kept same (all_issues js) (saved_as js true) p _ t
      (trimmed-same js same p.form id published voided ready law padded)

-- A copy that the store has named.
abbrev pub HasId : Copy → Type 0
HasId c = (id : ℕ) × (c.id ≡ some id)

In-HasId : (c : Copy) (l : List Copy) → All HasId l → In c l → c.id ≢ none
In-HasId c [] h m = elim m [ ]
In-HasId c (x ∷ l) ((id, e), h) (here q) = λ n. absurd cc
In-HasId c (x ∷ l) (k, h) (there m) = In-HasId c l h m

-- A copy added to a stored hacking question is sent without an id, and although the store then names
-- every copy, the page keeps the one without: it goes on saying that there are unsaved changes, and the
-- next save sends that copy without an id again.
pub added_copy_unnamed :
    {F : Type 0} (same : Hack F → Hack F → Bool) (issues : Hack F → List String) (js : Platform F)
    (p : Page (Hack F) (Hack.Payload F)) (x : Hack F) (c : Copy)
    → ((a b : Hack F) → same a b ≡ true → a.solutions ≡ b.solutions)
    → can_save same issues (payload js true) true p ≡ true
    → In c p.form.solutions
    → c.id ≡ none
    → All HasId x.solutions
    → let q = steps same issues (payload js true) true p (saved ∷ answered ∷ reloaded x ∷ []) in
      (q.form ≡ p.form)
      × (is_dirty same issues (payload js true) q ≡ true)
      × ((step same issues (payload js true) true q saved).sent
          ≡ (p.sent ++ payload js true p.form ∷ []) ++ payload js true p.form ∷ [])
      × In c (payload js true p.form).form.solutions
unfolding payload
added_copy_unnamed {F} same issues js p x c law t m n h =
    let (k, d, s) =
      save_kept same issues (payload js true) p x t (elim (Bool-cases (same p.form x)) [
        | inl y ↦ absurd (In-HasId c x.solutions h (subst (In c) (law p.form x y) m) n)
        | inr f ↦ f
      ]) in
    (k, d, s, m)
