-- ===== src/Roster/SignIn.antt =====
-- participants/page.tsx: the accounts that the dialog creates can be signed in to.
use codolympics.Prelude.{
  ℕ, ◌≤◌, ◌≡◌, refl, sym, ◌∙◌, Bool, true, false, not, ◌&&◌, List, [], ◌∷◌, if◌then◌else◌, leb,
  leb→le, ◌==◌, length, every, map, All, if_ind, arith,
}
use codolympics.Site.CameFrom.{codes}
use codolympics.Widgets.Dialogs.{size}
use codolympics.Roster.Joining.{
  is_upper, is_plain, is_name_char, fits_rule, Words, IsEcmaScript, collapse, Body, Dialog, Event,
  named, passworded, chose, suggested, pressed, submitted, done, refused, sign_in, ready, body,
  create, step, steps,
}

abbrev pub IsPlain : ℕ → Type 0
IsPlain c = is_plain c ≡ true

-- What the request takes: an account that its owner can sign in to.
abbrev pub CanSignIn : Words → Body → Type 0
CanSignIn js b =
    All IsPlain (sign_in js b.username)
    × (2 ≤ length (codes b.username))
    × (length (codes b.username) ≤ 32)
    × (8 ≤ size b.password)

module _ (js : Words) (law : IsEcmaScript js) where
  -- A character that stays, in lower case.
  lower-IsPlain : (c : ℕ) → is_name_char c ≡ true → (c == b' ') ≡ false → IsPlain (js.lower c)
  unfolding is_name_char is_plain is_upper
  lower-IsPlain c h s = ground (arith, law.lower_ascii c)

  underscore-IsPlain : IsPlain (js.lower b'_')
  unfolding is_plain is_upper
  underscore-IsPlain = ground (arith, law.lower_ascii b'_')

  both : (a b : Bool) → (a && b) ≡ true → (a ≡ true) × (b ≡ true)
  both true b h = (refl, h)
  both false b h = absurd cc

  abbrev Lowered : List ℕ → Type 0
  Lowered l = All IsPlain (map js.lower l)

  collapse-IsPlain :
      (inside : Bool) (l : List ℕ)
      → every is_name_char l ≡ true
      → All IsPlain (map js.lower (collapse js.is_space inside l))
  unfolding collapse
  collapse-IsPlain inside [] h = tt
  collapse-IsPlain inside (c ∷ l) h =
      let (one, others) = both (is_name_char c) (every is_name_char l) h in
      let rest = collapse-IsPlain (js.is_space c) l others in
      if_ind Lowered (js.is_space c) _ _
        (λ _. if_ind Lowered inside _ _ (λ _. rest) (λ _. (underscore-IsPlain, rest)))
        (λ f. (lower-IsPlain c one (sym (law.space_only c one) ∙ f), rest))

  fits-CanSignIn :
      (b : Body) → fits_rule b.username ≡ true → leb 8 (size b.password) ≡ true → CanSignIn js b
  unfolding fits_rule sign_in
  fits-CanSignIn b f p =
      let l = codes b.username in
      let (least, more) = both (leb 2 (length l)) _ f in
      let (most, chars) = both (leb (length l) 32) _ more in
      (
        collapse-IsPlain false l chars,
        leb→le 2 (length l) least,
        leb→le (length l) 32 most,
        leb→le 8 (size b.password) p,
      )

  -- The button, and Enter in the form.
  create-CanSignIn :
      (d : Dialog)
      → All (CanSignIn js) d.sent
      → All (CanSignIn js) (if ready js d && not d.busy then create js d else d).sent
  unfolding ready create body
  create-CanSignIn d h =
      if_ind (λ (q : Dialog). All (CanSignIn js) q.sent) (ready js d && not d.busy) _ _
        (λ t.
          let (r, n) = both (ready js d) (not d.busy) t in
          let (f, p) = both (fits_rule (js.trim d.f.username)) _ r in
          (fits-CanSignIn (body js d) f p, h))
        (λ _. h)

  step-CanSignIn :
      (d : Dialog) (e : Event) → All (CanSignIn js) d.sent → All (CanSignIn js) (step js d e).sent
  unfolding step
  step-CanSignIn d (named t) h = h
  step-CanSignIn d (passworded t) h = h
  step-CanSignIn d (chose t) h = h
  step-CanSignIn d (suggested t) h = h
  step-CanSignIn d pressed h = create-CanSignIn d h
  step-CanSignIn d submitted h = create-CanSignIn d h
  step-CanSignIn d done h = h
  step-CanSignIn d (refused why) h = h

  -- Every account that the dialog asks for, by its button or by Enter, has a name of 2 to 32 characters
  -- whose sign-in, as the dialog shows it, is made of small letters, digits, `_`, `.` and `-` alone, and a
  -- password of 8 characters at least.
  pub created-CanSignIn :
      (d : Dialog) (es : List Event)
      → All (CanSignIn js) d.sent
      → All (CanSignIn js) (steps js d es).sent
  unfolding steps
  created-CanSignIn d [] h = h
  created-CanSignIn d (e ∷ es) h = created-CanSignIn (step js d e) es (step-CanSignIn d e h)
