-- ===== src/Widgets/Reasons.antt =====
-- action-button.tsx and reason-action.tsx: what an organiser's button can set off.
use codolympics.Prelude.{
  ◌+◌, ◌≤◌, ◌≡◌, refl, Bool, true, false, ◌&&◌, String, List, [], ◌∷◌, arith, All, All-append,
  if_ind, ◌⊎◌, inl,
}
use codolympics.Widgets.Dialogs.{
  Button, Press, pressed, confirmed as agreed, cancelled, done as acted, failed, run, press, size,
  Values, Dialog, Step, opened, closed, wrote, filled, ticked, confirmed, done, refused,
  can_confirm, take, takes,
}

-- One press acts at most once, and only where nothing is running; a button with a confirmation acts only
-- from its dialog.
press_once :
    (confirm disabled : Bool) (b : Button) (p : Press)
    → b.asking ≡ (b.asking && confirm)
    → ((press confirm disabled b p).acts ≡ b.acts)
      ⊎ (((press confirm disabled b p).acts ≡ b.acts + 1) × (b.busy ≡ false) × (b.asking ≡ confirm))
unfolding press run
press_once confirm disabled b pressed h = ground arith
press_once confirm disabled b agreed h = ground arith
press_once confirm disabled b cancelled h = inl refl
press_once confirm disabled b acted h = ground arith
press_once confirm disabled b failed h = ground arith

abbrev pub IsReason : String × Values → Type 0
IsReason s = 3 ≤ size s.0

can_confirm-size :
    (trim : String → String) (d : Dialog) → can_confirm trim d ≡ true → 3 ≤ size (trim d.reason)
unfolding can_confirm
can_confirm-size trim d h = ground arith

take-sent :
    (trim : String → String) (default : String) (disabled : Bool) (d : Dialog) (s : Step)
    → All IsReason d.sent
    → All IsReason (take trim default disabled d s).sent
unfolding take
take-sent trim default disabled d opened h =
    if_ind (λ (e : Dialog). All IsReason e.sent) disabled d _ (λ _. h) (λ _. h)
take-sent trim default disabled d closed h = h
take-sent trim default disabled d (wrote text) h = h
take-sent trim default disabled d (filled name value) h = h
take-sent trim default disabled d (ticked name checked) h = h
take-sent trim default disabled d confirmed h =
    if_ind (λ (e : Dialog). All IsReason e.sent) (can_confirm trim d) _ d
      (λ t.
        All-append IsReason d.sent ((trim d.reason, d.values) ∷ []) h
          (can_confirm-size trim d t, tt))
      (λ _. h)
take-sent trim default disabled d done h =
    if_ind (λ (e : Dialog). All IsReason e.sent) d.busy _ d (λ _. h) (λ _. h)
take-sent trim default disabled d (refused why) h =
    if_ind (λ (e : Dialog). All IsReason e.sent) d.busy _ d (λ _. h) (λ _. h)

-- From a dialog that has handed over no shorter one, whatever is done with it, every reason that it
-- hands over has at least three characters once trimmed.
pub takes-sent :
    (trim : String → String) (default : String) (disabled : Bool) (d : Dialog) (l : List Step)
    → All IsReason d.sent
    → All IsReason (takes trim default disabled d l).sent
unfolding takes
takes-sent trim default disabled d [] h = h
takes-sent trim default disabled d (s ∷ rest) h =
    takes-sent trim default disabled (take trim default disabled d s) rest
      (take-sent trim default disabled d s h)
