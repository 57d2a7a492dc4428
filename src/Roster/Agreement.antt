-- ===== src/Roster/Agreement.antt =====
-- The two pages of a participant: what they offer, what a time is read as, and a record that did not load.
use codolympics.Prelude.{
  ℕ, ◌+◌, ◌*◌, ◌/◌, ◌≤◌, ◌<◌, ◌≡◌, refl, subst, Bool, true, false, ◌&&◌, if◌then◌else◌, str_eq,
  String, List, [], ◌∷◌, ◌++◌, ltb, ◌==◌, if_ind, arith,
}
use mathlib.Core.List.{append_assoc, Perm, perm_middle, perm_append_comm}
use mathlib.Core.List.Perm
use codolympics.Roster.Actions.{
  Participant, Kind, adjust, password, rename, disqualify, requalify, remove, assign, unlock,
  UnsoldQuestion,
}
use codolympics.Roster.People.{menu, in_phase2, kind_if, has_any}
use codolympics.Roster.Record.{
  Page, Event, read, failed, could_not_be_loaded, step, steps, view, actions, Duration, no_time,
  long, short, duration_of,
}

regrouped :
    {A : Type 0} (a b c : A) (l k t : List A)
    → Perm (k ++ (a ∷ (l ++ (b ∷ c ∷ t)))) (a ∷ b ∷ c ∷ (l ++ (k ++ t)))
regrouped a b c l k t = Perm.trans (perm_middle k _) (
    Perm.cons a (
      subst (λ m. Perm m (b ∷ c ∷ (l ++ (k ++ t)))) (append_assoc k l _)
        (subst (λ m. Perm ((k ++ l) ++ (b ∷ c ∷ t)) (b ∷ c ∷ m)) (append_assoc l k t)
          (Perm.trans (perm_middle (k ++ l) (c ∷ t)) (
            Perm.cons b (
              Perm.trans (perm_middle (k ++ l) t)
                (Perm.cons c (Perm.append_right t (perm_append_comm k l)))))))))

menu-record :
    {N : Type 0} (phase : String) (unsold : List (UnsoldQuestion N)) (p : Participant)
    → Perm (menu phase unsold p) (actions phase p.owned p.proctor_locked p.disqualified unsold)
unfolding menu actions in_phase2
menu-record phase unsold p = Perm.symm (
    regrouped adjust password rename
      (kind_if (in_phase2 phase && (p.owned == 0 && has_any unsold)) assign)
      (kind_if p.proctor_locked unlock) _)

no_questions : (a b : Bool) → (a && (b && false)) ≡ false
no_questions a b = ground arith

kind_rank : Kind → ℕ
kind_rank adjust = 0
kind_rank password = 1
kind_rank rename = 2
kind_rank disqualify = 3
kind_rank requalify = 4
kind_rank remove = 5
kind_rank assign = 6
kind_rank unlock = 7

same_kind : Kind → Kind → Bool
unfolding kind_rank
same_kind k j = kind_rank k == kind_rank j

-- How often an action is offered.
pub times : Kind → List Kind → ℕ
times k [] = 0
times k (x ∷ rest) = let n = times k rest in if same_kind k x then n + 1 else n

menu_once :
    (k : Kind) (assigns locked disqualified registering : Bool)
    → times k (
        (adjust ∷ password ∷ rename ∷ [])
        ++ (kind_if assigns assign
            ++ (kind_if locked unlock
                ++ ((if disqualified then requalify else disqualify)
                    ∷ kind_if registering remove))))
      ≤ 1
unfolding times same_kind
menu_once k assigns locked disqualified registering = ground arith

-- Where the roster and the record have read the same of a participant (what they own, whether they are
-- locked out or disqualified) and the same unsold questions, the roster's menu and the record's list offer
-- the same actions, and none twice. Where the record could not read the questions, its list is that of the
-- menu without the assignment of a question, if the menu has that.
pub menu-actions :
    {N : Type 0} (phase : String) (unsold : List (UnsoldQuestion N)) (p : Participant) (k : Kind)
    → Perm (menu phase unsold p) (actions phase p.owned p.proctor_locked p.disqualified unsold)
      × (times k (menu phase unsold p) ≤ 1)
      × Perm (menu phase unsold p) (
          kind_if (in_phase2 phase && (p.owned == 0 && has_any unsold)) assign
          ++ actions {N = N} phase p.owned p.proctor_locked p.disqualified [])
unfolding menu actions in_phase2
menu-actions {N} phase unsold p k = (
  menu-record phase unsold p,
  menu_once k (in_phase2 phase && (p.owned == 0 && has_any unsold)) p.proctor_locked p.disqualified
      (str_eq phase "registration"),
  rw (no_questions (in_phase2 phase) (p.owned == 0)) (
      Perm.symm (
        Perm.trans
          (Perm.append_left (kind_if (in_phase2 phase && (p.owned == 0 && has_any unsold)) assign)
            (regrouped adjust password rename [] (kind_if p.proctor_locked unlock) _))
          (regrouped adjust password rename []
            (kind_if (in_phase2 phase && (p.owned == 0 && has_any unsold)) assign) _))),
)

-- What the parts of a time stand for.
abbrev pub Reads : ℕ → Duration → Type 0
Reads s no_time = ⊥
Reads s (long h m r) = (1 ≤ h) × (m < 60) × (r < 60) × (h * 3600 + m * 60 + r ≡ s)
Reads s (short m r) = (m < 60) × (r < 60) × (m * 60 + r ≡ s)

duration_of-Reads : (s : ℕ) → Reads s (duration_of s)
unfolding duration_of
duration_of-Reads s =
    if_ind (Reads s) (ltb 0 (s / 3600)) _ _ (λ t. ground arith) (λ f. ground arith)

error_kept :
    {D N : Type 0} (p : Page D N) (es : List (Event D N))
    → p.error ≡ true
    → (steps p es).error ≡ true
unfolding steps step
error_kept p [] h = h
error_kept p (read d qs ∷ es) h = error_kept (step p (read d qs)) es h
error_kept p (failed ∷ es) h = error_kept (step p failed) es refl

error_shown : {D N : Type 0} (p : Page D N) → p.error ≡ true → view p ≡ could_not_be_loaded
unfolding view
error_shown p h = rw h refl

-- Once a load has failed, the page says that the participant could not be loaded, whatever it reads
-- afterwards and whatever it had shown.
pub failed_for_good :
    {D N : Type 0} (p : Page D N) (es : List (Event D N))
    → view (steps (step p failed) es) ≡ could_not_be_loaded
unfolding step
failed_for_good p es = error_shown (steps (step p failed) es) (error_kept (step p failed) es refl)
