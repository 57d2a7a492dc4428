-- ===== src/Authoring/Gradable.antt =====
-- puzzle-builder.tsx: what a puzzle without issues says of itself.
use codolympics.Prelude.{
  ℕ, ◌≤◌, ◌<◌, ◌≡◌, refl, sym, Bool, true, false, String, List, [], ◌∷◌, Option, none, some,
  if◌then◌else◌, ltb, leb, ◌==◌, ==_iff, ltb→lt, length, or_else, str_eq, str_eq_refl, sort_by,
  keep, keep-In, In, In-sort_by_iff, All, arith,
}
use codolympics.Prelude.Lists.{here}
use codolympics.Authoring.Platform.{Platform, clean, or_null, HasNoRepeats, set_of-HasNoRepeats}
use codolympics.Authoring.Puzzle.{
  Form, Payload, Key, Config, Kind, Grading, to_payload, config_of, key_of, is_numeric, is_sequence,
  is_auto, is_validator, is_manual, is_multi, is_single, is_fill, is_set, is_mcq, is_long,
}
use codolympics.Authoring.Issues.{all_issues, content_tests, grading_tests, is_blank, out_of_range}
use codolympics.Authoring.Clear.{Fails, all_issues-All}

first_kept : (l : List ℕ) → (length l == 0) ≡ false → (i : ℕ) × In i l
first_kept [] h = absurd cc
first_kept (i ∷ l) h = (i, here refl)

module _ {F : Type 0} (js : Platform F) where
  -- At least two options, no two of them alike.
  abbrev pub HasOptions : Config F → Type 0
  HasOptions c = (l : List String) × (c.options ≡ some l) × (2 ≤ length l) × HasNoRepeats l

  abbrev pub IsConfig : Kind → Config F → Type 0
  IsConfig Kind.mcq_single c = HasOptions c
  IsConfig Kind.mcq_multi c = HasOptions c
  IsConfig Kind.sequence c = (l : List String) × (c.items ≡ some l) × (2 ≤ length l)
  IsConfig _ c = Unit

  -- What an answer key has at least: an option that is there; several options marked, one of which at
  -- least is there; an accepted answer or a member; a number; or as many different numbers as there are
  -- items to order.
  abbrev pub IsKey : Kind → Config F → Key F → Type 0
  IsKey Kind.mcq_single c k =
      (l : List String) × (i : ℕ) × (c.options ≡ some l) × (k.option ≡ some i) × (i < length l)
  IsKey Kind.mcq_multi c k =
      (l : List String) × (o : List ℕ) × (i : ℕ) × (c.options ≡ some l)
      × (k.options ≡ some o)
      × In i o
      × (i < length l)
  IsKey Kind.fill_blank c k = (l : List String) × (k.accepted ≡ some l) × (1 ≤ length l)
  IsKey Kind.numeric c k = (v : F) × (k.value ≡ some v) × (js.is_nan v ≡ false)
  IsKey Kind.sequence c k =
      (l : List String) × (o : List ℕ) × (c.items ≡ some l)
      × (k.order ≡ some o)
      × (length o ≡ length l)
      × HasNoRepeats o
  IsKey Kind.many c k = (l : List String) × (k.members ≡ some l) × (1 ≤ length l)
  IsKey Kind.long_text c k = ⊥

  abbrev pub IsGraded : Grading → Payload F → Type 0
  IsGraded Grading.auto w = (k : Key F) × (w.answer_key ≡ some k) × IsKey w.kind w.config k
  IsGraded Grading.validator w =
      (v : String) × (w.validator_py ≡ some v) × (js.defines_check v ≡ true)
  IsGraded Grading.manual w = (s : String) × (w.model_answer ≡ some s) × (str_eq s "" ≡ false)

  -- A puzzle with a title, the parts that its kind needs, and the means to grade it.
  abbrev pub IsGradable : Payload F → Type 0
  IsGradable w = (str_eq w.title "" ≡ false) × IsConfig w.kind w.config × IsGraded w.grading w

  module _ (f : Form F) where
    options_fit :
        is_mcq f.kind ≡ true → All Fails (content_tests js f) → HasOptions (config_of js f)
    unfolding config_of
    options_fit m (t0, (t1, (t2, t3))) = (
      clean js.trim f.options,
      rw m refl,
      ground (arith, m, t1),
      set_of-HasNoRepeats str_eq str_eq_refl (clean js.trim f.options) (ground (arith, m, t2)),
    )

    config_of-IsConfig :
        (k : Kind) → f.kind ≡ k → All Fails (content_tests js f) → IsConfig k (config_of js f)
    unfolding config_of is_mcq is_single is_multi is_sequence
    config_of-IsConfig Kind.mcq_single e t = options_fit (rw e refl) t
    config_of-IsConfig Kind.mcq_multi e t = options_fit (rw e refl) t
    config_of-IsConfig Kind.sequence e (t0, (t1, (t2, (t3, t4)))) =
        let s : is_sequence f.kind ≡ true = rw e refl in
        (clean js.trim f.items, rw s refl, ground (arith, s, t3))
    config_of-IsConfig Kind.fill_blank e t = tt
    config_of-IsConfig Kind.numeric e t = tt
    config_of-IsConfig Kind.many e t = tt
    config_of-IsConfig Kind.long_text e t = tt

    one_in_range :
        (n : ℕ) (l : List ℕ)
        → (length (keep (λ i. ltb i n) l) == 0) ≡ false
        → (i : ℕ) × In i l × (i < n)
    one_in_range n l h =
        let (i, m) = first_kept (keep (λ i. ltb i n) l) h in
        let (k, t) = keep-In (λ i. ltb i n) i l m in (i, k, ltb→lt i n t)

    marked_under :
        {b : Bool} {o : Option ℕ} {j : ℕ} → b ≡ true → some j ≡ o → (if b then o else none) ≡ some j
    marked_under t w = rw t (sym w)

    single_fits :
        (o : Option ℕ) (n : ℕ)
        → out_of_range o n ≡ false
        → (i : ℕ) × (some i ≡ some (or_else o 0)) × (i < n)
    unfolding out_of_range
    single_fits none n h = absurd cc
    single_fits (some i) n h = (i, refl, ground (arith, h))

    key_of-IsKey :
        (k : Kind)
        → f.kind ≡ k
        → is_auto f.grading ≡ true
        → All Fails (grading_tests js f)
        → IsKey k (config_of js f) (key_of js f)
    unfolding config_of key_of is_mcq is_single is_multi is_fill is_numeric is_sequence is_set
        is_long
    key_of-IsKey Kind.mcq_single e a (t0, (t1, t)) =
        let s : is_single f.kind ≡ true = rw e refl in
        let m : is_mcq f.kind ≡ true = rw e refl in
        let (i, q, b) =
          single_fits f.key_option (length (clean js.trim f.options)) (ground (arith, a, s, t1)) in
        (clean js.trim f.options, i, rw m refl, marked_under s q, b)
    key_of-IsKey Kind.mcq_multi e a (t0, (t1, (t2, t))) =
        let s : is_multi f.kind ≡ true = rw e refl in
        let m : is_mcq f.kind ≡ true = rw e refl in
        let (i, q, b) =
          one_in_range (length (clean js.trim f.options)) f.key_options
            (ground (arith, a, s, t2)) in
        (
          clean js.trim f.options,
          sort_by leb f.key_options,
          i,
          rw m refl,
          rw s refl,
          (In-sort_by_iff leb i f.key_options).1 q,
          b,
        )
    key_of-IsKey Kind.fill_blank e a (t0, (t1, (t2, (t3, t)))) =
        let s : is_fill f.kind ≡ true = rw e refl in
        (clean js.trim f.key_accepted, rw s refl, ground (arith, a, s, t3))
    key_of-IsKey Kind.numeric e a (t0, (t1, (t2, (t3, (t4, t))))) =
        let s : is_numeric f.kind ≡ true = rw e refl in
        (js.parse f.key_value, rw s refl, ground (arith, a, s, t4))
    key_of-IsKey Kind.sequence e a (t0, (t1, (t2, (t3, (t4, (t5, t)))))) =
        let s : is_sequence f.kind ≡ true = rw e refl in
        (
          clean js.trim f.items,
          f.key_order,
          rw s refl,
          rw s refl,
          ground (arith, a, s, t5),
          set_of-HasNoRepeats ◌==◌ (λ n. (==_iff n n).1 refl) f.key_order
              (ground (arith, a, s, t5)),
        )
    key_of-IsKey Kind.many e a (t0, (t1, (t2, (t3, (t4, (t5, (t6, t))))))) =
        let s : is_set f.kind ≡ true = rw e refl in
        (clean js.trim f.key_members, rw s refl, ground (arith, a, s, t6))
    key_of-IsKey Kind.long_text e a (t0, t) =
        let s : is_long f.kind ≡ true = rw e refl in ground (arith, a, s, t0)

    to_payload-IsGraded :
        (g : Grading) (reason : String)
        → f.grading ≡ g
        → All Fails (grading_tests js f)
        → IsGraded g (to_payload js f reason)
    unfolding to_payload or_null is_auto is_validator is_manual is_blank
    to_payload-IsGraded Grading.auto reason e t =
        let a : is_auto f.grading ≡ true = rw e refl in
        (key_of js f, rw a refl, key_of-IsKey f.kind refl a t)
    to_payload-IsGraded Grading.validator reason e
          (t0, (t1, (t2, (t3, (t4, (t5, (t6, (t7, t)))))))) =
        let v : is_validator f.grading ≡ true = rw e refl in
        (f.validator_py, rw v refl, ground (arith, v, t7))
    to_payload-IsGraded Grading.manual reason e
          (t0, (t1, (t2, (t3, (t4, (t5, (t6, (t7, (t8, (t9, t)))))))))) =
        let m : is_manual f.grading ≡ true = rw e refl in
        let s : str_eq (js.trim f.model_answer) "" ≡ false = ground (arith, m, t9) in
        (js.trim f.model_answer, rw s refl, s)

  pub to_payload-IsGradable :
      (f : Form F) (reason : String) → all_issues js f ≡ [] → IsGradable (to_payload js f reason)
  unfolding to_payload is_blank
  to_payload-IsGradable f reason h =
      let (b, c, g) = all_issues-All js f h in
      (b.0, config_of-IsConfig f f.kind refl c, to_payload-IsGraded f f.grading reason refl g)
