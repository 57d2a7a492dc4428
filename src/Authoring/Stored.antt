-- ===== src/Authoring/Stored.antt =====
-- puzzle-builder.tsx: a puzzle that is opened again and saved as it is.
use codolympics.Prelude.{
  ℕ, ◌≡◌, refl, ap, Bool, true, false, not, ◌&&◌, ◌||◌, String, List, [], ◌∷◌, Option, none, some,
  if◌then◌else◌, ltb, leb, ◌==◌, length, or_else, str_eq, sort_by, insert_by, IsSorted,
  sort_by-IsSorted, All, arith, Bool-cases, inl, inr,
}
use codolympics.Authoring.Platform.{Platform, Documented, clean, or_null, or_blank}
use codolympics.Authoring.Puzzle.{
  Puzzle, Form, Payload, Key, from_puzzle, to_payload, config_of, key_of, text_of, order_of,
  two_lines, three_lines, one_line, is_numeric, is_sequence, validator_template, is_auto,
  is_validator, is_multi, is_single, is_fill, is_set, is_mcq,
}
use codolympics.Authoring.Clear.{all_issues-All}
use codolympics.Authoring.Issues.{all_issues}

-- A puzzle that holds what was sent.
abbrev pub holding :
    {F : Type 0} → Payload F → (id : ℕ) → (published voided ready : Bool) → Puzzle F
holding w id published voided ready = record {
  id = id;
  title = w.title;
  body_md = w.body_md;
  category = w.category;
  kind = w.kind;
  grading = w.grading;
  points = w.points;
  explain_points = w.explain_points;
  order_index = w.order_index;
  published = published;
  voided = voided;
  ready = ready;
  config = w.config;
  answer_key = w.answer_key;
  model_answer = w.model_answer;
  validator_py = w.validator_py;
  points_per_entry = w.points_per_entry;
  max_entries = w.max_entries;
  format_regex = w.format_regex;
  format_hint = w.format_hint;
}

module _ (trim : String → String) (again : (s : String) → trim (trim s) ≡ trim s) where
  clean_again : (xs : List String) → clean trim (clean trim xs) ≡ clean trim xs
  unfolding clean
  clean_again [] = refl
  clean_again (x ∷ xs) = elim (Bool-cases (str_eq (trim x) "")) [
    | inl t ↦ rw t (clean_again xs)
    | inr n ↦ rw n (rw (again x) (rw n (ap (λ l. trim x ∷ l) (clean_again xs))))
  ]

  clean-or_blank :
      (d ys : List String)
      → clean trim d ≡ []
      → clean trim ys ≡ ys
      → clean trim (or_blank d (some ys)) ≡ ys
  unfolding or_blank
  clean-or_blank d [] h k = h
  clean-or_blank d (y ∷ ys) h k = k

  lines_again :
      (b : Bool) (d xs : List String)
      → clean trim d ≡ []
      → (if b
          then some (clean trim (or_blank d (if b then some (clean trim xs) else none)))
          else none)
        ≡ (if b then some (clean trim xs) else none)
  lines_again true d xs h = ap some (clean-or_blank d (clean trim xs) h (clean_again xs))
  lines_again false d xs h = refl

  or_null_again :
      (s : String)
      → trim "" ≡ ""
      → or_null (trim (or_else (or_null (trim s)) "")) ≡ or_null (trim s)
  unfolding or_null
  or_null_again s e = elim (Bool-cases (str_eq (trim s) "")) [
    | inl t ↦ rw t (rw e refl)
    | inr n ↦ rw n (rw (again s) (rw n refl))
  ]

module _ {A : Type 0} where
  -- A value sent under a flag comes back under it.
  kept_again :
      (b : Bool) (v d : A)
      → (if b then some (or_else (if b then some v else none) d) else none)
        ≡ (if b then some v else none)
  kept_again true v d = refl
  kept_again false v d = refl

insert_by_front : (a : ℕ) (l : List ℕ) → All (λ b. leb a b ≡ true) l → insert_by leb a l ≡ a ∷ l
unfolding insert_by
insert_by_front a [] h = refl
insert_by_front a (b ∷ l) (h, k) = rw h refl

sort_by_sorted : (l : List ℕ) → IsSorted leb l → sort_by leb l ≡ l
unfolding sort_by
sort_by_sorted [] h = refl
sort_by_sorted (a ∷ l) (h, k) = rw (sort_by_sorted l k) (insert_by_front a l h)

sort_by_again : (l : List ℕ) → sort_by leb (sort_by leb l) ≡ sort_by leb l
sort_by_again l =
    sort_by_sorted (sort_by leb l)
      (sort_by-IsSorted leb (λ a b. ground arith) (λ a b c. ground arith) l)

module _ {F : Type 0} (js : Platform F) (doc : Documented js) where
  number_again :
      (b : Bool) (s : String)
      → js.parse (js.print (js.parse s)) ≡ js.parse s
      → (if b
          then some (js.parse (text_of js "" (if b then some (js.parse s) else none)))
          else none)
        ≡ (if b then some (js.parse s) else none)
  unfolding text_of
  number_again true s h = ap some h
  number_again false s h = refl

  tolerance_again :
      (b : Bool) (s : String)
      → js.parse (js.print (js.parse s)) ≡ js.parse s
      → (b && str_eq s "") ≡ false
      → let t = text_of js "0" (if b && not (str_eq s "") then some (js.parse s) else none) in
        (if b && not (str_eq t "") then some (js.parse t) else none)
        ≡ (if b && not (str_eq s "") then some (js.parse s) else none)
  unfolding text_of
  tolerance_again true s h k = rw k (rw (doc.print_some (js.parse s)) (ap some h))
  tolerance_again false s h k = refl

  order_again :
      (b : Bool) (items : List String) (order : List ℕ)
      → (b && ltb (length items) 2) ≡ false
      → (b && not (length order == length items)) ≡ false
      → (if b
          then some (
              order_of js
                (or_else (if b then some items else none) [])
                (if b then some order else none))
          else none)
        ≡ (if b then some order else none)
  unfolding order_of
  order_again true items order h k = ground (arith, h, k)
  order_again false items order h k = refl

  sorted_again :
      (b : Bool) (l : List ℕ)
      → (if b
          then some (sort_by leb (or_else (if b then some (sort_by leb l) else none) []))
          else none)
        ≡ (if b then some (sort_by leb l) else none)
  sorted_again true l = ap some (sort_by_again l)
  sorted_again false l = refl

  blank_lines :
      (clean js.trim one_line ≡ [])
      × (clean js.trim two_lines ≡ [])
      × (clean js.trim three_lines ≡ [])
  unfolding clean
  blank_lines = (rw doc.trim_empty refl, rw doc.trim_empty refl, rw doc.trim_empty refl)

  module _ (f : Form F) (reason : String) (id : ℕ) (published voided ready : Bool) where
    abbrev reopened : Option (Key F) → Form F
    reopened k =
        from_puzzle js
          (record (holding (to_payload js f reason) id published voided ready) { answer_key = k })

    config_again :
        (k : Option (Key F))
        → js.parse (js.print (js.parse f.tolerance)) ≡ js.parse f.tolerance
        → (is_numeric f.kind && str_eq f.tolerance "") ≡ false
        → config_of js (reopened k) ≡ config_of js f
    unfolding config_of from_puzzle to_payload
    config_again k h t = λ i. record {
      options =
          lines_again js.trim doc.trim_again (is_mcq f.kind) two_lines f.options blank_lines.1 i;
      items =
          lines_again js.trim doc.trim_again (is_sequence f.kind) three_lines f.items blank_lines.2
            i;
      partial_credit = kept_again (is_multi f.kind || is_set f.kind) f.partial_credit false i;
      tolerance = tolerance_again (is_numeric f.kind) f.tolerance h t i;
      case_sensitive = kept_again (is_fill f.kind || is_set f.kind) f.case_sensitive false i;
    }

    key_again :
        js.parse (js.print (js.parse f.key_value)) ≡ js.parse f.key_value
        → (is_sequence f.kind && ltb (length (clean js.trim f.items)) 2) ≡ false
        → (is_sequence f.kind && not (length f.key_order == length (clean js.trim f.items))) ≡ false
        → key_of js (reopened (some (key_of js f))) ≡ key_of js f
    unfolding key_of from_puzzle to_payload config_of
    key_again h t o = λ i. record {
      option = kept_again (is_single f.kind) (or_else f.key_option 0) 0 i;
      options = sorted_again (is_multi f.kind) f.key_options i;
      accepted =
          lines_again js.trim doc.trim_again (is_fill f.kind) one_line f.key_accepted blank_lines.0
            i;
      value = number_again (is_numeric f.kind) f.key_value h i;
      order = order_again (is_sequence f.kind) (clean js.trim f.items) f.key_order t o i;
      members =
          lines_again js.trim doc.trim_again (is_set f.kind) one_line f.key_members blank_lines.0 i;
    }

    answer_key_again :
        js.parse (js.print (js.parse f.key_value)) ≡ js.parse f.key_value
        → (is_sequence f.kind && ltb (length (clean js.trim f.items)) 2) ≡ false
        → (is_auto f.grading
            && is_sequence f.kind
            && not (length f.key_order == length (clean js.trim f.items)))
          ≡ false
        → (if is_auto f.grading
            then some
                (key_of js (reopened (if is_auto f.grading then some (key_of js f) else none)))
            else none)
          ≡ (if is_auto f.grading then some (key_of js f) else none)
    answer_key_again h t o = elim (Bool-cases (is_auto f.grading)) [
      | inl a ↦
          let k : (is_sequence f.kind && not (length f.key_order == length (clean js.trim f.items)))
              ≡ false =
            ground (arith, a, o) in
          rw a (ap some (key_again h t k))
      | inr n ↦ rw n refl
    ]

    resaved_fields :
        (again : String)
        → js.parse (js.print (js.parse f.tolerance)) ≡ js.parse f.tolerance
        → js.parse (js.print (js.parse f.key_value)) ≡ js.parse f.key_value
        → (is_numeric f.kind && str_eq f.tolerance "") ≡ false
        → (is_sequence f.kind && ltb (length (clean js.trim f.items)) 2) ≡ false
        → (is_auto f.grading
            && is_sequence f.kind
            && not (length f.key_order == length (clean js.trim f.items)))
          ≡ false
        → to_payload js
            (from_puzzle js (holding (to_payload js f reason) id published voided ready))
            again
          ≡ to_payload js f again
    unfolding to_payload from_puzzle
    resaved_fields again ht hv t m o = λ i. record {
      reason = again;
      title = doc.trim_again f.title i;
      body_md = f.body_md;
      category = f.category;
      kind = f.kind;
      grading = f.grading;
      points = f.points;
      explain_points = f.explain_points;
      order_index = f.order_index;
      config = config_again (if is_auto f.grading then some (key_of js f) else none) ht t i;
      answer_key = answer_key_again hv m o i;
      model_answer = or_null_again js.trim doc.trim_again f.model_answer doc.trim_empty i;
      validator_py = kept_again (is_validator f.grading) f.validator_py validator_template i;
      points_per_entry = kept_again (is_validator f.grading) f.points_per_entry (js.literal 1) i;
      max_entries = f.max_entries;
      format_regex = or_null_again js.trim doc.trim_again f.format_regex doc.trim_empty i;
      format_hint = or_null_again js.trim doc.trim_again f.format_hint doc.trim_empty i;
    }

-- A form without issues, whose two numbers are the numbers that their own texts are read as, loses
-- nothing by being stored: the page opened on a puzzle that holds what was sent sends the same again,
-- for every kind of question and way of grading.
pub payload_again :
    {F : Type 0} (js : Platform F)
    → Documented js
    → (f : Form F) (reason again : String) (id : ℕ) (published voided ready : Bool)
    → all_issues js f ≡ []
    → js.parse (js.print (js.parse f.tolerance)) ≡ js.parse f.tolerance
    → js.parse (js.print (js.parse f.key_value)) ≡ js.parse f.key_value
    → to_payload js
        (from_puzzle js (holding (to_payload js f reason) id published voided ready))
        again
      ≡ to_payload js f again
payload_again js doc f reason again id published voided ready clear ht hv =
    let (b, c, g) = all_issues-All js f clear in
    let (c0, (c1, (c2, (c3, (c4, c5))))) = c in
    let (g0, (g1, (g2, (g3, (g4, (g5, g6)))))) = g in
    resaved_fields js doc f reason id published voided ready again ht hv (ground arith) c3
      (ground arith)
